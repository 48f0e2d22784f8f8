-- ===== src/RateLimit/Arrivals.antt =====
-- What the rate limits meet: one Redis, and the requests over HTTP and calls over gRPC that come in.
use helix_fnd.Prelude.{ℕ, ℤ, pos_part, Bool, String, List, ◌∷◌, Option, none, some}
use helix_fnd.Http.{Request, Exit, returned, panicked, Handler}
use helix_fnd.Grpc
use helix_fnd.Grpc.{Call, response}
use helix_fnd.RateLimit.Gcra.{Limit, Entry, Reply, number, script_error, lua_gcra}
use helix_fnd.RateLimit.Grpc.{grpc_rate_key}
use helix_fnd.RateLimit.Http.{Limiters, rate_key}

-- Redis, its clock in microseconds, and the keys of the requests that reached the handler.
pub record Shared : Type 0 where
  pub store : List (String × Entry)
  pub clock : ℕ
  pub passed : List String

-- How the Go client reports the script's reply.
abbrev pub reported : Reply → Option ℤ
reported (number z) = some z
reported script_error = none

abbrev pub limit_of : ℤ → ℤ → ℤ → Limit
limit_of rate period burst = record {
  rate = pos_part rate;
  period = pos_part period;
  burst = burst;
}

-- A Redis that answers; the emergency limiter may be any function.
abbrev pub redis : (Shared → Shared × Bool) → Limiters Shared
redis allow = record {
  run_gcra = λ key rate period burst w.
      let (reply, store) = lua_gcra (limit_of rate period burst) key w.clock w.store in
      (record w { store = store }, reported reply);
  allow = allow;
}

-- The wrapped handler notes the key of each request that reaches it.
abbrev pub tally : Handler Shared
tally r s = returned (record s { world = record s.world { passed = rate_key r ∷ s.world.passed } })

abbrev pub world_of : Exit Shared → Shared
world_of (returned s) = s.world
world_of (panicked msg s) = s.world

-- A request over HTTP or over gRPC.
pub data Arrival : Type 0 where
  http_request : Request → Arrival
  grpc_call : Call → Arrival

abbrev pub key_of : Arrival → String
key_of (http_request r) = rate_key r
key_of (grpc_call call) = grpc_rate_key call

abbrev pub tally_call : Grpc.Handler Shared
tally_call call s =
    Grpc.replied
      (record s { world = record s.world { passed = grpc_rate_key call ∷ s.world.passed } })
      (response "")

abbrev pub world_of_call : Grpc.Exit Shared → Shared
world_of_call (Grpc.replied s reply) = s.world
world_of_call (Grpc.panicked msg s) = s.world
