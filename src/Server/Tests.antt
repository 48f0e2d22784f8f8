-- ===== src/Server/Tests.antt =====
-- A service with both servers: HTTP fails to listen, or a signal arrives.
use helix_fnd.Prelude.{
  ℕ, ◌≤◌, ◌≡◌, refl, ◌⊎◌, inl, Bool, true, false, String, List, [], ◌∷◌, ◌++◌, Option, none, some,
  length, arith,
}
use helix_fnd.Http.{Request, Served, returned, blank}
use helix_fnd.Response.Statuses.{HasSent, status_after}
use helix_fnd.Server.{
  ServerConfig, System, sending, finished, exited, spawned, start_servers, not_started, running,
  http_shutdown, grpc_graceful_stop, err_capacity, http_failed, http_calls, grpc_calls, Step,
  http_fails, http_sends, cancels, sees_done, sees_error, stops_http, stops_grpc, Reach, here, next,
}
use helix_fnd.Server.Health.{handle_readiness, handle_readiness-status}
use helix_fnd.Server.Outcome.{IsFailure, IsRefusal, ends, Returned-Accounts}
use helix_fnd.Server.Room.{sends_at_once}

abbrev both : ServerConfig
both = record {
  enable_http = true;
  enable_grpc = true;
  http_mtls_enabled = false;
  http_mtls_ca_cert = "";
}

abbrev bind_error : String
bind_error = http_failed "address already in use"

abbrev failing : System
failing = record (spawned both) { http = sending bind_error }

failing-reached : Reach both true (spawned both) failing
failing-reached = next here (http_fails "address already in use" refl)

sends_at_once_example :
    (t' : System) × Step both true failing t'
    × (t'.err_chan ≡ bind_error ∷ [])
    × (length t'.err_chan ≤ err_capacity)
    × ((t'.http ≡ finished) ⊎ (t'.grpc ≡ finished))
sends_at_once_example = sends_at_once both true failing bind_error failing-reached (inl refl)

begun : start_servers both none ≡ running (spawned both)
unfolding start_servers
begun = refl

-- It returns the error while gRPC goes on.
abbrev gone : System
gone = record (spawned both) { http = finished; main = exited (some bind_error) }

gone-reached : Reach both true (spawned both) gone
gone-reached =
    next (next failing-reached (http_sends bind_error refl (omega arith)))
      (sees_error bind_error [] refl refl)

Returned-Accounts_example :
    ((some bind_error ≡ none) × (false ≡ true) × ([] ≡ http_shutdown ∷ grpc_graceful_stop ∷ []))
    ⊎ ((e : String) × (some bind_error ≡ some e)
        × (IsFailure both true e ⊎ IsRefusal both true none e)
        × (gone.calls ≡ []))
Returned-Accounts_example =
    Returned-Accounts both true none (some bind_error) false []
      (ends (spawned both) gone (some bind_error) begun gone-reached refl)

-- A signal stops both.
abbrev stopped : System
stopped = record (spawned both) {
  cancelled = true;
  main = exited none;
  calls = http_calls both ++ grpc_calls true;
}

stopped-reached : Reach both true (spawned both) stopped
stopped-reached =
    next (next (next (next here cancels) (sees_done refl refl)) (stops_http refl)) (stops_grpc refl)

no_mtls :
    start_servers (record both { http_mtls_enabled = true }) (some "could not read CA cert")
    ≡ not_started "failed to load HTTP mTLS config: could not read CA cert"
unfolding start_servers
no_mtls = refl

abbrev request : Request
request = record { method = "GET"; path = "/ready"; remote_addr = ""; header = []; ctx = [] }

abbrev down : ℕ → ℕ × Bool
down w = (w, false)

abbrev no_json : List (String × String) → Option String
no_json entries = none

handle_readiness-status_example :
    (s' : Served ℕ) × (handle_readiness down no_json request
        (record { world = 0; writer = blank; logs = [] })
      ≡ returned s')
    × HasSent s'.writer (status_after none 503)
handle_readiness-status_example =
    handle_readiness-status down no_json request (record { world = 0; writer = blank; logs = [] })
