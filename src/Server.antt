-- ===== src/Server.antt =====
-- server/server.go: `Start` with its two goroutines and the shutdown, as a system that takes one step at
-- a time in any order. What the listeners and net/http, grpc-go and the files answer is left open. A
-- service that enables gRPC is taken to have a gRPC server.
pub mod Health
pub mod Outcome
pub mod Room
mod Tests
use Prim.Native.String.{◌++◌ as str_append}
use helix_fnd.Prelude.{
  ℕ, ◌+◌, ◌<◌, ◌≡◌, ◌⊎◌, inl, inr, Bool, true, false, ◌&&◌, String, List, [], ◌∷◌, ◌++◌, Option,
  none, some, length, if◌then◌else◌,
}

-- What `Start` reads of the configuration.
pub record ServerConfig : Type 0 where
  pub enable_http : Bool
  pub enable_grpc : Bool
  pub http_mtls_enabled : Bool
  pub http_mtls_ca_cert : String

-- `loadMTLSConfig`: the file's bytes or an error, and whether they hold a certificate. `none` is success.
module _ {B : Type 0} (read_file : String → B ⊎ String) (append_certs : B → Bool) where
  abbrev pool_error : B ⊎ String → Option String
  pool_error (inr e) = some (str_append "could not read CA cert: " e)
  pool_error (inl cert) = if append_certs cert then none else some "failed to append CA cert"

  unfoldable pub load_mtls_config : String → Option String
  load_mtls_config path = pool_error (read_file path)

-- A goroutine of `Start`. A server that is `serving` is in its blocking call; `sending` holds the error
-- for `errChan`.
pub data Worker : Type 0 where
  absent : Worker
  listening : Worker
  serving : Worker
  sending : String → Worker
  finished : Worker

-- `Start` itself: at the `select`, in the two parts of `shutdown`, or returned.
pub data Main : Type 0 where
  selecting : Main
  stopping_http : Main
  stopping_grpc : Main
  exited : Option String → Main

pub data ShutdownCall : Type 0 where
  http_shutdown : ShutdownCall
  grpc_graceful_stop : ShutdownCall

pub record System : Type 0 where
  pub http : Worker
  pub grpc : Worker
  pub err_chan : List String
  pub cancelled : Bool
  pub main : Main
  pub calls : List ShutdownCall

pub data Started : Type 0 where
  not_started : String → Started
  running : System → Started

abbrev pub err_capacity : ℕ
err_capacity = 2

abbrev pub spawned : ServerConfig → System
spawned cfg = record {
  http = if cfg.enable_http then serving else absent;
  grpc = if cfg.enable_grpc then listening else absent;
  err_chan = [];
  cancelled = false;
  main = selecting;
  calls = [];
}

abbrev started_or : ServerConfig → Option String → Started
started_or cfg none = running (spawned cfg)
started_or cfg (some e) = not_started (str_append "failed to load HTTP mTLS config: " e)

-- `Start` up to the `select`, with what `loadMTLSConfig` would say.
unfoldable pub start_servers : ServerConfig → Option String → Started
start_servers cfg mtls =
    started_or cfg (if cfg.enable_http && cfg.http_mtls_enabled then mtls else none)

abbrev pub http_failed : String → String
http_failed e = str_append "http server failed: " e

abbrev pub grpc_listen_failed : String → String
grpc_listen_failed e = str_append "failed to listen grpc: " e

abbrev pub grpc_failed : String → String
grpc_failed e = str_append "grpc server failed: " e

-- `s.httpSrv` is set where HTTP is enabled.
abbrev pub http_calls : ServerConfig → List ShutdownCall
http_calls cfg = if cfg.enable_http then http_shutdown ∷ [] else []

-- `has_grpc`: the server was made with a gRPC server.
abbrev pub grpc_calls : Bool → List ShutdownCall
grpc_calls has_grpc = if has_grpc then grpc_graceful_stop ∷ [] else []

module _ (cfg : ServerConfig) (has_grpc : Bool) where
  pub data Step (s : System) : System → Type 0 where
    http_closes : s.http ≡ serving → Step s (record s { http = finished })
    http_fails :
        (e : String) → s.http ≡ serving → Step s (record s { http = sending (http_failed e) })
    http_sends :
        (e : String)
        → s.http ≡ sending e
        → length s.err_chan < err_capacity
        → Step s (record s { http = finished; err_chan = s.err_chan ++ (e ∷ []) })
    grpc_listens : s.grpc ≡ listening → Step s (record s { grpc = serving })
    grpc_listen_fails :
        (e : String)
        → s.grpc ≡ listening
        → Step s (record s { grpc = sending (grpc_listen_failed e) })
    grpc_closes : s.grpc ≡ serving → Step s (record s { grpc = finished })
    grpc_fails :
        (e : String) → s.grpc ≡ serving → Step s (record s { grpc = sending (grpc_failed e) })
    grpc_sends :
        (e : String)
        → s.grpc ≡ sending e
        → length s.err_chan < err_capacity
        → Step s (record s { grpc = finished; err_chan = s.err_chan ++ (e ∷ []) })
    cancels : Step s (record s { cancelled = true })
    sees_done : s.main ≡ selecting → s.cancelled ≡ true → Step s (record s { main = stopping_http })
    sees_error :
        (e : String) (es : List String)
        → s.main ≡ selecting
        → s.err_chan ≡ e ∷ es
        → Step s (record s { main = exited (some e); err_chan = es })
    -- An error of `Shutdown` is only logged.
    stops_http :
        s.main ≡ stopping_http
        → Step s (record s { main = stopping_grpc; calls = s.calls ++ http_calls cfg })
    stops_grpc :
        s.main ≡ stopping_grpc
        → Step s (record s { main = exited none; calls = s.calls ++ grpc_calls has_grpc })

  pub data Reach (s : System) : System → Type 0 where
    here : Reach s s
    next : {t u : System} → Reach s t → Step t u → Reach s u
