-- ===== src/Auth.antt =====
-- server/middleware/auth.go and strategy_jwt.go: authentication of HTTP requests and gRPC calls.
pub mod Headers
pub mod Jwt
mod Tests
use text.Mathlib.Text.{◌==◌ as str_eq}
use helix_fnd.Prelude.{
  ℕ, Bool, true, false, String, List, [], ◌∷◌, Option, none, some, at_key, assign, if◌then◌else◌,
}
use helix_fnd.Context.{Context}
use helix_fnd.Context.Accessors.{with_entry_point}
use helix_fnd.Text.{canonical_header_key, to_lower}
use helix_fnd.Http.{Request, Served, returned, http_error, on_writer, with_ctx as request_with_ctx}
use helix_fnd.Http
use helix_fnd.Grpc
use helix_fnd.Grpc.{Call, CallState, replied, status, unauthenticated}

pub record AuthPayload : Type 0 where
  pub headers : List (String × String)
  pub remote_addr : String
  pub method : String
  pub path : String

-- The new context, the error's text, or a panic of the strategy.
pub data Authenticated : Type 0 where
  granted : Context → Authenticated
  denied : String → Authenticated
  crashed : String → Authenticated

-- `AuthStrategy`.
abbrev pub Strategy : Type 0 → Type 0
Strategy W = Context → AuthPayload → W → W × Authenticated

-- The first value of each header that has one. (The order of the list stands for the order in which
-- the map is ranged over.)
unfoldable pub flat_headers :
    List (String × List String) → List (String × String) → List (String × String)
flat_headers [] acc = acc
flat_headers ((k, []) ∷ rest) acc = flat_headers rest acc
flat_headers ((k, v ∷ vs) ∷ rest) acc = flat_headers rest (assign acc (canonical_header_key k) v)

abbrev pub http_payload : Request → AuthPayload
http_payload r = record {
  headers = flat_headers r.header [];
  remote_addr = r.remote_addr;
  method = r.method;
  path = r.path;
}

abbrev or_zero_address : Option String → String
or_zero_address none = "0.0.0.0:0"
or_zero_address (some addr) = addr

abbrev pub grpc_payload : Call → List (String × List String) → AuthPayload
grpc_payload call md = record {
  headers = flat_headers md [];
  remote_addr = or_zero_address call.peer;
  method = call.full_method;
  path = call.full_method;
}

module _ {W : Type 0} (authenticate : Strategy W) where
  unfoldable pub http_answer : Http.Handler W → Request → Served W → Authenticated → Http.Exit W
  http_answer next r s (granted ctx) = next (request_with_ctx r ctx) s
  http_answer next r s (denied err) = returned (on_writer (http_error err 401) s)
  http_answer next r s (crashed msg) = Http.panicked msg s

  unfoldable pub http_middleware : Http.Handler W → Http.Handler W
  unfolding http_answer
  http_middleware next r s =
      let (w, result) = authenticate (with_entry_point r.ctx "http") (http_payload r) s.world in
      http_answer next r (record s { world = w }) result

  unfoldable pub grpc_answer : Grpc.Handler W → Call → CallState W → Authenticated → Grpc.Exit W
  grpc_answer handler call s (granted ctx) = handler (Grpc.with_ctx call ctx) s
  grpc_answer handler call s (denied err) = replied s (status unauthenticated err)
  grpc_answer handler call s (crashed msg) = Grpc.panicked msg s

  unfoldable pub with_metadata :
      Grpc.Handler W → Call → CallState W → Option (List (String × List String)) → Grpc.Exit W
  unfolding grpc_answer
  with_metadata handler call s none = replied s (status unauthenticated "metadata is not provided")
  with_metadata handler call s (some md) =
      let (w, result) =
        authenticate (with_entry_point call.ctx "grpc") (grpc_payload call md) s.world in
      grpc_answer handler call (record s { world = w }) result

  unfoldable pub grpc_unary_interceptor : Grpc.Handler W → Grpc.Handler W
  unfolding with_metadata
  grpc_unary_interceptor handler call s = with_metadata handler call s call.metadata

-- `GetHeader`: by the canonical key, else the first key that is equal in lower case.
same_lower : String → List (String × String) → String
same_lower key [] = ""
same_lower key ((k, v) ∷ rest) = if str_eq (to_lower k) key then v else same_lower key rest

found_or : Option String → String → String
found_or (some v) d = v
found_or none d = d

unfoldable pub payload_header : AuthPayload → String → String
unfolding same_lower found_or
payload_header p key =
    found_or (at_key p.headers (canonical_header_key key)) (same_lower (to_lower key) p.headers)
