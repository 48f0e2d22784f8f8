-- ===== src/Auth/Tests.antt =====
-- A request with a token that is accepted.
use Prim.Native.String.{◌++◌ as str_append}
use text.Mathlib.Text.{◌==◌ as str_eq}
use helix_fnd.Prelude.{
  ℕ, suc, ◌≡◌, refl, ◌⊎◌, String, [], ◌∷◌, some, none, at_key, assign, if◌then◌else◌,
}
use helix_fnd.Context.Accessors.{with_entry_point}
use helix_fnd.Http.{
  Request, Served, returned, panicked, Handler, blank, http_error, on_writer, with_ctx, write_body,
}
use helix_fnd.Text.{canonical_header_key, split}
use helix_fnd.Auth.{
  payload_header, grpc_unary_interceptor, flat_headers, http_middleware, http_payload, grpc_payload,
  granted,
}
use helix_fnd.Crypto.Jwks.{HelixClaims, claimed, rejected, nil_deref, invalid_token}
use helix_fnd.Crypto.Jwks.{Using, verify_token}
use helix_fnd.Crypto.Jwks.Samples.{one_key, empty_client, one_format, asks, asks-IsJwtParser}
use helix_fnd.Crypto.Jwks.Tokens.{IsAuthentic}
use helix_fnd.Grpc
use helix_fnd.Grpc.{Call, CallState, replied, response}
use helix_fnd.Middleware.Recovery.{grpc_recovery_interceptor}
use mathlib.Core.List.Perm
use helix_fnd.Auth.Headers.{Headers, IsDistinct}
use helix_fnd.Auth.Jwt.Order.{jwt_authenticate-perm}
use helix_fnd.Auth.Jwt.Recovered.{Replied, grpc_recovery_interceptor-Replied}
use helix_fnd.Auth.Jwt.Signed.{jwks_guards, CallGuarded, grpc_unary_interceptor-CallGuarded}
use helix_fnd.Auth.Jwt.{Verifier, with_claims, jwt_authenticate}
use helix_fnd.Auth.Jwt.Tokens.{blank_char, jwt_guards}

abbrev ann : HelixClaims
ann = record { subject = "ann"; exp = some 5; nbf = none; scope = ""; roles = []; sid = "s1" }

-- It accepts one token, and counts its calls.
abbrev one_token : Verifier ℕ
one_token token w = (suc w, if str_eq token "abc" then claimed ann else rejected invalid_token)

abbrev get_me : Request
get_me = record {
  method = "GET";
  path = "/me";
  remote_addr = "10.0.0.7:5000";
  header = ("Authorization", "Bearer abc" ∷ []) ∷ [];
  ctx = [];
}

abbrev before : Served ℕ
before = record { world = 0; writer = blank; logs = [] }

abbrev hello : Handler ℕ
hello r s = returned (on_writer (write_body "hello") s)

jwt_guards_example :
    ((w : ℕ) × (err : String) × (http_middleware (jwt_authenticate one_token) hello get_me before
        ≡ returned (on_writer (http_error err 401) (record before { world = w }))))
    ⊎ ((w : ℕ) × (msg : String) × (token : String) × (http_middleware
            (jwt_authenticate one_token)
            hello
            get_me
            before
          ≡ panicked msg (record before { world = w }))
        × (one_token token 0 ≡ (w, nil_deref)))
    ⊎ ((w : ℕ) × (token : String) × (c : HelixClaims) × (payload_header
            (http_payload get_me)
            "Authorization"
          ≡ str_append "Bearer" (String.◌∷◌ blank_char token))
        × (one_token token 0 ≡ (w, claimed c))
        × (http_middleware (jwt_authenticate one_token) hello get_me before
            ≡ hello
                (with_ctx get_me (with_claims (with_entry_point get_me.ctx "http") c))
                (record before { world = w })))
jwt_guards_example = jwt_guards one_token hello get_me before

said_hello :
    http_middleware (jwt_authenticate one_token) hello get_me before
    ≡ returned (on_writer (write_body "hello") (record before { world = 1 }))
unfolding http_middleware jwt_authenticate payload_header at_key flat_headers assign
    canonical_header_key split
said_hello = refl

-- The same request over a JWKS client and a parser that takes every token.
abbrev at_start : Served (Using ℕ)
at_start = record { world = empty_client; writer = blank; logs = [] }

abbrev greet : Handler (Using ℕ)
greet r s = returned (on_writer (write_body "hello") s)

jwks_guards_example :
    ((u : Using ℕ) × (err : String) × (http_middleware
          (jwt_authenticate (verify_token one_key asks))
          greet
          get_me
          at_start
        ≡ returned (on_writer (http_error err 401) (record at_start { world = u }))))
    ⊎ ((u : Using ℕ) × (token : String) × (c : HelixClaims) × (payload_header
            (http_payload get_me)
            "Authorization"
          ≡ str_append "Bearer" (String.◌∷◌ blank_char token))
        × IsAuthentic one_key one_format token u c
        × (http_middleware (jwt_authenticate (verify_token one_key asks)) greet get_me at_start
            ≡ greet
                (with_ctx get_me (with_claims (with_entry_point get_me.ctx "http") c))
                (record at_start { world = u })))
jwks_guards_example = jwks_guards one_key one_format asks asks-IsJwtParser greet get_me at_start

abbrev call_me : Call
call_me = record {
  ctx = [];
  metadata = some (("authorization", "Bearer abc" ∷ []) ∷ []);
  peer = none;
  full_method = "/me";
  req = "";
}

abbrev in_call : CallState (Using ℕ)
in_call = record { world = empty_client; header = []; logs = [] }

abbrev greet_call : Grpc.Handler (Using ℕ)
greet_call call s = replied s (response "hello")

grpc_unary_interceptor-CallGuarded_example :
    CallGuarded one_key one_format asks asks-IsJwtParser greet_call call_me in_call call_me.metadata
      (grpc_unary_interceptor
        (jwt_authenticate (verify_token one_key asks))
        greet_call
        call_me
        in_call)
grpc_unary_interceptor-CallGuarded_example =
    grpc_unary_interceptor-CallGuarded one_key one_format asks asks-IsJwtParser greet_call call_me
      in_call

-- A handler that panics.
abbrev crash_call : Grpc.Handler (Using ℕ)
crash_call call s = Grpc.panicked "boom" s

grpc_recovery_interceptor-Replied_example :
    Replied one_key one_format asks asks-IsJwtParser crash_call call_me in_call (
      grpc_recovery_interceptor
        (grpc_unary_interceptor (jwt_authenticate (verify_token one_key asks)) crash_call)
        call_me
        in_call)
grpc_recovery_interceptor-Replied_example =
    grpc_recovery_interceptor-Replied one_key one_format asks asks-IsJwtParser crash_call call_me
      in_call

-- Two headers in two orders, with names in lower case as gRPC has them.
abbrev in_order : Headers
in_order = ("authorization", "Bearer abc" ∷ []) ∷ ("x-request-id", "7" ∷ []) ∷ []

abbrev other_order : Headers
other_order = ("x-request-id", "7" ∷ []) ∷ ("authorization", "Bearer abc" ∷ []) ∷ []

in_order-IsDistinct : IsDistinct in_order
unfolding canonical_header_key
in_order-IsDistinct = ((refl, tt), (tt, tt))

jwt_authenticate-perm_example :
    (jwt_authenticate one_token [] (http_payload (record get_me { header = in_order })) 0
      ≡ jwt_authenticate one_token [] (http_payload (record get_me { header = other_order })) 0)
    × (jwt_authenticate one_token [] (grpc_payload call_me in_order) 0
        ≡ jwt_authenticate one_token [] (grpc_payload call_me other_order) 0)
jwt_authenticate-perm_example =
    jwt_authenticate-perm one_token in_order other_order (Perm.swap _ _ []) in_order-IsDistinct []
      get_me call_me 0

both_granted :
    jwt_authenticate one_token [] (grpc_payload call_me other_order) 0
    ≡ (1, granted (with_claims [] ann))
unfolding jwt_authenticate payload_header at_key flat_headers assign canonical_header_key split
both_granted = refl
