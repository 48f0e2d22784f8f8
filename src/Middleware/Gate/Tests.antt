-- ===== src/Middleware/Gate/Tests.antt =====
-- A service whose Redis admits every request, on one request.
use helix_fnd.Prelude.{
  ℕ, pos, negsuc, ◌≡◌, refl, ◌⊎◌, true, false, String, List, [], ◌∷◌, Option, none, some, at_key,
  assign,
}
use helix_fnd.Http.{
  Request, Served, Exit, returned, panicked, Handler, blank, get_header, set_header, write_body,
  http_error, on_writer,
}
use helix_fnd.Text.{canonical_header_key, split}
use helix_fnd.Response.{Envelope}
use helix_fnd.RateLimit.Http.{Limiters, rate_limit_middleware}
use helix_fnd.Crypto.Base64.{decode_string}
use helix_fnd.Crypto.Jwks.{
  Using, HelixClaims, verify_token, keyfunc, fetch_keys, new_cache, to_rsa_public_key,
}
use helix_fnd.Crypto.Jwks.Samples.{one_key, empty_client, one_format, asks, asks-IsJwtParser}
use helix_fnd.Auth.{http_middleware, payload_header, flat_headers}
use helix_fnd.Auth.Jwt.{jwt_authenticate}
use helix_fnd.Middleware.Idempotency.{Locks, IdempotencyConfig, idempotency_middleware}
use helix_fnd.Middleware.Recovery.{panic_recovery}
use helix_fnd.Middleware.Gate.Service.{
  service, authenticated, IsTurnedAway, IsLetIn, IsAnswered, service-cases,
}

abbrev generous : Limiters (Using ℕ)
generous = record {
  run_gcra = λ key rate period burst w. (w, some (negsuc 0));
  allow = λ w. (w, true);
}

-- A lock that is free, and one that is held.
abbrev one_lock : Locks (Using ℕ)
one_lock = record { set_nx = λ key d w. (w, some true) }

abbrev held_lock : Locks (Using ℕ)
held_lock = record { set_nx = λ key d w. (w, some false) }

abbrev keyed : IdempotencyConfig
keyed = record { header_key = "Idempotency-Key"; expiry = 60; fail_open = false }

abbrev pay : Request
pay = record {
  method = "POST";
  path = "/pay";
  remote_addr = "10.0.0.7:5000";
  header = ("Authorization", "Bearer abc" ∷ []) ∷ ("Idempotency-Key", "k" ∷ []) ∷ [];
  ctx = [];
}

abbrev at_start : Served (Using ℕ)
at_start = record { world = empty_client; writer = blank; logs = [] }

abbrev no_json : Envelope Unit → Option String
no_json env = none

abbrev guarded : Locks (Using ℕ) → Handler (Using ℕ) → Handler (Using ℕ)
guarded locks =
    service one_key one_format asks asks-IsJwtParser generous (pos 5) (pos 5) (pos 1) locks keyed
      no_json

service-cases_example :
    ((s' : Served (Using ℕ)) × IsTurnedAway one_key one_format asks asks-IsJwtParser generous
        (pos 5)
        (pos 5)
        (pos 1)
        one_lock
        keyed
        pay
        at_start
        s'
      × ((next : Handler (Using ℕ)) → guarded one_lock next pay at_start ≡ returned s'))
    ⊎ ((c : HelixClaims) × (s' : Served (Using ℕ)) × IsLetIn one_key one_format asks
          asks-IsJwtParser generous
          (pos 5)
          (pos 5)
          (pos 1)
          one_lock
          keyed
          pay
          at_start
          c
          s'
        × ((next : Handler (Using ℕ))
            → IsAnswered (next (authenticated pay c) s') (guarded one_lock next pay at_start)))
service-cases_example =
    service-cases one_key one_format asks asks-IsJwtParser generous (pos 5) (pos 5) (pos 1) one_lock
      keyed no_json pay at_start refl

-- The status and the body that the client gets.
abbrev seen : Exit (Using ℕ) → Option ℕ × List String
seen (returned s) =
    (elim s.writer.sent [ none ↦ none | some (status, headers) ↦ some status ], s.writer.body)
seen (panicked msg s) = (none, [])

abbrev paid : Handler (Using ℕ)
paid r s = returned (on_writer (write_body "paid") s)

paid_once : seen (guarded one_lock paid pay at_start) ≡ (some 200, "paid" ∷ [])
unfolding panic_recovery rate_limit_middleware http_middleware idempotency_middleware
    jwt_authenticate payload_header verify_token keyfunc fetch_keys new_cache to_rsa_public_key
    at_key decode_string assign flat_headers canonical_header_key split get_header set_header
    write_body
paid_once = refl

refused_twice : (seen (guarded held_lock paid pay at_start)).0 ≡ some 409
unfolding panic_recovery rate_limit_middleware http_middleware idempotency_middleware
    jwt_authenticate payload_header verify_token keyfunc fetch_keys new_cache to_rsa_public_key
    at_key decode_string assign flat_headers canonical_header_key split get_header set_header
    http_error
refused_twice = refl
