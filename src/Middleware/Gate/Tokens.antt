-- ===== src/Middleware/Gate/Tokens.antt =====
-- The authentication of server/middleware/auth.go, with the JWT strategy over the JWKS client, as a gate.
use Prim.Native.String.{◌++◌ as str_append}
use helix_fnd.Prelude.{◌≡◌, refl, inl, inr, String}
use helix_fnd.Context.Accessors.{with_entry_point}
use helix_fnd.Http.{Request, Served, http_error, on_writer, with_ctx}
use helix_fnd.Response.Statuses.{status_after, HasSent}
use helix_fnd.Auth.{payload_header, http_middleware, http_answer, http_payload}
use helix_fnd.Crypto.Jwks.{Using, Endpoint, HelixClaims, Parser, verify_token}
use helix_fnd.Crypto.Jwks.Tokens.{
  TokenFormat, IsJwtParser, IsAuthentic, IsAuthentic-verify_token, verify_token_total,
}
use helix_fnd.Auth.Jwt.{with_claims, jwt_authenticate}
use helix_fnd.Auth.Jwt.Tokens.{blank_char, authenticate-cases, Concluded, Granted}
use helix_fnd.Middleware.Gate.{IsGate, http_error-sent}

module _ {W : Type 0} (endpoint : Endpoint W) (format : TokenFormat) (parse : Parser W)
    (lib : IsJwtParser format parse) where
  -- The request carries "Bearer", a blank and a token with these claims, which is signed by the key that
  -- the client caches in the state after it, and is in time.
  abbrev pub IsBearer : Request → HelixClaims → Served (Using W) → Type 0
  IsBearer r c s' =
      (token : String) × (payload_header (http_payload r) "Authorization"
        ≡ str_append "Bearer" (String.◌∷◌ blank_char token))
      × IsAuthentic endpoint format token s'.world c

  abbrev pub TokenRefused : Request → Served (Using W) → Served (Using W) → Type 0
  TokenRefused r s s' = HasSent s'.writer (status_after s.writer.sent 401)

  abbrev pub TokenPassed : Request → Served (Using W) → Request → Served (Using W) → Type 0
  TokenPassed r s r' s' =
      (c : HelixClaims) × IsBearer r c s'
      × (r' ≡ with_ctx r (with_claims (with_entry_point r.ctx "http") c))
      × (s'.writer ≡ s.writer)

  pub http_middleware-IsGate :
      IsGate
        (http_middleware (jwt_authenticate (verify_token endpoint parse)))
        TokenRefused
        TokenPassed
  unfolding http_middleware http_answer Concluded Granted
  http_middleware-IsGate = record {
    decides = λ r s.
        elim (authenticate-cases (verify_token endpoint parse) (with_entry_point r.ctx "http")
          (http_payload r) s.world) [
            | inl (u, err, denies) ↦ inl (
              on_writer (http_error err 401) (record s { world = u }),
              http_error-sent err 401 s.writer,
              λ next. rw denies refl,
            )
            | inr (inl (u, msg, token, crashes, nil)) ↦
                absurd (verify_token_total endpoint format parse lib token s.world u nil)
            | inr (inr (u, ctx, grants, (token, c, bearer, accepted, claims))) ↦ inr (
              with_ctx r ctx,
              record s { world = u },
              (
                c,
                (
                  token,
                  bearer,
                  IsAuthentic-verify_token endpoint format parse lib token s.world u c accepted,
                ),
                rw claims refl,
                refl,
              ),
              λ next. rw grants refl,
            )
          ];
  }
