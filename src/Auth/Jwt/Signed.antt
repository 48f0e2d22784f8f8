-- ===== src/Auth/Jwt/Signed.antt =====
-- The JWT strategy over the JWKS client: what a request must carry to reach a handler.
use Prim.Native.String.{◌++◌ as str_append}
use helix_fnd.Prelude.{◌≡◌, refl, ◌⊎◌, inl, inr, String, List, Option, some, none}
use helix_fnd.Context.Accessors.{with_entry_point}
use helix_fnd.Http.{Request, Served, Handler, returned, http_error, on_writer, with_ctx}
use helix_fnd.Grpc
use helix_fnd.Grpc.{Call, CallState, replied, status, unauthenticated}
use helix_fnd.Auth.{
  payload_header, http_middleware, http_payload, grpc_unary_interceptor, with_metadata, grpc_answer,
  grpc_payload,
}
use helix_fnd.Crypto.Jwks.{Using, Endpoint, HelixClaims, Parser, verify_token}
use helix_fnd.Crypto.Jwks.Tokens.{
  TokenFormat, IsJwtParser, IsAuthentic, IsAuthentic-verify_token, verify_token_total,
}
use helix_fnd.Auth.Jwt.{with_claims, jwt_authenticate}
use helix_fnd.Auth.Jwt.Tokens.{blank_char, jwt_guards, authenticate-cases, Concluded, Granted}

module _ {W : Type 0} (endpoint : Endpoint W) (format : TokenFormat) (parse : Parser W)
    (lib : IsJwtParser format parse) where
  -- Over the JWKS client, and a JWT library that does what it documents, the authentication of a request
  -- never panics. The request is answered 401, and the handler never runs; or its Authorization
  -- header is "Bearer", a blank and a token that is signed by the key that the client caches under the
  -- kid of the token's header, and is in time, and the outcome is that of the handler with that token's
  -- claims.
  pub jwks_guards :
      (next : Handler (Using W)) (r : Request) (s : Served (Using W))
      → ((u : Using W) × (err : String) × (http_middleware
              (jwt_authenticate (verify_token endpoint parse))
              next
              r
              s
            ≡ returned (on_writer (http_error err 401) (record s { world = u }))))
        ⊎ ((u : Using W) × (token : String) × (c : HelixClaims) × (payload_header
                (http_payload r)
                "Authorization"
              ≡ str_append "Bearer" (String.◌∷◌ blank_char token))
            × IsAuthentic endpoint format token u c
            × (http_middleware (jwt_authenticate (verify_token endpoint parse)) next r s
                ≡ next
                    (with_ctx r (with_claims (with_entry_point r.ctx "http") c))
                    (record s { world = u })))
  jwks_guards next r s = elim (jwt_guards (verify_token endpoint parse) next r s) [
    | inl denies ↦ inl denies
    | inr (inl (u, msg, token, crashes, nil)) ↦
        absurd (verify_token_total endpoint format parse lib token s.world u nil)
    | inr (inr (u, token, c, bearer, accepted, outcome)) ↦ inr (
      u,
      token,
      c,
      bearer,
      IsAuthentic-verify_token endpoint format parse lib token s.world u c accepted,
      outcome,
    )
  ]

  -- The end of a call: refused, or the handler's with the claims of a token that is authentic.
  abbrev pub CallGuarded :
      Grpc.Handler (Using W)
      → Call
      → CallState (Using W)
      → Option (List (String × List String))
      → Grpc.Exit (Using W)
      → Type 0
  CallGuarded handler call s o outcome =
      ((u : Using W) × (err : String) × (outcome
          ≡ replied (record s { world = u }) (status unauthenticated err)))
      ⊎ ((u : Using W) × (md : List (String × List String)) × (token : String) × (c : HelixClaims)
          × (o ≡ some md)
          × (payload_header (grpc_payload call md) "Authorization"
              ≡ str_append "Bearer" (String.◌∷◌ blank_char token))
          × IsAuthentic endpoint format token u c
          × (outcome
              ≡ handler (Grpc.with_ctx call (with_claims (with_entry_point call.ctx "grpc") c))
                  (record s { world = u })))

  with_metadata-CallGuarded :
      (handler : Grpc.Handler (Using W)) (call : Call) (s : CallState (Using W))
      (o : Option (List (String × List String)))
      → CallGuarded handler call s o
          (with_metadata (jwt_authenticate (verify_token endpoint parse)) handler call s o)
  unfolding with_metadata grpc_answer Concluded Granted
  with_metadata-CallGuarded handler call s none = inl (s.world, "metadata is not provided", refl)
  with_metadata-CallGuarded handler call s (some md) =
      elim (authenticate-cases (verify_token endpoint parse) (with_entry_point call.ctx "grpc")
        (grpc_payload call md) s.world) [
          | inl (u, err, denies) ↦ inl (u, err, rw denies refl)
          | inr (inl (u, msg, token, crashes, nil)) ↦
              absurd (verify_token_total endpoint format parse lib token s.world u nil)
          | inr (inr (u, ctx, grants, (token, c, bearer, accepted, claims))) ↦ inr (
            u,
            md,
            token,
            c,
            refl,
            bearer,
            IsAuthentic-verify_token endpoint format parse lib token s.world u c accepted,
            rw (grants, claims) refl,
          )
        ]

  -- Over the JWKS client, and a JWT library that does what it documents, a gRPC call is refused as
  -- unauthenticated, and the handler never runs; or it has metadata whose Authorization entry is "Bearer", a blank and a token that is
  -- signed by the key that the client caches under the kid of the token's header, and is in time, and
  -- the outcome is that of the handler with that token's claims.
  pub grpc_unary_interceptor-CallGuarded :
      (handler : Grpc.Handler (Using W)) (call : Call) (s : CallState (Using W))
      → CallGuarded handler call s call.metadata
          (grpc_unary_interceptor (jwt_authenticate (verify_token endpoint parse)) handler call s)
  unfolding grpc_unary_interceptor
  grpc_unary_interceptor-CallGuarded handler call s =
      with_metadata-CallGuarded handler call s call.metadata
