-- ===== src/Auth/Jwt/Recovered.antt =====
-- The recovery of server/middleware/grpc_recovery.go around the authentication of a call: no call ends in
-- a panic.
use Prim.Native.String.{◌++◌ as str_append}
use helix_fnd.Prelude.{◌≡◌, refl, ap, ◌⊎◌, inl, inr, String, List, some}
use helix_fnd.Context.Accessors.{with_entry_point}
use helix_fnd.Grpc.{
  Call, CallState, Reply, Handler, Exit, replied, panicked, status, internal, unauthenticated,
  with_ctx,
}
use helix_fnd.Auth.{payload_header, grpc_unary_interceptor, grpc_payload}
use helix_fnd.Crypto.Jwks.{Using, Endpoint, HelixClaims, Parser, verify_token}
use helix_fnd.Crypto.Jwks.Tokens.{TokenFormat, IsJwtParser, IsAuthentic}
use helix_fnd.Middleware.Recovery.{recovered_call, grpc_recovery_interceptor}
use helix_fnd.Auth.Jwt.{with_claims, jwt_authenticate}
use helix_fnd.Auth.Jwt.Identity.{IsIdentified, with_claims-IsIdentified}
use helix_fnd.Auth.Jwt.Tokens.{blank_char}
use helix_fnd.Auth.Jwt.Signed.{CallGuarded, grpc_unary_interceptor-CallGuarded}

-- The handler's reply as it is, or the one that stands for its panic.
abbrev pub IsReplied : {W : Type 0} → Exit W → Exit W → Type 0
IsReplied {W} outcome answer =
    ((s' : CallState W) × (reply : Reply) × (outcome ≡ replied s' reply)
      × (answer ≡ replied s' reply))
    ⊎ ((msg : String) × (s' s'' : CallState W) × (outcome ≡ panicked msg s')
        × (s''.world ≡ s'.world)
        × (answer ≡ replied s'' (status internal "internal server error")))

recovered_call-IsReplied :
    {W : Type 0} (outcome : Exit W) → IsReplied outcome (recovered_call outcome)
recovered_call-IsReplied (replied s reply) = inl (s, reply, refl, refl)
recovered_call-IsReplied (panicked msg s) = inr (msg, s, _, refl, refl, refl)

module _ {W : Type 0} (endpoint : Endpoint W) (format : TokenFormat) (parse : Parser W)
    (lib : IsJwtParser format parse) where
  abbrev pub Replied : Handler (Using W) → Call → CallState (Using W) → Exit (Using W) → Type 0
  Replied handler call s answer =
      ((u : Using W) × (err : String) × (answer
          ≡ replied (record s { world = u }) (status unauthenticated err)))
      ⊎ ((u : Using W) × (md : List (String × List String)) × (token : String) × (c : HelixClaims)
          × (call.metadata ≡ some md)
          × (payload_header (grpc_payload call md) "Authorization"
              ≡ str_append "Bearer" (String.◌∷◌ blank_char token))
          × IsAuthentic endpoint format token u c
          × IsIdentified (with_entry_point call.ctx "grpc") c
              (with_claims (with_entry_point call.ctx "grpc") c)
          × IsReplied
              (handler (with_ctx call (with_claims (with_entry_point call.ctx "grpc") c))
                (record s { world = u }))
              answer)

  guarded-Replied :
      (handler : Handler (Using W)) (call : Call) (s : CallState (Using W))
      (outcome : Exit (Using W))
      → CallGuarded endpoint format parse lib handler call s call.metadata outcome
      → Replied handler call s (recovered_call outcome)
  guarded-Replied handler call s outcome (inl (u, err, e)) = inl (u, err, ap recovered_call e)
  guarded-Replied handler call s outcome (inr (u, md, token, c, given, bearer, authentic, e)) =
      inr (
        u,
        md,
        token,
        c,
        given,
        bearer,
        authentic,
        with_claims-IsIdentified (with_entry_point call.ctx "grpc") c,
        rw e (recovered_call-IsReplied _),
      )

  -- Behind the recovery and the authentication, over the JWKS client and a JWT library that does what it
  -- documents, every call is replied to. It is refused as unauthenticated, and the handler never runs;
  -- or it carries a bearer token that is signed by the key that is cached under the kid of its header,
  -- with an RSA method, and is in time; the handler's context names the subject of this token's claims
  -- as the principal and their sid as the session, each if it is not empty, and the reply is the
  -- handler's, or an internal error that tells nothing of the panic in which the handler ended.
  pub grpc_recovery_interceptor-Replied :
      (handler : Handler (Using W)) (call : Call) (s : CallState (Using W))
      → Replied handler call s (
          grpc_recovery_interceptor
            (grpc_unary_interceptor (jwt_authenticate (verify_token endpoint parse)) handler)
            call
            s)
  unfolding grpc_recovery_interceptor
  grpc_recovery_interceptor-Replied handler call s =
      guarded-Replied handler call s _
        (grpc_unary_interceptor-CallGuarded endpoint format parse lib handler call s)
