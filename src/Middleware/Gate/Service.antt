-- ===== src/Middleware/Gate/Service.antt =====
-- A service over HTTP: the handler behind the idempotency, the authentication, the rate limit and, outermost,
-- the panic recovery.
use std.Path.{subst}
use helix_fnd.Prelude.{ℤ, ◌≡◌, refl, ap, ◌∙◌, ◌⊎◌, inl, inr, String, Option, none}
use helix_fnd.Context.Accessors.{with_entry_point}
use helix_fnd.Http.{Request, Served, Exit, returned, panicked, Handler, with_ctx}
use helix_fnd.Response.{Envelope}
use helix_fnd.Response.Statuses.{status_after, HasSent}
use helix_fnd.RateLimit.Http.{Limiters, rate_limit_middleware}
use helix_fnd.Crypto.Jwks.{Using, Endpoint, HelixClaims, Parser, verify_token}
use helix_fnd.Crypto.Jwks.Tokens.{TokenFormat, IsJwtParser}
use helix_fnd.Auth.{http_middleware}
use helix_fnd.Auth.Jwt.{with_claims, jwt_authenticate}
use helix_fnd.Auth.Jwt.Identity.{IsIdentified, with_claims-IsIdentified}
use helix_fnd.Middleware.Idempotency.{Locks, IdempotencyConfig, idempotency_middleware}
use helix_fnd.Middleware.Recovery.{panic_recovery, panic_recovery-cases}
use helix_fnd.Middleware.Gate.{Decided, behind}
use helix_fnd.Middleware.Gate.Limits.{
  IsWithinRate, RateRefused, rate_limit_middleware-IsGate, IsFirst, KeyRefused,
  idempotency_middleware-IsGate,
}
use helix_fnd.Middleware.Gate.Tokens.{IsBearer, TokenPassed, http_middleware-IsGate}

-- The request with the claims in its context.
abbrev pub authenticated : Request → HelixClaims → Request
authenticated r c = with_ctx r (with_claims (with_entry_point r.ctx "http") c)

-- The handler's own end, or the answer that stands for its panic.
abbrev pub IsAnswered : {W : Type 0} → Exit W → Exit W → Type 0
IsAnswered {W} outcome answer =
    ((s' : Served W) × (outcome ≡ returned s') × (answer ≡ returned s'))
    ⊎ ((msg : String) × (s' s'' : Served W) × (outcome ≡ panicked msg s')
        × (answer ≡ returned s'')
        × HasSent s''.writer (status_after s'.writer.sent 500))

module _ {W : Type 0} (lim : Limiters (Using W)) (rps burst period : ℤ) where
  RateRefused-exact :
      (r : Request) (s s' : Served (Using W))
      → RateRefused lim rps burst period r s s'
      → ¬ IsWithinRate lim rps burst period r s
  RateRefused-exact r s s' (on, why) (inl off) = cc
  RateRefused-exact r s s' (on, inl (n, found, limited, sent)) (inr (inl (m, found', free))) = cc
  RateRefused-exact r s s' (on, inl (n, found, limited, sent)) (inr (inr (down, free))) = cc
  RateRefused-exact r s s' (on, inr (down, busy, sent)) (inr (inl (m, found, free))) = cc
  RateRefused-exact r s s' (on, inr (down, busy, sent)) (inr (inr (down', free))) = cc

  RateRefused-sent :
      (r : Request) (s s' : Served (Using W))
      → s.writer.sent ≡ none
      → RateRefused lim rps burst period r s s'
      → (HasSent s'.writer 429) ⊎ (HasSent s'.writer 503)
  RateRefused-sent r s s' new (on, inl (n, found, limited, sent)) = inl (rw new at sent)
  RateRefused-sent r s s' new (on, inr (down, busy, sent)) = inr (rw new at sent)

module _ {W : Type 0} (locks : Locks (Using W)) (cfg : IdempotencyConfig) where
  KeyRefused-exact :
      (r : Request) (s s' : Served (Using W))
      → KeyRefused locks cfg r s s'
      → ¬ IsFirst locks cfg r s
  KeyRefused-exact r s s' (named, why) (inl unnamed) = cc
  KeyRefused-exact r s s' (named, inl (held, sent)) (inr (inl took)) = cc
  KeyRefused-exact r s s' (named, inl (held, sent)) (inr (inr (down, bypass))) = cc
  KeyRefused-exact r s s' (named, inr (down, closed, sent)) (inr (inl took)) = cc
  KeyRefused-exact r s s' (named, inr (down, closed, sent)) (inr (inr (down', bypass))) = cc

  KeyRefused-sent :
      (r : Request) (s s' : Served (Using W))
      → s.writer.sent ≡ none
      → KeyRefused locks cfg r s s'
      → (HasSent s'.writer 409) ⊎ (HasSent s'.writer 503)
  KeyRefused-sent r s s' new (named, inl (held, sent)) = inl (rw new at sent)
  KeyRefused-sent r s s' new (named, inr (down, closed, sent)) = inr (rw new at sent)

module _ {W : Type 0} (endpoint : Endpoint W) (format : TokenFormat) (parse : Parser W)
    (lib : IsJwtParser format parse) (lim : Limiters (Using W)) (rps burst period : ℤ)
    (locks : Locks (Using W)) (cfg : IdempotencyConfig) where
  abbrev pub gates : Handler (Using W) → Handler (Using W)
  gates next = rate_limit_middleware lim rps burst period (
      http_middleware (jwt_authenticate (verify_token endpoint parse))
        (idempotency_middleware locks cfg next))

  -- Why the handler does not run, and the status of the answer.
  abbrev pub IsTurnedAway : Request → Served (Using W) → Served (Using W) → Type 0
  IsTurnedAway r s s' =
      ((¬ IsWithinRate lim rps burst period r s)
        × ((HasSent s'.writer 429) ⊎ (HasSent s'.writer 503)))
      ⊎ (IsWithinRate lim rps burst period r s
          × ((HasSent s'.writer 401)
              ⊎ ((c : HelixClaims) × (s₁ : Served (Using W)) × IsBearer endpoint format parse lib r
                    c s₁
                  × (¬ IsFirst locks cfg (authenticated r c) s₁)
                  × ((HasSent s'.writer 409) ⊎ (HasSent s'.writer 503)))))

  -- What holds of a request whose handler runs, with the claims `c`, in the state `s'`.
  abbrev pub IsLetIn : Request → Served (Using W) → HelixClaims → Served (Using W) → Type 0
  IsLetIn r s c s' =
      IsWithinRate lim rps burst period r s
      × ((s₁ : Served (Using W)) × IsBearer endpoint format parse lib r c s₁
          × IsFirst locks cfg (authenticated r c) s₁)
      × IsIdentified (with_entry_point r.ctx "http") c (authenticated r c).ctx
      × (s'.writer.sent ≡ none)

  -- What the rate limit kept, over the authentication.
  past_token :
      (r r₁ r₂ : Request) (s₁ s₂ : Served (Using W))
      → r₁ ≡ r
      → s₁.writer.sent ≡ none
      → TokenPassed endpoint format parse lib r₁ s₁ r₂ s₂
      → (c : HelixClaims) × IsBearer endpoint format parse lib r c s₂
        × (r₂ ≡ authenticated r c)
        × (s₂.writer.sent ≡ none)
  past_token r r₁ r₂ s₁ s₂ kept new (c, bearer, ctx, unwritten) = (
    c,
    subst (λ x. IsBearer endpoint format parse lib x c s₂) kept bearer,
    ctx ∙ ap (λ x. authenticated x c) kept,
    ap (λ w. w.sent) unwritten ∙ new,
  )

  gates-Decided :
      (r : Request) (s : Served (Using W))
      → s.writer.sent ≡ none
      → Decided
          (IsTurnedAway r s)
          (λ r' s'. (c : HelixClaims) × (r' ≡ authenticated r c) × IsLetIn r s c s')
          (λ next. gates next r s)
  gates-Decided r s new =
      let all = behind (rate_limit_middleware-IsGate lim rps burst period) (
        behind (http_middleware-IsGate endpoint format parse lib)
          (idempotency_middleware-IsGate locks cfg)) in
      elim (all.decides r s) [
        | inl (s', inl limited, same) ↦ inl (
          s',
          inl (
            RateRefused-exact lim rps burst period r s s' limited,
            RateRefused-sent lim rps burst period r s s' new limited,
          ),
          same,
        )
        | inl (s', inr (r₁, s₁, (kept, unsent, within), inl refused), same) ↦
            inl (s', inr (within, inl (rw (unsent, new) at refused)), same)
        | inl (s', inr (r₁, s₁, (kept, unsent, within), inr (r₂, s₂, passed, used)), same) ↦
            let (c, bearer, ctx, new₂) = past_token r r₁ r₂ s₁ s₂ kept (unsent ∙ new) passed in
            inl (
              s',
              inr (
                within,
                inr (
                  c,
                  s₂,
                  bearer,
                  subst (λ x. ¬ IsFirst locks cfg x s₂) ctx
                      (KeyRefused-exact locks cfg r₂ s₂ s' used),
                  KeyRefused-sent locks cfg r₂ s₂ s' new₂ used,
                ),
              ),
              same,
            )
        | inr
              (
                r',
                s',
                (r₁, s₁, (kept, unsent, within), (r₂, s₂, passed, (kept', unwritten', first))),
                same,
              ) ↦
            let (c, bearer, ctx, new₂) = past_token r r₁ r₂ s₁ s₂ kept (unsent ∙ new) passed in
            inr (
              r',
              s',
              (
                c,
                kept' ∙ ctx,
                (
                  within,
                  (s₂, bearer, subst (λ x. IsFirst locks cfg x s₂) ctx first),
                  with_claims-IsIdentified (with_entry_point r.ctx "http") c,
                  ap (λ w. w.sent) unwritten' ∙ new₂,
                ),
              ),
              same,
            )
      ]

  module _ {V : Type 0} (encode : Envelope V → Option String) where
    abbrev pub service : Handler (Using W) → Handler (Using W)
    service next = panic_recovery encode (gates next)

    -- To a response on which nothing was sent, and over a JWT library that does what it documents, every
    -- request is answered. Either its answer is the same for all handlers: it is 429 or 503 if the
    -- request is not within the rate; and if it is, it is 401, or it is 409 or 503 for an authentic
    -- token and an idempotency key that the lock does not admit. Or the request is within the rate, has
    -- an authentic token, and is admitted by the lock; the handler then runs with nothing sent before,
    -- in a context that names the subject of this token's claims as the principal and their sid as the
    -- session, each if it is not empty, and the answer is its own, or 500 if it panics before it has sent
    -- a status. (Authentic: signed by the key that is cached under the kid of the token's header, with an
    -- RSA method, and in time.)
    pub service-cases :
        (r : Request) (s : Served (Using W))
        → s.writer.sent ≡ none
        → ((s' : Served (Using W)) × IsTurnedAway r s s'
            × ((next : Handler (Using W)) → service next r s ≡ returned s'))
          ⊎ ((c : HelixClaims) × (s' : Served (Using W)) × IsLetIn r s c s'
              × ((next : Handler (Using W))
                  → IsAnswered (next (authenticated r c) s') (service next r s)))
    unfolding panic_recovery
    service-cases r s new = elim (gates-Decided r s new) [
      | inl (s', away, same) ↦ inl (s', away, λ next. rw (same next) refl)
      | inr (r', s', (c, ctx, in_), same) ↦ inr (
        c,
        s',
        in_,
        λ next.
            subst (λ x. IsAnswered x (service next r s)) (same next ∙ ap (λ x. next x s') ctx)
              (panic_recovery-cases encode (gates next) r s),
      )
    ]
