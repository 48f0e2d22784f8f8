-- ===== src/Middleware/Gate/Limits.antt =====
-- The rate limit and the idempotency middleware as gates.
use text.Mathlib.Text.{◌==◌ as str_eq}
use helix_fnd.Prelude.{
  ℤ, pos, ◌≡◌, refl, ◌⊎◌, inl, inr, Bool, true, false, Option, none, some, leb_ℤ, Bool-cases,
}
use helix_fnd.Text.{itoa}
use helix_fnd.Http.{Request, Served, get_header, set_header, http_error, on_writer, logged}
use helix_fnd.Response.Statuses.{status_after, HasSent}
use helix_fnd.RateLimit.Http.{Limiters, rate_key, rate_limit_middleware, judge, fall_back}
use helix_fnd.Middleware.Idempotency.{
  Locks, IdempotencyConfig, redis_key, idempotency_middleware, acquired,
}
use helix_fnd.Middleware.Gate.{Decided, IsGate, http_error-sent}

module _ {W : Type 0} (lim : Limiters W) (rps burst period : ℤ) where
  abbrev pub script : Request → Served W → W × Option ℤ
  script r s = lim.run_gcra (rate_key r) rps period burst s.world

  -- The limit is switched off, the script admits the request, or it fails and the emergency limiter
  -- admits it.
  abbrev pub IsWithinRate : Request → Served W → Type 0
  IsWithinRate r s =
      (leb_ℤ rps (pos 0) ≡ true)
      ⊎ ((n : ℤ) × ((script r s).1 ≡ some n) × (leb_ℤ (pos 0) n ≡ false))
      ⊎ (((script r s).1 ≡ none) × ((lim.allow (script r s).0).1 ≡ true))

  abbrev pub RateRefused : Request → Served W → Served W → Type 0
  RateRefused r s s' =
      (leb_ℤ rps (pos 0) ≡ false)
      × (((n : ℤ) × ((script r s).1 ≡ some n)
            × (leb_ℤ (pos 0) n ≡ true)
            × HasSent s'.writer (status_after s.writer.sent 429))
          ⊎ (((script r s).1 ≡ none)
              × ((lim.allow (script r s).0).1 ≡ false)
              × HasSent s'.writer (status_after s.writer.sent 503)))

  abbrev pub RatePassed : Request → Served W → Request → Served W → Type 0
  RatePassed r s r' s' = (r' ≡ r) × (s'.writer.sent ≡ s.writer.sent) × IsWithinRate r s

  fall_back-Decided :
      (r : Request) (s : Served W) (answer : W × Bool)
      → Decided
          (λ s'. (answer.1 ≡ false) × HasSent s'.writer (status_after s.writer.sent 503))
          (λ r' s'. (r' ≡ r) × (s'.writer.sent ≡ s.writer.sent) × (answer.1 ≡ true))
          (λ next. fall_back lim rps burst period next r s answer)
  unfolding fall_back set_header
  fall_back-Decided r s (w, true) =
      inr (r, record s { world = w }, (refl, refl, refl), λ next. refl)
  fall_back-Decided r s (w, false) =
      inl
        (_, (refl, http_error-sent "Service Unavailable (Rate Limit Fallback)" 503 _), λ next. refl)

  -- The script's answer `res`, when the limit is switched on.
  abbrev JudgedRefused : Option ℤ → Served W → Served W → Type 0
  JudgedRefused res s s' =
      ((n : ℤ) × (res ≡ some n)
        × (leb_ℤ (pos 0) n ≡ true)
        × HasSent s'.writer (status_after s.writer.sent 429))
      ⊎ ((res ≡ none)
          × ((lim.allow s.world).1 ≡ false)
          × HasSent s'.writer (status_after s.writer.sent 503))

  judge-Decided :
      (r : Request) (s : Served W) (res : Option ℤ)
      → Decided
          (JudgedRefused res s)
          (λ r' s'.
            (r' ≡ r)
            × (s'.writer.sent ≡ s.writer.sent)
            × (((n : ℤ) × (res ≡ some n) × (leb_ℤ (pos 0) n ≡ false))
                ⊎ ((res ≡ none) × ((lim.allow s.world).1 ≡ true))))
          (λ next. judge lim rps burst period next r s res)
  unfolding judge set_header
  judge-Decided r s none = elim (fall_back-Decided r s (lim.allow s.world)) [
    | inl (s', (busy, sent), same) ↦ inl (s', inr (refl, busy, sent), same)
    | inr (r', s', (kept, unsent, free), same) ↦
        inr (r', s', (kept, unsent, inr (refl, free)), same)
  ]
  judge-Decided r s (some n) = elim (Bool-cases (leb_ℤ (pos 0) n)) [
    | inl limited ↦ inl (
      on_writer
          (λ o.
            http_error "Rate limit exceeded" 429
              (set_header "X-RateLimit-Limit" (itoa rps) (set_header "Retry-After" (itoa n) o)))
          s,
      inl (n, refl, limited, http_error-sent "Rate limit exceeded" 429 _),
      λ next. rw limited refl,
    )
    | inr free ↦ inr (
      r,
      on_writer (set_header "X-RateLimit-Limit" (itoa rps)) s,
      (refl, refl, inl (n, refl, free)),
      λ next. rw free refl,
    )
  ]

  pub rate_limit_middleware-IsGate :
      IsGate (rate_limit_middleware lim rps burst period) RateRefused RatePassed
  unfolding rate_limit_middleware
  rate_limit_middleware-IsGate = record {
    decides = λ r s. elim (Bool-cases (leb_ℤ rps (pos 0))) [
      | inl off ↦ inr (r, s, (refl, refl, inl off), λ next. rw off refl)
      | inr on ↦
          let (w, res) = script r s in
          elim (judge-Decided r (record s { world = w }) res) [
            | inl (s', refuses, same) ↦ inl (s', (on, refuses), λ next. rw on (same next))
            | inr (r', s', (kept, unsent, free), same) ↦
                inr (r', s', (kept, unsent, inr free), λ next. rw on (same next))
          ]
    ];
  }

module _ {W : Type 0} (locks : Locks W) (cfg : IdempotencyConfig) where
  abbrev pub lock : Request → Served W → W × Option Bool
  lock r s = locks.set_nx (redis_key (get_header r cfg.header_key)) cfg.expiry s.world

  -- The request has no key, or takes the lock of its key, or Redis fails and FailOpen is set.
  abbrev pub IsFirst : Request → Served W → Type 0
  IsFirst r s =
      (str_eq (get_header r cfg.header_key) "" ≡ true)
      ⊎ (((lock r s).1 ≡ some true) ⊎ (((lock r s).1 ≡ none) × (cfg.fail_open ≡ true)))

  abbrev pub KeyRefused : Request → Served W → Served W → Type 0
  KeyRefused r s s' =
      (str_eq (get_header r cfg.header_key) "" ≡ false)
      × ((((lock r s).1 ≡ some false) × HasSent s'.writer (status_after s.writer.sent 409))
          ⊎ (((lock r s).1 ≡ none)
              × (cfg.fail_open ≡ false)
              × HasSent s'.writer (status_after s.writer.sent 503)))

  abbrev pub KeyPassed : Request → Served W → Request → Served W → Type 0
  KeyPassed r s r' s' = (r' ≡ r) × (s'.writer ≡ s.writer) × IsFirst r s

  acquired-Decided :
      (r : Request) (s : Served W) (success : Option Bool)
      → Decided
          (λ s'.
            ((success ≡ some false) × HasSent s'.writer (status_after s.writer.sent 409))
            ⊎ ((success ≡ none)
                × (cfg.fail_open ≡ false)
                × HasSent s'.writer (status_after s.writer.sent 503)))
          (λ r' s'.
            (r' ≡ r)
            × (s'.writer ≡ s.writer)
            × ((success ≡ some true) ⊎ ((success ≡ none) × (cfg.fail_open ≡ true))))
          (λ next. acquired locks cfg next r s success)
  unfolding acquired set_header
  acquired-Decided r s none = elim (Bool-cases cfg.fail_open) [
    | inl bypass ↦ inr (
      r,
      logged "idempotency: bypassed check due to redis failure"
          (logged "idempotency: redis unreachable" s),
      (refl, refl, inr (refl, bypass)),
      λ next. rw bypass refl,
    )
    | inr closed ↦ inl (
      on_writer (http_error "Idempotency check service unavailable" 503)
          (logged "idempotency: redis unreachable" s),
      inr (refl, closed, http_error-sent "Idempotency check service unavailable" 503 _),
      λ next. rw closed refl,
    )
  ]
  acquired-Decided r s (some true) = inr (r, s, (refl, refl, inl refl), λ next. refl)
  acquired-Decided r s (some false) =
      inl (_, inl (refl, http_error-sent "Duplicate request detected" 409 _), λ next. refl)

  pub idempotency_middleware-IsGate : IsGate (idempotency_middleware locks cfg) KeyRefused KeyPassed
  unfolding idempotency_middleware
  idempotency_middleware-IsGate = record {
    decides = λ r s. elim (Bool-cases (str_eq (get_header r cfg.header_key) "")) [
      | inl unnamed ↦ inr (r, s, (refl, refl, inl unnamed), λ next. rw unnamed refl)
      | inr named ↦
          let (w, success) = lock r s in
          elim (acquired-Decided r (record s { world = w }) success) [
            | inl (s', refuses, same) ↦ inl (s', (named, refuses), λ next. rw named (same next))
            | inr (r', s', (kept, unsent, first), same) ↦
                inr (r', s', (kept, unsent, inr first), λ next. rw named (same next))
          ]
    ];
  }
