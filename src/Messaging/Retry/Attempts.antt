-- ===== src/Messaging/Retry/Attempts.antt =====
-- The retry loop as a whole: that it ends, how often it calls the handler, and what it leaves behind.
use helix_fnd.Prelude.{
  ℕ, zero, suc, ◌+◌, ◌≤◌, ◌<◌, ◌≡◌, refl, ◌⊎◌, inl, inr, ℤ, pos, none, some, arith, count, ◌≤ℤ◌,
}
use helix_fnd.Messaging.Env.{ConsumerConfig, KafkaRecord, handled, Env, Run}
use helix_fnd.Messaging.Retry.{Outcome, ack, stop, turn, retry, process_with_retry}
use helix_fnd.Messaging.Retry.Turns.{
  IsLawful, is_handled, is_published, Settled, Turn-cases, turn-again, turn-ack, turn-stop,
  exhausted_at, left_at, latest, turn-ack_left, is_exhausted_of_unlimited,
}

-- What the loop adds to the trace from attempt `k` on, of `n`.
abbrev pub Quarantined : {W : Type 0} → ℕ → ℕ → Run W → Run W → Type 0
Quarantined n k s s' =
    (count is_handled s'.trace + k ≤ count is_handled s.trace + n)
    × ((count is_published s'.trace ≡ count is_published s.trace)
        ⊎ ((count is_published s'.trace ≡ count is_published s.trace + 1)
            × (count is_handled s'.trace + k ≡ count is_handled s.trace + n)))

module _ {W Ctx : Type 0} (env : Env W Ctx) (cfg : ConsumerConfig) (ctx : Ctx)
    (rec : KafkaRecord) where
  retry_total :
      (n fuel : ℕ) (s : Run W) (attempt : ℕ) (b : ℤ)
      → cfg.max_retries ≡ pos n
      → attempt < n
      → n ≤ attempt + fuel
      → (r : Run W × Outcome) × (retry env cfg ctx rec fuel s attempt b ≡ some r)
  unfolding retry
  retry_total n zero s attempt b m h k = absurd (omega arith)
  retry_total n (suc fuel) s attempt b m h k =
      elim (Turn-cases (turn env cfg ctx rec s attempt b)) [
        | inl (s', o, e) ↦ ((s', o), rw (e, retry) refl)
        | inr (s', attempt', b', e) ↦
            let (counted, _, left, _) = turn-again env cfg ctx rec s s' attempt attempt' b b' e in
            rw (e, retry) (retry_total n fuel s' attempt' b' m (ground arith) (omega arith))
      ]

  -- With a positive MaxRetries the loop returns, and MaxRetries turns are enough fuel.
  pub process_with_retry_total :
      (n : ℕ) (s : Run W)
      → cfg.max_retries ≡ pos n
      → 0 < n
      → (r : Run W × Outcome) × (process_with_retry env cfg ctx rec n s ≡ some r)
  unfolding process_with_retry
  process_with_retry_total n s m h = retry_total n n s 0 cfg.initial_backoff m h (omega arith)

  retry-ack :
      (fuel : ℕ) (s s' : Run W) (attempt : ℕ) (b : ℤ)
      → IsLawful env
      → retry env cfg ctx rec fuel s attempt b ≡ some (s', ack)
      → Settled cfg rec s'.trace
  unfolding retry
  retry-ack zero s s' attempt b law h = cc
  retry-ack (suc fuel) s s' attempt b law h = elim (Turn-cases (turn env cfg ctx rec s attempt b)) [
    | inl (s₁, o, e) ↦ turn-ack env cfg ctx rec s s' attempt b law (ground arith)
    | inr (s₁, attempt', b', e) ↦ retry-ack fuel s₁ s' attempt' b' law (ground arith)
  ]

  -- A record is acknowledged only if its handler's last call succeeded, the dead-letter queue took it
  -- in the last call, or the policy is permissive and it was dropped with a log line.
  pub process_with_retry-ack :
      (fuel : ℕ) (s s' : Run W)
      → IsLawful env
      → process_with_retry env cfg ctx rec fuel s ≡ some (s', ack)
      → Settled cfg rec s'.trace
  unfolding process_with_retry
  process_with_retry-ack fuel s s' law h = retry-ack fuel s s' 0 cfg.initial_backoff law h

  retry-Quarantined :
      (n fuel : ℕ) (s s' : Run W) (attempt : ℕ) (b : ℤ) (o : Outcome)
      → cfg.max_retries ≡ pos n
      → attempt < n
      → retry env cfg ctx rec fuel s attempt b ≡ some (s', o)
      → Quarantined n attempt s s'
  unfolding retry
  retry-Quarantined n zero s s' attempt b o m k h = cc
  retry-Quarantined n (suc fuel) s s' attempt b o m k h =
      elim (Turn-cases (turn env cfg ctx rec s attempt b)) [
        | inl (s₁, o₁, e) ↦
            let same : (s₁ ≡ s') × (o₁ ≡ o) = ground arith in
            let t : turn env cfg ctx rec s attempt b ≡ stop s' o = cc (same.0, same.1, e) in
            ground
              (arith, turn-stop env cfg ctx rec s s' attempt b o t, exhausted_at cfg n attempt m k)
        | inr (s₁, attempt', b', e) ↦
            let facts = turn-again env cfg ctx rec s s₁ attempt attempt' b b' e in
            let room = left_at cfg n attempt m k facts.2 in
            let ih = retry-Quarantined n fuel s₁ s' attempt' b' o m (omega arith) (ground arith) in
            ground arith
      ]

  -- With MaxRetries `n > 0` the handler is called `n` times at most, and a dead letter is published
  -- only after exactly `n` calls, and then once.
  pub process_with_retry-Quarantined :
      (n fuel : ℕ) (s s' : Run W) (o : Outcome)
      → cfg.max_retries ≡ pos n
      → 0 < n
      → process_with_retry env cfg ctx rec fuel s ≡ some (s', o)
      → Quarantined n 0 s s'
  unfolding process_with_retry
  process_with_retry-Quarantined n fuel s s' o m h e =
      retry-Quarantined n fuel s s' 0 cfg.initial_backoff o m h e

  retry-ack_unlimited :
      (fuel : ℕ) (s s' : Run W) (attempt : ℕ) (b : ℤ)
      → IsLawful env
      → cfg.max_retries ≤ℤ pos 0
      → retry env cfg ctx rec fuel s attempt b ≡ some (s', ack)
      → latest s'.trace ≡ some (handled rec.key rec.value none)
  unfolding retry
  retry-ack_unlimited zero s s' attempt b law m h = cc
  retry-ack_unlimited (suc fuel) s s' attempt b law m h =
      elim (Turn-cases (turn env cfg ctx rec s attempt b)) [
        | inl (s₁, o, e) ↦
            turn-ack_left env cfg ctx rec s s' attempt b law
              (is_exhausted_of_unlimited cfg (attempt + 1) m) (ground arith)
        | inr (s₁, attempt', b', e) ↦
            retry-ack_unlimited fuel s₁ s' attempt' b' law m (ground arith)
      ]

  -- With MaxRetries at most 0 a record is acknowledged only after its handler succeeded.
  pub process_with_retry-ack_unlimited :
      (fuel : ℕ) (s s' : Run W)
      → IsLawful env
      → cfg.max_retries ≤ℤ pos 0
      → process_with_retry env cfg ctx rec fuel s ≡ some (s', ack)
      → latest s'.trace ≡ some (handled rec.key rec.value none)
  unfolding process_with_retry
  process_with_retry-ack_unlimited fuel s s' law m h =
      retry-ack_unlimited fuel s s' 0 cfg.initial_backoff law m h
