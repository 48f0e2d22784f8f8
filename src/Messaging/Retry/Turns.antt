-- ===== src/Messaging/Retry/Turns.antt =====
-- One turn of the retry loop: what the next turn starts from, and what a return leaves behind.
use helix_fnd.Prelude.{
  ℕ, ◌+◌, ◌≡◌, refl, ◌≤◌, ◌<◌, ◌≤ℤ◌, pos, ◌⊎◌, inl, inr, ℤ, String, Bool, true, false, List, [],
  ◌∷◌, Option, none, some, arith, count,
}
use helix_fnd.Messaging.Env.{
  Err, ConsumerConfig, KafkaRecord, Action, HandlerEnd, handler_returns, handler_panics,
  handler_panicked, handled, published, slept, logged, Env, Run,
}
use helix_fnd.Messaging.Retry.{Outcome, ack, is_exhausted, next_backoff, Turn, stop, again, turn}

-- `ctx.Done()` fires only for a context whose `Err` is not nil, as package context documents.
pub record IsLawful {W Ctx : Type 0} (env : Env W Ctx) : Type 0 where
  pub done :
      (ctx : Ctx) (d : ℤ) (w : W)
      → (env.sleep ctx d w).1 ≡ false
      → (e : Err) × (env.ctx_err ctx (env.sleep ctx d w).0 ≡ some e)

abbrev pub is_handled : Action → Bool
is_handled (handled key value r) = true
is_handled (handler_panicked key value msg) = true
is_handled _ = false

abbrev pub is_published : Action → Bool
is_published (published topic key value r) = true
is_published _ = false

abbrev pub is_drop : Option Action → Bool
is_drop (some (logged text)) = true
is_drop _ = false

abbrev pub latest : List Action → Option Action
latest [] = none
latest (a ∷ t) = some a

-- How a record comes to be committed: its handler succeeded, the dead-letter queue took it, or the
-- permissive policy dropped it and logged that.
abbrev pub Settled : ConsumerConfig → KafkaRecord → List Action → Type 0
Settled cfg rec t =
    (latest t ≡ some (handled rec.key rec.value none))
    ⊎ ((latest t ≡ some (published cfg.dlq_topic rec.key rec.value none))
        ⊎ ((cfg.strict_mode ≡ false) × (is_drop (latest t) ≡ true)))

pub Turn-cases :
    {W : Type 0} (t : Turn W)
    → ((s : Run W) × (o : Outcome) × (t ≡ stop s o))
      ⊎ ((s : Run W) × (n : ℕ) × (b : ℤ) × (t ≡ again s n b))
Turn-cases (stop s o) = inl (s, o, refl)
Turn-cases (again s n b) = inr (s, n, b, refl)

HandlerEnd-cases :
    (r : HandlerEnd)
    → ((msg : String) × (r ≡ handler_panics msg))
      ⊎ ((r ≡ handler_returns none) ⊎ ((err : Err) × (r ≡ handler_returns (some err))))
HandlerEnd-cases (handler_panics msg) = inl (msg, refl)
HandlerEnd-cases (handler_returns none) = inr (inl refl)
HandlerEnd-cases (handler_returns (some err)) = inr (inr (err, refl))

module _ {W Ctx : Type 0} (env : Env W Ctx) (cfg : ConsumerConfig) (ctx : Ctx)
    (rec : KafkaRecord) where
  -- Another turn follows only a failed attempt that leaves retries, and it counts it.
  pub turn-again :
      (s s' : Run W) (attempt attempt' : ℕ) (b b' : ℤ)
      → turn env cfg ctx rec s attempt b ≡ again s' attempt' b'
      → (attempt' ≡ attempt + 1)
        × (b' ≡ next_backoff cfg b)
        × (is_exhausted cfg (attempt + 1) ≡ false)
        × ((err : Err) × ((env.handler ctx rec.key rec.value s.world).1
              ≡ handler_returns (some err))
            × (s'.trace
                ≡ slept b
                  ∷ logged "Transient failure, retrying..."
                  ∷ handled rec.key rec.value (some err)
                  ∷ s.trace))
  unfolding turn
  turn-again s s' attempt attempt' b b' h =
      elim (HandlerEnd-cases (env.handler ctx rec.key rec.value s.world).1) [
        | inl (msg, e) ↦ absurd (ground arith)
        | inr (inl e) ↦ absurd (ground arith)
        | inr (inr (err, e)) ↦ (ground arith, ground arith, ground arith, (err, e, ground arith))
      ]

  -- A turn that acknowledges the record has settled it.
  pub turn-ack :
      (s s' : Run W) (attempt : ℕ) (b : ℤ)
      → IsLawful env
      → turn env cfg ctx rec s attempt b ≡ stop s' ack
      → Settled cfg rec s'.trace
  unfolding turn
  turn-ack s s' attempt b law h =
      ground (arith, law.done ctx b (env.handler ctx rec.key rec.value s.world).0)

  -- What a returning turn adds: one attempt at most, and a dead letter only after an attempt that
  -- used the retries up.
  pub turn-stop :
      (s s' : Run W) (attempt : ℕ) (b : ℤ) (o : Outcome)
      → turn env cfg ctx rec s attempt b ≡ stop s' o
      → (count is_handled s'.trace ≤ count is_handled s.trace + 1)
        × ((count is_published s'.trace ≡ count is_published s.trace)
            ⊎ ((is_exhausted cfg (attempt + 1) ≡ true)
                × (count is_published s'.trace ≡ count is_published s.trace + 1)
                × (count is_handled s'.trace ≡ count is_handled s.trace + 1)))
  unfolding turn
  turn-stop s s' attempt b o h = ground arith

  -- While retries are left, the record is acknowledged for a successful attempt only.
  pub turn-ack_left :
      (s s' : Run W) (attempt : ℕ) (b : ℤ)
      → IsLawful env
      → is_exhausted cfg (attempt + 1) ≡ false
      → turn env cfg ctx rec s attempt b ≡ stop s' ack
      → latest s'.trace ≡ some (handled rec.key rec.value none)
  unfolding turn
  turn-ack_left s s' attempt b law left h =
      ground (arith, law.done ctx b (env.handler ctx rec.key rec.value s.world).0)

pub is_exhausted_of_unlimited :
    (cfg : ConsumerConfig) (n : ℕ) → cfg.max_retries ≤ℤ pos 0 → is_exhausted cfg n ≡ false
is_exhausted_of_unlimited cfg n h = ground arith

pub exhausted_at :
    (cfg : ConsumerConfig) (n k : ℕ)
    → cfg.max_retries ≡ pos n
    → k < n
    → is_exhausted cfg (k + 1) ≡ true
    → n ≡ k + 1
exhausted_at cfg n k m h e = ground arith

pub left_at :
    (cfg : ConsumerConfig) (n k : ℕ)
    → cfg.max_retries ≡ pos n
    → k < n
    → is_exhausted cfg (k + 1) ≡ false
    → k + 1 < n
left_at cfg n k m h e = ground arith
