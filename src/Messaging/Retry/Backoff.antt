-- ===== src/Messaging/Retry/Backoff.antt =====
-- The waits of the retry loop: exponential backoff, capped, and free of overflow.
use Prim.Native.Nat.{min}
use native.Mathlib.Nat.{pow-suc}
use helix_fnd.Prelude.{
  ℕ, zero, suc, ◌*◌, ◌^◌, ◌<◌, ◌≡◌, refl, ◌⊎◌, inl, inr, ℤ, pos, List, [], ◌∷◌, some, arith,
}
use helix_fnd.Messaging.Env.{ConsumerConfig, KafkaRecord, Action, slept, Env, Run}
use helix_fnd.Messaging.Retry.{Outcome, next_backoff, stop, turn, retry, process_with_retry}
use helix_fnd.Messaging.Retry.Turns.{Turn-cases, turn-again}

-- The durations slept, the latest first.
abbrev pub waits : List Action → List ℤ
waits [] = []
waits (slept d ∷ t) = d ∷ waits t
waits (a ∷ t) = waits t

-- The wait after `k` waits: the initial one in full, then its k-th doubling, capped.
abbrev pub wait_at : ℕ → ℕ → ℕ → ℕ
wait_at initial most zero = initial
wait_at initial most (suc k) = min (initial * 2 ^ suc k) most

-- The first `k` waits, the latest first.
abbrev pub schedule : ℕ → ℕ → ℕ → List ℤ
schedule initial most zero = []
schedule initial most (suc k) = pos (wait_at initial most k) ∷ schedule initial most k

double_step : (p most : ℕ) → min (min p most * 2) most ≡ min (p * 2) most
double_step p most = omega arith

next_of_pos :
    (cfg : ConsumerConfig) (b most : ℕ)
    → cfg.max_backoff ≡ pos most
    → b < 2 ^ 62
    → next_backoff cfg (pos b) ≡ pos (min (b * 2) most)
unfolding next_backoff
next_of_pos cfg b most m h = ground arith

wait_at_cap :
    (initial most k : ℕ) → min (wait_at initial most k * 2) most ≡ wait_at initial most (suc k)
wait_at_cap initial most zero = refl
wait_at_cap initial most (suc k) =
    let doubled : initial * 2 ^ suc (suc k) ≡ initial * 2 ^ suc k * 2 =
      rw (pow-suc 2 (suc k)) (omega arith) in
    omega (arith, doubled)

wait_at_small :
    (initial most k : ℕ) → initial < 2 ^ 62 → most < 2 ^ 62 → wait_at initial most k < 2 ^ 62
wait_at_small initial most zero h m = h
wait_at_small initial most (suc k) h m = omega arith

module _ {W Ctx : Type 0} (env : Env W Ctx) (cfg : ConsumerConfig) (ctx : Ctx)
    (rec : KafkaRecord) where
  -- A returning turn sleeps at most once more, for its own backoff, when the context is done.
  waits-stop :
      (s s' : Run W) (attempt : ℕ) (b : ℤ) (o : Outcome)
      → turn env cfg ctx rec s attempt b ≡ stop s' o
      → (waits s'.trace ≡ waits s.trace) ⊎ (waits s'.trace ≡ b ∷ waits s.trace)
  unfolding turn
  waits-stop s s' attempt b o h = ground arith

  module _ (initial most : ℕ) (capped : cfg.max_backoff ≡ pos most) (small : initial < 2 ^ 62)
      (small_cap : most < 2 ^ 62) where
    retry-schedule :
        (fuel : ℕ) (s s' : Run W) (attempt k : ℕ) (b : ℤ) (o : Outcome)
        → b ≡ pos (wait_at initial most k)
        → waits s.trace ≡ schedule initial most k
        → retry env cfg ctx rec fuel s attempt b ≡ some (s', o)
        → (j : ℕ) × (waits s'.trace ≡ schedule initial most j)
    unfolding retry
    retry-schedule zero s s' attempt k b o eb ew h = cc
    retry-schedule (suc fuel) s s' attempt k b o eb ew h =
        elim (Turn-cases (turn env cfg ctx rec s attempt b)) [
          | inl (s₁, o₁, e) ↦ elim (waits-stop s s₁ attempt b o₁ e) [
            | inl same ↦ (k, ground arith)
            | inr more ↦ (suc k, ground arith)
          ]
          | inr (s₁, attempt', b', e) ↦
              let facts = turn-again env cfg ctx rec s s₁ attempt attempt' b b' e in
              let next =
                next_of_pos cfg (wait_at initial most k) most capped
                  (wait_at_small initial most k small small_cap) in
              let next_b : b' ≡ pos (wait_at initial most (suc k)) =
                cc (facts.1, eb, next, wait_at_cap initial most k) in
              let longer : waits s₁.trace ≡ schedule initial most (suc k) = ground arith in
              retry-schedule fuel s₁ s' attempt' (suc k) b' o next_b longer (ground arith)
        ]

    -- The durations slept are an initial part of the schedule: InitialBackoff first, whatever the
    -- cap, then each time the double, at most MaxBackoff. No doubling wraps below 2^62.
    pub process_with_retry-schedule :
        (fuel : ℕ) (s s' : Run W) (o : Outcome)
        → cfg.initial_backoff ≡ pos initial
        → waits s.trace ≡ []
        → process_with_retry env cfg ctx rec fuel s ≡ some (s', o)
        → (j : ℕ) × (waits s'.trace ≡ schedule initial most j)
    unfolding process_with_retry
    process_with_retry-schedule fuel s s' o e w h =
        retry-schedule fuel s s' 0 0 cfg.initial_backoff o e w h
