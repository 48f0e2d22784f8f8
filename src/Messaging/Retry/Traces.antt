-- ===== src/Messaging/Retry/Traces.antt =====
-- The retry loop commits nothing: what it leaves unchanged in the trace.
use helix_fnd.Prelude.{
  ℕ, zero, suc, ◌≡◌, ◌∙◌, inl, inr, ℤ, List, [], ◌∷◌, ◌++◌, reverse, some, arith,
}
use helix_fnd.Messaging.Env.{
  ConsumerConfig, KafkaRecord, Action, committed, polled, span_ended, Env, Run,
}
use helix_fnd.Messaging.Retry.{Outcome, Turn, stop, again, turn, retry, process_with_retry}
use helix_fnd.Messaging.Retry.Turns.{Settled, Turn-cases}

-- The end of a record's span, right after the action that settled it.
abbrev pub SettledInSpan : ConsumerConfig → KafkaRecord → List Action → Type 0
SettledInSpan cfg rec (span_ended ∷ t) = Settled cfg rec t
SettledInSpan cfg rec t = ⊥

-- Every commit in the trace comes right after the end of the span in which its record was settled.
abbrev pub AllSettled : ConsumerConfig → List Action → Type 0
AllSettled cfg [] = Unit
AllSettled cfg (committed rec r ∷ t) = SettledInSpan cfg rec t × AllSettled cfg t
AllSettled cfg (a ∷ t) = AllSettled cfg t

-- The records that CommitRecords was called for, with whatever success, the latest first.
abbrev pub commit_calls : List Action → List KafkaRecord
commit_calls [] = []
commit_calls (committed rec r ∷ t) = rec ∷ commit_calls t
commit_calls (a ∷ t) = commit_calls t

-- The records that were polled, the latest first.
abbrev pub fetches : List Action → List KafkaRecord
fetches [] = []
fetches (polled recs ∷ t) = reverse recs ++ fetches t
fetches (a ∷ t) = fetches t

abbrev turn_run : {W : Type 0} → Turn W → Run W
turn_run (stop s o) = s
turn_run (again s n b) = s

module _ {W Ctx : Type 0} (env : Env W Ctx) (cfg : ConsumerConfig) (ctx : Ctx)
    (rec : KafkaRecord) where
  turn-AllSettled :
      (s : Run W) (attempt : ℕ) (b : ℤ)
      → AllSettled cfg s.trace
      → AllSettled cfg (turn_run (turn env cfg ctx rec s attempt b)).trace
  unfolding turn
  turn-AllSettled s attempt b h = ground arith

  retry-AllSettled :
      (fuel : ℕ) (s s' : Run W) (attempt : ℕ) (b : ℤ) (o : Outcome)
      → AllSettled cfg s.trace
      → retry env cfg ctx rec fuel s attempt b ≡ some (s', o)
      → AllSettled cfg s'.trace
  unfolding retry
  retry-AllSettled zero s s' attempt b o h e = cc
  retry-AllSettled (suc fuel) s s' attempt b o h e =
      let kept = turn-AllSettled s attempt b h in
      elim (Turn-cases (turn env cfg ctx rec s attempt b)) [
        | inl (s₁, o₁, t) ↦ ground arith
        | inr (s₁, attempt', b', t) ↦
            retry-AllSettled fuel s₁ s' attempt' b' o (rw t at kept) (ground arith)
      ]

  pub process_with_retry-AllSettled :
      (fuel : ℕ) (s s' : Run W) (o : Outcome)
      → AllSettled cfg s.trace
      → process_with_retry env cfg ctx rec fuel s ≡ some (s', o)
      → AllSettled cfg s'.trace
  unfolding process_with_retry
  process_with_retry-AllSettled fuel s s' o h e =
      retry-AllSettled fuel s s' 0 cfg.initial_backoff o h e

  -- What every turn leaves as it is, the loop leaves as it is.
  module _ {A : Type 0} (of : List Action → A)
      (kept_by_turn : (s : Run W) (attempt : ℕ) (b : ℤ)
        → of (turn_run (turn env cfg ctx rec s attempt b)).trace ≡ of s.trace) where
    retry-keeps :
        (fuel : ℕ) (s s' : Run W) (attempt : ℕ) (b : ℤ) (o : Outcome)
        → retry env cfg ctx rec fuel s attempt b ≡ some (s', o)
        → of s'.trace ≡ of s.trace
    unfolding retry
    retry-keeps zero s s' attempt b o e = cc
    retry-keeps (suc fuel) s s' attempt b o e =
        let kept = kept_by_turn s attempt b in
        elim (Turn-cases (turn env cfg ctx rec s attempt b)) [
          | inl (s₁, o₁, t) ↦ ground arith
          | inr (s₁, attempt', b', t) ↦
              retry-keeps fuel s₁ s' attempt' b' o (ground arith) ∙ (rw t at kept)
        ]

    process_with_retry-keeps :
        (fuel : ℕ) (s s' : Run W) (o : Outcome)
        → process_with_retry env cfg ctx rec fuel s ≡ some (s', o)
        → of s'.trace ≡ of s.trace
    unfolding process_with_retry
    process_with_retry-keeps fuel s s' o e = retry-keeps fuel s s' 0 cfg.initial_backoff o e

  commit_calls-turn :
      (s : Run W) (attempt : ℕ) (b : ℤ)
      → commit_calls (turn_run (turn env cfg ctx rec s attempt b)).trace ≡ commit_calls s.trace
  unfolding turn
  commit_calls-turn s attempt b = ground arith

  pub commit_calls-process_with_retry :
      (fuel : ℕ) (s s' : Run W) (o : Outcome)
      → process_with_retry env cfg ctx rec fuel s ≡ some (s', o)
      → commit_calls s'.trace ≡ commit_calls s.trace
  commit_calls-process_with_retry = process_with_retry-keeps commit_calls commit_calls-turn

  fetches-turn :
      (s : Run W) (attempt : ℕ) (b : ℤ)
      → fetches (turn_run (turn env cfg ctx rec s attempt b)).trace ≡ fetches s.trace
  unfolding turn
  fetches-turn s attempt b = ground arith

  pub fetches-process_with_retry :
      (fuel : ℕ) (s s' : Run W) (o : Outcome)
      → process_with_retry env cfg ctx rec fuel s ≡ some (s', o)
      → fetches s'.trace ≡ fetches s.trace
  fetches-process_with_retry = process_with_retry-keeps fetches fetches-turn
