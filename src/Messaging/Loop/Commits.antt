-- ===== src/Messaging/Loop/Commits.antt =====
-- Which records `Start` commits.
use helix_fnd.Prelude.{
  ℕ, zero, suc, ◌≡◌, refl, ◌⊎◌, inl, inr, Bool, true, false, List, [], ◌∷◌, Option, none, some,
  arith, Option-cases,
}
use helix_fnd.Messaging.Env.{
  ConsumerConfig, KafkaRecord, PollResult, poll_failed, fetched, logged, polled, span_started,
  after, Env, Run,
}
use helix_fnd.Messaging.Retry.{Outcome, ack, fail, panics, process_with_retry}
use helix_fnd.Messaging.Retry.Turns.{IsLawful, Settled}
use helix_fnd.Messaging.Retry.Attempts.{process_with_retry-ack}
use helix_fnd.Messaging.Retry.Traces.{AllSettled, process_with_retry-AllSettled}
use helix_fnd.Messaging.Loop.{
  Progress, go_on, returned, commit, settle, one_record, batch, start, carrier,
}

abbrev pub run_of : {W Ctx : Type 0} → Progress W Ctx → Run W
run_of (go_on s ctx) = s
run_of (returned s o) = s

pub Progress-cases :
    {W Ctx : Type 0} (p : Option (Progress W Ctx))
    → (p ≡ none)
      ⊎ (((s : Run W) × (ctx : Ctx) × (p ≡ some (go_on s ctx)))
          ⊎ ((s : Run W) × (o : Outcome) × (p ≡ some (returned s o))))
Progress-cases none = inl refl
Progress-cases (some (go_on s ctx)) = inr (inl (s, ctx, refl))
Progress-cases (some (returned s o)) = inr (inr (s, o, refl))

pub PollResult-cases :
    (r : PollResult)
    → ((canceled : Bool) × (recs : List KafkaRecord) × (r ≡ poll_failed canceled recs))
      ⊎ ((recs : List KafkaRecord) × (r ≡ fetched recs))
PollResult-cases (poll_failed canceled recs) = inl (canceled, recs, refl)
PollResult-cases (fetched recs) = inr (recs, refl)

module _ {W Ctx : Type 0} (env : Env W Ctx) (cfg : ConsumerConfig) where
  settle-AllSettled :
      (next span : Ctx) (rec : KafkaRecord) (s : Run W) (o : Outcome)
      → (o ≡ ack → Settled cfg rec s.trace)
      → AllSettled cfg s.trace
      → AllSettled cfg (run_of (settle env cfg next span rec (s, o))).trace
  unfolding settle commit
  settle-AllSettled next span rec s ack settled h = ground (arith, settled refl)
  settle-AllSettled next span rec s (fail e) settled h = h
  settle-AllSettled next span rec s (panics msg) settled h = h

  one_record-AllSettled :
      (fuel : ℕ) (ctx : Ctx) (rec : KafkaRecord) (s : Run W) (p : Progress W Ctx)
      → IsLawful env
      → AllSettled cfg s.trace
      → one_record env cfg fuel ctx rec s ≡ some p
      → AllSettled cfg (run_of p).trace
  unfolding one_record
  one_record-AllSettled fuel ctx rec s p law h e =
      let next = env.extract ctx (carrier rec.headers) in
      let span = env.start_span next rec in
      let begun = after s s.world (span_started rec) in
      elim (Option-cases (process_with_retry env cfg span rec fuel begun)) [
        | inl out ↦ absurd (cc (rw (out, one_record) at e))
        | inr ((s', o), r) ↦
            let settled : settle env cfg next span rec (s', o) ≡ p = ground arith in
            rw (← settled) (
              settle-AllSettled next span rec s' o
                (λ a. process_with_retry-ack env cfg span rec fuel begun s' law (rw (← a) r))
                (process_with_retry-AllSettled env cfg span rec fuel begun s' o h r))
      ]

  batch-AllSettled :
      (fuel : ℕ) (ctx : Ctx) (recs : List KafkaRecord) (s : Run W) (p : Progress W Ctx)
      → IsLawful env
      → AllSettled cfg s.trace
      → batch env cfg fuel ctx recs s ≡ some p
      → AllSettled cfg (run_of p).trace
  unfolding batch
  batch-AllSettled fuel ctx [] s p law h e = ground arith
  batch-AllSettled fuel ctx (rec ∷ recs) s p law h e =
      elim (Progress-cases (one_record env cfg fuel ctx rec s)) [
        | inl out ↦ absurd (ground arith)
        | inr (inl (s', ctx', r)) ↦
            batch-AllSettled fuel ctx' recs s' p law
              (one_record-AllSettled fuel ctx rec s (go_on s' ctx') law h r) (ground arith)
        | inr (inr (s', o, r)) ↦
            let same : returned s' o ≡ p = ground arith in
            rw (← same) (one_record-AllSettled fuel ctx rec s (returned s' o) law h r)
      ]

  start-AllSettled_from :
      (polls fuel : ℕ) (ctx : Ctx) (s : Run W) (p : Progress W Ctx)
      → IsLawful env
      → AllSettled cfg s.trace
      → start env cfg polls fuel ctx s ≡ some p
      → AllSettled cfg (run_of p).trace
  unfolding start
  start-AllSettled_from zero fuel ctx s p law h e = ground arith
  start-AllSettled_from (suc polls) fuel ctx s p law h e =
      let w = (env.poll_fetches ctx s.world).0 in
      let waited = record s { world = w } in
      elim (PollResult-cases (env.poll_fetches ctx s.world).1) [
        | inl (true, recs, r) ↦ ground arith
        | inl (false, recs, r) ↦
            start-AllSettled_from polls fuel ctx (after waited w (logged "Poll error")) p law h
              (ground arith)
        | inr (recs, r) ↦
            elim (Progress-cases (batch env cfg fuel ctx recs (after waited w (polled recs)))) [
              | inl out ↦ absurd (ground arith)
              | inr (inl (s', ctx', b)) ↦
                  start-AllSettled_from polls fuel ctx' s' p law
                    (batch-AllSettled fuel ctx recs (after waited w (polled recs)) (go_on s' ctx')
                      law h b)
                    (ground arith)
              | inr (inr (s', o, b)) ↦
                  let same : returned s' o ≡ p = ground arith in
                  rw (← same) (
                    batch-AllSettled fuel ctx recs (after waited w (polled recs)) (returned s' o)
                      law h b)
            ]
      ]

  -- However many batches are polled, an offset is committed only right after the span of its record
  -- ended, and that right after the record was settled: its handler succeeded, the dead-letter queue
  -- took it, or the permissive policy dropped it with a log line.
  pub start-AllSettled :
      (polls fuel : ℕ) (ctx : Ctx) (w : W) (p : Progress W Ctx)
      → IsLawful env
      → start env cfg polls fuel ctx (record { world = w; trace = [] }) ≡ some p
      → AllSettled cfg (run_of p).trace
  start-AllSettled polls fuel ctx w p law e =
      start-AllSettled_from polls fuel ctx (record { world = w; trace = [] }) p law tt e
