-- ===== src/Messaging/Loop/Gapless.antt =====
-- What CommitRecords is called for, of what was polled, over a whole run of `Start`.
use mathlib.Core.List.{append_assoc, reverse-append, reverse-cons}
use helix_fnd.Prelude.{
  ℕ, zero, suc, ◌≡◌, ◌≢◌, ◌∙◌, refl, ap, sym, inl, inr, true, false, List, [], ◌∷◌, ◌++◌, some,
  arith, Option-cases, reverse,
}
use helix_fnd.Messaging.Env.{
  ConsumerConfig, KafkaRecord, poll_failed, logged, polled, span_started, after, Env, Run,
}
use helix_fnd.Messaging.Retry.{Outcome, ack, fail, panics, process_with_retry}
use helix_fnd.Messaging.Retry.Traces.{commit_calls, fetches, fetches-process_with_retry}
use helix_fnd.Messaging.Loop.{
  Progress, go_on, returned, carrier, commit, settle, one_record, batch, start,
}
use helix_fnd.Messaging.Loop.Commits.{Progress-cases, PollResult-cases}
use helix_fnd.Messaging.Loop.Order.{Ordered, batch-Ordered}

module _ {W Ctx : Type 0} (env : Env W Ctx) (cfg : ConsumerConfig) where
  -- A batch polls nothing, and does not return with success.
  abbrev KeepsFetches : Run W → Progress W Ctx → Type 0
  KeepsFetches s (go_on s' ctx) = fetches s'.trace ≡ fetches s.trace
  KeepsFetches s (returned s' o) = (fetches s'.trace ≡ fetches s.trace) × (o ≢ ack)

  settle-KeepsFetches :
      (next span : Ctx) (rec : KafkaRecord) (s s' : Run W) (o : Outcome)
      → fetches s'.trace ≡ fetches s.trace
      → KeepsFetches s (settle env cfg next span rec (s', o))
  unfolding settle commit
  settle-KeepsFetches next span rec s s' ack h = ground (arith, h)
  settle-KeepsFetches next span rec s s' (fail e) h = (h, λ same. cc)
  settle-KeepsFetches next span rec s s' (panics msg) h = (h, λ same. cc)

  one_record-KeepsFetches :
      (fuel : ℕ) (ctx : Ctx) (rec : KafkaRecord) (s : Run W) (p : Progress W Ctx)
      → one_record env cfg fuel ctx rec s ≡ some p
      → KeepsFetches s p
  unfolding one_record
  one_record-KeepsFetches fuel ctx rec s p e =
      let next = env.extract ctx (carrier rec.headers) in
      let span = env.start_span next rec in
      let begun = after s s.world (span_started rec) in
      elim (Option-cases (process_with_retry env cfg span rec fuel begun)) [
        | inl out ↦ absurd (cc (rw (out, one_record) at e))
        | inr ((s', o), r) ↦
            let settled : settle env cfg next span rec (s', o) ≡ p = ground arith in
            rw (← settled) (
              settle-KeepsFetches next span rec s s' o
                (fetches-process_with_retry env cfg span rec fuel begun s' o r))
      ]

  KeepsFetches-later :
      (s s' : Run W) (p : Progress W Ctx)
      → fetches s'.trace ≡ fetches s.trace
      → KeepsFetches s' p
      → KeepsFetches s p
  KeepsFetches-later s s' (go_on s₂ ctx) h k = k ∙ h
  KeepsFetches-later s s' (returned s₂ o) h k = (k.0 ∙ h, k.1)

  batch-KeepsFetches :
      (fuel : ℕ) (ctx : Ctx) (recs : List KafkaRecord) (s : Run W) (p : Progress W Ctx)
      → batch env cfg fuel ctx recs s ≡ some p
      → KeepsFetches s p
  unfolding batch
  batch-KeepsFetches fuel ctx [] s (go_on s' ctx') e =
      let same : s ≡ s' = ground arith in ap (λ r. fetches r.trace) (sym same)
  batch-KeepsFetches fuel ctx [] s (returned s' o) e = absurd (ground arith)
  batch-KeepsFetches fuel ctx (rec ∷ recs) s p e =
      elim (Progress-cases (one_record env cfg fuel ctx rec s)) [
        | inl out ↦ absurd (ground arith)
        | inr (inl (s', ctx', r)) ↦
            KeepsFetches-later s s' p (one_record-KeepsFetches fuel ctx rec s (go_on s' ctx') r)
              (batch-KeepsFetches fuel ctx' recs s' p (ground arith))
        | inr (inr (s', o, r)) ↦
            let same : returned s' o ≡ p = ground arith in
            rw (← same) (one_record-KeepsFetches fuel ctx rec s (returned s' o) r)
      ]

  -- CommitRecords is called for all that was polled without an error, in that order; or, where `Start` stopped at a record, all before
  -- this record.
  abbrev pub IsGapless : Progress W Ctx → Type 0
  IsGapless (go_on s ctx) = fetches s.trace ≡ commit_calls s.trace
  IsGapless (returned s ack) = fetches s.trace ≡ commit_calls s.trace
  IsGapless (returned s o) =
      (rest : List KafkaRecord) × (stopped : KafkaRecord) × (fetches s.trace
        ≡ rest ++ (stopped ∷ commit_calls s.trace))

  split_reverse :
      (done rest t : List KafkaRecord) (stopped : KafkaRecord)
      → reverse (done ++ (stopped ∷ rest)) ++ t ≡ reverse rest ++ (stopped ∷ (reverse done ++ t))
  split_reverse done rest t stopped =
      rw (reverse-append, reverse-cons stopped rest)
        (append_assoc (reverse rest ++ (stopped ∷ [])) (reverse done) t
          ∙ append_assoc (reverse rest) (stopped ∷ []) (reverse done ++ t))

  batch-IsGapless :
      (recs : List KafkaRecord) (ctx : Ctx) (s s' : Run W) (o : Outcome)
      → fetches s.trace ≡ commit_calls s.trace
      → Ordered env cfg ctx recs (after s s.world (polled recs)) (returned s' o)
      → KeepsFetches (after s s.world (polled recs)) (returned s' o)
      → IsGapless (returned s' o)
  batch-IsGapless recs ctx s s' ack h order kept = absurd (kept.1 refl)
  batch-IsGapless recs ctx s s' (fail e) h (done, stopped, rest, split, order) kept = (
    reverse rest,
    stopped,
    kept.0 ∙ (rw (split, h, order) (split_reverse done rest (commit_calls s.trace) stopped)),
  )
  batch-IsGapless recs ctx s s' (panics msg) h (done, stopped, rest, split, order) kept = (
    reverse rest,
    stopped,
    kept.0 ∙ (rw (split, h, order) (split_reverse done rest (commit_calls s.trace) stopped)),
  )

  start-IsGapless_from :
      (polls fuel : ℕ) (ctx : Ctx) (s : Run W) (p : Progress W Ctx)
      → fetches s.trace ≡ commit_calls s.trace
      → start env cfg polls fuel ctx s ≡ some p
      → IsGapless p
  unfolding start
  start-IsGapless_from zero fuel ctx s p h e =
      let same : go_on s ctx ≡ p = ground arith in rw (← same) h
  start-IsGapless_from (suc polls) fuel ctx s p h e =
      let w = (env.poll_fetches ctx s.world).0 in
      let waited = record s { world = w } in
      elim (PollResult-cases (env.poll_fetches ctx s.world).1) [
        | inl (true, recs, r) ↦ let same : returned waited ack ≡ p = ground arith in rw (← same) h
        | inl (false, recs, r) ↦
            start-IsGapless_from polls fuel ctx (after waited w (logged "Poll error")) p h
              (ground arith)
        | inr (recs, r) ↦
            elim (Progress-cases (batch env cfg fuel ctx recs (after waited w (polled recs)))) [
              | inl out ↦ absurd (ground arith)
              | inr (inl (s', ctx', b)) ↦
                  let order =
                    batch-Ordered env cfg fuel ctx recs (after waited w (polled recs))
                      (go_on s' ctx') b in
                  let kept =
                    batch-KeepsFetches fuel ctx recs (after waited w (polled recs)) (go_on s' ctx')
                      b in
                  start-IsGapless_from polls fuel ctx' s' p
                    (kept ∙ ap (λ t. reverse recs ++ t) h ∙ sym order.0) (ground arith)
              | inr (inr (s', o, b)) ↦
                  let same : returned s' o ≡ p = ground arith in
                  rw (← same) (
                    batch-IsGapless recs ctx waited s' o h
                      (batch-Ordered env cfg fuel ctx recs (after waited w (polled recs))
                        (returned s' o) b)
                      (batch-KeepsFetches fuel ctx recs (after waited w (polled recs))
                        (returned s' o) b))
            ]
      ]

  -- A run of `Start` leaves no gap: the records for which it calls CommitRecords, whether or not the calls
  -- succeed, are, in their order and each once, all those that it polled without an error, when it was
  -- cancelled or goes on polling; and all before the one that it stopped at, when it returned an error or
  -- panicked.
  pub start-IsGapless :
      (polls fuel : ℕ) (ctx : Ctx) (w : W) (p : Progress W Ctx)
      → start env cfg polls fuel ctx (record { world = w; trace = [] }) ≡ some p
      → IsGapless p
  start-IsGapless polls fuel ctx w p e =
      start-IsGapless_from polls fuel ctx (record { world = w; trace = [] }) p refl e

  -- If every poll fails with an error that is not `context.Canceled`, as with a client that is closed, or
  -- with one partition that stays unreadable: however many polls there are, `Start` does not return but
  -- goes on to the next one, and it takes none of the records that came with the errors, and calls
  -- CommitRecords for none.
  pub start_spins :
      (polls fuel : ℕ) (ctx : Ctx) (s : Run W)
      → ((w : W)
          → (recs : List KafkaRecord) × ((env.poll_fetches ctx w).1 ≡ poll_failed false recs))
      → (s' : Run W) × (start env cfg polls fuel ctx s ≡ some (go_on s' ctx))
        × (fetches s'.trace ≡ fetches s.trace)
        × (commit_calls s'.trace ≡ commit_calls s.trace)
  unfolding start
  start_spins zero fuel ctx s closed = (s, refl, refl, refl)
  start_spins (suc polls) fuel ctx s closed =
      let w = (env.poll_fetches ctx s.world).0 in
      let (s', runs, polled_none, committed_none) =
        start_spins polls fuel ctx (after (record s { world = w }) w (logged "Poll error"))
          closed in
      (s', rw ((closed s.world).1, start) runs, polled_none, committed_none)
