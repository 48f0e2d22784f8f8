-- ===== src/Messaging/Loop/Total.antt =====
-- How much fuel is enough for `Start`.
use helix_fnd.Prelude.{
  ℕ, zero, suc, ◌<◌, ◌≡◌, refl, inl, inr, pos, true, false, List, [], ◌∷◌, some,
}
use helix_fnd.Messaging.Env.{
  ConsumerConfig, KafkaRecord, logged, polled, span_started, after, Env, Run,
}
use helix_fnd.Messaging.Retry.{ack}
use helix_fnd.Messaging.Retry.Attempts.{process_with_retry_total}
use helix_fnd.Messaging.Loop.{Progress, go_on, returned, carrier, settle, one_record, batch, start}
use helix_fnd.Messaging.Loop.Commits.{Progress-cases, PollResult-cases}
use helix_fnd.Messaging.Loop.Gapless.{IsGapless, start-IsGapless}

module _ {W Ctx : Type 0} (env : Env W Ctx) (cfg : ConsumerConfig) (n : ℕ)
    (most : cfg.max_retries ≡ pos n) (positive : 0 < n) where
  one_record_total :
      (ctx : Ctx) (rec : KafkaRecord) (s : Run W)
      → (p : Progress W Ctx) × (one_record env cfg n ctx rec s ≡ some p)
  unfolding one_record
  one_record_total ctx rec s =
      let next = env.extract ctx (carrier rec.headers) in
      let span = env.start_span next rec in
      let (r, ends) =
        process_with_retry_total env cfg span rec n (after s s.world (span_started rec)) most
          positive in
      (settle env cfg next span rec r, rw (ends, one_record) refl)

  batch_total :
      (ctx : Ctx) (recs : List KafkaRecord) (s : Run W)
      → (p : Progress W Ctx) × (batch env cfg n ctx recs s ≡ some p)
  unfolding batch
  batch_total ctx [] s = (go_on s ctx, refl)
  batch_total ctx (rec ∷ recs) s =
      let (q, ends) = one_record_total ctx rec s in
      elim (Progress-cases (one_record env cfg n ctx rec s)) [
        | inl out ↦ absurd (cc (out, ends))
        | inr (inl (s', ctx', e)) ↦
            let (p, rest) = batch_total ctx' recs s' in (p, rw (e, batch) rest)
        | inr (inr (s', o, e)) ↦ (returned s' o, rw (e, batch) refl)
      ]

  start_total_from :
      (polls : ℕ) (ctx : Ctx) (s : Run W)
      → (p : Progress W Ctx) × (start env cfg polls n ctx s ≡ some p)
  unfolding start
  start_total_from zero ctx s = (go_on s ctx, refl)
  start_total_from (suc polls) ctx s =
      let w = (env.poll_fetches ctx s.world).0 in
      let waited = record s { world = w } in
      elim (PollResult-cases (env.poll_fetches ctx s.world).1) [
        | inl (true, recs, r) ↦ (returned waited ack, rw (r, start) refl)
        | inl (false, recs, r) ↦
            let (p, rest) = start_total_from polls ctx (after waited w (logged "Poll error")) in
            (p, rw (r, start) rest)
        | inr (recs, r) ↦
            let fresh = after waited w (polled recs) in
            let (q, ends) = batch_total ctx recs fresh in
            elim (Progress-cases (batch env cfg n ctx recs fresh)) [
              | inl out ↦ absurd (cc (out, ends))
              | inr (inl (s', ctx', b)) ↦
                  let (p, rest) = start_total_from polls ctx' s' in (p, rw (r, b, start) rest)
              | inr (inr (s', o, b)) ↦ (returned s' o, rw (r, b, start) refl)
            ]
      ]

  -- With a positive MaxRetries no record holds `Start` up. For any handler each call of which returns, with
  -- or without an error, or panics, and however many polls there are, MaxRetries turns of the retry loop
  -- are enough for each record: `Start` gets to the end of the last poll, or ends before, by a return or a
  -- panic. And it leaves no gap in what it calls CommitRecords for, of what it polled without an error:
  -- all of it, or, where it ended at a record, all before this record.
  pub start_total-IsGapless :
      (polls : ℕ) (ctx : Ctx) (w : W)
      → (p : Progress W Ctx) × (start env cfg polls n ctx (record { world = w; trace = [] })
          ≡ some p)
        × IsGapless env cfg p
  start_total-IsGapless polls ctx w =
      let (p, e) = start_total_from polls ctx (record { world = w; trace = [] }) in
      (p, e, start-IsGapless env cfg polls n ctx w p e)
