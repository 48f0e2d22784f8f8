-- ===== src/Messaging/Loop.antt =====
-- `Start` of messaging/consumer.go: poll, process each record of the batch, commit it.
pub mod Commits
pub mod Gapless
pub mod Headers
pub mod Order
pub mod Total
use helix_fnd.Prelude.{
  ℕ, zero, suc, true, false, String, List, [], ◌∷◌, Option, none, some, assign, foldl,
}
use helix_fnd.Messaging.Env.{
  Bytes, Err, ConsumerConfig, KafkaRecord, committed, logged, polled, span_started, span_errored,
  span_ended, poll_failed, fetched, Env, Run, after,
}
use helix_fnd.Messaging.Retry.{Outcome, ack, fail, panics, process_with_retry}

-- The record's headers as a `propagation.MapCarrier`: the last of equal keys stays.
unfoldable pub carrier : List (String × Bytes) → List (String × Bytes)
carrier headers = foldl (λ m h. assign m h.0 h.1) [] headers

-- The end of one record, or of one batch: go on with a context, or return from `Start`.
pub data Progress (W Ctx : Type 0) : Type 0 where
  go_on : Run W → Ctx → Progress W Ctx
  returned : Run W → Outcome → Progress W Ctx

module _ {W Ctx : Type 0} (env : Env W Ctx) (cfg : ConsumerConfig) where
  log_commit : Run W → Option Err → Run W
  log_commit s none = s
  log_commit s (some e) = after s s.world (logged "Failed to commit offset")

  commit : Ctx → KafkaRecord → Run W → Run W
  unfolding log_commit
  commit ctx rec s =
      let (w, r) = env.commit_records ctx rec s.world in log_commit (after s w (committed rec r)) r

  -- What follows `processWithRetry`; the batch goes on with the extracted context `next`. A panic leaves
  -- the span open.
  settle : Ctx → Ctx → KafkaRecord → Run W × Outcome → Progress W Ctx
  settle next span rec (s, ack) = go_on (commit span rec (after s s.world span_ended)) next
  settle next span rec (s, fail e) =
      let errored = after s s.world (span_errored e) in
      returned (after errored s.world span_ended) (fail e)
  settle next span rec (s, panics msg) = returned s (panics msg)

  -- One record. `ctx` is reassigned to the extracted context; the span lives in an inner one.
  unfoldable pub one_record : ℕ → Ctx → KafkaRecord → Run W → Option (Progress W Ctx)
  unfolding settle commit
  one_record fuel ctx rec s =
      let next = env.extract ctx (carrier rec.headers) in
      let span = env.start_span next rec in
      elim (process_with_retry env cfg span rec fuel (after s s.world (span_started rec))) [
        | none ↦ none
        | some r ↦ some (settle next span rec r)
      ]

  -- The loop over the record iterator.
  unfoldable pub batch : ℕ → Ctx → List KafkaRecord → Run W → Option (Progress W Ctx)
  batch fuel ctx [] s = some (go_on s ctx)
  batch fuel ctx (rec ∷ recs) s = elim (one_record fuel ctx rec s) [
    | none ↦ none
    | some p ↦ elim p [
      | go_on s' ctx' ↦ batch fuel ctx' recs s'
      | returned s' o ↦ some (returned s' o)
    ]
  ]

  -- The outer loop, for `polls` polls: `go_on` if they are used up.
  unfoldable pub start : ℕ → ℕ → Ctx → Run W → Option (Progress W Ctx)
  start zero fuel ctx s = some (go_on s ctx)
  start (suc polls) fuel ctx s =
      let (w, r) = env.poll_fetches ctx s.world in
      let waited = record s { world = w } in
      elim r [
        | poll_failed canceled passed_over ↦ elim canceled [
          | true ↦ some (returned waited ack)
          | false ↦ start polls fuel ctx (after waited w (logged "Poll error"))
        ]
        | fetched recs ↦ elim (batch fuel ctx recs (after waited w (polled recs))) [
          | none ↦ none
          | some p ↦ elim p [
            | go_on s' ctx' ↦ start polls fuel ctx' s'
            | returned s' o ↦ some (returned s' o)
          ]
        ]
      ]
