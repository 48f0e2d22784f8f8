-- ===== src/Messaging/Tests.antt =====
-- A concrete consumer: the handler fails on the calls listed, the broker and the timer always work.
use helix_fnd.Prelude.{
  ℕ, ◌+◌, ◌≡◌, refl, pos, true, false, String, List, [], ◌∷◌, Option, none, some, arith, ltb,
  if◌then◌else◌, ◌==◌, at_key, assign,
}
use helix_fnd.Messaging.Env.{
  Bytes, ConsumerConfig, KafkaRecord, handler_returns, handler_panics, handler_panicked,
  span_started, polled, handled, fetched, poll_failed, Env, Run,
}
use helix_fnd.Messaging.Retry.{Outcome, ack, panics, process_with_retry, retry, turn, next_backoff}
use helix_fnd.Messaging.Retry.Turns.{IsLawful, Settled, latest}
use helix_fnd.Messaging.Retry.Attempts.{
  Quarantined, process_with_retry_total, process_with_retry-ack, process_with_retry-Quarantined,
  process_with_retry-ack_unlimited,
}
use helix_fnd.Messaging.Retry.Backoff.{waits, schedule, process_with_retry-schedule}
use helix_fnd.Messaging.Retry.Traces.{AllSettled, commit_calls, fetches}
use helix_fnd.Messaging.Loop.{Progress, carrier, go_on, returned, one_record, batch, start}
use helix_fnd.Messaging.Loop.Commits.{run_of, start-AllSettled}
use helix_fnd.Messaging.Loop.Gapless.{IsGapless, start-IsGapless, start_spins}
use helix_fnd.Messaging.Loop.Total.{start_total-IsGapless}
use helix_fnd.Messaging.Loop.Order.{Ordered, batch-Ordered}

abbrev limited : ConsumerConfig
limited = record {
  brokers = "kafka:9092" ∷ [];
  group_id = "billing";
  topic = "orders";
  max_retries = pos 3;
  initial_backoff = pos 100;
  max_backoff = pos 300;
  dlq_topic = "orders.dlq";
  strict_mode = true;
}

abbrev unlimited : ConsumerConfig
unlimited = record limited { max_retries = pos 0 }

abbrev message : ℕ → List (String × Bytes) → KafkaRecord
message n headers = record {
  topic = "orders";
  partition = 0;
  offset = n;
  key = n ∷ [];
  value = 7 ∷ [];
  headers = headers;
}

-- The world counts the calls of the handler; the first `fails` of them fail. A context is the list of
-- the header lists that it was extracted from.
abbrev broker : ℕ → Env ℕ (List (List (String × Bytes)))
broker fails = record {
  ctx_err = λ ctx w. none;
  handler =
      λ ctx key payload w. (w + 1, handler_returns (if ltb w fails then some "no luck" else none));
  dlq_producer = some (λ ctx topic key payload w. (w, none));
  sleep = λ ctx d w. (w, true);
  poll_fetches = λ ctx w.
      (w, if w == 0 then fetched (message 1 [] ∷ message 2 [] ∷ []) else poll_failed true []);
  commit_records = λ ctx rec w. (w, none);
  extract = λ ctx headers. headers ∷ ctx;
  start_span = λ ctx rec. ctx;
}

abbrev begin : Run ℕ
begin = record { world = 0; trace = [] }

broker-IsLawful : (n : ℕ) → IsLawful (broker n)
broker-IsLawful n = record { done = λ ctx d w h. absurd (cc h) }

-- A run of `processWithRetry` from the start, on the first message.
abbrev attempt : ℕ → ConsumerConfig → Option (Run ℕ × Outcome)
attempt fails cfg = process_with_retry (broker fails) cfg [] (message 1 []) 5 begin

-- What is left of a run.
abbrev left : Option (Run ℕ × Outcome) → Run ℕ
left none = begin
left (some (s, o)) = s

attempt-ack_example : Settled limited (message 1 []) (left (attempt 9 limited)).trace
unfolding process_with_retry retry turn next_backoff
attempt-ack_example =
    process_with_retry-ack (broker 9) limited [] (message 1 []) 5 begin (left (attempt 9 limited))
      (broker-IsLawful 9) refl

attempt_total_example :
    (r : Run ℕ × Outcome) × (process_with_retry (broker 2) limited [] (message 1 []) 3 begin
      ≡ some r)
attempt_total_example =
    process_with_retry_total (broker 2) limited [] (message 1 []) 3 begin refl (omega arith)

attempt-Quarantined_example : Quarantined 3 0 begin (left (attempt 9 limited))
unfolding process_with_retry retry turn next_backoff
attempt-Quarantined_example =
    process_with_retry-Quarantined (broker 9) limited [] (message 1 []) 3 5 begin
      (left (attempt 9 limited)) ack refl (omega arith) refl

attempt-ack_unlimited_example :
    latest (left (attempt 4 unlimited)).trace ≡ some (handled (1 ∷ []) (7 ∷ []) none)
unfolding process_with_retry retry turn next_backoff
attempt-ack_unlimited_example =
    process_with_retry-ack_unlimited (broker 4) unlimited [] (message 1 []) 5 begin
      (left (attempt 4 unlimited)) (broker-IsLawful 4) (omega arith) refl

attempt-schedule_example : (j : ℕ) × (waits (left (attempt 4 unlimited)).trace ≡ schedule 100 300 j)
unfolding process_with_retry retry turn next_backoff
attempt-schedule_example =
    process_with_retry-schedule (broker 4) unlimited [] (message 1 []) 100 300 refl (omega arith)
      (omega arith) 5 begin (left (attempt 4 unlimited)) ack refl refl refl

four_waits : waits (left (attempt 4 unlimited)).trace ≡ pos 300 ∷ pos 300 ∷ pos 200 ∷ pos 100 ∷ []
unfolding process_with_retry retry turn next_backoff
four_waits = refl

-- Two messages are polled_run, then the poll is cancelled.
abbrev polled_run : ℕ → ConsumerConfig → Run ℕ
polled_run fails cfg = elim (start (broker fails) cfg 3 5 [] begin) [
  | none ↦ begin
  | some p ↦ run_of p
]

start-AllSettled_example : AllSettled limited (polled_run 4 limited).trace
unfolding start batch one_record carrier process_with_retry retry turn next_backoff
start-AllSettled_example =
    start-AllSettled (broker 4) limited 3 5 [] 0 (returned (polled_run 4 limited) ack)
      (broker-IsLawful 4) refl

both_committed : commit_calls (polled_run 4 limited).trace ≡ message 2 [] ∷ message 1 [] ∷ []
unfolding start batch one_record carrier process_with_retry retry turn next_backoff
both_committed = refl

-- The first message carries a trace header, the second none.
abbrev traced : List KafkaRecord
traced = message 1 (("traceparent", 5 ∷ []) ∷ []) ∷ message 2 [] ∷ []

abbrev after_batch : Run ℕ
after_batch = elim (batch (broker 1) limited 5 [] traced begin) [ none ↦ begin | some p ↦ run_of p ]

batch-Ordered_example :
    Ordered
      (broker 1)
      limited
      []
      traced
      begin
      (go_on after_batch ([] ∷ (("traceparent", 5 ∷ []) ∷ []) ∷ []))
unfolding batch one_record carrier process_with_retry retry turn next_backoff at_key assign
batch-Ordered_example =
    batch-Ordered (broker 1) limited 5 [] traced begin
      (go_on after_batch ([] ∷ (("traceparent", 5 ∷ []) ∷ []) ∷ [])) refl

start-IsGapless_example :
    fetches (polled_run 4 limited).trace ≡ commit_calls (polled_run 4 limited).trace
unfolding start batch one_record carrier process_with_retry retry turn next_backoff
start-IsGapless_example =
    start-IsGapless (broker 4) limited 3 5 [] 0 (returned (polled_run 4 limited) ack) refl

start_total-IsGapless_example :
    (p : Progress ℕ (List (List (String × Bytes)))) × (start (broker 4) limited 1000 3 [] begin
      ≡ some p)
    × IsGapless (broker 4) limited p
start_total-IsGapless_example =
    start_total-IsGapless (broker 4) limited 3 refl (omega arith) 1000 [] 0

-- The dead-letter queue takes nothing, and the strict policy stops at the first message: the second,
-- polled with it, is not committed either.
abbrev full_queue : Env ℕ (List (List (String × Bytes)))
full_queue = record (broker 9) {
  dlq_producer = some (λ ctx topic key payload w. (w, some "queue full"));
}

abbrev stopped_run : Run ℕ
stopped_run = elim (start full_queue limited 3 5 [] begin) [ none ↦ begin | some p ↦ run_of p ]

none_committed :
    (fetches stopped_run.trace ≡ message 2 [] ∷ message 1 [] ∷ [])
    × (commit_calls stopped_run.trace ≡ [])
unfolding start batch one_record carrier process_with_retry retry turn next_backoff
none_committed = (refl, refl)

-- A client that is closed.
abbrev closed_client : Env ℕ (List (List (String × Bytes)))
closed_client = record (broker 0) { poll_fetches = λ ctx w. (w, poll_failed false []) }

start_spins_example :
    (s' : Run ℕ) × (start closed_client limited 1000 5 [] begin ≡ some (go_on s' []))
    × (fetches s'.trace ≡ fetches begin.trace)
    × (commit_calls s'.trace ≡ commit_calls begin.trace)
start_spins_example = start_spins closed_client limited 1000 5 [] begin (λ w. ([], refl))

-- A first poll in which another partition fails: its records are passed over, and the next one of their
-- partition is committed, which commits them too.
abbrev one_partition_down : Env ℕ (List (List (String × Bytes)))
one_partition_down = record (broker 0) {
  poll_fetches = λ ctx w. (
    w + 1,
    if w == 0
        then poll_failed false (message 1 [] ∷ [])
        else if w == 1
        then fetched (message 2 [] ∷ [])
        else poll_failed true [],
  );
}

abbrev partial_run : Run ℕ
partial_run = elim (start one_partition_down limited 3 5 [] begin) [
  | none ↦ begin
  | some p ↦ run_of p
]

record_lost : commit_calls partial_run.trace ≡ message 2 [] ∷ []
unfolding start batch one_record carrier process_with_retry retry turn next_backoff
record_lost = refl

-- A handler that panics ends the run, with the span open and nothing committed.
abbrev panicking : Env ℕ (List (List (String × Bytes)))
panicking = record (broker 0) { handler = λ ctx key payload w. (w + 1, handler_panics "nil map") }

panic_ends :
    start panicking limited 3 5 [] begin
    ≡ some (
        returned
          (record {
            world = 1;
            trace =
                handler_panicked (1 ∷ []) (7 ∷ []) "nil map"
                ∷ span_started (message 1 [])
                ∷ polled (message 1 [] ∷ message 2 [] ∷ [])
                ∷ [];
          })
          (panics "nil map"))
unfolding start batch one_record carrier process_with_retry retry turn next_backoff
panic_ends = refl
