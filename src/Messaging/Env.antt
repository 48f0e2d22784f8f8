-- ===== src/Messaging/Env.antt =====
-- messaging/consumer.go: the configuration, the surroundings of a consumer, and what it does to them.
-- A Go string or byte slice that the code only passes on is a list of bytes; `error` is its text.
use Prim.Native.String.{◌++◌ as str_append}
use text.Mathlib.Text.{◌==◌ as str_eq}
use helix_fnd.Prelude.{
  ℕ, ℤ, pos, negsuc, Bool, false, ◌&&◌, String, List, ◌∷◌, Option, ltb_ℤ, ◌==◌, if◌then◌else◌,
}

abbrev pub Bytes : Type 0
Bytes = List ℕ

abbrev pub Err : Type 0
Err = String

pub record ConsumerConfig : Type 0 where
  pub brokers : List String
  pub group_id : String
  pub topic : String
  pub max_retries : ℤ
  pub initial_backoff : ℤ  -- nanoseconds
  pub max_backoff : ℤ
  pub dlq_topic : String
  pub strict_mode : Bool

pub record KafkaRecord : Type 0 where
  pub topic : String
  pub partition : ℕ
  pub offset : ℕ
  pub key : Bytes
  pub value : Bytes
  pub headers : List (String × Bytes)

abbrev is_zero : ℤ → Bool
is_zero (pos n) = n == 0
is_zero (negsuc n) = false

-- The defaults that `NewConsumer` fills in before it builds the client.
pub with_defaults : ConsumerConfig → ConsumerConfig
with_defaults cfg =
    let initial = if is_zero cfg.initial_backoff then pos 100_000_000 else cfg.initial_backoff in
    let most = if is_zero cfg.max_backoff then pos 30_000_000_000 else cfg.max_backoff in
    let dlq =
      if ltb_ℤ (pos 0) cfg.max_retries && str_eq cfg.dlq_topic ""
      then str_append cfg.topic ".dlq"
      else cfg.dlq_topic in
    record cfg { initial_backoff = initial; max_backoff = most; dlq_topic = dlq }

-- What the consumer does to its surroundings, in the order of the calls.
pub data Action : Type 0 where
  handled : Bytes → Bytes → Option Err → Action
  handler_panicked : Bytes → Bytes → String → Action
  published : String → Bytes → Bytes → Option Err → Action
  slept : ℤ → Action
  committed : KafkaRecord → Option Err → Action
  logged : String → Action
  polled : List KafkaRecord → Action
  span_started : KafkaRecord → Action
  span_errored : Err → Action
  span_ended : Action

-- What the consumer calls and does not implement: the handler, the dead-letter producer (`none` for
-- nil), the context, the timer and the Kafka client. `W` is their state, `Ctx` a `context.Context`.
pub data PollResult : Type 0 where
  -- A partition failed, with `context.Canceled` or not; the records are those of the other partitions.
  poll_failed : Bool → List KafkaRecord → PollResult
  fetched : List KafkaRecord → PollResult

-- The end of a handler's call.
pub data HandlerEnd : Type 0 where
  handler_returns : Option Err → HandlerEnd
  handler_panics : String → HandlerEnd

pub record Env (W Ctx : Type 0) : Type 0 where
  pub ctx_err : Ctx → W → Option Err
  pub handler : Ctx → Bytes → Bytes → W → W × HandlerEnd
  pub dlq_producer : Option (Ctx → String → Bytes → Bytes → W → W × Option Err)
  -- The `select` on `ctx.Done()` and `time.After(d)`: true if the timer fired.
  pub sleep : Ctx → ℤ → W → W × Bool
  pub poll_fetches : Ctx → W → W × PollResult
  pub commit_records : Ctx → KafkaRecord → W → W × Option Err
  pub extract : Ctx → List (String × Bytes) → Ctx
  pub start_span : Ctx → KafkaRecord → Ctx

-- The state of a run: the surroundings, and what was done so far, the latest first.
pub record Run (W : Type 0) : Type 0 where
  pub world : W
  pub trace : List Action

abbrev pub after : {W : Type 0} → Run W → W → Action → Run W
after s w a = record { world = w; trace = a ∷ s.trace }
