-- ===== src/Messaging/Retry.antt =====
-- `processWithRetry` of messaging/consumer.go: retries with capped exponential backoff, then the
-- dead-letter queue under the strict or the permissive policy.
pub mod Turns
pub mod Attempts
pub mod Backoff
pub mod Traces
use Prim.Native.String.{◌++◌ as str_append}
use helix_fnd.Prelude.{
  ℕ, zero, suc, ◌+◌, ℤ, pos, Bool, ◌&&◌, String, Option, none, some, ltb_ℤ, leb_ℤ, double,
  if◌then◌else◌,
}
use helix_fnd.Messaging.Env.{
  Err, ConsumerConfig, KafkaRecord, handler_returns, handler_panics, handler_panicked, handled,
  published, slept, logged, Env, Run, after,
}

-- `return nil`, `return err`, and a panic.
pub data Outcome : Type 0 where
  ack : Outcome
  fail : Err → Outcome
  panics : String → Outcome

abbrev pub of_error : Option Err → Outcome
of_error none = ack
of_error (some e) = fail e

abbrev pub no_producer : String
no_producer = "CRITICAL: MaxRetries reached but no DLQ Producer configured."

abbrev dlq_message : Err → Err → String
dlq_message dlq_err err =
    str_append "FATAL: Failed to publish to DLQ: "
      (str_append dlq_err (str_append " (Original: " (str_append err ")")))

-- `c.cfg.MaxRetries > 0 && attempt >= c.cfg.MaxRetries`.
abbrev pub is_exhausted : ConsumerConfig → ℕ → Bool
is_exhausted cfg attempt = ltb_ℤ (pos 0) cfg.max_retries && leb_ℤ cfg.max_retries (pos attempt)

-- The wait after the next failure: doubled on an int64, then capped.
unfoldable pub next_backoff : ConsumerConfig → ℤ → ℤ
next_backoff cfg backoff =
    if ltb_ℤ cfg.max_backoff (double backoff) then cfg.max_backoff else double backoff

-- The end of one turn of the loop: a return, or another turn.
pub data Turn (W : Type 0) : Type 0 where
  stop : Run W → Outcome → Turn W
  again : Run W → ℕ → ℤ → Turn W

module _ {W Ctx : Type 0} (env : Env W Ctx) (cfg : ConsumerConfig) (ctx : Ctx)
    (rec : KafkaRecord) where
  log : Run W → String → Run W
  log s msg = after s s.world (logged msg)

  -- The result of the dead-letter `Publish`.
  published_turn : Run W → Err → Option Err → Turn W
  published_turn s err none = stop s ack
  published_turn s err (some dlq_err) =
      if cfg.strict_mode
      then stop s (fail (dlq_message dlq_err err))
      else stop
          (log s (
            str_append (dlq_message dlq_err err)
              " -- PERMISSIVE POLICY: Dropping message to keep queue moving."))
          ack

  -- The branch where the retries are used up.
  give_up : Run W → Err → Turn W
  unfolding log published_turn
  give_up s err = elim env.dlq_producer [
    | none ↦
        if cfg.strict_mode
        then stop s
            (panics (str_append no_producer " STRICT POLICY: Halting to prevent data loss."))
        else stop (log s (str_append no_producer " PERMISSIVE POLICY: Dropping message.")) ack
    | some publish ↦
        let (w, r) = publish ctx cfg.dlq_topic rec.key rec.value s.world in
        published_turn (after s w (published cfg.dlq_topic rec.key rec.value r)) err r
  ]

  -- The wait before the next attempt.
  wait : Run W → ℕ → ℤ → Turn W
  wait s attempt backoff =
      let (w, fired) = env.sleep ctx backoff s.world in
      let s' = after s w (slept backoff) in
      if fired
      then again s' attempt (next_backoff cfg backoff)
      else stop s' (of_error (env.ctx_err ctx w))

  -- What follows the handler's call; `attempt` is already incremented.
  handled_turn : Run W → ℕ → ℤ → Option Err → Turn W
  unfolding log give_up wait
  handled_turn s attempt backoff none = stop s ack
  handled_turn s attempt backoff (some err) =
      if is_exhausted cfg attempt
      then give_up (log s "Max retries exceeded. Attempting move to DLQ.") err
      else wait (log s "Transient failure, retrying...") attempt backoff

  -- One turn of the loop.
  unfoldable pub turn : Run W → ℕ → ℤ → Turn W
  unfolding handled_turn
  turn s attempt backoff = elim (env.ctx_err ctx s.world) [
    | some e ↦ stop s (fail e)
    | none ↦
        let (w, ended) = env.handler ctx rec.key rec.value s.world in
        elim ended [
          | handler_returns r ↦
              handled_turn (after s w (handled rec.key rec.value r)) (attempt + 1) backoff r
          | handler_panics msg ↦
              stop (after s w (handler_panicked rec.key rec.value msg)) (panics msg)
        ]
  ]

  -- The loop, on fuel: with `MaxRetries` at most 0 it has no bound.
  unfoldable pub retry : ℕ → Run W → ℕ → ℤ → Option (Run W × Outcome)
  retry zero s attempt backoff = none
  retry (suc fuel) s attempt backoff = elim (turn s attempt backoff) [
    | stop s' o ↦ some (s', o)
    | again s' attempt' backoff' ↦ retry fuel s' attempt' backoff'
  ]

  unfoldable pub process_with_retry : ℕ → Run W → Option (Run W × Outcome)
  process_with_retry fuel s = retry fuel s 0 cfg.initial_backoff
