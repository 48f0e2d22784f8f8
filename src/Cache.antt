-- ===== src/Cache.antt =====
-- cache/redis.go: the constructor and the tracing hook of go-redis.
pub mod Hooks
mod Tests
use Prim.Native.String.{◌++◌ as str_append}
use helix_fnd.Prelude.{
  ℕ, ℤ, pos, ◌≡◌, refl, Bool, true, false, String, List, [], ◌∷◌, ◌++◌, Option, none, some, length,
  if◌then◌else◌,
}
use helix_fnd.Text.{itoa}
use helix_fnd.Tracing.{
  TraceCall, records_error, sets_error_status, ends, Traced, noted, start_span, Spans,
}

pub record RedisConfig : Type 0 where
  pub addr : String
  pub password : String
  pub db : ℤ

-- A command's error: `redis.Nil`, or another.
pub data CmdErr : Type 0 where
  redis_nil : CmdErr
  cmd_err : String → CmdErr

pub record Cmd : Type 0 where
  pub name : String
  pub statement : String

-- go-redis, with the hook that it is given.
pub record RedisClient (W : Type 0) : Type 0 where
  pub new_client : RedisConfig → W → W
  pub ping : W → W × Option String
  pub close : W → W

module _ {W : Type 0} (client : RedisClient W) where
  reached : RedisConfig → W × Option String → W × Option String
  reached cfg (w, none) = (w, none)
  reached cfg (w, some e) = (
    client.close w,
    some (
        str_append "cache: failed to connect to redis at "
          (str_append cfg.addr (str_append ": " e))),
  )

  -- `NewRedis`: `none` is a client, and otherwise the error.
  unfoldable pub new_redis : RedisConfig → W → W × Option String
  unfolding reached
  new_redis cfg w = reached cfg (client.ping (client.new_client cfg w))

-- The end of a command: its error or none, or a panic.
pub data Ended (W : Type 0) : Type 0 where
  finished : W → Option CmdErr → Ended W
  crashed : String → W → Ended W

-- What the span is told of the outcome.
abbrev pub failure_calls : ℕ → Option CmdErr → List TraceCall
failure_calls id (some (cmd_err e)) = records_error id e ∷ sets_error_status id e ∷ []
failure_calls id _ = []

abbrev summary : List Cmd → String
summary cmds = str_append "pipeline:" (str_append (itoa (pos (length cmds))) "_cmds")

module _ {W Ctx : Type 0} (spans : Spans Ctx) where
  -- The deferred `End` runs after a panic too.
  with_outcome : ℕ → Ended (Traced W) → Ended (Traced W)
  with_outcome id (finished t err) =
      finished (noted (ends id ∷ []) (noted (failure_calls id err) t)) err
  with_outcome id (crashed msg t) = crashed msg (noted (ends id ∷ []) t)

  -- `ProcessHook`.
  unfoldable pub process_hook :
      (Ctx → Cmd → Traced W → Ended (Traced W)) → Ctx → Cmd → Traced W → Ended (Traced W)
  unfolding with_outcome
  process_hook next ctx cmd t =
      let (t', id) =
        start_span "redis.command"
          (("db.system", "redis")
            ∷ ("db.operation", cmd.name)
            ∷ ("db.statement", cmd.statement)
            ∷ [])
          t in
      let plain = next ctx cmd t in
      let traced = with_outcome id (next (spans.with_span ctx id) cmd t') in
      if spans.is_recording ctx then traced else plain

  -- `ProcessPipelineHook`.
  unfoldable pub process_pipeline_hook :
      (Ctx → List Cmd → Traced W → Ended (Traced W)) → Ctx → List Cmd → Traced W → Ended (Traced W)
  unfolding with_outcome
  process_pipeline_hook next ctx cmds t =
      let (t', id) =
        start_span "redis.pipeline"
          (("db.system", "redis")
            ∷ ("db.operation", "pipeline")
            ∷ ("db.statement", summary cmds)
            ∷ ("db.redis.pipeline_length", itoa (pos (length cmds)))
            ∷ [])
          t in
      let plain = next ctx cmds t in
      let traced = with_outcome id (next (spans.with_span ctx id) cmds t') in
      if spans.is_recording ctx then traced else plain
