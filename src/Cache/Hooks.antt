-- ===== src/Cache/Hooks.antt =====
-- What the tracing hook changes, and what it leaves.
use mathlib.Core.List.{append_assoc}
use helix_fnd.Prelude.{
  ℕ, ◌≡◌, refl, ◌⊎◌, inl, inr, String, List, ◌++◌, [], ◌∷◌, Option, none, some, Bool-cases,
}
use helix_fnd.Tracing.{TraceCall, starts, ends, Traced, start_span, Spans}
use helix_fnd.Tracing.Balance.{IsAbout, IsSpan, joined}
use helix_fnd.Cache.{
  Cmd, CmdErr, redis_nil, cmd_err, Ended, finished, crashed, failure_calls, with_outcome,
  process_hook, process_pipeline_hook,
}

-- A command that does not trace.
abbrev carried : {W : Type 0} → Traced W → Ended W → Ended (Traced W)
carried t (finished w err) = finished (record t { world = w }) err
carried t (crashed msg w) = crashed msg (record t { world = w })

abbrev pub untraced : {W Ctx A : Type 0} → (A → W → Ended W) → Ctx → A → Traced W → Ended (Traced W)
untraced run ctx a t = carried t (run a t.world)

-- What is left without the tracer, and what it was told.
abbrev pub without_trace : {W : Type 0} → Ended (Traced W) → Ended W
without_trace (finished t err) = finished t.world err
without_trace (crashed msg t) = crashed msg t.world

abbrev pub calls_of : {W : Type 0} → Ended (Traced W) → List TraceCall
calls_of (finished t err) = t.calls
calls_of (crashed msg t) = t.calls

-- The same end as without a hook; and nothing is traced, or one span, that is started before the command
-- and ended after it.
abbrev pub IsTransparent : {W : Type 0} → Traced W → Ended W → Ended (Traced W) → Type 0
IsTransparent t plain hooked =
    (without_trace hooked ≡ plain)
    × ((calls_of hooked ≡ t.calls)
        ⊎ ((calls : List TraceCall) × IsSpan t.next_span calls
            × (calls_of hooked ≡ t.calls ++ calls)))

untraced-IsTransparent :
    {W : Type 0} (t : Traced W) (plain : Ended W) → IsTransparent t plain (carried t plain)
untraced-IsTransparent t (finished w err) = (refl, inl refl)
untraced-IsTransparent t (crashed msg w) = (refl, inl refl)

failure_calls-IsAbout : (id : ℕ) (err : Option CmdErr) → IsAbout id (failure_calls id err)
failure_calls-IsAbout id none = tt
failure_calls-IsAbout id (some redis_nil) = tt
failure_calls-IsAbout id (some (cmd_err e)) = (refl, (refl, tt))

module _ {W Ctx : Type 0} (spans : Spans Ctx) where
  span-IsTransparent :
      (name : String) (attrs : List (String × String)) (t : Traced W) (plain : Ended W)
      → let (t', id) = start_span name attrs t in
        IsTransparent t plain (with_outcome spans id (carried t' plain))
  unfolding start_span with_outcome
  span-IsTransparent name attrs t (finished w err) =
      let id = t.next_span in
      (
        refl,
        inr (
          _,
          (name, attrs, failure_calls id err, failure_calls-IsAbout id err, refl),
          joined t.calls (starts id name attrs) (ends id) (failure_calls id err),
        ),
      )
  span-IsTransparent name attrs t (crashed msg w) =
      let id = t.next_span in
      (
        refl,
        inr (
          _,
          (name, attrs, [], tt, refl),
          append_assoc t.calls (starts id name attrs ∷ []) (ends id ∷ []),
        ),
      )

  -- The hooks change neither what a command or a pipeline does nor the error that it returns nor the panic
  -- that it ends in, and each span that they start is ended, also by a panic, with calls about this span
  -- only in between.
  pub hooks-IsTransparent :
      (command : Cmd → W → Ended W) (pipeline : List Cmd → W → Ended W) (ctx : Ctx) (cmd : Cmd)
      (cmds : List Cmd) (t : Traced W)
      → IsTransparent t (command cmd t.world) (process_hook spans (untraced command) ctx cmd t)
        × IsTransparent t
            (pipeline cmds t.world)
            (process_pipeline_hook spans (untraced pipeline) ctx cmds t)
  unfolding process_hook process_pipeline_hook start_span
  hooks-IsTransparent command pipeline ctx cmd cmds t = elim (Bool-cases (spans.is_recording ctx)) [
    | inl on ↦ rw on (
      span-IsTransparent "redis.command" _ t (command cmd t.world),
      span-IsTransparent "redis.pipeline" _ t (pipeline cmds t.world),
    )
    | inr off ↦ rw off (
      untraced-IsTransparent t (command cmd t.world),
      untraced-IsTransparent t (pipeline cmds t.world),
    )
  ]
