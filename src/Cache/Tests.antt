-- ===== src/Cache/Tests.antt =====
-- A Redis in which one key is missing.
use text.Mathlib.Text.{◌==◌ as str_eq}
use helix_fnd.Prelude.{ℕ, suc, ◌+◌, ◌≡◌, refl, true, List, [], ◌∷◌, some, length, if◌then◌else◌}
use helix_fnd.Tracing.{Traced, starts, ends, Spans, start_span}
use helix_fnd.Cache.{
  Cmd, redis_nil, cmd_err, Ended, finished, crashed, process_hook, process_pipeline_hook,
}
use helix_fnd.Cache.Hooks.{untraced, calls_of, IsTransparent, hooks-IsTransparent}

-- A context is the number of its span, and every span records.
abbrev spans : Spans ℕ
spans = record { is_recording = λ ctx. true; with_span = λ ctx id. id; span_of = λ ctx. ctx }

abbrev missing : Cmd
missing = record { name = "get"; statement = "get k" }

abbrev refused : Cmd
refused = record { name = "set"; statement = "set k 1" }

-- The surroundings count the commands.
abbrev command : Cmd → ℕ → Ended ℕ
command cmd n =
    finished (suc n) (if str_eq cmd.name "get" then some redis_nil else some (cmd_err "READONLY"))

abbrev pipeline : List Cmd → ℕ → Ended ℕ
pipeline cmds n = crashed "boom" (length cmds + n)

abbrev begin : Traced ℕ
begin = record { world = 0; next_span = 5; calls = [] }

hooks-IsTransparent_example :
    IsTransparent begin (command missing 0) (process_hook spans (untraced command) 1 missing begin)
    × IsTransparent begin
        (pipeline (missing ∷ refused ∷ []) 0)
        (process_pipeline_hook spans (untraced pipeline) 1 (missing ∷ refused ∷ []) begin)
hooks-IsTransparent_example =
    hooks-IsTransparent spans command pipeline 1 missing (missing ∷ refused ∷ []) begin

-- A missing key is no error of the span; a refused command is.
two_spans :
    (calls_of (process_hook spans (untraced command) 1 missing begin)
      ≡ starts 5 "redis.command"
          (("db.system", "redis") ∷ ("db.operation", "get") ∷ ("db.statement", "get k") ∷ [])
        ∷ ends 5
        ∷ [])
    × (length (calls_of (process_hook spans (untraced command) 1 refused begin)) ≡ 4)
unfolding process_hook start_span
two_spans = (refl, refl)
