-- ===== src/Tracing.antt =====
-- What the code uses of OpenTelemetry's tracers: the calls on them in order, each with the span's number.
pub mod Balance
use helix_fnd.Prelude.{Bool, ℕ, suc, ◌+◌, ◌≡◌, String, List, [], ◌∷◌, ◌++◌}

pub data TraceCall : Type 0 where
  starts : ℕ → String → List (String × String) → TraceCall
  records_error : ℕ → String → TraceCall
  sets_error_status : ℕ → String → TraceCall
  sets_attribute : ℕ → String → String → TraceCall
  ends : ℕ → TraceCall

-- The surroundings with a tracer: the number of the next span, and the calls so far.
pub record Traced (W : Type 0) : Type 0 where
  pub world : W
  pub next_span : ℕ
  pub calls : List TraceCall

abbrev pub noted : {W : Type 0} → List TraceCall → Traced W → Traced W
noted calls t = record t { calls = t.calls ++ calls }

-- `tracer.Start`.
unfoldable pub start_span : {W : Type 0} → String → List (String × String) → Traced W → Traced W × ℕ
start_span name attrs t = (
  record t { next_span = suc t.next_span; calls = t.calls ++ (starts t.next_span name attrs ∷ []) },
  t.next_span,
)

-- What the code needs of a `context.Context`.
pub record Spans (Ctx : Type 0) : Type 0 where
  pub is_recording : Ctx → Bool
  pub with_span : Ctx → ℕ → Ctx
  pub span_of : Ctx → ℕ
