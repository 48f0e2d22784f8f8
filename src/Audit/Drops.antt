-- ===== src/Audit/Drops.antt =====
-- `handleDrop` of audit/async_writer.go, run by any number of goroutines at once: each atomic
-- operation is a step, and a schedule says which goroutine takes the next one.
pub mod Counting
use helix_fnd.Prelude.{
  ℕ, zero, suc, ◌+◌, ◌-◌, ◌%◌, ◌^◌, true, false, String, List, [], ◌∷◌, ltb, ltb_ℤ, ℤ, sub_ℕ, pos,
  if◌then◌else◌,
}

-- Where a goroutine stands in `handleDrop`, with what it has read.
pub data Phase : Type 0 where
  counted : String → Phase  -- after AddUint64
  due : String → ℕ → Phase  -- the minute has passed; before Store
  stored : String → Phase  -- before SwapUint64
  finished : Phase

-- A line of the error log: AUDIT_LOG_CRITICAL_FAILURE with its count and sample action.
pub record Report : Type 0 where
  pub dropped_count : ℕ
  pub sample_action : String

pub record Stats : Type 0 where
  pub drop_count : ℕ  -- uint64
  pub last_log_time : ℕ  -- nanoseconds since the epoch
  pub callers : List Phase  -- the goroutines inside `handleDrop`, oldest first
  pub reports : List Report  -- the latest first

abbrev pub minute : ℕ
minute = 60_000_000_000

abbrev pub fresh : Stats
fresh = record { drop_count = 0; last_log_time = 0; callers = []; reports = [] }

abbrev snoc : List Phase → Phase → List Phase
snoc [] p = p ∷ []
snoc (q ∷ ps) p = q ∷ snoc ps p

-- A goroutine enters: `atomic.AddUint64(&l.dropCount, 1)`.
unfoldable pub enter : String → Stats → Stats
enter action s = record s {
  drop_count = (s.drop_count + 1) % 2 ^ 64;
  callers = snoc s.callers (counted action);
}

-- What one step of a goroutine does: its next phase, and the shared variables.
pub record Effect : Type 0 where
  pub phase : Phase
  pub count : ℕ
  pub last : ℕ
  pub lines : List Report

unfoldable pub advance : ℕ → Phase → Stats → Effect
advance now (counted action) s = record {
  phase = if ltb (s.last_log_time + minute) now then due action now else finished;
  count = s.drop_count;
  last = s.last_log_time;
  lines = s.reports;
}
advance now (due action t) s = record {
  phase = stored action;
  count = s.drop_count;
  last = t;
  lines = s.reports;
}
advance now (stored action) s = record {
  phase = finished;
  count = 0;
  last = s.last_log_time;
  lines = record { dropped_count = s.drop_count; sample_action = action } ∷ s.reports;
}
advance now finished s = record {
  phase = finished;
  count = s.drop_count;
  last = s.last_log_time;
  lines = s.reports;
}

abbrev pub phase_at : List Phase → ℕ → Phase
phase_at [] i = finished
phase_at (p ∷ ps) zero = p
phase_at (p ∷ ps) (suc i) = phase_at ps i

abbrev pub set_phase : List Phase → ℕ → Phase → List Phase
set_phase [] i q = []
set_phase (p ∷ ps) zero q = q ∷ ps
set_phase (p ∷ ps) (suc i) q = p ∷ set_phase ps i q

-- The `i`-th goroutine takes its next step at time `now`.
unfoldable pub step_caller : ℕ → ℕ → Stats → Stats
step_caller i now s =
    let e = advance now (phase_at s.callers i) s in
    record {
      drop_count = e.count;
      last_log_time = e.last;
      callers = set_phase s.callers i e.phase;
      reports = e.lines;
    }
