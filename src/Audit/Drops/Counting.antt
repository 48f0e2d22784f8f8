-- ===== src/Audit/Drops/Counting.antt =====
-- That no drop goes missing from the counts, and how often a report is written.
use helix_fnd.Prelude.{
  ℕ, suc, ◌+◌, ◌^◌, ◌<◌, ◌≡◌, refl, String, List, [], ◌∷◌, arith, ltb, if◌then◌else◌,
}
use helix_fnd.Audit.Drops.{
  Phase, counted, due, stored, finished, Report, Stats, minute, enter, advance, step_caller,
  phase_at,
}

pub data Move : Type 0 where
  begin : String → Move  -- a goroutine calls `handleDrop`
  resume : ℕ → ℕ → Move  -- the goroutine of that index takes a step, at that time

abbrev pub move : Move → Stats → Stats
move (begin action) s = enter action s
move (resume i now) s = step_caller i now s

-- The moves in turn, the first at the head.
abbrev pub moves : List Move → Stats → Stats
moves [] s = s
moves (m ∷ ms) s = moves ms (move m s)

abbrev pub reported : List Report → ℕ
reported [] = 0
reported (r ∷ rs) = r.dropped_count + reported rs

abbrev pub begun : List Move → ℕ
begun [] = 0
begun (begin action ∷ ms) = suc (begun ms)
begun (resume i now ∷ ms) = begun ms

advance-keeps :
    (now : ℕ) (p : Phase) (s : Stats)
    → reported (advance now p s).lines + (advance now p s).count ≡ reported s.reports + s.drop_count
unfolding advance
advance-keeps now (counted action) s = refl
advance-keeps now (due action t) s = refl
advance-keeps now (stored action) s = omega arith
advance-keeps now finished s = refl

pub step_caller-keeps :
    (i now : ℕ) (s : Stats)
    → reported (step_caller i now s).reports + (step_caller i now s).drop_count
      ≡ reported s.reports + s.drop_count
unfolding step_caller
step_caller-keeps i now s = advance-keeps now (phase_at s.callers i) s

pub enter-counts :
    (action : String) (s : Stats)
    → s.drop_count + 1 < 2 ^ 64
    → reported (enter action s).reports + (enter action s).drop_count
      ≡ reported s.reports + s.drop_count + 1
unfolding enter
enter-counts action s h = omega arith

-- Whatever the interleaving of the goroutines, every drop is counted once: in a report, or in the
-- counter still. (For fewer than 2^64 drops, below which the counter does not wrap.)
pub moves-count :
    (ms : List Move) (s : Stats)
    → reported s.reports + s.drop_count + begun ms < 2 ^ 64
    → reported (moves ms s).reports + (moves ms s).drop_count
      ≡ reported s.reports + s.drop_count + begun ms
moves-count [] s h = omega arith
moves-count (begin action ∷ ms) s h =
    let one = enter-counts action s (omega arith) in
    omega (arith, one, moves-count ms (enter action s) (omega (arith, one)))
moves-count (resume i now ∷ ms) s h =
    let same = step_caller-keeps i now s in
    omega (arith, same, moves-count ms (step_caller i now s) (omega (arith, same)))

-- One call of `handleDrop` that no other goroutine interrupts.
abbrev pub uninterrupted : String → ℕ → List Move
uninterrupted action now = begin action ∷ resume 0 now ∷ resume 0 now ∷ resume 0 now ∷ []

-- Uninterrupted, a call reports exactly if more than a minute has passed since the last report: it
-- then reports all drops since, starts the count anew and remembers the time.
pub uninterrupted_lem :
    (action : String) (now : ℕ) (s : Stats)
    → s.callers ≡ []
    → s.drop_count + 1 < 2 ^ 64
    → moves (uninterrupted action now) s ≡ (
        if ltb (s.last_log_time + minute) now
        then record {
          drop_count = 0;
          last_log_time = now;
          callers = finished ∷ [];
          reports = record { dropped_count = s.drop_count + 1; sample_action = action } ∷ s.reports;
        }
        else record {
          drop_count = s.drop_count + 1;
          last_log_time = s.last_log_time;
          callers = finished ∷ [];
          reports = s.reports;
        })
unfolding enter step_caller advance
uninterrupted_lem action now s alone small = ground arith

-- Two goroutines that both read the old time before either stores the new one.
abbrev pub race : String → String → ℕ → List Move
race a b now =
    begin a
    ∷ begin b
    ∷ resume 0 now
    ∷ resume 1 now
    ∷ resume 0 now
    ∷ resume 0 now
    ∷ resume 1 now
    ∷ resume 1 now
    ∷ []

-- When a report is due, two callers in that order both report, at the same time: the second line says
-- that nothing was dropped.
pub race_reports_twice :
    (a b : String) (now : ℕ) (s : Stats)
    → s.callers ≡ []
    → s.drop_count + 2 < 2 ^ 64
    → s.last_log_time + minute < now
    → (moves (race a b now) s).reports
      ≡ record { dropped_count = 0; sample_action = b }
        ∷ record { dropped_count = s.drop_count + 2; sample_action = a }
        ∷ s.reports
unfolding enter step_caller advance
race_reports_twice a b now s alone small late = ground arith
