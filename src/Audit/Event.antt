-- ===== src/Audit/Event.antt =====
-- audit/audit.go. The payloads `OldValue` and `NewValue` are of any type `V`.
use helix_fnd.Prelude.{ℕ, String, List, Option, none, some}

pub record Event (V : Type 0) : Type 0 where
  pub actor_id : String
  pub action : String
  pub resource : String
  pub old_value : Option V
  pub new_value : Option V
  pub timestamp : Option ℕ  -- nanoseconds; `none` is the zero time
  pub metadata : List (String × String)
  pub trace_id : String

-- `if event.Timestamp.IsZero() { event.Timestamp = time.Now() }`
abbrev or_now : Option ℕ → ℕ → Option ℕ
or_now none now = some now
or_now (some t) now = some t

abbrev pub stamped : {V : Type 0} → ℕ → Event V → Event V
stamped now e = record e { timestamp = or_now e.timestamp now }
