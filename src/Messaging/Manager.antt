-- ===== src/Messaging/Manager.antt =====
-- messaging/manager.go: the consumers that are registered, their goroutines, and the WaitGroup. A
-- consumer is its topic; what its `Start` and `Close` answer is left open.
mod Tests
pub mod Waiting
use Prim.Native.String.{◌++◌ as str_append}
use std.Path.{subst}
use native.Mathlib.Nat.{add_comm}
use helix_fnd.Prelude.{
  ℕ, suc, ◌+◌, ◌-◌, ◌≡◌, ◌≢◌, ◌⊎◌, refl, sym, ap, ◌∙◌, Bool, true, false, String, List, [], ◌∷◌,
  ◌++◌, map, Option, none, some, arith, length, count, count-append, if◌then◌else◌,
}

-- A goroutine of `Start`: its consumer runs, or has returned.
pub data Goroutine : Type 0 where
  running : String → Goroutine
  done : String → Goroutine

-- The call of `Close`: none yet, in `wg.Wait`, past it, returned; or the process has crashed with the
-- panic by which the WaitGroup reports an `Add` that meets a `Wait`.
pub data Closing : Type 0 where
  open_ : Closing
  waiting : Closing
  waited : Closing
  stopped : Closing
  crashed : Closing

pub record ConsumerManager : Type 0 where
  pub consumers : List String
  pub to_start : List String  -- those that a call of `Start` has not come to yet
  pub goroutines : List Goroutine
  pub wg : ℕ
  pub closing : Closing
  pub logs : List String

abbrev pub new_consumer_manager : ConsumerManager
new_consumer_manager = record {
  consumers = [];
  to_start = [];
  goroutines = [];
  wg = 0;
  closing = open_;
  logs = [];
}

unfoldable pub register : String → ConsumerManager → ConsumerManager
register c m = record m { consumers = m.consumers ++ (c ∷ []) }

-- `Start` takes the consumers that are registered,
unfoldable pub start : ConsumerManager → ConsumerManager
start m = record m { to_start = m.to_start ++ m.consumers }

-- and its loop does `wg.Add(1)` and `go` for one after the other.
unfoldable pub start_one : List String → ConsumerManager → ConsumerManager
start_one [] m = m
start_one (c ∷ cs) m = record m {
  to_start = cs;
  wg = m.wg + 1;
  goroutines = m.goroutines ++ (running c ∷ []);
}

abbrev log_stopped : Option String → List String → List String
log_stopped none logs = logs
log_stopped (some e) logs = "Consumer stopped with error" ∷ logs

-- The loop over `c.Close()`, with its answers.
unfoldable pub close_all : List (Option String) → List String → List String
close_all [] logs = logs
close_all (none ∷ rs) logs = close_all rs logs
close_all (some e ∷ rs) logs = close_all rs ("Failed to close consumer" ∷ logs)

-- Calls of `Register` and `Start`, a turn of its loop, a consumer that returns (with `wg.Done`), and the
-- parts of `Close`, of which one call runs at a time.
pub data Step (m : ConsumerManager) : ConsumerManager → Type 0 where
  registers : (c : String) → Step m (register c m)
  starts : Step m (start m)
  starts_one : Step m (start_one m.to_start m)
  returns :
      (c : String) (result : Option String) (before later : List Goroutine)
      → m.goroutines ≡ before ++ (running c ∷ later)
      → Step m (record m {
        goroutines = before ++ (done c ∷ later);
        wg = m.wg - 1;
        logs = log_stopped result m.logs;
      })
  closes :
      (answers : List (Option String))
      → length answers ≡ length m.consumers
      → (m.closing ≡ open_) ⊎ (m.closing ≡ stopped)
      → Step m (record m {
        closing = waiting;
        logs = close_all answers ("Stopping all consumers..." ∷ m.logs);
      })
  waits : m.closing ≡ waiting → m.wg ≡ 0 → Step m (record m { closing = waited })
  misuses :
      (c : String) (cs : List String)
      → m.to_start ≡ c ∷ cs
      → m.wg ≡ 0
      → m.closing ≡ waiting
      → Step m (record m { closing = crashed })
  finishes :
      m.closing ≡ waited
      → Step m (record m { closing = stopped; logs = "All consumers stopped gracefully" ∷ m.logs })

pub data Reach (m : ConsumerManager) : ConsumerManager → Type 0 where
  here : Reach m m
  next : {t u : ConsumerManager} → Reach m t → t.closing ≢ crashed → Step t u → Reach m u

-- Steps during which no call of `Start` has consumers left to start.
pub data Quiet (m : ConsumerManager) : ConsumerManager → Type 0 where
  rests : m.to_start ≡ [] → Quiet m m
  moves :
      {t u : ConsumerManager}
      → Quiet m t
      → t.closing ≢ crashed
      → Step t u
      → u.to_start ≡ []
      → Quiet m u
