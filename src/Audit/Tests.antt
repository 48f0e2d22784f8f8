-- ===== src/Audit/Tests.antt =====
-- A logger with room for two events, and statistics with drops in them.
use helix_fnd.Prelude.{
  ℕ, ◌+◌, ◌≤◌, ◌<◌, ◌≡◌, ◌≢◌, ◌↔◌, refl, pos, true, false, String, List, [], ◌∷◌, ◌++◌, none, some,
  map, length, arith, ltb, if◌then◌else◌,
}
use helix_fnd.Audit.Event.{Event, stamped}
use helix_fnd.Audit.Drops.{Stats, finished, minute, fresh, enter}
use helix_fnd.Audit.Drops.Counting.{
  moves, reported, moves-count, uninterrupted, uninterrupted_lem, race, race_reports_twice,
}
use helix_fnd.Audit.Async.{
  AsyncLogger, new_async_logger, Reply, accepted, buffer_full, blocked, send_on_closed, Op, log,
  encode, close_call, log_event, work, close, step, run, is_drained,
}
use helix_fnd.Audit.Async.Replies.{log_event-open}
use helix_fnd.Audit.Async.Delivery.{accepted_of, drops, run_delivers, run_accounts}
use helix_fnd.Audit.Async.Shutdown.{rounds, paired, close_drains}

abbrev event : String → Event ℕ
event action = record {
  actor_id = "user-1";
  action = action;
  resource = "Order:123";
  old_value = none;
  new_value = some 5;
  timestamp = none;
  metadata = [];
  trace_id = "";
}

-- Three events for two places, one written, then a close and a late call.
abbrev busy_day : List (Op ℕ)
busy_day =
    log (event "CREATE") 1 false false
    ∷ log (event "UPDATE") 2 false false
    ∷ log (event "DELETE") 3 false false
    ∷ encode true
    ∷ close_call
    ∷ log (event "LATE") 4 false false
    ∷ []

busy_replies :
    (run busy_day (new_async_logger (pos 2) false)).1
    ≡ accepted (stamped 1 (event "CREATE"))
      ∷ accepted (stamped 2 (event "UPDATE"))
      ∷ buffer_full
      ∷ Reply.done
      ∷ Reply.done
      ∷ send_on_closed
      ∷ []
unfolding run step log_event work close new_async_logger enter
busy_replies = refl

run_delivers_example :
    (map (λ p. p.0) (run busy_day (new_async_logger (pos 2) false)).0.encoded
        ++ (run busy_day (new_async_logger (pos 2) false)).0.events
      ≡ accepted_of (run busy_day (new_async_logger (pos 2) false)).1)
    × (length (run busy_day (new_async_logger (pos 2) false)).0.events ≤ 2)
run_delivers_example = run_delivers (pos 2) false busy_day

run_accounts_example :
    reported (run busy_day (new_async_logger (pos 2) false)).0.stats.reports
      + (run busy_day (new_async_logger (pos 2) false)).0.stats.drop_count
    ≡ drops (run busy_day (new_async_logger (pos 2) false)).1
run_accounts_example = run_accounts (pos 2) false busy_day (omega arith)

abbrev full : AsyncLogger ℕ
full = record {
  events = event "A" ∷ event "B" ∷ [];
  capacity = 2;
  is_closed = false;
  block_on_full = false;
  encoded = [];
  write_errors = 0;
  stats = fresh;
}

log_event-open_example :
    ((log_event (event "C") 9 true true full).1 ≢ send_on_closed)
    × (((log_event (event "C") 9 true true full).1 ≡ buffer_full)
        ↔ ((false ≡ false) × (2 ≤ length full.events)))
    × (((log_event (event "C") 9 true true full).1 ≡ blocked)
        ↔ ((false ≡ true) × (2 ≤ length full.events) × (true ≡ false)))
    × ((x : Event ℕ)
        → (log_event (event "C") 9 true true full).1 ≡ accepted x
        → (x ≡ stamped 9 (event "C")) × (length full.events < 2))
log_event-open_example = log_event-open (event "C") 9 true true full refl

send_panics :
    (log_event (event "C") 9 true true (record full { is_closed = true })).1 ≡ send_on_closed
unfolding log_event
send_panics = refl

close_drains_example :
    (is_drained (rounds (true ∷ false ∷ []) (close full)) ≡ true)
    × ((rounds (true ∷ false ∷ []) (close full)).encoded
        ≡ [] ++ paired full.events (true ∷ false ∷ []))
close_drains_example = close_drains full (true ∷ false ∷ []) refl

abbrev five : Stats
five = record { drop_count = 5; last_log_time = 10; callers = []; reports = [] }

moves-count_example :
    reported (moves (race "a" "b" 70) five).reports + (moves (race "a" "b" 70) five).drop_count
    ≡ reported [] + 5 + 2
moves-count_example = moves-count (race "a" "b" 70) five (omega arith)

uninterrupted_example : moves (uninterrupted "a" 60_000_000_011) five ≡ (
    if ltb (10 + minute) 60_000_000_011
    then record {
      drop_count = 0;
      last_log_time = 60_000_000_011;
      callers = finished ∷ [];
      reports = record { dropped_count = 6; sample_action = "a" } ∷ [];
    }
    else record { drop_count = 6; last_log_time = 10; callers = finished ∷ []; reports = [] })
uninterrupted_example = uninterrupted_lem "a" 60_000_000_011 five refl (omega arith)

race_example :
    (moves (race "a" "b" 60_000_000_011) five).reports
    ≡ record { dropped_count = 0; sample_action = "b" }
      ∷ record { dropped_count = 7; sample_action = "a" }
      ∷ []
race_example = race_reports_twice "a" "b" 60_000_000_011 five refl (omega arith) (omega arith)
