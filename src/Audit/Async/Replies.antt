-- ===== src/Audit/Async/Replies.antt =====
-- When `Log` accepts, drops, waits or panics, and what it leaves alone.
use helix_fnd.Prelude.{ℕ, ◌≡◌, ◌≢◌, ◌≤◌, ◌<◌, ◌↔◌, Bool, true, false, arith, length}
use helix_fnd.Audit.Event.{Event, stamped}
use helix_fnd.Audit.Async.{AsyncLogger, accepted, buffer_full, blocked, send_on_closed, log_event}

module _ {V : Type 0} (e : Event V) (now : ℕ) (ctx_done pick_done : Bool) (l : AsyncLogger V) where
  -- On an open logger: an event is accepted only if the buffer has room, and then is the event given,
  -- stamped. "Buffer full" is returned exactly in the dropping mode with a full buffer, and a call
  -- waits exactly in the blocking mode with a full buffer and a live context. None panics.
  pub log_event-open :
      l.is_closed ≡ false
      → ((log_event e now ctx_done pick_done l).1 ≢ send_on_closed)
        × (((log_event e now ctx_done pick_done l).1 ≡ buffer_full)
            ↔ ((l.block_on_full ≡ false) × (l.capacity ≤ length l.events)))
        × (((log_event e now ctx_done pick_done l).1 ≡ blocked)
            ↔ ((l.block_on_full ≡ true) × (l.capacity ≤ length l.events) × (ctx_done ≡ false)))
        × ((x : Event V)
            → (log_event e now ctx_done pick_done l).1 ≡ accepted x
            → (x ≡ stamped now e) × (length l.events < l.capacity))
  unfolding log_event
  log_event-open h = (ground arith, ground arith, ground arith, λ x r. ground arith)
