-- ===== src/Audit/Async.antt =====
-- `AsyncLogger` of audit/async_writer.go: a bounded channel between the callers of `Log` and one
-- worker. Each operation that the scheduler lets happen is a step of an executable machine; the
-- random choices of `select`, the clock and the writer's failures are in the schedule.
pub mod Delivery
pub mod Replies
pub mod Shutdown
use helix_fnd.Prelude.{
  ℕ, zero, suc, ◌+◌, ◌≡◌, Bool, true, false, ◌&&◌, String, List, [], ◌∷◌, ◌++◌, ℤ, pos, negsuc, ltb,
  leb, length, if◌then◌else◌,
}
use helix_fnd.Audit.Event.{Event, stamped}
use helix_fnd.Audit.Drops.{Stats, fresh, enter, step_caller}

pub record AsyncLogger (V : Type 0) : Type 0 where
  pub events : List (Event V)  -- the channel's buffer, oldest first
  pub capacity : ℕ
  pub is_closed : Bool
  pub block_on_full : Bool
  pub encoded : List (Event V × Bool)  -- the `Encode` calls so far and their success, oldest first
  pub write_errors : ℕ  -- the `audit_write_failed` lines
  pub stats : Stats

-- `if bufferSize <= 0 { bufferSize = 1024 }`
abbrev pub buffer_size : ℤ → ℕ
buffer_size (pos zero) = 1024
buffer_size (pos (suc n)) = suc n
buffer_size (negsuc n) = 1024

unfoldable pub new_async_logger : {V : Type 0} → ℤ → Bool → AsyncLogger V
new_async_logger size block = record {
  events = [];
  capacity = buffer_size size;
  is_closed = false;
  block_on_full = block;
  encoded = [];
  write_errors = 0;
  stats = fresh;
}

-- The results of `Log`. `blocked` is a call that still waits in its `select`.
pub data Reply (V : Type 0) : Type 0 where
  accepted : Event V → Reply V
  buffer_full : Reply V
  canceled : Reply V
  blocked : Reply V
  send_on_closed : Reply V  -- a panic
  done : Reply V  -- any other operation

module _ {V : Type 0} where
  has_room : AsyncLogger V → Bool
  has_room l = ltb (length l.events) l.capacity

  push : Event V → AsyncLogger V → AsyncLogger V × Reply V
  push e l = (record l { events = l.events ++ (e ∷ []) }, accepted e)

  drop : Event V → Reply V → AsyncLogger V → AsyncLogger V × Reply V
  drop e r l = (record l { stats = enter e.action l.stats }, r)

  -- `case l.events <- event`: whether it is ready, and what it does if it is taken.
  can_send : AsyncLogger V → Bool
  unfolding has_room
  can_send l = if l.is_closed then true else has_room l

  send : Event V → AsyncLogger V → AsyncLogger V × Reply V
  unfolding push
  send e l = if l.is_closed then (l, send_on_closed) else push e l

  -- The blocking `select`. Where both cases are ready the runtime picks one.
  log_blocking : Event V → Bool → Bool → AsyncLogger V → AsyncLogger V × Reply V
  unfolding can_send send drop
  log_blocking e ctx_done pick_done l =
      if can_send l
      then (if ctx_done && pick_done then drop e canceled l else send e l)
      else (if ctx_done then drop e canceled l else (l, blocked))

  -- The `select` with a default.
  log_dropping : Event V → AsyncLogger V → AsyncLogger V × Reply V
  unfolding can_send send drop
  log_dropping e l = if can_send l then send e l else drop e buffer_full l

  unfoldable pub log_event : Event V → ℕ → Bool → Bool → AsyncLogger V → AsyncLogger V × Reply V
  unfolding log_blocking log_dropping
  log_event event now ctx_done pick_done l =
      let e = stamped now event in
      if l.block_on_full then log_blocking e ctx_done pick_done l else log_dropping e l

  -- One turn of the worker's `range` loop; with nothing buffered it waits, or has ended.
  take : List (Event V) → Bool → AsyncLogger V → AsyncLogger V
  take [] written l = l
  take (e ∷ rest) written l = record l {
    events = rest;
    encoded = l.encoded ++ ((e, written) ∷ []);
    write_errors = if written then l.write_errors else l.write_errors + 1;
  }

  unfoldable pub work : Bool → AsyncLogger V → AsyncLogger V
  unfolding take
  work written l = take l.events written l

  -- `close(l.events)`, once.
  unfoldable pub close : AsyncLogger V → AsyncLogger V
  close l = record l { is_closed = true }

  -- The worker has returned, so that `Close` returns from `wg.Wait()`.
  abbrev pub is_drained : AsyncLogger V → Bool
  is_drained l = elim l.events [ [] ↦ l.is_closed | e ∷ rest ↦ false ]

  unfoldable pub step_drop : ℕ → ℕ → AsyncLogger V → AsyncLogger V
  step_drop i now l = record l { stats = step_caller i now l.stats }

pub data Op (V : Type 0) : Type 0 where
  log : Event V → ℕ → Bool → Bool → Op V
  encode : Bool → Op V
  close_call : Op V
  resume_drop : ℕ → ℕ → Op V

module _ {V : Type 0} where
  unfoldable pub step : Op V → AsyncLogger V → AsyncLogger V × Reply V
  unfolding log_event work close step_drop
  step (log e now ctx_done pick_done) l = log_event e now ctx_done pick_done l
  step (encode written) l = (work written l, done)
  step close_call l = (close l, done)
  step (resume_drop i now) l = (step_drop i now l, done)

  -- A schedule, the first operation at the head, and the replies in the same order.
  unfoldable pub run : List (Op V) → AsyncLogger V → AsyncLogger V × List (Reply V)
  run [] l = (l, [])
  run (op ∷ ops) l = let (l', r) = step op l in let (l'', rs) = run ops l' in (l'', r ∷ rs)
