-- ===== src/Audit/Async/Delivery.antt =====
-- What becomes of the events over a whole schedule: order, bounds and counts.
use mathlib.Core.List.{append-nil, append_assoc, map-append}
use helix_fnd.Prelude.{
  ℕ, zero, suc, pos, negsuc, ◌+◌, ◌≡◌, ◌∙◌, refl, sym, ap, ◌≤◌, ◌<◌, ◌^◌, ℤ, Bool, List, [], ◌∷◌,
  ◌++◌, map, arith, length, length-append,
}
use helix_fnd.Audit.Event.{Event, stamped}
use helix_fnd.Audit.Drops.{Stats}
use helix_fnd.Audit.Drops.Counting.{reported, enter-counts, step_caller-keeps}
use helix_fnd.Audit.Async.{
  AsyncLogger, Reply, accepted, buffer_full, canceled, log_event, Op, log, encode, close_call,
  resume_drop, step, run, take, new_async_logger, buffer_size,
}

-- The drops that the statistics know of.
missed : Stats → ℕ
missed s = reported s.reports + s.drop_count

-- At most as many as the size that was given to the constructor, or as its default.
abbrev pub IsWithinSize : ℤ → ℕ → Type 0
IsWithinSize (pos zero) n = n ≤ 1024
IsWithinSize (pos (suc size)) n = n ≤ suc size
IsWithinSize (negsuc size) n = n ≤ 1024

IsWithinSize-buffer_size : (size : ℤ) (n : ℕ) → n ≤ buffer_size size → IsWithinSize size n
IsWithinSize-buffer_size (pos zero) n h = h
IsWithinSize-buffer_size (pos (suc size)) n h = h
IsWithinSize-buffer_size (negsuc size) n h = h

module _ {V : Type 0} where
  abbrev pub accepted_of : List (Reply V) → List (Event V)
  accepted_of [] = []
  accepted_of (accepted e ∷ rs) = e ∷ accepted_of rs
  accepted_of (r ∷ rs) = accepted_of rs

  -- All events taken so far: those handed to the encoder, then those in the buffer.
  abbrev pub pipeline : AsyncLogger V → List (Event V)
  pipeline l = map (λ p. p.0) l.encoded ++ l.events

  take-pipeline :
      (es : List (Event V)) (written : Bool) (l : AsyncLogger V)
      → l.events ≡ es
      → pipeline (take es written l) ≡ pipeline l
  unfolding take
  take-pipeline [] written l h = refl
  take-pipeline (e ∷ rest) written l h =
      rw (map-append, h) (append_assoc (map (λ p. p.0) l.encoded) (e ∷ []) rest)

  log-encoded :
      (e : Event V) (now : ℕ) (ctx_done pick_done : Bool) (l : AsyncLogger V)
      → (log_event e now ctx_done pick_done l).0.encoded ≡ l.encoded
  unfolding log_event
  log-encoded e now ctx_done pick_done l = ground arith

  log-events :
      (e : Event V) (now : ℕ) (ctx_done pick_done : Bool) (l : AsyncLogger V)
      → (log_event e now ctx_done pick_done l).0.events
        ≡ l.events ++ accepted_of ((log_event e now ctx_done pick_done l).1 ∷ [])
  unfolding log_event
  log-events e now ctx_done pick_done l = ground (arith, append-nil l.events)

  step-pipeline :
      (op : Op V) (l : AsyncLogger V)
      → pipeline (step op l).0 ≡ pipeline l ++ accepted_of ((step op l).1 ∷ [])
  unfolding step
  step-pipeline (log e now ctx_done pick_done) l =
      rw (log-encoded e now ctx_done pick_done l, log-events e now ctx_done pick_done l)
        (sym (append_assoc (map (λ p. p.0) l.encoded) l.events _))
  step-pipeline (encode written) l =
      take-pipeline l.events written l refl ∙ sym (append-nil (pipeline l))
  step-pipeline close_call l = sym (append-nil (pipeline l))
  step-pipeline (resume_drop i now) l = sym (append-nil (pipeline l))

  accepted_of-cons :
      (r : Reply V) (rs : List (Reply V))
      → accepted_of (r ∷ rs) ≡ accepted_of (r ∷ []) ++ accepted_of rs
  accepted_of-cons (accepted e) rs = refl
  accepted_of-cons _ rs = refl

  run-pipeline :
      (ops : List (Op V)) (l : AsyncLogger V)
      → pipeline (run ops l).0 ≡ pipeline l ++ accepted_of (run ops l).1
  unfolding run
  run-pipeline [] l = sym (append-nil (pipeline l))
  run-pipeline (op ∷ ops) l =
      let (l', r) = step op l in
      run-pipeline ops l'
      ∙ ap (λ p. p ++ accepted_of (run ops l').1) (step-pipeline op l)
      ∙ append_assoc (pipeline l) (accepted_of (r ∷ [])) (accepted_of (run ops l').1)
      ∙ ap (λ p. pipeline l ++ p) (sym (accepted_of-cons r (run ops l').1))

  -- How many replies are drops.
  abbrev pub drops : List (Reply V) → ℕ
  drops [] = 0
  drops (buffer_full ∷ rs) = suc (drops rs)
  drops (canceled ∷ rs) = suc (drops rs)
  drops (r ∷ rs) = drops rs

  abbrev pub IsBounded : AsyncLogger V → Type 0
  IsBounded l = length l.events ≤ l.capacity

  step-IsBounded : (op : Op V) (l : AsyncLogger V) → IsBounded l → IsBounded (step op l).0
  unfolding step
  step-IsBounded (log e now ctx_done pick_done) l h =
      ground (arith, length-append l.events (stamped now e ∷ []))
  step-IsBounded (encode written) l h = ground arith
  step-IsBounded close_call l h = h
  step-IsBounded (resume_drop i now) l h = h

  run-IsBounded : (ops : List (Op V)) (l : AsyncLogger V) → IsBounded l → IsBounded (run ops l).0
  unfolding run
  run-IsBounded [] l h = h
  run-IsBounded (op ∷ ops) l h = run-IsBounded ops (step op l).0 (step-IsBounded op l h)

  step-capacity : (op : Op V) (l : AsyncLogger V) → (step op l).0.capacity ≡ l.capacity
  unfolding step
  step-capacity (log e now ctx_done pick_done) l = ground arith
  step-capacity (encode written) l = ground arith
  step-capacity close_call l = refl
  step-capacity (resume_drop i now) l = refl

  run-capacity : (ops : List (Op V)) (l : AsyncLogger V) → (run ops l).0.capacity ≡ l.capacity
  unfolding run
  run-capacity [] l = refl
  run-capacity (op ∷ ops) l = run-capacity ops (step op l).0 ∙ step-capacity op l

  drops_one : (r : Reply V) → drops (r ∷ []) ≤ 1
  drops_one buffer_full = omega arith
  drops_one canceled = omega arith
  drops_one _ = omega arith

  step-missed :
      (op : Op V) (l : AsyncLogger V)
      → missed l.stats + 1 < 2 ^ 64
      → missed (step op l).0.stats ≡ missed l.stats + drops ((step op l).1 ∷ [])
  unfolding step missed
  step-missed (log e now ctx_done pick_done) l h =
      ground (arith, enter-counts e.action l.stats (omega arith))
  step-missed (encode written) l h = ground arith
  step-missed close_call l h = omega arith
  step-missed (resume_drop i now) l h = omega (arith, step_caller-keeps i now l.stats)

  drops-cons : (r : Reply V) (rs : List (Reply V)) → drops (r ∷ rs) ≡ drops (r ∷ []) + drops rs
  drops-cons buffer_full rs = omega arith
  drops-cons canceled rs = omega arith
  drops-cons _ rs = omega arith

  run-missed :
      (ops : List (Op V)) (l : AsyncLogger V)
      → missed l.stats + length ops < 2 ^ 64
      → missed (run ops l).0.stats ≡ missed l.stats + drops (run ops l).1
  unfolding run
  run-missed [] l h = omega arith
  run-missed (op ∷ ops) l h =
      let (l', r) = step op l in
      let one = step-missed op l (omega arith) in
      let few = drops_one r in
      let ih = run-missed ops l' (omega (arith, one)) in
      omega (arith, one, ih, drops-cons r (run ops l').1)

  -- Over any schedule of a new logger: the events accepted by `Log` are those handed to the encoder
  -- followed by those in the buffer, in the order of acceptance, none lost or doubled; and the buffer
  -- never exceeds the size that was given, if this is positive, and otherwise 1024.
  pub run_delivers :
      (size : ℤ) (block : Bool) (ops : List (Op V))
      → (map (λ p. p.0) (run ops (new_async_logger size block)).0.encoded
            ++ (run ops (new_async_logger size block)).0.events
          ≡ accepted_of (run ops (new_async_logger size block)).1)
        × IsWithinSize size (length (run ops (new_async_logger size block)).0.events)
  unfolding new_async_logger
  run_delivers size block ops =
      let l = new_async_logger size block in
      (
        run-pipeline ops l,
        IsWithinSize-buffer_size size (length (run ops l).0.events)
            (rw (run-capacity ops l) at (run-IsBounded ops l (omega arith))),
      )

  -- Over any schedule of fewer than 2^64 operations, the drops that `Log` returned are exactly those
  -- reported in the error log plus those still in the counter.
  pub run_accounts :
      (size : ℤ) (block : Bool) (ops : List (Op V))
      → length ops < 2 ^ 64
      → reported (run ops (new_async_logger size block)).0.stats.reports
          + (run ops (new_async_logger size block)).0.stats.drop_count
        ≡ drops (run ops (new_async_logger size block)).1
  unfolding new_async_logger missed
  run_accounts size block ops h =
      omega (arith, run-missed ops (new_async_logger size block) (omega arith))
