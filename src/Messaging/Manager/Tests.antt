-- ===== src/Messaging/Manager/Tests.antt =====
-- One consumer, started, closed and waited for.
use helix_fnd.Prelude.{◌≡◌, refl, inl, none, [], ◌∷◌, count}
use helix_fnd.Messaging.Manager.{
  ConsumerManager, new_consumer_manager, done, stopped, waiting, register, start, start_one,
  close_all, registers, starts, starts_one, returns, closes, waits, Reach, here, next, Quiet, rests,
  moves, finishes,
}
use helix_fnd.Messaging.Manager.Waiting.{is_running, Quiet-none_running}

abbrev registered : ConsumerManager
registered = register "orders" new_consumer_manager

abbrev started : ConsumerManager
started = start_one (start registered).to_start (start registered)

abbrev closing_it : ConsumerManager
closing_it = record started {
  closing = waiting;
  logs = close_all (none ∷ []) ("Stopping all consumers..." ∷ started.logs);
}

abbrev left_it : ConsumerManager
left_it = record closing_it { goroutines = done "orders" ∷ []; wg = 0 }

closing_it-reached : Reach new_consumer_manager closing_it
unfolding register start start_one close_all
closing_it-reached =
    next
      (next (next (next here (λ e. absurd (cc e)) (registers "orders")) (λ e. absurd (cc e)) starts)
        (λ e. absurd (cc e)) starts_one)
      (λ e. absurd (cc e)) (closes (none ∷ []) refl (inl refl))

abbrev closed : ConsumerManager
closed = record left_it {
  closing = stopped;
  logs = "All consumers stopped gracefully" ∷ left_it.logs;
}

closed-quietly : Quiet closing_it closed
unfolding register start start_one close_all
closed-quietly =
    moves
      (moves (moves (rests refl) (λ e. absurd (cc e)) (returns "orders" none [] [] refl) refl)
        (λ e. absurd (cc e)) (waits refl refl) refl)
      (λ e. absurd (cc e)) (finishes refl) refl

Quiet-none_running_example : count is_running closed.goroutines ≡ 0
unfolding register start start_one close_all
Quiet-none_running_example =
    Quiet-none_running closing_it closed closing_it-reached refl closed-quietly refl
