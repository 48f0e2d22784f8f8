-- ===== src/App.antt =====
-- app/app.go: `Runner.Run`. The signals and the main function are parameters.
use helix_fnd.Prelude.{ℕ, String, List, [], ◌∷◌, Option, none, some}

-- What the process does, in order.
pub data RunEvent : Type 0 where
  logs : String → RunEvent
  waits_for_signal : RunEvent
  exits : ℕ → RunEvent

after_fn : Option String → List RunEvent
after_fn (some e) = logs "Service startup failed" ∷ exits 1 ∷ []
after_fn none =
    waits_for_signal
    ∷ logs "Shutdown signal received. Cleaning up..."
    ∷ logs "Service shutdown complete."
    ∷ []

-- `fn` is `none` for nil.
unfoldable pub run : {W : Type 0} → (W → W × Option String) → W → W × List RunEvent
unfolding after_fn
run fn w = let (w', result) = fn w in (w', logs "Service starting..." ∷ after_fn result)
