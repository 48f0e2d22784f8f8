-- ===== src/Messaging/Manager/Waiting.antt =====
-- What `wg.Wait` waits for.
use std.Path.{subst}
use helix_fnd.Prelude.{
  ℕ, ◌-◌, ◌≡◌, refl, sym, ap, Bool, true, false, String, List, [], ◌∷◌, arith, count, count-append,
}
use helix_fnd.Messaging.Manager.{
  Goroutine, running, done, Closing, open_, waiting, waited, stopped, crashed, ConsumerManager,
  new_consumer_manager, register, start, start_one, Step, registers, starts, starts_one, returns,
  closes, waits, misuses, finishes, Reach, here, next, Quiet, rests, moves,
}

abbrev pub is_running : Goroutine → Bool
is_running (running c) = true
is_running (done c) = false

abbrev pub IsCounted : ConsumerManager → Type 0
IsCounted m = m.wg ≡ count is_running m.goroutines

start_one-IsCounted :
    (cs : List String) (m : ConsumerManager) → IsCounted m → IsCounted (start_one cs m)
unfolding start_one
start_one-IsCounted [] m h = h
start_one-IsCounted (c ∷ cs) m h =
    omega (arith, h, count-append is_running m.goroutines (running c ∷ []))

Step-IsCounted : {m t : ConsumerManager} → Step m t → IsCounted m → IsCounted t
unfolding register start
Step-IsCounted {m} (registers c) h = h
Step-IsCounted {m} starts h = h
Step-IsCounted {m} starts_one h = start_one-IsCounted m.to_start m h
Step-IsCounted {m} (returns c result before later e) h = omega (
  arith,
  h,
  ap (count is_running) e,
  count-append is_running before (running c ∷ later),
  count-append is_running before (done c ∷ later),
)
Step-IsCounted {m} (closes answers e q) h = h
Step-IsCounted {m} (waits e q) h = h
Step-IsCounted {m} (misuses c cs e q w) h = h
Step-IsCounted {m} (finishes e) h = h

Reach-IsCounted : {m t : ConsumerManager} → IsCounted m → Reach m t → IsCounted t
Reach-IsCounted h here = h
Reach-IsCounted h (next r alive st) = Step-IsCounted st (Reach-IsCounted h r)

-- Once `wg.Wait` has returned, the counter is 0.
abbrev Calm : Closing → ℕ → Type 0
Calm open_ wg = ⊥
Calm waiting wg = Unit
Calm waited wg = wg ≡ 0
Calm stopped wg = wg ≡ 0
Calm crashed wg = Unit

Calm-less : (c : Closing) (wg : ℕ) → Calm c wg → Calm c (wg - 1)
Calm-less open_ wg h = absurd h
Calm-less waiting wg h = h
Calm-less waited wg h = omega arith
Calm-less stopped wg h = omega arith
Calm-less crashed wg h = h

Calm-start_one :
    (cs : List String) (m : ConsumerManager)
    → cs ≡ []
    → Calm m.closing m.wg
    → Calm (start_one cs m).closing (start_one cs m).wg
unfolding start_one
Calm-start_one [] m e h = h
Calm-start_one (c ∷ cs) m e h = absurd (cc e)

Step-Calm :
    {m t : ConsumerManager} → m.to_start ≡ [] → Step m t → Calm m.closing m.wg → Calm t.closing t.wg
unfolding register start
Step-Calm {m} e (registers c) h = h
Step-Calm {m} e starts h = h
Step-Calm {m} e starts_one h = Calm-start_one m.to_start m e h
Step-Calm {m} e (returns c result before later g) h = Calm-less m.closing m.wg h
Step-Calm {m} e (closes answers g q) h = tt
Step-Calm {m} e (waits w z) h = z
Step-Calm {m} e (misuses c cs g z w) h = tt
Step-Calm {m} e (finishes w) h = subst (λ c. Calm c m.wg) w h

Quiet-to_start : {m t : ConsumerManager} → Quiet m t → t.to_start ≡ []
Quiet-to_start (rests e) = e
Quiet-to_start (moves q alive st e) = e

Quiet-Calm :
    {m t : ConsumerManager}
    → IsCounted m
    → Calm m.closing m.wg
    → Quiet m t
    → IsCounted t × Calm t.closing t.wg
Quiet-Calm counted h (rests e) = (counted, h)
Quiet-Calm counted h (moves q alive st e) =
    let (counted', h') = Quiet-Calm counted h q in
    (Step-IsCounted st counted', Step-Calm (Quiet-to_start q) st h')

-- However the calls and the consumers have interleaved when `Close` comes to `wg.Wait`: if from then on no
-- call of `Start` has consumers left to start, no goroutine of a consumer runs any more once `Close` has
-- returned, whatever else happens.
pub Quiet-none_running :
    (m t : ConsumerManager)
    → Reach new_consumer_manager m
    → m.closing ≡ waiting
    → Quiet m t
    → t.closing ≡ stopped
    → count is_running t.goroutines ≡ 0
Quiet-none_running m t r w quiet s =
    let counted = Reach-IsCounted refl r in
    let (counted', calm) = Quiet-Calm counted (subst (λ c. Calm c m.wg) (sym w) tt) quiet in
    let none_left = subst (λ c. Calm c t.wg) s calm in omega (arith, counted', none_left)
