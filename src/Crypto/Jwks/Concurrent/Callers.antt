-- ===== src/Crypto/Jwks/Concurrent/Callers.antt =====
-- What holds of the callers at every moment, and how a change of the flight or of one caller keeps it.
use helix_fnd.Prelude.{
  ◌≡◌, ◌⊎◌, Bool, true, false, String, List, [], ◌∷◌, ◌++◌, Option, none, some, at_key,
}
use helix_fnd.Crypto.Jwks.{JsonWebKey, PublicKey, Fetched, responded}
use helix_fnd.Crypto.Jwks.Keys.{IsServed}
use helix_fnd.Crypto.Jwks.Concurrent.{
  Caller, reads, misses, waits, rereads, answers, Flight, idle, requesting, received_one, joined,
  looked_up, woken, wake,
}

abbrev pub IsAmong : Fetched → List Fetched → Type 0
IsAmong r [] = ⊥
IsAmong r (r' ∷ rs) = (r ≡ r') ⊎ IsAmong r rs

-- A response was a 200 that lists the key, as an RSA signing key with this kid.
abbrev pub Published : List Fetched → String → PublicKey → Type 0
Published rs kid key =
    (keys : List JsonWebKey) × IsAmong (responded 200 (some keys)) rs × IsServed keys kid key

abbrev pub IsFlying : Flight → Type 0
IsFlying idle = ⊥
IsFlying requesting = Unit
IsFlying (received_one r) = Unit

-- The key of an answer was published, and who waits, waits for a flight.
abbrev pub IsSound : Flight → List Fetched → Caller → Type 0
IsSound f rs (answers kid (some key)) = Published rs kid key
IsSound f rs (waits kid) = IsFlying f
IsSound f rs c = Unit

abbrev pub AllSound : Flight → List Fetched → List Caller → Type 0
AllSound f rs [] = Unit
AllSound f rs (c ∷ cs) = IsSound f rs c × AllSound f rs cs

-- Every key of the cache was published, and the response on its way was given.
abbrev pub IsFrom : List Fetched → List (String × PublicKey) → Type 0
IsFrom rs cache =
    (kid : String) (key : PublicKey) → at_key cache kid ≡ some key → Published rs kid key

abbrev pub IsGiven : List Fetched → Flight → Type 0
IsGiven rs (received_one r) = IsAmong r rs
IsGiven rs f = Unit

pub replaced :
    (f : Flight) (rs : List Fetched) (c c' : Caller) (before later : List Caller)
    → AllSound f rs (before ++ (c ∷ later))
    → IsSound f rs c'
    → AllSound f rs (before ++ (c' ∷ later))
replaced f rs c c' [] later h sound = (sound, h.1)
replaced f rs c c' (b ∷ before) later h sound = (h.0, replaced f rs c c' before later h.1 sound)

-- Another flight, and more responses.
IsSound-changed :
    (f f' : Flight) (rs : List Fetched) (more : List Fetched → List Fetched) (c : Caller)
    → (IsFlying f → IsFlying f')
    → ((r : Fetched) → IsAmong r rs → IsAmong r (more rs))
    → IsSound f rs c
    → IsSound f' (more rs) c
IsSound-changed f f' rs more (reads kid) flies grows h = tt
IsSound-changed f f' rs more (misses kid) flies grows h = tt
IsSound-changed f f' rs more (waits kid) flies grows h = flies h
IsSound-changed f f' rs more (rereads kid) flies grows h = tt
IsSound-changed f f' rs more (answers kid none) flies grows h = tt
IsSound-changed f f' rs more (answers kid (some key)) flies grows (keys, among, served) =
    (keys, grows _ among, served)

pub AllSound-changed :
    (f f' : Flight) (rs : List Fetched) (more : List Fetched → List Fetched) (cs : List Caller)
    → (IsFlying f → IsFlying f')
    → ((r : Fetched) → IsAmong r rs → IsAmong r (more rs))
    → AllSound f rs cs
    → AllSound f' (more rs) cs
AllSound-changed f f' rs more [] flies grows h = tt
AllSound-changed f f' rs more (c ∷ cs) flies grows (h, t) =
    (IsSound-changed f f' rs more c flies grows h, AllSound-changed f f' rs more cs flies grows t)

pub joined-IsFlying : (f : Flight) → IsFlying (joined f)
joined-IsFlying idle = tt
joined-IsFlying requesting = tt
joined-IsFlying (received_one r) = tt

pub joined-IsGiven : (rs : List Fetched) (f : Flight) → IsGiven rs f → IsGiven rs (joined f)
joined-IsGiven rs idle h = tt
joined-IsGiven rs requesting h = tt
joined-IsGiven rs (received_one r) h = h

woken-IsSound :
    (f : Flight) (rs : List Fetched) (succeeded : Bool) (c : Caller)
    → IsSound f rs c
    → IsSound idle rs (woken succeeded c)
woken-IsSound f rs true (waits kid) h = tt
woken-IsSound f rs false (waits kid) h = tt
woken-IsSound f rs succeeded (reads kid) h = tt
woken-IsSound f rs succeeded (misses kid) h = tt
woken-IsSound f rs succeeded (rereads kid) h = tt
woken-IsSound f rs succeeded (answers kid none) h = tt
woken-IsSound f rs succeeded (answers kid (some key)) h = h

pub wake-AllSound :
    (f : Flight) (rs : List Fetched) (succeeded : Bool) (cs : List Caller)
    → AllSound f rs cs
    → AllSound idle rs (wake succeeded cs)
unfolding wake
wake-AllSound f rs succeeded [] h = tt
wake-AllSound f rs succeeded (c ∷ cs) (h, t) =
    (woken-IsSound f rs succeeded c h, wake-AllSound f rs succeeded cs t)

pub looked_up-IsSound :
    (f : Flight) (rs : List Fetched) (cache : List (String × PublicKey)) (kid : String)
    (found : Option PublicKey)
    → IsFrom rs cache
    → at_key cache kid ≡ found
    → IsSound f rs (looked_up kid found)
looked_up-IsSound f rs cache kid none from h = tt
looked_up-IsSound f rs cache kid (some key) from h = from kid key h

pub answers-IsSound :
    (f : Flight) (rs : List Fetched) (cache : List (String × PublicKey)) (kid : String)
    (found : Option PublicKey)
    → IsFrom rs cache
    → at_key cache kid ≡ found
    → IsSound f rs (answers kid found)
answers-IsSound f rs cache kid none from h = tt
answers-IsSound f rs cache kid (some key) from h = from kid key h
