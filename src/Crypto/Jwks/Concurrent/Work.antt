-- ===== src/Crypto/Jwks/Concurrent/Work.antt =====
-- What is left to do for the callers, as a number.
use helix_fnd.Prelude.{
  ℕ, ◌+◌, ◌≤◌, ◌≡◌, refl, ap, ◌∙◌, ◌⊎◌, inl, inr, Bool, true, false, String, List, [], ◌∷◌, ◌++◌,
  Option, none, some, arith,
}
use helix_fnd.Crypto.Jwks.{PublicKey, Fetched}
use helix_fnd.Crypto.Jwks.Concurrent.{
  Caller, reads, misses, waits, rereads, answers, Flight, idle, requesting, received_one, Shared,
  joined, looked_up, woken, wake,
}
use helix_fnd.Crypto.Jwks.Concurrent.Callers.{IsFlying, IsSound, AllSound}

abbrev pub AllAnswered : List Caller → Type 0
AllAnswered [] = Unit
AllAnswered (answers kid key ∷ cs) = AllAnswered cs
AllAnswered (c ∷ cs) = ⊥

abbrev pub IsOpen : Caller → Type 0
IsOpen (answers kid key) = ⊥
IsOpen c = Unit

-- What each caller asked for.
abbrev pub kid_of : Caller → String
kid_of (reads kid) = kid
kid_of (misses kid) = kid
kid_of (waits kid) = kid
kid_of (rereads kid) = kid
kid_of (answers kid key) = kid

abbrev pub kids : List Caller → List String
kids [] = []
kids (c ∷ cs) = kid_of c ∷ kids cs

-- What is left to do for a caller, for all, and for the flight.
abbrev pub rank : Caller → ℕ
rank (reads kid) = 8
rank (misses kid) = 7
rank (waits kid) = 4
rank (rereads kid) = 1
rank (answers kid key) = 0

abbrev pub total : List Caller → ℕ
total [] = 0
total (c ∷ cs) = rank c + total cs

abbrev pub owed : Flight → ℕ
owed idle = 0
owed requesting = 2
owed (received_one response) = 1

abbrev pub work : {W : Type 0} → Shared W → ℕ
work s = total s.callers + owed s.flight

pub total-replaced :
    (before later : List Caller) (c : Caller)
    → total (before ++ (c ∷ later)) ≡ rank c + total (before ++ later)
total-replaced [] later c = refl
total-replaced (b ∷ before) later c = let rest = total-replaced before later c in omega arith

pub kids-replaced :
    (before later : List Caller) (c c' : Caller)
    → kid_of c ≡ kid_of c'
    → kids (before ++ (c ∷ later)) ≡ kids (before ++ (c' ∷ later))
kids-replaced [] later c c' same = ap (λ k. k ∷ kids later) same
kids-replaced (b ∷ before) later c c' same =
    ap (λ ks. kid_of b ∷ ks) (kids-replaced before later c c' same)

woken-keeps :
    (b : Bool) (c : Caller) → (rank (woken b c) ≤ rank c) × (kid_of (woken b c) ≡ kid_of c)
woken-keeps b (reads kid) = (omega arith, refl)
woken-keeps b (misses kid) = (omega arith, refl)
woken-keeps true (waits kid) = (omega arith, refl)
woken-keeps false (waits kid) = (omega arith, refl)
woken-keeps b (rereads kid) = (omega arith, refl)
woken-keeps b (answers kid key) = (omega arith, refl)

pub wake-keeps :
    (b : Bool) (cs : List Caller) → (total (wake b cs) ≤ total cs) × (kids (wake b cs) ≡ kids cs)
unfolding wake
wake-keeps b [] = (omega arith, refl)
wake-keeps b (c ∷ cs) =
    let (less, same) = woken-keeps b c in
    let (less', same') = wake-keeps b cs in
    (omega arith, ap (λ k. k ∷ kids (wake b cs)) same ∙ ap (λ ks. kid_of c ∷ ks) same')

pub looked_up-keeps :
    (kid : String) (found : Option PublicKey)
    → (rank (looked_up kid found) ≤ 7) × (kid_of (looked_up kid found) ≡ kid)
looked_up-keeps kid none = (omega arith, refl)
looked_up-keeps kid (some key) = (omega arith, refl)

pub owed-joined : (f : Flight) → owed (joined f) ≤ owed f + 2
owed-joined idle = omega arith
owed-joined requesting = omega arith
owed-joined (received_one response) = omega arith

pub all_or_first :
    (cs : List Caller)
    → AllAnswered cs
      ⊎ ((before later : List Caller) × (c : Caller) × (cs ≡ before ++ (c ∷ later)) × IsOpen c)
all_or_first [] = inl tt
all_or_first (reads kid ∷ cs) = inr ([], cs, reads kid, refl, tt)
all_or_first (misses kid ∷ cs) = inr ([], cs, misses kid, refl, tt)
all_or_first (waits kid ∷ cs) = inr ([], cs, waits kid, refl, tt)
all_or_first (rereads kid ∷ cs) = inr ([], cs, rereads kid, refl, tt)
all_or_first (answers kid key ∷ cs) = elim (all_or_first cs) [
  | inl all ↦ inl all
  | inr (before, later, c, same, more) ↦
      inr (answers kid key ∷ before, later, c, ap (λ l. answers kid key ∷ l) same, more)
]

pub AllSound-at :
    (f : Flight) (rs : List Fetched) (before later : List Caller) (c : Caller)
    → AllSound f rs (before ++ (c ∷ later))
    → IsSound f rs c
AllSound-at f rs [] later c (h, rest) = h
AllSound-at f rs (b ∷ before) later c (h, rest) = AllSound-at f rs before later c rest

pub Flight-cases :
    (f : Flight)
    → IsFlying f
    → (f ≡ requesting) ⊎ ((response : Fetched) × (f ≡ received_one response))
Flight-cases idle flying = absurd flying
Flight-cases requesting flying = inl refl
Flight-cases (received_one response) flying = inr (response, refl)
