-- ===== src/RateLimit/Gcra/Window.antt =====
-- The rate that the script enforces over any window of time.
use Prim.Native.Nat.{max}
use helix_fnd.Prelude.{
  ℕ, ◌+◌, ◌*◌, ◌≤◌, ◌≡◌, negsuc, pos_part, Bool, true, false, List, [], ◌∷◌, Option, none, some,
  arith, if◌then◌else◌, ◌⊎◌, inl,
}
use helix_fnd.RateLimit.Gcra.{
  Limit, Entry, Reply, number, second, interval, ttl, stored_tat, decide,
}

-- A request is let through.
abbrev pub is_allowed : Reply → Bool
is_allowed (number (negsuc n)) = true
is_allowed _ = false

-- The script run at each time in turn: how many requests it lets through.
unfoldable pub allowed : Limit → List ℕ → Option Entry → ℕ
allowed c [] entry = 0
allowed c (now ∷ later) entry =
    let (reply, entry') = decide c now entry in
    (if is_allowed reply then 1 else 0) + allowed c later entry'

-- The times rise from `start` and stay up to `end`.
abbrev pub Within : ℕ → ℕ → List ℕ → Type 0
Within start end [] = start ≤ end
Within start end (t ∷ ts) = (start ≤ t) × Within t end ts

Within-le : (start end : ℕ) (ts : List ℕ) → Within start end ts → start ≤ end
Within-le start end [] h = h
Within-le start end (t ∷ ts) h = omega (arith, Within-le t end ts h.1)

-- An entry outlives its tat.
abbrev pub Outlives : Option Entry → Type 0
Outlives none = Unit
Outlives (some e) = e.tat ≤ e.expires

-- The tat that counts, whether the key has expired or not.
abbrev pub tat_of : Option Entry → ℕ
tat_of none = 0
tat_of (some e) = e.tat

-- Under `Outlives` the expiry of the key makes no difference.
pub stored_tat-max :
    (now : ℕ) (entry : Option Entry)
    → Outlives entry
    → max now (stored_tat now entry) ≡ max now (tat_of entry)
unfolding stored_tat
stored_tat-max now none h = omega arith
stored_tat-max now (some e) h = ground arith

window_step :
    (start now end x x' a t r : ℕ) (b : Bool)
    → start ≤ now
    → now ≤ end
    → ((b ≡ false) × (x' ≡ x)) ⊎ ((b ≡ true) × (x' ≡ max now x + t) × (x' ≤ now + r))
    → (a ≡ 0) ⊎ (max now x' + a * t ≤ end + r)
    → ((if b then 1 else 0) + a ≡ 0) ⊎ (max start x + ((if b then 1 else 0) + a) * t ≤ end + r)
window_step start now end x x' a t r b h k c rest = ground arith

window_end :
    (start end x a t r : ℕ)
    → start ≤ end
    → (a ≡ 0) ⊎ (max start x + a * t ≤ end + r)
    → start + a * t ≤ end + r
window_end start end x a t r h c = ground arith

module _ (c : Limit) (fits : pos_part c.burst * interval c ≤ ttl c * second c) where
  -- The two outcomes for the entry.
  decide_cases :
      (now : ℕ) (entry : Option Entry)
      → Outlives entry
      → let (reply, entry') = decide c now entry in
        Outlives entry'
        × (((is_allowed reply ≡ false) × (tat_of entry' ≡ tat_of entry))
            ⊎ ((is_allowed reply ≡ true)
                × (tat_of entry' ≡ max now (tat_of entry) + interval c)
                × (tat_of entry' ≤ now + pos_part c.burst * interval c)))
  unfolding decide
  decide_cases now entry h = ground (arith, stored_tat-max now entry h)

  -- From the state (`start`, entry): nothing is allowed, or the tat after the last allowed request
  -- is bounded from both sides.
  allowed_from :
      (start end : ℕ) (ts : List ℕ) (entry : Option Entry)
      → Outlives entry
      → Within start end ts
      → (allowed c ts entry ≡ 0)
        ⊎ (max start (tat_of entry) + allowed c ts entry * interval c
            ≤ end + pos_part c.burst * interval c)
  unfolding allowed
  allowed_from start end [] entry o w = inl (omega arith)
  allowed_from start end (now ∷ later) entry o w =
      let (o', cases) = decide_cases now entry o in
      window_step start now end (tat_of entry) (tat_of (decide c now entry).1)
        (allowed c later (decide c now entry).1) (interval c) (pos_part c.burst * interval c)
        (is_allowed (decide c now entry).0) w.0 (Within-le now end later w.1) cases
        (allowed_from now end later (decide c now entry).1 o' w.1)

  -- In any window from `start` to `end` the script lets `n` requests through only if `n` emission
  -- intervals fit into the length of the window and `burst` intervals. This holds for any entry before
  -- that expires no earlier than its tat, and if `burst` intervals are no longer than the key lives.
  pub allowed-le :
      (start end : ℕ) (ts : List ℕ) (entry : Option Entry)
      → Outlives entry
      → Within start end ts
      → start + allowed c ts entry * interval c ≤ end + pos_part c.burst * interval c
  allowed-le start end ts entry o w =
      window_end start end (tat_of entry) (allowed c ts entry) (interval c) _
        (Within-le start end ts w) (allowed_from start end ts entry o w)

  -- The condition on the entry holds of what the script writes.
  pub decide-Outlives :
      (now : ℕ) (entry : Option Entry) → Outlives entry → Outlives (decide c now entry).1
  decide-Outlives now entry o = (decide_cases now entry o).0
