-- ===== src/RateLimit/Gcra/Bucket.antt =====
-- The script against the algorithm that it stands for: a token bucket that is refilled with time.
use Prim.Native.Nat.{max, min}
use helix_fnd.Prelude.{
  ℕ, ◌+◌, ◌-◌, ◌*◌, ◌≤◌, ◌<◌, ◌≡◌, refl, pos_part, Bool, true, false, List, [], ◌∷◌, Option, arith,
  leb, if◌then◌else◌,
}
use helix_fnd.RateLimit.Gcra.{Limit, Entry, second, interval, ttl, decide}
use helix_fnd.RateLimit.Gcra.Window.{is_allowed, Outlives, Within, tat_of, stored_tat-max}

-- What the bucket held at the time of the last request. A unit of time brings one unit of tokens.
pub record TokenBucket : Type 0 where
  pub tokens : ℕ
  pub last : ℕ

-- A request takes `cost` tokens, or is refused.
abbrev pub available : ℕ → ℕ → TokenBucket → ℕ
available capacity now b = min capacity (b.tokens + (now - b.last))

unfoldable pub withdraw : ℕ → ℕ → ℕ → TokenBucket → Bool × TokenBucket
withdraw capacity cost now b =
    let held = available capacity now b in
    if leb cost held
    then (true, record { tokens = held - cost; last = now })
    else (false, record { tokens = held; last = now })

-- The verdicts on requests at some times.
unfoldable pub withdrawals : ℕ → ℕ → List ℕ → TokenBucket → List Bool
withdrawals capacity cost [] b = []
withdrawals capacity cost (now ∷ later) b =
    let (verdict, b') = withdraw capacity cost now b in verdict ∷ withdrawals capacity cost later b'

unfoldable pub verdicts : Limit → List ℕ → Option Entry → List Bool
verdicts c [] entry = []
verdicts c (now ∷ later) entry =
    let (reply, entry') = decide c now entry in is_allowed reply ∷ verdicts c later entry'

-- The entry stands for a bucket: what is missing from it is the time until the tat.
abbrev pub Represents : ℕ → TokenBucket → Option Entry → Type 0
Represents capacity b entry =
    Outlives entry × (b.tokens + (max b.last (tat_of entry) - b.last) ≡ capacity)

module _ (c : Limit) (fits : pos_part c.burst * interval c ≤ ttl c * second c)
    (real : 0 < c.period) where
  abbrev pub capacity : ℕ
  capacity = pos_part c.burst * interval c

  decide-withdraw :
      (now : ℕ) (b : TokenBucket) (entry : Option Entry)
      → b.last ≤ now
      → Represents capacity b entry
      → let (reply, entry') = decide c now entry in
        let (verdict, b') = withdraw capacity (interval c) now b in
        (is_allowed reply ≡ verdict) × (b'.last ≡ now) × Represents capacity b' entry'
  unfolding decide withdraw
  decide-withdraw now b entry h r = ground (arith, stored_tat-max now entry)

  -- Run after run at rising times, the script on an entry gives the verdicts of the token bucket that
  -- the entry stands for: it holds `burst` intervals at most, is refilled at the pace of time, and pays
  -- one interval for each request. (The period is positive, and `burst` intervals are no longer than
  -- the key lives.)
  pub verdicts-withdrawals :
      (end : ℕ) (ts : List ℕ) (b : TokenBucket) (entry : Option Entry)
      → Within b.last end ts
      → Represents capacity b entry
      → verdicts c ts entry ≡ withdrawals capacity (interval c) ts b
  unfolding verdicts withdrawals
  verdicts-withdrawals end [] b entry w r = refl
  verdicts-withdrawals end (now ∷ later) b entry w r =
      let b' = (withdraw capacity (interval c) now b).1 in
      let (same, at_now, r') = decide-withdraw now b entry w.0 r in
      let rest = verdicts-withdrawals end later b' (decide c now entry).1 (rw at_now w.1) r' in
      rw (same, rest) refl
