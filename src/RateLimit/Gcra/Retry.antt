-- ===== src/RateLimit/Gcra/Retry.antt =====
-- That the number of seconds in the script's refusal is the right one.
use Prim.Native.Nat.{max}
use native.Mathlib.Nat.{div-add-mod', mod-lt}
use helix_fnd.Prelude.{
  ℕ, zero, suc, ap, ◌∙◌, ◌+◌, ◌-◌, ◌*◌, ◌≤◌, ◌<◌, ◌≡◌, pos, pos_part, neg_part, true, false, Option,
  arith,
}
use helix_fnd.RateLimit.Gcra.{Limit, Entry, number, second, interval, ceil_div, decide}
use helix_fnd.RateLimit.Gcra.Window.{is_allowed, Outlives, tat_of, stored_tat-max}

ceil_div_bounds : (d m : ℕ) → 0 < m → (d ≤ ceil_div d m * m) × (ceil_div d m * m < d + m)
ceil_div_bounds d m h =
    let split = div-add-mod' (d + (m - 1)) m in
    let small = mod-lt (d + (m - 1)) h in (omega arith, omega arith)

positive_seconds : (n s d : ℕ) → d ≤ n * s → 0 < d → 0 < n
positive_seconds zero s d h k = omega arith
positive_seconds (suc n) s d h k = omega arith

-- `allow_at` and the point that it must not pass, at the time `now`.
abbrev allow_at : Limit → ℕ → Option Entry → ℕ
allow_at c now entry = max now (tat_of entry) + interval c + neg_part c.burst * interval c

abbrev reach : Limit → ℕ → ℕ
reach c now = now + pos_part c.burst * interval c

module _ (c : Limit) where
  refused :
      (now n : ℕ) (entry entry' : Option Entry)
      → Outlives entry
      → decide c now entry ≡ (number (pos n), entry')
      → (entry' ≡ entry)
        × (reach c now < allow_at c now entry)
        × (n ≡ ceil_div (allow_at c now entry - reach c now) (second c))
  unfolding decide
  refused now n entry entry' o h = ground (arith, stored_tat-max now entry o)

  passes :
      (now : ℕ) (entry : Option Entry)
      → Outlives entry
      → 0 < c.period
      → allow_at c now entry ≤ reach c now
      → is_allowed (decide c now entry).0 ≡ true
  unfolding decide
  passes now entry o p h = ground (arith, stored_tat-max now entry o)

  fails :
      (now : ℕ) (entry : Option Entry)
      → Outlives entry
      → reach c now < allow_at c now entry
      → is_allowed (decide c now entry).0 ≡ false
  unfolding decide
  fails now entry o h = ground (arith, stored_tat-max now entry o)

  -- With a positive rate, period and burst, and for an entry that expires no earlier than its tat: a
  -- refusal that names `n` seconds names at least one, leaves the entry as it was, and is exact: with no
  -- request in between, any request `n` seconds later or after that is let through, and any that comes
  -- `n - 1` seconds later or before is refused.
  pub decide-retry_after :
      (now n b : ℕ) (entry entry' : Option Entry)
      → 0 < c.rate
      → 0 < c.period
      → c.burst ≡ pos (suc b)
      → Outlives entry
      → decide c now entry ≡ (number (pos n), entry')
      → (entry' ≡ entry)
        × (0 < n)
        × ((t : ℕ) → now + n * second c ≤ t → is_allowed (decide c t entry).0 ≡ true)
        × ((t : ℕ)
            → now ≤ t
            → t + second c ≤ now + n * second c
            → is_allowed (decide c t entry).0 ≡ false)
  decide-retry_after now n b entry entry' r p burst o h =
      let (same, over, seconds) = refused now n entry entry' o h in
      let d = allow_at c now entry - reach c now in
      let (enough, tight) = ceil_div_bounds d (second c) (omega arith) in
      let upper : d ≤ n * second c = rw seconds enough in
      let lower : n * second c < d + second c = rw seconds tight in
      let positive : pos_part c.burst * interval c ≡ suc b * interval c =
        ap (λ z. pos_part z * interval c) burst in
      let none_below : neg_part c.burst * interval c ≡ 0 =
        ap (λ z. neg_part z * interval c) burst ∙ omega arith in
      (
        same,
        positive_seconds n (second c) d upper (omega arith),
        λ t late. passes t entry o p (omega arith),
        λ t early soon. fails t entry o (omega arith),
      )
