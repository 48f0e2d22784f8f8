-- ===== src/Middleware/Idempotency/Tests.antt =====
-- The middleware over a Redis with a clock.
use text.Mathlib.Text.{◌==◌ as str_eq}
use text.Mathlib.TextPositions.{eq_refl}
use text.Mathlib.TextEquality.{eq_iff}
use helix_fnd.Prelude.{
  ℕ, ◌+◌, ◌≤◌, ◌≡◌, refl, inl, inr, true, false, String, List, [], ◌∷◌, some, arith, leb, at_key,
  if◌then◌else◌, Bool-cases,
}
use helix_fnd.Http.{Request, get_header}
use helix_fnd.Text.{canonical_header_key}
use helix_fnd.Middleware.Idempotency.{IdempotencyConfig, Locks, redis_key, idempotency_middleware}
use helix_fnd.Middleware.Idempotency.Spacing.{
  IsExpiring, Noted, IsSpaced, times_of, visits, visits-IsSpaced,
}

-- The clock, and the time to which each key is held.
abbrev Redis : Type 0
Redis = ℕ × (String → ℕ)

abbrev clock : Redis → ℕ
clock (t, held) = t

abbrev held_until : String → Redis → ℕ
held_until key (t, held) = held key

abbrev expiring : Locks Redis
expiring = record {
  set_nx = λ key d w.
      if leb (w.1 key) w.0
      then ((w.0, (λ k. if str_eq key k then w.0 + d else w.1 k)), some true)
      else (w, some false);
}

expiring-takes :
    (key : String) (d : ℕ) (w : Redis)
    → (expiring.set_nx key d w).1 ≡ some true
    → (held_until key w ≤ clock (expiring.set_nx key d w).0)
      × (clock (expiring.set_nx key d w).0 + d ≤ held_until key (expiring.set_nx key d w).0)
expiring-takes key d (t, held) h = elim (Bool-cases (leb (held key) t)) [
  | inl free ↦ rw (free, eq_refl key) (ground (arith, free), omega arith)
  | inr taken ↦ absurd (cc (rw taken at h))
]

expiring-keeps :
    (key other : String) (d : ℕ) (w : Redis)
    → held_until other w ≤ held_until other (expiring.set_nx key d w).0
expiring-keeps key other d (t, held) = elim (Bool-cases (leb (held key) t)) [
  | inl free ↦ elim (Bool-cases (str_eq key other)) [
    | inl same ↦
        let equal = (eq_iff key other).0 same in
        let due : held other ≤ t = ground (arith, rw equal at free) in rw (free, same) (omega arith)
    | inr differ ↦ rw (free, differ) (omega arith)
  ]
  | inr taken ↦ rw taken (omega arith)
]

expiring-IsExpiring : IsExpiring expiring clock held_until
expiring-IsExpiring = record { takes = expiring-takes; keeps = expiring-keeps }

abbrev a_minute : IdempotencyConfig
a_minute = record { header_key = "X-Idempotency-Key"; expiry = 60; fail_open = false }

abbrev pay : Request
pay = record {
  method = "POST";
  path = "/pay";
  remote_addr = "10.0.0.7:5000";
  header = ("X-Idempotency-Key", "p1" ∷ []) ∷ [];
  ctx = [];
}

abbrev later : ℕ → Redis → Redis
later d (t, held) = (t + d, held)

-- Three times the same request: at 10, at 40 and at 80 seconds.
abbrev three_payments : List ((Redis → Redis) × Request)
three_payments = (later 10, pay) ∷ (later 30, pay) ∷ (later 40, pay) ∷ []

abbrev nothing_noted : Noted Redis
nothing_noted = record { inner = (0, λ k. 0); passed = [] }

visits-IsSpaced_example :
    IsSpaced 60 (times_of "p1" (visits expiring a_minute clock three_payments nothing_noted).passed)
visits-IsSpaced_example =
    visits-IsSpaced expiring a_minute clock held_until expiring-IsExpiring refl "p1" refl
      three_payments nothing_noted
      ((λ k w. omega arith), ((λ k w. omega arith), ((λ k w. omega arith), tt))) refl

two_passed :
    times_of "p1" (visits expiring a_minute clock three_payments nothing_noted).passed
    ≡ 80 ∷ 10 ∷ []
unfolding visits idempotency_middleware get_header at_key canonical_header_key redis_key
two_passed = refl
