-- ===== src/Middleware/Idempotency/Spacing.antt =====
-- How often a request with one idempotency key reaches the handler, with the expiry of the keys.
use text.Mathlib.Text.{◌==◌ as str_eq}
use text.Mathlib.TextEquality.{eq_iff}
use helix_fnd.Prelude.{
  ℕ, ◌+◌, ◌≤◌, ◌≡◌, refl, sym, ◌∙◌, inl, inr, Bool, true, false, String, List, [], ◌∷◌, Option,
  none, some, arith, Bool-cases, if◌then◌else◌,
}
use helix_fnd.Http.{Request, get_header, Exit, returned, panicked, Handler, blank}
use helix_fnd.Middleware.Idempotency.{
  IdempotencyConfig, Locks, redis_key, idempotency_middleware, acquired,
}

-- What Redis documents of `SET NX EX`: where `now` is its clock, and `until` the time to which a key is held,
-- it sets only a key that is not held, which is then held for `d`, and it takes no time from any key.
pub record IsExpiring {W : Type 0} (locks : Locks W) (now : W → ℕ) (until : String → W → ℕ)
    : Type 0 where
  pub takes :
      (key : String) (d : ℕ) (w : W)
      → (locks.set_nx key d w).1 ≡ some true
      → (until key w ≤ now (locks.set_nx key d w).0)
        × (now (locks.set_nx key d w).0 + d ≤ until key (locks.set_nx key d w).0)
  pub keeps :
      (key other : String) (d : ℕ) (w : W) → until other w ≤ until other (locks.set_nx key d w).0

-- The surroundings, with the time and the idempotency key of each request that reached the handler, the
-- latest first.
pub record Noted (W : Type 0) : Type 0 where
  pub inner : W
  pub passed : List (ℕ × String)

abbrev pub over_noted : {W : Type 0} → Locks W → Locks (Noted W)
over_noted locks = record {
  set_nx = λ key d w. let (v, r) = locks.set_nx key d w.inner in (record w { inner = v }, r);
}

abbrev pub noting : {W : Type 0} → (W → ℕ) → String → Handler (Noted W)
noting now header r s = returned (record s {
  world = record s.world { passed = (now s.world.inner, get_header r header) ∷ s.world.passed };
})

abbrev pub noted_of : {W : Type 0} → Exit (Noted W) → Noted W
noted_of (returned s) = s.world
noted_of (panicked msg s) = s.world

-- The times at which one key passed.
abbrev pub times_of : String → List (ℕ × String) → List ℕ
times_of key [] = []
times_of key ((t, j) ∷ passed) =
    let rest = times_of key passed in if str_eq j key then t ∷ rest else rest

-- Each is at least `d` after the one before it.
abbrev pub IsSpaced : ℕ → List ℕ → Type 0
IsSpaced d [] = Unit
IsSpaced d (t ∷ []) = Unit
IsSpaced d (t ∷ u ∷ ts) = (u + d ≤ t) × IsSpaced d (u ∷ ts)

module _ {W : Type 0} (locks : Locks W) (cfg : IdempotencyConfig) (now : W → ℕ) where
  -- A request, after the surroundings have changed.
  visit : (W → W) × Request → Noted W → Noted W
  visit (change, r) w = noted_of (
      idempotency_middleware (over_noted locks) cfg (noting now cfg.header_key) r
        (record { world = record w { inner = change w.inner }; writer = blank; logs = [] }))

  unfoldable pub visits : List ((W → W) × Request) → Noted W → Noted W
  unfolding visit
  visits [] w = w
  visits (v ∷ vs) w = visits vs (visit v w)

  module _ (until : String → W → ℕ) where
    -- Nobody gives a lock up before its time.
    abbrev pub AllKeep : List ((W → W) × Request) → Type 0
    AllKeep [] = Unit
    AllKeep ((change, r) ∷ vs) =
        ((key : String) (w : W) → until key w ≤ until key (change w)) × AllKeep vs

    module _ (redis : IsExpiring locks now until) (closed : cfg.fail_open ≡ false) (key : String)
        (named : str_eq key "" ≡ false) where
      -- The last request that passed holds the lock still.
      abbrev IsHeld : List ℕ → W → Type 0
      IsHeld [] w = Unit
      IsHeld (t ∷ ts) w = t + cfg.expiry ≤ until (redis_key key) w

      abbrev IsPaced : Noted W → Type 0
      IsPaced w =
          IsSpaced cfg.expiry (times_of key w.passed) × IsHeld (times_of key w.passed) w.inner

      IsHeld-later :
          (ts : List ℕ) (w w' : W)
          → until (redis_key key) w ≤ until (redis_key key) w'
          → IsHeld ts w
          → IsHeld ts w'
      IsHeld-later [] w w' later h = tt
      IsHeld-later (t ∷ ts) w w' later h = omega arith

      IsSpaced-next :
          (ts : List ℕ) (w : W) (t : ℕ)
          → until (redis_key key) w ≤ t
          → IsSpaced cfg.expiry ts
          → IsHeld ts w
          → IsSpaced cfg.expiry (t ∷ ts)
      IsSpaced-next [] w t free h held = tt
      IsSpaced-next (u ∷ ts) w t free h held = (omega arith, h)

      -- A request with the key `j` has got the lock in the state `w`.
      passed-IsPaced :
          (j : String) (w : W) (passed : List (ℕ × String))
          → (locks.set_nx (redis_key j) cfg.expiry w).1 ≡ some true
          → IsPaced (record { inner = w; passed = passed })
          → let v = (locks.set_nx (redis_key j) cfg.expiry w).0 in
            IsPaced (record { inner = v; passed = (now v, j) ∷ passed })
      passed-IsPaced j w passed took (spaced, held) = elim (Bool-cases (str_eq j key)) [
        | inl same ↦
            let equal = (eq_iff j key).0 same in
            let (free, until_then) = redis.takes (redis_key key) cfg.expiry w (rw equal at took) in
            rw (equal, rw equal at same)
              (IsSpaced-next (times_of key passed) w _ free spaced held, until_then)
        | inr other ↦ rw other (
          spaced,
          IsHeld-later (times_of key passed) w _
              (redis.keeps (redis_key j) (redis_key key) cfg.expiry w) held,
        )
      ]

      acquired-IsPaced :
          (r : Request) (w : W) (passed : List (ℕ × String)) (success : Option Bool)
          → (locks.set_nx (redis_key (get_header r cfg.header_key)) cfg.expiry w).1 ≡ success
          → IsPaced (record { inner = w; passed = passed })
          → let v = (locks.set_nx (redis_key (get_header r cfg.header_key)) cfg.expiry w).0 in
            IsPaced (
              noted_of (
                acquired
                  (over_noted locks)
                  cfg
                  (noting now cfg.header_key)
                  r
                  (record {
                    world = record { inner = v; passed = passed };
                    writer = blank;
                    logs = [];
                  })
                  success))
      unfolding acquired
      acquired-IsPaced r w passed none e (spaced, held) =
          let j = get_header r cfg.header_key in
          rw closed (
            spaced,
            IsHeld-later (times_of key passed) w _
                (redis.keeps (redis_key j) (redis_key key) cfg.expiry w) held,
          )
      acquired-IsPaced r w passed (some true) e h =
          passed-IsPaced (get_header r cfg.header_key) w passed e h
      acquired-IsPaced r w passed (some false) e (spaced, held) =
          let j = get_header r cfg.header_key in
          (
            spaced,
            IsHeld-later (times_of key passed) w _
                (redis.keeps (redis_key j) (redis_key key) cfg.expiry w) held,
          )

      unnamed-differs : (j : String) → str_eq j "" ≡ true → str_eq j key ≡ false
      unnamed-differs j empty = elim (Bool-cases (str_eq j key)) [
        | inr other ↦ other
        | inl same ↦
            let equal = sym ((eq_iff j key).0 same) ∙ (eq_iff j "").0 empty in
            absurd (cc (named, (eq_iff key "").1 equal))
      ]

      visit-IsPaced :
          (change : W → W) (r : Request) (w : Noted W)
          → ((k : String) (v : W) → until k v ≤ until k (change v))
          → IsPaced w
          → IsPaced (visit (change, r) w)
      unfolding visit idempotency_middleware
      visit-IsPaced change r w keep (spaced, held) =
          let j = get_header r cfg.header_key in
          let later =
            IsHeld-later (times_of key w.passed) w.inner (change w.inner)
              (keep (redis_key key) w.inner) held in
          elim (Bool-cases (str_eq j "")) [
            | inl empty ↦ rw (empty, unnamed-differs j empty) (spaced, later)
            | inr given ↦
                rw given (acquired-IsPaced r (change w.inner) w.passed _ refl (spaced, later))
          ]

      visits-IsPaced :
          (vs : List ((W → W) × Request)) (w : Noted W)
          → AllKeep vs
          → IsPaced w
          → IsPaced (visits vs w)
      unfolding visits
      visits-IsPaced [] w keep h = h
      visits-IsPaced ((change, r) ∷ vs) w (k, keep) h =
          visits-IsPaced vs (visit (change, r) w) keep (visit-IsPaced change r w k h)

      -- With FailOpen off, over a Redis that does what it documents, and while nobody gives a lock up before
      -- its time: of any requests that carry one idempotency key, those that reach the handler do so at
      -- times which are at least the configured expiry apart, also when Redis fails on some of them.
      pub visits-IsSpaced :
          (vs : List ((W → W) × Request)) (w : Noted W)
          → AllKeep vs
          → w.passed ≡ []
          → IsSpaced cfg.expiry (times_of key (visits vs w).passed)
      visits-IsSpaced vs w keep none_yet = (visits-IsPaced vs w keep (rw none_yet (tt, tt))).0
