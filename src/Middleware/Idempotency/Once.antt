-- ===== src/Middleware/Idempotency/Once.antt =====
-- How often a request with one idempotency key reaches the handler.
use text.Mathlib.Text.{◌==◌ as str_eq}
use text.Mathlib.TextEquality.{eq_iff}
use helix_fnd.Prelude.{
  ℕ, ◌≤◌, ◌≡◌, ◌⊎◌, inl, Bool, true, false, String, List, [], ◌∷◌, some, arith, count,
}
use helix_fnd.Http.{Request, get_header, Exit, returned, panicked, Handler, blank}
use helix_fnd.Middleware.Idempotency.{IdempotencyConfig, Locks, redis_key, idempotency_middleware}

-- What Redis documents of `SET NX`, before the key expires: it sets only a key that is not held, the
-- key is held then, and no other call gives it up.
pub record IsExclusive {W : Type 0} (locks : Locks W) (held : String → W → Bool) : Type 0 where
  pub takes :
      (key : String) (d : ℕ) (w : W)
      → (locks.set_nx key d w).1 ≡ some true
      → (held key w ≡ false) × (held key (locks.set_nx key d w).0 ≡ true)
  pub keeps :
      (key other : String) (d : ℕ) (w : W)
      → held other w ≡ true
      → held other (locks.set_nx key d w).0 ≡ true

-- The surroundings with the idempotency keys of the requests that reached the handler.
pub record Seen (W : Type 0) : Type 0 where
  pub inner : W
  pub passed : List String

abbrev pub over_seen : {W : Type 0} → Locks W → Locks (Seen W)
over_seen locks = record {
  set_nx = λ key d w. let (v, r) = locks.set_nx key d w.inner in (record w { inner = v }, r);
}

abbrev pub tally_key : {W : Type 0} → String → Handler (Seen W)
tally_key header r s =
    returned (record s { world = record s.world { passed = get_header r header ∷ s.world.passed } })

abbrev pub seen_of : {W : Type 0} → Exit (Seen W) → Seen W
seen_of (returned s) = s.world
seen_of (panicked msg s) = s.world

module _ {W : Type 0} (locks : Locks W) (cfg : IdempotencyConfig) where
  -- One request after another, each with a fresh response.
  visit : Request → Seen W → Seen W
  visit r w = seen_of (
      idempotency_middleware (over_seen locks) cfg (tally_key cfg.header_key) r
        (record { world = w; writer = blank; logs = [] }))

  pub visits : List Request → Seen W → Seen W
  visits [] w = w
  visits (r ∷ rs) w = visits rs (visit r w)

  module _ (held : String → W → Bool) (exclusive : IsExclusive locks held)
      (closed : cfg.fail_open ≡ false) (key : String) (named : str_eq key "" ≡ false) where
    abbrev pub of_key : String → Bool
    of_key j = str_eq j key

    -- The handler has seen the key only if its lock is held, and then once.
    abbrev pub IsOnce : Seen W → Type 0
    IsOnce w =
        (count of_key w.passed ≡ 0)
        ⊎ ((count of_key w.passed ≡ 1) × (held (redis_key key) w.inner ≡ true))

    visit-IsOnce : (r : Request) (w : Seen W) → IsOnce w → IsOnce (visit r w)
    unfolding visit idempotency_middleware
    visit-IsOnce r w h =
        let j = get_header r cfg.header_key in
        ground (
          arith,
          eq_iff j "",
          eq_iff j key,
          eq_iff key "",
          exclusive.takes (redis_key j) cfg.expiry w.inner,
          exclusive.keeps (redis_key j) (redis_key key) cfg.expiry w.inner,
        )

    visits-IsOnce : (rs : List Request) (w : Seen W) → IsOnce w → IsOnce (visits rs w)
    unfolding visits
    visits-IsOnce [] w h = h
    visits-IsOnce (r ∷ rs) w h = visits-IsOnce rs (visit r w) (visit-IsOnce r w h)

    -- With FailOpen off, of any requests that carry one idempotency key at most one reaches the
    -- handler while the key has not expired, also when Redis fails on some of them.
    pub passed_once :
        (rs : List Request) (w : Seen W) → w.passed ≡ [] → count of_key (visits rs w).passed ≤ 1
    passed_once rs w h =
        let start : IsOnce w = inl (ground arith) in ground (arith, visits-IsOnce rs w start)
