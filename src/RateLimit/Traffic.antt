-- ===== src/RateLimit/Traffic.antt =====
-- The HTTP middleware and the gRPC interceptor over the script, as clients see them: a stream of requests
-- and calls with their times, all keys in one Redis, and one limit.
use text.Mathlib.Text.{◌==◌ as str_eq}
use text.Mathlib.TextEquality.{eq_iff}
use text.Mathlib.TextPositions.{eq_refl}
use native.Mathlib.Nat.{add_assoc}
use helix_fnd.Prelude.{
  ℕ, suc, ◌+◌, ◌*◌, ◌≤◌, ◌<◌, ◌≡◌, ◌≢◌, refl, ◌∙◌, inl, inr, ℤ, pos, pos_part, Bool, false, String,
  List, [], ◌∷◌, Option, none, some, arith, count, at_key, at_key-assign_self, at_key-assign_ne,
  if◌then◌else◌, Bool-cases,
}
use helix_fnd.Http.{blank}
use helix_fnd.RateLimit.Arrivals.{
  Shared, redis, Arrival, http_request, grpc_call, key_of, tally, tally_call, world_of,
  world_of_call,
}
use helix_fnd.RateLimit.Gcra.{
  Limit, Entry, Reply, script_error, second, interval, ttl, units, decide, write_back, lua_gcra,
}
use helix_fnd.RateLimit.Gcra.Window.{is_allowed, allowed, Outlives, Within, allowed-le}
use helix_fnd.RateLimit.Grpc.{grpc_rate_key, grpc_rate_limit_interceptor}
use helix_fnd.RateLimit.Http.{rate_key, rate_limit_middleware}

module _ (allow : Shared → Shared × Bool) (rate : ℕ) (period : ℕ) (burst : ℤ) where
  abbrev pub config : Limit
  config = record { rate = suc rate; period = period; burst = burst }

  -- One request, at its time.
  visit : ℕ × Arrival → Shared → Shared
  visit (t, http_request r) w = world_of (
      rate_limit_middleware (redis allow) (pos (suc rate)) burst (pos period) tally r
        (record { world = record w { clock = t }; writer = blank; logs = [] }))
  visit (t, grpc_call call) w = world_of_call (
      grpc_rate_limit_interceptor (redis allow) (pos (suc rate)) burst (pos period) tally_call call
        (record { world = record w { clock = t }; header = []; logs = [] }))

  pub visits : List (ℕ × Arrival) → Shared → Shared
  visits [] w = w
  visits (v ∷ vs) w = visits vs (visit v w)

  verdict : ℕ × Arrival → Shared → Reply × Option Entry
  verdict (t, r) w = decide config (units config t) (at_key w.store (key_of r))

  decide_total :
      (now : ℕ) (entry : Option Entry) → 0 < period → (decide config now entry).0 ≢ script_error
  unfolding decide
  decide_total now entry h = ground arith

  store-visit :
      (t : ℕ) (r : Arrival) (w : Shared)
      → 0 < period
      → (visit (t, r) w).store ≡ write_back (key_of r) (verdict (t, r) w).1 w.store
  unfolding visit verdict rate_limit_middleware grpc_rate_limit_interceptor lua_gcra
  store-visit t (http_request r) w h =
      ground (arith, decide_total (units config t) (at_key w.store (rate_key r)) h)
  store-visit t (grpc_call call) w h =
      ground (arith, decide_total (units config t) (at_key w.store (grpc_rate_key call)) h)

  visit-passed :
      (t : ℕ) (r : Arrival) (w : Shared)
      → 0 < period
      → (visit (t, r) w).passed
        ≡ (if is_allowed (verdict (t, r) w).0 then key_of r ∷ w.passed else w.passed)
  unfolding visit verdict rate_limit_middleware grpc_rate_limit_interceptor lua_gcra
  visit-passed t (http_request r) w h =
      ground (arith, decide_total (units config t) (at_key w.store (rate_key r)) h)
  visit-passed t (grpc_call call) w h =
      ground (arith, decide_total (units config t) (at_key w.store (grpc_rate_key call)) h)

  decide-none : (now : ℕ) (entry : Option Entry) → (decide config now entry).1 ≡ none → entry ≡ none
  unfolding decide
  decide-none now entry h = ground arith

  at_key-write_back :
      (key : String) (entry : Option Entry) (store : List (String × Entry))
      → (entry ≡ none → at_key store key ≡ none)
      → at_key (write_back key entry store) key ≡ entry
  at_key-write_back key none store h = h refl
  at_key-write_back key (some e) store h = at_key-assign_self store key e

  at_key-write_back_ne :
      (key other : String) (entry : Option Entry) (store : List (String × Entry))
      → str_eq key other ≡ false
      → at_key (write_back key entry store) other ≡ at_key store other
  at_key-write_back_ne key other none store h = refl
  at_key-write_back_ne key other (some e) store h = at_key-assign_ne store key other e h

  module _ (key : String) (real : 0 < period) where
    -- The times of the requests that have this key, in units.
    abbrev pub times_of : List (ℕ × Arrival) → List ℕ
    times_of [] = []
    times_of ((t, r) ∷ vs) =
        if str_eq (key_of r) key then units config t ∷ times_of vs else times_of vs

    abbrev pub of_key : String → Bool
    of_key j = str_eq j key

    entry_mine :
        (t : ℕ) (r : Arrival) (w : Shared)
        → key_of r ≡ key
        → at_key (visit (t, r) w).store key
          ≡ (decide config (units config t) (at_key w.store key)).1
    unfolding verdict
    entry_mine t r w e =
        rw (store-visit t r w real, e)
          (at_key-write_back key _ w.store (decide-none (units config t) (at_key w.store key)))

    entry_other :
        (t : ℕ) (r : Arrival) (w : Shared)
        → str_eq (key_of r) key ≡ false
        → at_key (visit (t, r) w).store key ≡ at_key w.store key
    unfolding verdict
    entry_other t r w e =
        rw (store-visit t r w real) (at_key-write_back_ne (key_of r) key _ w.store e)

    count_mine :
        (t : ℕ) (r : Arrival) (w : Shared)
        → key_of r ≡ key
        → count of_key (visit (t, r) w).passed
          ≡ count of_key w.passed
            + (if is_allowed (decide config (units config t) (at_key w.store key)).0 then 1 else 0)
    unfolding verdict
    count_mine t r w e = rw (visit-passed t r w real, e) (ground (arith, eq_refl key))

    count_other :
        (t : ℕ) (r : Arrival) (w : Shared)
        → str_eq (key_of r) key ≡ false
        → count of_key (visit (t, r) w).passed ≡ count of_key w.passed
    unfolding verdict
    count_other t r w e = rw (visit-passed t r w real) (ground arith)

    count-visits :
        (vs : List (ℕ × Arrival)) (w : Shared)
        → count of_key (visits vs w).passed
          ≡ count of_key w.passed + allowed config (times_of vs) (at_key w.store key)
    unfolding visits allowed
    count-visits [] w = omega arith
    count-visits ((t, r) ∷ vs) w = elim (Bool-cases (str_eq (key_of r) key)) [
      | inl mine ↦
          let e = (eq_iff (key_of r) key).0 mine in
          rw mine (
            count-visits vs (visit (t, r) w)
            ∙ (rw (entry_mine t r w e, count_mine t r w e) (add_assoc (count of_key w.passed) _ _)))
      | inr other ↦ rw other (
          count-visits vs (visit (t, r) w)
          ∙ (rw (entry_other t r w other, count_other t r w other) refl))
    ]

    -- Whatever other clients do over HTTP or gRPC, in any window from `start` to `end` microseconds the
    -- middleware and the interceptor, with one limit, pass on `n` requests of one key only if `n` emission
    -- intervals (of 1/rate period) fit into the window and `burst` intervals. (Redis answers, the
    -- period is positive, `burst` intervals are no longer than the key lives, and the key's entry before
    -- expires no earlier than its tat.)
    pub passed_bound :
        (start end : ℕ) (vs : List (ℕ × Arrival)) (w : Shared)
        → pos_part burst * interval config ≤ ttl config * second config
        → Outlives (at_key w.store key)
        → Within (units config start) (units config end) (times_of vs)
        → w.passed ≡ []
        → units config start + count of_key (visits vs w).passed * interval config
          ≤ units config end + pos_part burst * interval config
    passed_bound start end vs w fits o h none_yet =
        let bound =
          allowed-le config fits (units config start) (units config end) (times_of vs)
            (at_key w.store key) o h in
        rw (count-visits vs w, none_yet) (omega (arith, bound))
