-- ===== src/Crypto/Jwks/Lifecycle.antt =====
-- The client of crypto/jwks_client.go from its constructor on: the background refresher, and the calls
-- of keyfunc by tokens, in any order.
use helix_fnd.Prelude.{arith}
use text.Mathlib.Text.{◌==◌ as str_eq}
use mathlib.Core.List.{cons≢nil}
use helix_fnd.Prelude.{
  ℕ, ◌≡◌, ◌≢◌, refl, sym, ap, ◌∙◌, inl, inr, ℤ, pos, pos_part, leb_ℤ, false, ◌||◌, String, List, [],
  ◌∷◌, Option, none, some, ◌==◌, at_key, if◌then◌else◌, Bool-cases,
}
use helix_fnd.Crypto.Jwks.{
  PublicKey, new_cache, Fetched, unreachable, responded, CachingClient, Using, Refreshed, refreshed,
  refresh_failed, Endpoint, Header, fetch_keys, received, stored, keyfunc, by_kid, found_or_refresh,
  after_refresh,
}

pub data Made (W : Type 0) : Type 0 where
  made : Using W → Made W
  not_made : String → Made W

-- 24 hours, if the duration is not positive.
abbrev stale_or_default : ℤ → ℕ
stale_or_default d = if leb_ℤ d (pos 0) then 86_400_000_000_000 else pos_part d

abbrev after_first_fetch : {W : Type 0} → Refreshed W → Made W
after_first_fetch (refreshed u) = made u
after_first_fetch (refresh_failed err u) = not_made err

abbrev after_tick : {W : Type 0} → Refreshed W → Using W
after_tick (refreshed u) = u
after_tick (refresh_failed err u) = u

module _ {W : Type 0} (endpoint : Endpoint W) where
  -- `NewJWKSCachingClient`.
  unfoldable pub new_jwks_caching_client : String → String → ℤ → W → Made W
  new_jwks_caching_client url issuer max_stale w =
      let client : CachingClient = record {
        issuer = issuer;
        cache = [];
        last_updated = 0;
        max_stale_duration = stale_or_default max_stale;
      } in
      let first =
        after_first_fetch
          (fetch_keys endpoint (record { client = client; world = w; stale_logs = 0 })) in
      if str_eq url "" || str_eq issuer ""
      then not_made "jwks client: URL and Issuer are mandatory"
      else first

  -- One tick of `startKeyRefresher`; a failure is logged.
  unfoldable pub tick : Using W → Using W
  tick u = after_tick (fetch_keys endpoint u)

  -- What happens to a client: the surroundings change, the refresher ticks, or a token's key is asked
  -- for.
  pub data Step : Using W → Using W → Type 0 where
    elsewhere : (u : Using W) (w : W) → Step u (record u { world = w })
    ticks : (u : Using W) → Step u (tick u)
    asks_for : (u : Using W) (header : Header) → Step u (keyfunc endpoint header u).0

  pub data Steps : Using W → Using W → Type 0 where
    rest : (u : Using W) → Steps u u
    step : (u v z : Using W) → Step u v → Steps v z → Steps u z

  -- The client has keys, and the issuer that it was made with.
  abbrev pub IsServing : String → Using W → Type 0
  IsServing issuer u = (u.client.cache ≢ []) × (u.client.issuer ≡ issuer)

  -- A refresh of a client: it has keys afterwards, or it is as it was.
  abbrev Fills : CachingClient → Refreshed W → Type 0
  Fills client (refreshed u) = IsServing client.issuer u
  Fills client (refresh_failed err u) = u.client ≡ client

  stored-Fills :
      (u : Using W) (cache : List (String × PublicKey)) → Fills u.client (stored endpoint u cache)
  unfolding stored
  stored-Fills u [] = refl
  stored-Fills u (k ∷ ks) = (cons≢nil, refl)

  received-Fills :
      (u : Using W) (response : Fetched) → Fills u.client (received endpoint u response)
  unfolding received
  received-Fills u (unreachable err) = refl
  received-Fills u (responded status none) = elim (Bool-cases (status == 200)) [
    | inl ok ↦ rw ok refl
    | inr bad ↦ rw bad refl
  ]
  received-Fills u (responded status (some keys)) = elim (Bool-cases (status == 200)) [
    | inl ok ↦ rw ok (stored-Fills u (new_cache keys []))
    | inr bad ↦ rw bad refl
  ]

  fetch_keys-Fills : (u : Using W) → Fills u.client (fetch_keys endpoint u)
  unfolding fetch_keys
  fetch_keys-Fills u =
      received-Fills (record u { world = (endpoint.get u.world).0 }) (endpoint.get u.world).1

  IsServing-after_tick :
      (client : CachingClient) (outcome : Refreshed W) (issuer : String)
      → Fills client outcome
      → client.cache ≢ []
      → client.issuer ≡ issuer
      → IsServing issuer (after_tick outcome)
  IsServing-after_tick client (refreshed u) issuer h full same = (h.0, h.1 ∙ same)
  IsServing-after_tick client (refresh_failed err u) issuer h full same =
      ((λ empty. full (sym (ap (λ c. c.cache) h) ∙ empty)), ap (λ c. c.issuer) h ∙ same)

  tick-IsServing : (issuer : String) (u : Using W) → IsServing issuer u → IsServing issuer (tick u)
  unfolding tick
  tick-IsServing issuer u h =
      IsServing-after_tick u.client (fetch_keys endpoint u) issuer (fetch_keys-Fills u) h.0 h.1

  after_refresh-tick :
      (kid : String) (outcome : Refreshed W)
      → (after_refresh endpoint kid outcome).0 ≡ after_tick outcome
  unfolding after_refresh
  after_refresh-tick kid (refreshed u) = refl
  after_refresh-tick kid (refresh_failed err u) = refl

  found-IsServing :
      (issuer kid : String) (found : Option PublicKey) (u : Using W)
      → IsServing issuer u
      → IsServing issuer (found_or_refresh endpoint kid found u).0
  unfolding found_or_refresh tick
  found-IsServing issuer kid (some key) u h = h
  found-IsServing issuer kid none u h =
      rw (after_refresh-tick kid (fetch_keys endpoint u)) (tick-IsServing issuer u h)

  by_kid-IsServing :
      (issuer : String) (kid : Option String) (u : Using W)
      → IsServing issuer u
      → IsServing issuer (by_kid endpoint kid u).0
  unfolding by_kid
  by_kid-IsServing issuer none u h = h
  by_kid-IsServing issuer (some kid) u h = elim (Bool-cases (str_eq kid "")) [
    | inl empty ↦ rw empty h
    | inr given ↦ rw given (found-IsServing issuer kid (at_key u.client.cache kid) u h)
  ]

  keyfunc-IsServing :
      (issuer : String) (header : Header) (u : Using W)
      → IsServing issuer u
      → IsServing issuer (keyfunc endpoint header u).0
  unfolding keyfunc
  keyfunc-IsServing issuer header u h = elim (Bool-cases header.is_rsa) [
    | inl rsa ↦ rw rsa (by_kid-IsServing issuer header.kid u h)
    | inr other ↦ rw other h
  ]

  Step-IsServing :
      (issuer : String) (u v : Using W) → Step u v → IsServing issuer u → IsServing issuer v
  Step-IsServing issuer _ _ (elsewhere u w) h = h
  Step-IsServing issuer _ _ (ticks u) h = tick-IsServing issuer u h
  Step-IsServing issuer _ _ (asks_for u header) h = keyfunc-IsServing issuer header u h

  Steps-IsServing :
      (issuer : String) (u v : Using W) → Steps u v → IsServing issuer u → IsServing issuer v
  Steps-IsServing issuer _ _ (rest u) h = h
  Steps-IsServing issuer _ _ (step u v z one more) h =
      Steps-IsServing issuer v z more (Step-IsServing issuer u v one h)

  abbrev client_or : CachingClient → Made W → CachingClient
  client_or client (made u) = u.client
  client_or client (not_made err) = client

  first_fetch-IsServing :
      (client : CachingClient) (outcome : Refreshed W) (u : Using W)
      → Fills client outcome
      → after_first_fetch outcome ≡ made u
      → IsServing client.issuer u
  first_fetch-IsServing client (refreshed u') u h e =
      let same = ap (client_or client) e in
      ((λ empty. h.0 (ap (λ c. c.cache) same ∙ empty)), sym (ap (λ c. c.issuer) same) ∙ h.1)
  first_fetch-IsServing client (refresh_failed err u') u h e = ground (arith, e)

  new_client-IsServing :
      (url issuer : String) (max_stale : ℤ) (w : W) (u : Using W)
      → new_jwks_caching_client url issuer max_stale w ≡ made u
      → (str_eq url "" ≡ false) × (str_eq issuer "" ≡ false) × IsServing issuer u
  unfolding new_jwks_caching_client
  new_client-IsServing url issuer max_stale w u h =
      let client : CachingClient = record {
        issuer = issuer;
        cache = [];
        last_updated = 0;
        max_stale_duration = stale_or_default max_stale;
      } in
      let first : Using W = record { client = client; world = w; stale_logs = 0 } in
      let serves =
        first_fetch-IsServing client (fetch_keys endpoint first) u (fetch_keys-Fills first) in
      (ground (arith, h), ground (arith, h), serves (ground (arith, h)))

  -- A client that the constructor returns has a URL and an issuer that are not empty, and after any
  -- steps, ticks of the refresher and requests for keys, failed ones among them, its cache is not empty
  -- and its issuer the one it was made with.
  pub made-IsServing :
      (url issuer : String) (max_stale : ℤ) (w : W) (u v : Using W)
      → new_jwks_caching_client url issuer max_stale w ≡ made u
      → Steps u v
      → (str_eq url "" ≡ false) × (str_eq issuer "" ≡ false) × IsServing issuer v
  made-IsServing url issuer max_stale w u v h steps =
      let (located, named, serves) = new_client-IsServing url issuer max_stale w u h in
      (located, named, Steps-IsServing issuer u v steps serves)
