-- ===== src/Crypto/Jwks.antt =====
-- crypto/jwks_client.go and claims.go: the cache of public keys and the verification of tokens. The
-- JWKS endpoint, the clock and the JWT parser are parameters. Here one call runs at a time, so that
-- singleflight just runs its function; Concurrent lets calls interleave.
pub mod Concurrent
pub mod Keys
pub mod Leeway
pub mod Lifecycle
pub mod Samples
pub mod Tokens
mod Tests
use text.Mathlib.Text.{◌==◌ as str_eq}
use helix_fnd.Prelude.{
  ℕ, suc, ◌+◌, ◌*◌, ◌%◌, ◌^◌, ℤ, pos, wrap, Bool, true, false, not, ◌||◌, String, List, [], ◌∷◌,
  Option, none, some, at_key, assign, ltb, ◌==◌, if◌then◌else◌,
}
use helix_fnd.Crypto.Base64.{decode_string}

pub record JsonWebKey : Type 0 where
  pub kty : String
  pub use_ : String
  pub kid : String
  pub n : String
  pub e : String

-- `rsa.PublicKey`: the modulus and the exponent, an int.
pub record PublicKey : Type 0 where
  pub modulus : ℕ
  pub exponent : ℤ

-- `big.Int.SetBytes`: big-endian.
unfoldable pub set_bytes : ℕ → List ℕ → ℕ
set_bytes acc [] = acc
set_bytes acc (b ∷ bs) = set_bytes (acc * 256 + b) bs

-- The loop `eVal = (eVal << 8) | int(b)`, on the 64 bits of eVal.
unfoldable pub exponent_bits : ℕ → List ℕ → ℕ
exponent_bits acc [] = acc
exponent_bits acc (b ∷ bs) = exponent_bits ((acc * 256 + b) % 2 ^ 64) bs

abbrev pub rsa_key : Option (List ℕ) → Option (List ℕ) → Option PublicKey
rsa_key (some ns) (some es) =
    some (record { modulus = set_bytes 0 ns; exponent = wrap (pos (exponent_bits 0 es)) })
rsa_key _ _ = none

-- `toRSAPublicKey`; `none` is an invalid modulus or exponent.
unfoldable pub to_rsa_public_key : JsonWebKey → Option PublicKey
to_rsa_public_key j = rsa_key (decode_string j.n) (decode_string j.e)

abbrev pub is_skipped : JsonWebKey → Bool
is_skipped jwk = not (str_eq jwk.kty "RSA") || not (str_eq jwk.use_ "sig") || str_eq jwk.kid ""

abbrev pub add_key :
    List (String × PublicKey) → String → Option PublicKey → List (String × PublicKey)
add_key cache kid none = cache
add_key cache kid (some key) = assign cache kid key

-- The loop over `newJwks.Keys`.
unfoldable pub new_cache : List JsonWebKey → List (String × PublicKey) → List (String × PublicKey)
new_cache [] cache = cache
new_cache (jwk ∷ jwks) cache =
    new_cache jwks (if is_skipped jwk then cache else add_key cache jwk.kid (to_rsa_public_key jwk))

-- What a request to the endpoint brings: no response, or a status and the decoded body.
pub data Fetched : Type 0 where
  unreachable : String → Fetched
  responded : ℕ → Option (List JsonWebKey) → Fetched

pub record CachingClient : Type 0 where
  pub issuer : String
  pub cache : List (String × PublicKey)
  pub last_updated : ℕ
  pub max_stale_duration : ℕ

-- The client, its surroundings, and the number of times that it logged a stale cache.
pub record Using (W : Type 0) : Type 0 where
  pub client : CachingClient
  pub world : W
  pub stale_logs : ℕ

pub data Refreshed (W : Type 0) : Type 0 where
  refreshed : Using W → Refreshed W
  refresh_failed : String → Using W → Refreshed W

pub record Endpoint (W : Type 0) : Type 0 where
  pub get : W → W × Fetched
  pub time_now : W → ℕ  -- in nanoseconds

-- What keyfunc reads of a parsed token's header: whether the method is an RSA one, and the kid, if it is
-- a text.
pub record Header : Type 0 where
  pub is_rsa : Bool
  pub kid : Option String

-- `HelixClaims`; times in nanoseconds.
pub record HelixClaims : Type 0 where
  pub subject : String
  pub exp : Option ℕ
  pub nbf : Option ℕ
  pub scope : String
  pub roles : List String
  pub sid : String

pub data TokenError : Type 0 where
  invalid_token expired_token : TokenError

abbrev pub Keyfunc : Type 0 → Type 0
Keyfunc W = Header → Using W → Using W × Option PublicKey

-- What `jwt.ParseWithClaims` returns: a failure, and whether `errors.Is` finds ErrTokenExpired in it, or
-- the claims of a valid token.
pub data Parsed : Type 0 where
  parse_failed : Bool → Parsed
  parsed : HelixClaims → Parsed

-- `jwt.ParseWithClaims(text, keyfunc, WithIssuer(issuer), WithExpirationRequired())`.
abbrev pub Parser : Type 0 → Type 0
Parser W = String → Keyfunc W → String → Using W → Using W × Parsed

pub data Checked : Type 0 where
  claimed : HelixClaims → Checked
  rejected : TokenError → Checked
  nil_deref : Checked

abbrev minute : ℕ
minute = 60_000_000_000

-- The checks after parsing, one minute of leeway in each.
not_active : ℕ → HelixClaims → Option ℕ → Checked
not_active now c none = claimed c
not_active now c (some t) = if ltb (now + minute) t then rejected invalid_token else claimed c

check_times : ℕ → HelixClaims → Option ℕ → Checked
unfolding not_active
check_times now c none = nil_deref
check_times now c (some t) =
    if ltb (t + minute) now then rejected expired_token else not_active now c c.nbf

module _ {W : Type 0} (endpoint : Endpoint W) where
  stored : Using W → List (String × PublicKey) → Refreshed W
  stored u [] = refresh_failed "JWKS response contains zero valid RSA keys" u
  stored u (k ∷ ks) = refreshed (record u {
    client = record u.client { cache = k ∷ ks; last_updated = endpoint.time_now u.world };
  })

  pub received : Using W → Fetched → Refreshed W
  unfolding stored
  received u (unreachable err) = refresh_failed err u
  received u (responded status none) =
      if status == 200
      then refresh_failed "failed to decode JWKS response" u
      else refresh_failed "JWKS endpoint returned status" u
  received u (responded status (some keys)) =
      if status == 200
      then stored u (new_cache keys [])
      else refresh_failed "JWKS endpoint returned status" u

  unfoldable pub fetch_keys : Using W → Refreshed W
  unfolding received
  fetch_keys u =
      let (w, response) = endpoint.get u.world in received (record u { world = w }) response

  after_refresh : String → Refreshed W → Using W × Option PublicKey
  after_refresh kid (refresh_failed err u) = (u, none)
  after_refresh kid (refreshed u) = (u, at_key u.client.cache kid)

  found_or_refresh : String → Option PublicKey → Using W → Using W × Option PublicKey
  unfolding after_refresh
  found_or_refresh kid (some key) u = (u, some key)
  found_or_refresh kid none u = after_refresh kid (fetch_keys u)

  by_kid : Option String → Using W → Using W × Option PublicKey
  unfolding found_or_refresh
  by_kid none u = (u, none)
  by_kid (some kid) u =
      let found = found_or_refresh kid (at_key u.client.cache kid) u in
      if str_eq kid "" then (u, none) else found

  -- The function that `VerifyToken` passes to the parser; `none` is an error.
  unfoldable pub keyfunc : Keyfunc W
  unfolding by_kid
  keyfunc header u = let found = by_kid header.kid u in if header.is_rsa then found else (u, none)

  finished : Using W × Parsed → Using W × Checked
  unfolding check_times
  finished (u, parse_failed expired) =
      (u, rejected (if expired then expired_token else invalid_token))
  finished (u, parsed c) = (u, check_times (endpoint.time_now u.world) c c.exp)

  -- A stale cache is logged, and the token is verified with it all the same.
  pub noticed : Using W → Using W
  noticed u =
      if ltb (u.client.last_updated + u.client.max_stale_duration) (endpoint.time_now u.world)
      then record u { stale_logs = suc u.stale_logs }
      else u

  unfoldable pub verify_token : Parser W → String → Using W → Using W × Checked
  unfolding finished noticed
  verify_token parse token u = finished (parse token keyfunc u.client.issuer (noticed u))
