-- ===== src/Crypto/Jwks/Keys.antt =====
-- Which keys the cache holds, and what their exponents are.
use text.Mathlib.Text.{◌==◌ as str_eq}
use text.Mathlib.TextEquality.{eq_iff}
use mathlib.Core.List.{cons≢nil}
use helix_fnd.Prelude.{
  ℕ, ◌+◌, ◌*◌, ◌%◌, ◌^◌, ◌<◌, ◌≡◌, ◌≢◌, refl, sym, ◌∙◌, ap, ◌⊎◌, inl, inr, pos, wrap, ltb, true,
  false, String, List, [], ◌∷◌, Option, ◌==◌, none, some, at_key, assign, at_key-assign_self,
  at_key-assign_ne, arith, Bool-cases,
}
use helix_fnd.Crypto.Base64.{decode_string}
use helix_fnd.Crypto.Jwks.{
  JsonWebKey, PublicKey, set_bytes, exponent_bits, to_rsa_public_key, is_skipped, add_key,
  new_cache, Fetched, unreachable, responded, Using, Refreshed, refreshed, refresh_failed, Endpoint,
  fetch_keys, received, stored,
}

exponent_bits-mod :
    (acc : ℕ) (bs : List ℕ) → exponent_bits (acc % 2 ^ 64) bs ≡ set_bytes acc bs % 2 ^ 64
unfolding exponent_bits set_bytes
exponent_bits-mod acc [] = refl
exponent_bits-mod acc (b ∷ bs) =
    ap (λ v. exponent_bits v bs) (omega arith) ∙ exponent_bits-mod (acc * 256 + b) bs

wrap_small : (v : ℕ) → v < 2 ^ 63 → wrap (pos (v % 2 ^ 64)) ≡ pos v
wrap_small v h =
    let e : v % 2 ^ 64 % 2 ^ 64 ≡ v = omega arith in
    let below : ltb v (2 ^ 63) ≡ true = ground arith in rw (e, below) refl

-- If both parts of a JWK decode and its exponent is below 2^63, the key has the big-endian numbers of the
-- decoded bytes.
pub to_rsa_public_key-exact :
    (j : JsonWebKey) (ns es : List ℕ)
    → decode_string j.n ≡ some ns
    → decode_string j.e ≡ some es
    → set_bytes 0 es < 2 ^ 63
    → to_rsa_public_key j
      ≡ some (record { modulus = set_bytes 0 ns; exponent = pos (set_bytes 0 es) })
unfolding to_rsa_public_key
to_rsa_public_key-exact j ns es hn he small =
    rw (hn, he, exponent_bits-mod 0 es)
      (ap (λ v. some (record { modulus = set_bytes 0 ns; exponent = v }))
        (wrap_small (set_bytes 0 es) small))

-- The key is that of an RSA signing key with this kid in the endpoint's answer.
abbrev pub IsSigningKey : JsonWebKey → Type 0
IsSigningKey jwk = (jwk.kty ≡ "RSA") × (jwk.use_ ≡ "sig") × (jwk.kid ≢ "")

is_skipped-IsSigningKey : (jwk : JsonWebKey) → is_skipped jwk ≡ false → IsSigningKey jwk
is_skipped-IsSigningKey jwk h = (
  (eq_iff jwk.kty "RSA").0 (ground arith),
  (eq_iff jwk.use_ "sig").0 (ground arith),
  λ e. absurd (ground (arith, (eq_iff jwk.kid "").1 e)),
)

abbrev pub IsServed : List JsonWebKey → String → PublicKey → Type 0
IsServed [] kid key = ⊥
IsServed (jwk ∷ jwks) kid key =
    (IsSigningKey jwk × (jwk.kid ≡ kid) × (to_rsa_public_key jwk ≡ some key))
    ⊎ IsServed jwks kid key

added_or_old :
    (name kid : String) (made : Option PublicKey) (cache : List (String × PublicKey))
    (key : PublicKey)
    → at_key (add_key cache name made) kid ≡ some key
    → (at_key cache kid ≡ some key) ⊎ ((name ≡ kid) × (made ≡ some key))
added_or_old name kid none cache key h = inl h
added_or_old name kid (some made) cache key h = elim (Bool-cases (str_eq name kid)) [
  | inl same ↦
      let e = (eq_iff name kid).0 same in
      inr (e, sym (at_key-assign_self cache name made) ∙ ap (at_key (assign cache name made)) e ∙ h)
  | inr differ ↦ inl (sym (at_key-assign_ne cache name kid made differ) ∙ h)
]

IsServed-or_old :
    (jwks : List JsonWebKey) (cache : List (String × PublicKey)) (kid : String) (key : PublicKey)
    → at_key (new_cache jwks cache) kid ≡ some key
    → (at_key cache kid ≡ some key) ⊎ IsServed jwks kid key
unfolding new_cache
IsServed-or_old [] cache kid key h = inl h
IsServed-or_old (jwk ∷ jwks) cache kid key h = elim (Bool-cases (is_skipped jwk)) [
  | inl skipped ↦ let rest = IsServed-or_old jwks _ kid key h in ground (arith, skipped, rest)
  | inr taken ↦
      let rest = IsServed-or_old jwks _ kid key h in
      let added = added_or_old jwk.kid kid (to_rsa_public_key jwk) cache key in
      let signing = is_skipped-IsSigningKey jwk taken in ground (arith, taken, rest, added, signing)
]

-- Whatever the endpoint answers: a refresh that fails leaves the client as it was, and one that succeeds
-- puts a cache in place that is not empty, with the time, in which every key is that of an RSA signing
-- key with its kid in the answer.
abbrev pub SourcedAt : List JsonWebKey → List (String × PublicKey) → String → Type 0
SourcedAt keys cache kid =
    (at_key cache kid ≡ none)
    ⊎ ((key : PublicKey) × (at_key cache kid ≡ some key) × IsServed keys kid key)

sourced :
    (keys : List JsonWebKey) (kid : String) (found : Option PublicKey)
    → at_key (new_cache keys []) kid ≡ found
    → SourcedAt keys (new_cache keys []) kid
unfolding at_key
sourced keys kid none h = inl h
sourced keys kid (some key) h =
    let served = IsServed-or_old keys [] kid key h in inr (key, h, ground (arith, served))

module _ {W : Type 0} (endpoint : Endpoint W) where
  abbrev pub Refreshes : Using W → Fetched → String → Refreshed W → Type 0
  Refreshes u response kid outcome =
      ((err : String) × (outcome ≡ refresh_failed err u))
      ⊎ ((keys : List JsonWebKey) × (u' : Using W) × (response ≡ responded 200 (some keys))
          × (outcome ≡ refreshed u')
          × (u'.client.cache ≢ [])
          × (u'.client.last_updated ≡ endpoint.time_now u.world)
          × SourcedAt keys u'.client.cache kid)

  stored-cases :
      (u : Using W) (keys : List JsonWebKey) (kid : String) (cache : List (String × PublicKey))
      → SourcedAt keys cache kid
      → Refreshes u (responded 200 (some keys)) kid (stored endpoint u cache)
  unfolding stored
  stored-cases u keys kid [] h = inl ("JWKS response contains zero valid RSA keys", refl)
  stored-cases u keys kid (k ∷ ks) h = inr (keys, _, refl, refl, cons≢nil, refl, h)

  pub received-cases :
      (u : Using W) (kid : String) (response : Fetched)
      → Refreshes u response kid (received endpoint u response)
  unfolding received
  received-cases u kid (unreachable err) = inl (err, refl)
  received-cases u kid (responded status none) = elim (Bool-cases (status == 200)) [
    | inl ok ↦ rw ok (inl ("failed to decode JWKS response", refl))
    | inr bad ↦ rw bad (inl ("JWKS endpoint returned status", refl))
  ]
  received-cases u kid (responded status (some keys)) = elim (Bool-cases (status == 200)) [
    | inl ok ↦
        let e : status ≡ 200 = ground arith in
        rw e (stored-cases u keys kid (new_cache keys []) (sourced keys kid _ refl))
    | inr bad ↦ rw bad (inl ("JWKS endpoint returned status", refl))
  ]

  -- Whatever the endpoint answers: a refresh that fails leaves the client as it was, and one that
  -- succeeds, after a 200 with decoded keys, puts a cache in place that is not empty, with the time, in
  -- which any kid is missing or has the key of an RSA signing key with that kid in the answer.
  pub fetch_keys-cases :
      (u : Using W) (kid : String)
      → ((err : String) × (fetch_keys endpoint u
            ≡ refresh_failed err (record u { world = (endpoint.get u.world).0 })))
        ⊎ ((keys : List JsonWebKey) × (u' : Using W) × ((endpoint.get u.world).1
              ≡ responded 200 (some keys))
            × (fetch_keys endpoint u ≡ refreshed u')
            × (u'.client.cache ≢ [])
            × (u'.client.last_updated ≡ endpoint.time_now (endpoint.get u.world).0)
            × SourcedAt keys u'.client.cache kid)
  unfolding fetch_keys
  fetch_keys-cases u kid =
      received-cases (record u { world = (endpoint.get u.world).0 }) kid (endpoint.get u.world).1
