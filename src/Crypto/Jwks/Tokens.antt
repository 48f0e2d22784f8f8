-- ===== src/Crypto/Jwks/Tokens.antt =====
-- What `VerifyToken` promises of the claims that it returns.
use text.Mathlib.Text.{◌==◌ as str_eq}
use helix_fnd.Prelude.{
  ℕ, ◌+◌, ◌≤◌, ◌≡◌, refl, sym, ◌∙◌, ap, ◌⊎◌, inl, inr, Bool, true, false, String, Option, none,
  some, arith, at_key, Bool-cases, ltb,
}
use helix_fnd.Crypto.Jwks.{
  PublicKey, Using, Refreshed, refreshed, refresh_failed, Endpoint, Header, HelixClaims, Keyfunc,
  Parsed, parse_failed, parsed, Parser, TokenError, invalid_token, expired_token, Checked, claimed,
  rejected, nil_deref, minute, keyfunc, by_kid, found_or_refresh, after_refresh, check_times,
  not_active, finished, noticed, verify_token, fetch_keys,
}

-- What a token says by itself: its header and its claims, and which keys verify its signature.
pub record TokenFormat : Type 0 where
  pub header_of : String → Header
  pub claims_of : String → HelixClaims
  pub is_signed : PublicKey → String → Bool

-- What golang-jwt documents: it asks keyfunc with the header of the token, and returns the token's claims
-- only if the key of keyfunc verifies its signature, and, with WithExpirationRequired, only with an expiry.
pub record IsJwtParser {W : Type 0} (format : TokenFormat) (parse : Parser W) : Type 0 where
  pub accepts :
      (token : String) (keyfunc : Keyfunc W) (issuer : String) (u u' : Using W) (c : HelixClaims)
      → parse token keyfunc issuer u ≡ (u', parsed c)
      → (key : PublicKey) × (keyfunc (format.header_of token) u ≡ (u', some key))
        × (format.is_signed key token ≡ true)
        × (c ≡ format.claims_of token)
        × ((t : ℕ) × (c.exp ≡ some t))

-- The kid and the key it has in the client's cache.
abbrev pub IsCached : {W : Type 0} → Header → Using W → PublicKey → Type 0
IsCached header u key =
    (kid : String) × (header.is_rsa ≡ true)
    × (header.kid ≡ some kid)
    × (str_eq kid "" ≡ false)
    × (at_key u.client.cache kid ≡ some key)

module _ {W : Type 0} (endpoint : Endpoint W) where
  after_refresh-cached :
      (kid : String) (outcome : Refreshed W) (u' : Using W) (key : PublicKey)
      → after_refresh endpoint kid outcome ≡ (u', some key)
      → at_key u'.client.cache kid ≡ some key
  unfolding after_refresh
  after_refresh-cached kid (refreshed u) u' key h = ground (arith, h)
  after_refresh-cached kid (refresh_failed err u) u' key h = ground (arith, h)

  found-cached :
      (kid : String) (found : Option PublicKey) (u u' : Using W) (key : PublicKey)
      → at_key u.client.cache kid ≡ found
      → found_or_refresh endpoint kid found u ≡ (u', some key)
      → at_key u'.client.cache kid ≡ some key
  unfolding found_or_refresh
  found-cached kid none u u' key e h = after_refresh-cached kid (fetch_keys endpoint u) u' key h
  found-cached kid (some k) u u' key e h = ground (arith, e, h)

  by_kid-cached :
      (named : Option String) (u u' : Using W) (key : PublicKey)
      → by_kid endpoint named u ≡ (u', some key)
      → (kid : String) × (named ≡ some kid)
        × (str_eq kid "" ≡ false)
        × (at_key u'.client.cache kid ≡ some key)
  unfolding by_kid
  by_kid-cached none u u' key h = ground (arith, h)
  by_kid-cached (some kid) u u' key h =
      let found = at_key u.client.cache kid in
      let cached = found-cached kid found u u' key refl in
      (kid, refl, ground (arith, h), cached (ground (arith, h)))

  keyfunc-IsCached :
      (header : Header) (u u' : Using W) (key : PublicKey)
      → keyfunc endpoint header u ≡ (u', some key)
      → IsCached header u' key
  unfolding keyfunc
  keyfunc-IsCached header u u' key h =
      let (kid, named, given, cached) = by_kid-cached header.kid u u' key (ground (arith, h)) in
      (kid, ground (arith, h), named, given, cached)

  -- The times that passed: the token had not expired a minute ago, and is active within a minute.
  abbrev pub IsInTime : ℕ → HelixClaims → Type 0
  IsInTime now c =
      ((t : ℕ) × (c.exp ≡ some t) × (now ≤ t + minute))
      × ((c.nbf ≡ none) ⊎ ((t : ℕ) × (c.nbf ≡ some t) × (t ≤ now + minute)))

  not_active-cases :
      (now : ℕ) (c : HelixClaims) (nbf : Option ℕ)
      → c.nbf ≡ nbf
      → ((e : TokenError) × (not_active now c nbf ≡ rejected e))
        ⊎ ((not_active now c nbf ≡ claimed c)
            × ((c.nbf ≡ none) ⊎ ((t : ℕ) × (c.nbf ≡ some t) × (t ≤ now + minute))))
  unfolding not_active
  not_active-cases now c none h = inr (refl, inl h)
  not_active-cases now c (some t) h = elim (Bool-cases (ltb (now + minute) t)) [
    | inl early ↦ inl (invalid_token, rw early refl)
    | inr active ↦ inr (rw active refl, inr (t, h, ground arith))
  ]

  check_times-cases :
      (now : ℕ) (c : HelixClaims) (t : ℕ)
      → c.exp ≡ some t
      → ((e : TokenError) × (check_times now c (some t) ≡ rejected e))
        ⊎ ((check_times now c (some t) ≡ claimed c) × IsInTime now c)
  unfolding check_times
  check_times-cases now c t h = elim (Bool-cases (ltb (t + minute) now)) [
    | inl expired ↦ inl (expired_token, rw expired refl)
    | inr fresh ↦ elim (not_active-cases now c c.nbf refl) [
      | inl (e, rejects) ↦ inl (e, rw fresh rejects)
      | inr (claims, active) ↦ inr (rw fresh claims, ((t, h, ground arith), active))
    ]
  ]

  Verdict : TokenFormat → String → Using W × Checked → Type 0
  Verdict format token result =
      ((u : Using W) × (e : TokenError) × (result ≡ (u, rejected e)))
      ⊎ ((u : Using W) × (c : HelixClaims) × (key : PublicKey) × (result ≡ (u, claimed c))
          × IsCached (format.header_of token) u key
          × (format.is_signed key token ≡ true)
          × (c ≡ format.claims_of token)
          × IsInTime (endpoint.time_now u.world) c)

  finished-cases :
      (format : TokenFormat) (parse : Parser W) (lib : IsJwtParser format parse)
      (token issuer : String) (u : Using W) (result : Using W × Parsed)
      → parse token (keyfunc endpoint) issuer u ≡ result
      → Verdict format token (finished endpoint result)
  unfolding finished Verdict
  finished-cases format parse lib token issuer u (u', parse_failed expired) h = inl (u', _, refl)
  finished-cases format parse lib token issuer u (u', parsed c) h =
      let (key, gives, verified, claimed_by, (t, due)) =
        lib.accepts token (keyfunc endpoint) issuer u u' c h in
      let now = endpoint.time_now u'.world in
      elim (check_times-cases now c t due) [
        | inl (e, rejects) ↦
            inl (u', e, ap (λ v. (u', check_times now c v)) due ∙ ap (λ v. (u', v)) rejects)
        | inr (claims, in_time) ↦ inr (
          u',
          c,
          key,
          ap (λ v. (u', check_times now c v)) due ∙ ap (λ v. (u', v)) claims,
          keyfunc-IsCached (format.header_of token) u u' key gives,
          verified,
          claimed_by,
          in_time,
        )
      ]

  -- `VerifyToken` returns, with an error or with claims, over a JWT library that does what it documents.
  -- When it returns claims, they are those of the token, whose header has an RSA method and a kid that is
  -- not empty; the token is signed by the key that the client caches under this kid, the expiry is at most
  -- one minute past, and a time of activation at most one minute ahead.
  pub verify_token-cases :
      (format : TokenFormat) (parse : Parser W) (lib : IsJwtParser format parse) (token : String)
      (u : Using W)
      → ((u' : Using W) × (e : TokenError) × (verify_token endpoint parse token u
            ≡ (u', rejected e)))
        ⊎ ((u' : Using W) × (c : HelixClaims) × (key : PublicKey) × (verify_token endpoint parse
                token u
              ≡ (u', claimed c))
            × IsCached (format.header_of token) u' key
            × (format.is_signed key token ≡ true)
            × (c ≡ format.claims_of token)
            × IsInTime (endpoint.time_now u'.world) c)
  unfolding verify_token Verdict
  verify_token-cases format parse lib token u =
      finished-cases format parse lib token u.client.issuer (noticed endpoint u) _ refl

  -- The token is signed by the key that the client caches under the kid of its header, and in time.
  abbrev pub IsAuthentic : TokenFormat → String → Using W → HelixClaims → Type 0
  IsAuthentic format token u c =
      (key : PublicKey) × IsCached (format.header_of token) u key
      × (format.is_signed key token ≡ true)
      × (c ≡ format.claims_of token)
      × IsInTime (endpoint.time_now u.world) c

  -- A verdict that holds of a result: claims are authentic, and there is no crash.
  abbrev Means : TokenFormat → String → Using W × Checked → Type 0
  Means format token (u, claimed c) = IsAuthentic format token u c
  Means format token (u, rejected e) = Unit
  Means format token (u, nil_deref) = ⊥

  verify_token-Means :
      (format : TokenFormat) (parse : Parser W) (lib : IsJwtParser format parse) (token : String)
      (u : Using W) (result : Using W × Checked)
      → verify_token endpoint parse token u ≡ result
      → Means format token result
  verify_token-Means format parse lib token u result h =
      elim (verify_token-cases format parse lib token u) [
        | inl (u', e, rejects) ↦ rw (sym h, rejects) tt
        | inr (u', c, key, claims, cached, verified, own, in_time) ↦
            rw (sym h, claims) (key, cached, verified, own, in_time)
      ]

  pub IsAuthentic-verify_token :
      (format : TokenFormat) (parse : Parser W) (lib : IsJwtParser format parse) (token : String)
      (u u' : Using W) (c : HelixClaims)
      → verify_token endpoint parse token u ≡ (u', claimed c)
      → IsAuthentic format token u' c
  IsAuthentic-verify_token format parse lib token u u' c h =
      verify_token-Means format parse lib token u (u', claimed c) h

  pub verify_token_total :
      (format : TokenFormat) (parse : Parser W) (lib : IsJwtParser format parse) (token : String)
      (u u' : Using W)
      → ¬ (verify_token endpoint parse token u ≡ (u', nil_deref))
  verify_token_total format parse lib token u u' h =
      verify_token-Means format parse lib token u (u', nil_deref) h
