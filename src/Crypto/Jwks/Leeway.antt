-- ===== src/Crypto/Jwks/Leeway.antt =====
-- The times that `VerifyToken` checks after golang-jwt has checked them.
use helix_fnd.Prelude.{
  ℕ, ◌≤◌, ◌<◌, ◌≡◌, refl, ◌⊎◌, inl, inr, String, Option, none, some, arith, if◌then◌else◌,
}
use helix_fnd.Crypto.Jwks.{
  Using, Endpoint, HelixClaims, Keyfunc, Parsed, parse_failed, parsed, Parser, invalid_token,
  expired_token, Checked, claimed, rejected, keyfunc, check_times, not_active, finished, noticed,
  verify_token,
}

-- What golang-jwt documents of a parser without `WithLeeway`: of a token whose claims it returns, the
-- expiry lies ahead, and a time of activation does not.
pub record IsStrict {W : Type 0} (endpoint : Endpoint W) (parse : Parser W) : Type 0 where
  pub in_time :
      (token : String) (keyfunc : Keyfunc W) (issuer : String) (u u' : Using W) (c : HelixClaims)
      → parse token keyfunc issuer u ≡ (u', parsed c)
      → ((t : ℕ) × (c.exp ≡ some t) × (endpoint.time_now u'.world < t))
        × ((c.nbf ≡ none) ⊎ ((t : ℕ) × (c.nbf ≡ some t) × (t ≤ endpoint.time_now u'.world)))

-- `VerifyToken` as if it ended after the parser.
abbrev pub as_parsed : {W : Type 0} → Using W × Parsed → Using W × Checked
as_parsed (u, parse_failed expired) =
    (u, rejected (if expired then expired_token else invalid_token))
as_parsed (u, parsed c) = (u, claimed c)

module _ {W : Type 0} (endpoint : Endpoint W) where
  not_active-claimed :
      (now : ℕ) (c : HelixClaims) (nbf : Option ℕ)
      → ((nbf ≡ none) ⊎ ((t : ℕ) × (nbf ≡ some t) × (t ≤ now)))
      → not_active now c nbf ≡ claimed c
  unfolding not_active
  not_active-claimed now c nbf (inl never) = rw never refl
  not_active-claimed now c nbf (inr (t, given, active)) = ground (arith, given, active)

  finished-as_parsed :
      (parse : Parser W) (strict : IsStrict endpoint parse) (token issuer : String) (u : Using W)
      (result : Using W × Parsed)
      → parse token (keyfunc endpoint) issuer u ≡ result
      → finished endpoint result ≡ as_parsed result
  unfolding finished check_times
  finished-as_parsed parse strict token issuer u (u', parse_failed expired) h = refl
  finished-as_parsed parse strict token issuer u (u', parsed c) h =
      let ((t, due, fresh), active) = strict.in_time token (keyfunc endpoint) issuer u u' c h in
      let now = endpoint.time_now u'.world in
      let claims = not_active-claimed now c c.nbf active in rw due (ground (arith, fresh, claims))

  -- Over a JWT library that checks the times as it documents, the checks of the times that follow the
  -- parser, with their minute of leeway, never decide anything: `VerifyToken` returns what the parser returned,
  -- claims or one of two errors.
  pub verify_token-as_parsed :
      (parse : Parser W) (strict : IsStrict endpoint parse) (token : String) (u : Using W)
      → verify_token endpoint parse token u
        ≡ as_parsed (parse token (keyfunc endpoint) u.client.issuer (noticed endpoint u))
  unfolding verify_token
  verify_token-as_parsed parse strict token u =
      finished-as_parsed parse strict token u.client.issuer (noticed endpoint u) _ refl
