-- ===== src/Auth/Jwt.antt =====
-- `JWTStrategy` of server/middleware/strategy_jwt.go, over any token verifier.
pub mod Identity
pub mod Order
pub mod Recovered
pub mod Signed
pub mod Tokens
use text.Mathlib.Text.{◌==◌ as str_eq}
use helix_fnd.Prelude.{Bool, true, false, String, List, [], ◌∷◌, if◌then◌else◌}
use helix_fnd.Context.{Context}
use helix_fnd.Context.Accessors.{with_auth_principal_id, with_auth_session_id}
use helix_fnd.Text.{split}
use helix_fnd.Crypto.Jwks.{HelixClaims, Checked, claimed, rejected, nil_deref}
use helix_fnd.Auth.{AuthPayload, Authenticated, granted, denied, crashed, Strategy, payload_header}

-- A `JWKSVerifier`.
abbrev pub Verifier : Type 0 → Type 0
Verifier W = String → W → W × Checked

-- The context with the principal and the session, where the claims name them.
unfoldable pub with_claims : Context → HelixClaims → Context
with_claims ctx c =
    let ctx' = if str_eq c.subject "" then ctx else with_auth_principal_id ctx c.subject in
    if str_eq c.sid "" then ctx' else with_auth_session_id ctx' c.sid

module _ {W : Type 0} (verify_token : Verifier W) where
  conclude : Context → W × Checked → W × Authenticated
  conclude ctx (w, claimed c) = (w, granted (with_claims ctx c))
  conclude ctx (w, rejected err) = (w, denied "invalid token")
  conclude ctx (w, nil_deref) = (w, crashed "nil pointer dereference")

  with_parts : Context → List String → W → W × Authenticated
  unfolding conclude
  with_parts ctx (scheme ∷ token ∷ []) w =
      let verified = conclude ctx (verify_token token w) in
      if str_eq scheme "Bearer" then verified else (w, denied "invalid authorization header format")
  with_parts ctx _ w = (w, denied "invalid authorization header format")

  unfoldable pub jwt_authenticate : Strategy W
  unfolding with_parts
  jwt_authenticate ctx payload w =
      let auth_header = payload_header payload "Authorization" in
      if str_eq auth_header ""
      then (w, denied "missing authorization header")
      else with_parts ctx (split b' ' auth_header) w
