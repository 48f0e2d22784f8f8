-- ===== src/Auth/Jwt/Identity.antt =====
-- Whom the context of an authenticated request names.
use text.Mathlib.Text.{◌==◌ as str_eq}
use helix_fnd.Prelude.{◌≡◌, refl, inl, inr, true, false, String, some, Bool-cases}
use helix_fnd.Context.{Context, str, value, auth_principal_id_key, auth_session_id_key}
use helix_fnd.Context.Accessors.{with_auth_principal_id, with_auth_session_id}
use helix_fnd.Crypto.Jwks.{HelixClaims}
use helix_fnd.Auth.Jwt.{with_claims}

-- Under the key of the context stands the text, or, if it is empty, what stood there before.
abbrev pub Names : Context → Context → String → String → Type 0
Names before ctx key text =
    (str_eq text "" ≡ false → value ctx key ≡ some (str text))
    × (str_eq text "" ≡ true → value ctx key ≡ value before key)

-- The principal is the subject of the claims, and the session their sid.
abbrev pub IsIdentified : Context → HelixClaims → Context → Type 0
IsIdentified before c ctx =
    Names before ctx auth_principal_id_key c.subject × Names before ctx auth_session_id_key c.sid

pub with_claims-IsIdentified :
    (ctx : Context) (c : HelixClaims) → IsIdentified ctx c (with_claims ctx c)
unfolding with_claims with_auth_principal_id with_auth_session_id value
with_claims-IsIdentified ctx c = elim (Bool-cases (str_eq c.subject "")) [
  | inl no_subject ↦ elim (Bool-cases (str_eq c.sid "")) [
    | inl no_sid ↦ rw (no_subject, no_sid) (((λ h. cc), (λ h. refl)), ((λ h. cc), (λ h. refl)))
    | inr sid ↦ rw (no_subject, sid) (((λ h. cc), (λ h. refl)), ((λ h. refl), (λ h. cc)))
  ]
  | inr subject ↦ elim (Bool-cases (str_eq c.sid "")) [
    | inl no_sid ↦ rw (subject, no_sid) (((λ h. refl), (λ h. cc)), ((λ h. cc), (λ h. refl)))
    | inr sid ↦ rw (subject, sid) (((λ h. refl), (λ h. cc)), ((λ h. refl), (λ h. cc)))
  ]
]
