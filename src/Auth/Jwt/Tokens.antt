-- ===== src/Auth/Jwt/Tokens.antt =====
-- What a request must carry to reach a handler behind the JWT strategy.
use Prim.Native.Char.{Char, char}
use Prim.Native.String.{◌++◌ as str_append}
use text.Mathlib.Text.{◌==◌ as str_eq}
use text.Mathlib.TextEquality.{eq_iff}
use text.Mathlib.TextLemmas.{append-nil, tail-eq_of_cons-eq}
use helix_fnd.Prelude.{◌≡◌, refl, sym, ◌∙◌, ap, ◌⊎◌, inl, inr, String, List, [], ◌∷◌, Bool-cases}
use helix_fnd.Context.{Context}
use helix_fnd.Context.Accessors.{with_entry_point}
use helix_fnd.Text.{split}
use helix_fnd.Text.Laws.{led_by, led_by-split}
use helix_fnd.Http.{Request, Served, Handler, returned, panicked, http_error, on_writer, with_ctx}
use helix_fnd.Auth.{
  AuthPayload, Authenticated, granted, denied, crashed, payload_header, http_middleware,
  http_payload,
}
use helix_fnd.Crypto.Jwks.{HelixClaims, Checked, claimed, rejected, nil_deref}
use helix_fnd.Auth.Jwt.{Verifier, with_claims, conclude, with_parts, jwt_authenticate}

abbrev pub blank_char : Char
blank_char = char 32 tt

-- The text is two pieces at its one blank: the scheme and the token.
two_pieces :
    (text scheme token : String)
    → split b' ' text ≡ scheme ∷ token ∷ []
    → text ≡ str_append scheme (String.◌∷◌ blank_char token)
two_pieces text scheme token h =
    let joined : led_by blank_char (scheme ∷ token ∷ []) ≡ String.◌∷◌ blank_char text =
      ap (led_by blank_char) (sym h) ∙ led_by-split blank_char text in
    sym (tail-eq_of_cons-eq joined)
    ∙ ap (λ t. str_append scheme (String.◌∷◌ blank_char t)) (append-nil token)

module _ {W : Type 0} (verify_token : Verifier W) where
  -- Why the strategy granted: the verifier accepted the token that stands behind "Bearer".
  unfoldable pub Granted : Context → String → W → W → Context → Type 0
  Granted ctx text w w' ctx' =
      (token : String) × (c : HelixClaims) × (text
        ≡ str_append "Bearer" (String.◌∷◌ blank_char token))
      × (verify_token token w ≡ (w', claimed c))
      × (ctx' ≡ with_claims ctx c)

  -- The ends of an authentication: denied, crashed in the verifier, granted.
  unfoldable pub Concluded : Context → String → W → W × Authenticated → Type 0
  Concluded ctx text w result =
      ((w' : W) × (err : String) × (result ≡ (w', denied err)))
      ⊎ ((w' : W) × (msg : String) × (token : String) × (result ≡ (w', crashed msg))
          × (verify_token token w ≡ (w', nil_deref)))
      ⊎ ((w' : W) × (ctx' : Context) × (result ≡ (w', granted ctx')) × Granted ctx text w w' ctx')

  conclude-cases :
      (ctx : Context) (text token : String) (w : W) (verdict : W × Checked)
      → text ≡ str_append "Bearer" (String.◌∷◌ blank_char token)
      → verify_token token w ≡ verdict
      → Concluded ctx text w (conclude verify_token ctx verdict)
  unfolding conclude Granted Concluded
  conclude-cases ctx text token w (w', claimed c) e h =
      inr (inr (w', with_claims ctx c, refl, (token, c, e, h, refl)))
  conclude-cases ctx text token w (w', rejected err) e h = inl (w', "invalid token", refl)
  conclude-cases ctx text token w (w', nil_deref) e h = inr (inl (w', _, token, refl, h))

  with_parts-cases :
      (ctx : Context) (text : String) (w : W) (parts : List String)
      → split b' ' text ≡ parts
      → Concluded ctx text w (with_parts verify_token ctx parts w)
  unfolding with_parts Concluded
  with_parts-cases ctx text w [] h = inl (w, "invalid authorization header format", refl)
  with_parts-cases ctx text w (a ∷ []) h = inl (w, "invalid authorization header format", refl)
  with_parts-cases ctx text w (a ∷ b ∷ c ∷ rest) h =
      inl (w, "invalid authorization header format", refl)
  with_parts-cases ctx text w (scheme ∷ token ∷ []) h = elim (Bool-cases (str_eq scheme "Bearer")) [
    | inr differ ↦ rw differ (inl (w, "invalid authorization header format", refl))
    | inl same ↦
        let e : text ≡ str_append "Bearer" (String.◌∷◌ blank_char token) =
          two_pieces text scheme token h
          ∙ ap (λ v. str_append v (String.◌∷◌ blank_char token))
              ((eq_iff scheme "Bearer").0 same) in
        rw same (conclude-cases ctx text token w (verify_token token w) e refl)
  ]

  pub authenticate-cases :
      (ctx : Context) (payload : AuthPayload) (w : W)
      → Concluded ctx
          (payload_header payload "Authorization")
          w
          (jwt_authenticate verify_token ctx payload w)
  unfolding jwt_authenticate Concluded
  authenticate-cases ctx payload w =
      let text = payload_header payload "Authorization" in
      elim (Bool-cases (str_eq text "")) [
        | inl empty ↦ rw empty (inl (w, "missing authorization header", refl))
        | inr given ↦ rw given (with_parts-cases ctx text w (split b' ' text) refl)
      ]

  -- A request behind the JWT strategy is answered 401, and the handler never runs; or the verifier
  -- panics, and so does the middleware; or its Authorization header is "Bearer", a blank and a token that
  -- the verifier accepted, and the outcome is that of the handler, whose context has the claims of that
  -- token.
  pub jwt_guards :
      (next : Handler W) (r : Request) (s : Served W)
      → ((w : W) × (err : String) × (http_middleware (jwt_authenticate verify_token) next r s
            ≡ returned (on_writer (http_error err 401) (record s { world = w }))))
        ⊎ ((w : W) × (msg : String) × (token : String) × (http_middleware
                (jwt_authenticate verify_token)
                next
                r
                s
              ≡ panicked msg (record s { world = w }))
            × (verify_token token s.world ≡ (w, nil_deref)))
        ⊎ ((w : W) × (token : String) × (c : HelixClaims) × (payload_header
                (http_payload r)
                "Authorization"
              ≡ str_append "Bearer" (String.◌∷◌ blank_char token))
            × (verify_token token s.world ≡ (w, claimed c))
            × (http_middleware (jwt_authenticate verify_token) next r s
                ≡ next
                    (with_ctx r (with_claims (with_entry_point r.ctx "http") c))
                    (record s { world = w })))
  unfolding http_middleware Concluded Granted
  jwt_guards next r s =
      elim (authenticate-cases (with_entry_point r.ctx "http") (http_payload r) s.world) [
        | inl (w, err, denies) ↦ inl (w, err, rw denies refl)
        | inr (inl (w, msg, token, crashes, nil)) ↦ inr (inl (w, msg, token, rw crashes refl, nil))
        | inr (inr (w, ctx, grants, (token, c, bearer, accepted, claims))) ↦
            inr (inr (w, token, c, bearer, accepted, rw (grants, claims) refl))
      ]
