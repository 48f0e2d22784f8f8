-- ===== src/Text/Laws.antt =====
-- Laws of `strings.Split`.
use Prim.Native.Char.{Char, code}
use Prim.Native.String.{String, [], ◌∷◌, ◌++◌}
use text.Mathlib.TextEquality.{Char-path}
use text.Mathlib.TextLemmas.{append_assoc, nil-append, cons-append}
use helix_fnd.Prelude.{◌≡◌, refl, ◌∙◌, ap, inl, inr, List, arith, ◌==◌, Bool-cases}
use helix_fnd.Text.{split, split_from}

-- Each piece behind a separator.
abbrev pub led_by : Char → List String → String
led_by sep List.[] = []
led_by sep (List.◌∷◌ piece pieces) = sep ∷ (piece ++ led_by sep pieces)

singleton-append : (c : Char) (t : String) → (c ∷ []) ++ t ≡ c ∷ t
singleton-append c t = cons-append c [] t ∙ ap (λ u. c ∷ u) (nil-append t)

led_by-split_from :
    (sep : Char) (piece s : String)
    → led_by sep (split_from (code sep) piece s) ≡ sep ∷ (piece ++ s)
unfolding split_from
led_by-split_from sep piece [] = refl
led_by-split_from sep piece (c ∷ s) = elim (Bool-cases (code c == code sep)) [
  | inl same ↦
      let e : c ≡ sep = Char-path c sep (ground arith) in
      rw same
        (ap (λ t. sep ∷ (piece ++ t)) (led_by-split_from sep [] s ∙ (rw (nil-append s, e) refl)))
  | inr differ ↦ rw differ (
      led_by-split_from sep (piece ++ (c ∷ [])) s
      ∙ ap (λ t. sep ∷ t)
          (append_assoc piece (c ∷ []) s ∙ ap (λ t. piece ++ t) (singleton-append c s)))
]

-- The pieces, each behind a separator, are the text behind one.
pub led_by-split : (sep : Char) (s : String) → led_by sep (split (code sep) s) ≡ sep ∷ s
unfolding split
led_by-split sep s = led_by-split_from sep [] s ∙ ap (λ t. sep ∷ t) (nil-append s)
