-- ===== src/Log/Redaction.antt =====
-- What the redactor leaves in a log line.
use text.Mathlib.Text.{◌==◌ as str_eq}
use helix_fnd.Prelude.{
  Bool, ◌||◌, arith, sym, ◌∙◌, ◌≡◌, refl, ◌⊎◌, inl, inr, true, false, String, List, [], ◌∷◌, ◌++◌,
  Bool-cases,
}
use helix_fnd.Text.{to_lower}
use helix_fnd.Log.{Leaf, string, Attrs, end, leaf, group, is_sensitive, redactor, replace_attrs}

-- The leaves at any depth of groups, in order.
abbrev pub leaves : Attrs → List (String × Leaf)
leaves end = []
leaves (leaf key v rest) = (key, v) ∷ leaves rest
leaves (group key inner rest) = leaves inner ++ leaves rest

-- The keys whose values no log may show.
abbrev pub secret_keys : List String
secret_keys =
    "password" ∷ "token" ∷ "access_token" ∷ "refresh_token" ∷ "authorization" ∷ "secret" ∷ "db_dsn"
    ∷ "api_key" ∷ []

abbrev pub listed : List String → String → Bool
listed [] key = false
listed (k ∷ ks) key = str_eq key k || listed ks key

is_sensitive-listed : (key : String) → is_sensitive key ≡ listed secret_keys key
unfolding is_sensitive
is_sensitive-listed key = ground arith

-- What may stand for an attribute: itself, or, if its key in lower case is listed, only the mark.
abbrev pub Shows : String × Leaf → String × Leaf → Type 0
Shows (key, v) (key', v') =
    (key' ≡ key)
    × (((listed secret_keys (to_lower key) ≡ false) × (v' ≡ v))
        ⊎ ((listed secret_keys (to_lower key) ≡ true) × (v' ≡ string "[REDACTED]")))

abbrev pub AllShow : List (String × Leaf) → List (String × Leaf) → Type 0
AllShow [] [] = Unit
AllShow (a ∷ xs) (b ∷ ys) = Shows a b × AllShow xs ys
AllShow _ _ = ⊥

redactor-Shows : (key : String) (v : Leaf) → Shows (key, v) (redactor (key, v))
unfolding redactor
redactor-Shows key v = elim (Bool-cases (is_sensitive (to_lower key))) [
  | inl hidden ↦ rw hidden (refl, inr (sym (is_sensitive-listed (to_lower key)) ∙ hidden, refl))
  | inr open_ ↦ rw open_ (refl, inl (sym (is_sensitive-listed (to_lower key)) ∙ open_, refl))
]

append-AllShow :
    (xs xs' ys ys' : List (String × Leaf))
    → AllShow xs xs'
    → AllShow ys ys'
    → AllShow (xs ++ ys) (xs' ++ ys')
append-AllShow [] [] ys ys' h k = k
append-AllShow [] (a' ∷ xs') ys ys' h k = absurd h
append-AllShow (a ∷ xs) [] ys ys' h k = absurd h
append-AllShow (a ∷ xs) (a' ∷ xs') ys ys' h k = (h.0, append-AllShow xs xs' ys ys' h.1 k)

-- The attributes of a log line that are not groups, inside groups too: each stands in its place with its
-- key, and with its value just if the key in lower case is none of the eight secret ones; otherwise its
-- value is the mark.
pub replace_attrs-AllShow : (xs : Attrs) → AllShow (leaves xs) (leaves (replace_attrs xs))
unfolding replace_attrs
replace_attrs-AllShow end = tt
replace_attrs-AllShow (leaf key v rest) = (redactor-Shows key v, replace_attrs-AllShow rest)
replace_attrs-AllShow (group key inner rest) =
    append-AllShow (leaves inner) (leaves (replace_attrs inner)) (leaves rest)
      (leaves (replace_attrs rest)) (replace_attrs-AllShow inner) (replace_attrs-AllShow rest)
