-- ===== src/Auth/Headers.antt =====
-- The headers of a request as a Go map, which is ranged over in a random order: flat_headers and
-- payload_header of two orders.
use std.Path.{subst}
use mathlib.Core.Logic.{∥∥₁_elim}
use mathlib.Core.HLevel.{hedberg}
use mathlib.Core.List.{Perm, Permᴰ}
use text.Mathlib.Text.{◌==◌ as str_eq}
use text.Mathlib.TextEquality.{eq_iff}
use helix_fnd.Prelude.{
  ◌≡◌, refl, sym, ap, ◌∙◌, inl, inr, true, false, String, List, [], ◌∷◌, Option, none, some, arith,
  at_key, assign, at_key-assign_self, at_key-assign_ne, Bool-cases, Option-cases, if◌then◌else◌,
}
use helix_fnd.Text.{canonical_header_key, to_lower, all_tokens}
use helix_fnd.Text.Headers.{canonical_header_key-same}
use helix_fnd.Auth.{AuthPayload, flat_headers, payload_header, same_lower, found_or}

abbrev pub Headers : Type 0
Headers = List (String × List String)

-- What an entry makes of the value found so far under a canonical name.
abbrev taken : String × List String → String → Option String → Option String
taken (k, []) name found = found
taken (k, v ∷ vs) name found = if str_eq (canonical_header_key k) name then some v else found

abbrev value_of : Headers → String → Option String → Option String
value_of [] name found = found
value_of (a ∷ rest) name found = value_of rest name (taken a name found)

-- No other entry has this canonical name; no two entries have the same.
abbrev pub IsFresh : String → Headers → Type 0
IsFresh name [] = Unit
IsFresh name (a ∷ rest) = (str_eq (canonical_header_key a.0) name ≡ false) × IsFresh name rest

abbrev pub IsDistinct : Headers → Type 0
IsDistinct [] = Unit
IsDistinct (a ∷ rest) = IsFresh (canonical_header_key a.0) rest × IsDistinct rest

assigned :
    (m : List (String × String)) (k name v : String)
    → at_key (assign m k v) name ≡ (if str_eq k name then some v else at_key m name)
assigned m k name v = elim (Bool-cases (str_eq k name)) [
  | inl same ↦ rw (same, (eq_iff k name).0 same) (at_key-assign_self m name v)
  | inr other ↦ rw other (at_key-assign_ne m k name v other)
]

at_key-flat_headers :
    (h : Headers) (acc : List (String × String)) (name : String)
    → at_key (flat_headers h acc) name ≡ value_of h name (at_key acc name)
unfolding flat_headers
at_key-flat_headers [] acc name = refl
at_key-flat_headers ((k, []) ∷ rest) acc name = at_key-flat_headers rest acc name
at_key-flat_headers ((k, v ∷ vs) ∷ rest) acc name =
    at_key-flat_headers rest (assign acc (canonical_header_key k) v) name
    ∙ ap (value_of rest name) (assigned acc (canonical_header_key k) name v)

-- Every key is a canonical form.
abbrev AllCanonical : List (String × String) → Type 0
AllCanonical [] = Unit
AllCanonical ((k, v) ∷ m) = ((s : String) × (k ≡ canonical_header_key s)) × AllCanonical m

assign-AllCanonical :
    (m : List (String × String)) (s v : String)
    → AllCanonical m
    → AllCanonical (assign m (canonical_header_key s) v)
unfolding assign
assign-AllCanonical [] s v h = ((s, refl), tt)
assign-AllCanonical ((k, old) ∷ m) s v (c, h) =
    elim (Bool-cases (str_eq k (canonical_header_key s))) [
      | inl same ↦ rw (same, assign) (c, h)
      | inr other ↦ rw (other, assign) (c, assign-AllCanonical m s v h)
    ]

flat_headers-AllCanonical :
    (h : Headers) (acc : List (String × String))
    → AllCanonical acc
    → AllCanonical (flat_headers h acc)
unfolding flat_headers
flat_headers-AllCanonical [] acc c = c
flat_headers-AllCanonical ((k, []) ∷ rest) acc c = flat_headers-AllCanonical rest acc c
flat_headers-AllCanonical ((k, v ∷ vs) ∷ rest) acc c =
    flat_headers-AllCanonical rest (assign acc (canonical_header_key k) v)
      (assign-AllCanonical acc k v c)

-- `GetHeader` looks keys up in lower case after the canonical one: in such a map in vain.
same_lower-none :
    (m : List (String × String)) (name : String)
    → all_tokens name ≡ true
    → AllCanonical m
    → at_key m (canonical_header_key name) ≡ none
    → same_lower (to_lower name) m ≡ ""
unfolding same_lower at_key
same_lower-none [] name valid c missing = refl
same_lower-none ((k, v) ∷ m) name valid ((s, e), c) missing =
    elim (Bool-cases (str_eq k (canonical_header_key name))) [
      | inl same ↦ absurd (cc (rw (same, at_key) at missing))
      | inr other ↦ elim (Bool-cases (str_eq (to_lower k) (to_lower name))) [
        | inl lower ↦
            let equal = (eq_iff (to_lower k) (to_lower name)).0 lower in
            let canonical = canonical_header_key-same s name valid (sym (ap to_lower e) ∙ equal) in
            absurd (cc (other, (eq_iff k (canonical_header_key name)).1 (e ∙ canonical)))
        | inr neither ↦ rw neither (same_lower-none m name valid c (rw (other, at_key) at missing))
      ]
    ]

-- Reordering.
differs-sym : (a b : String) → str_eq a b ≡ false → str_eq b a ≡ false
differs-sym a b h = elim (Bool-cases (str_eq b a)) [
  | inl same ↦ absurd (cc (h, (eq_iff a b).1 (sym ((eq_iff b a).0 same))))
  | inr other ↦ other
]

taken_swap :
    (a b : String × List String) (name : String) (found : Option String)
    → str_eq (canonical_header_key b.0) (canonical_header_key a.0) ≡ false
    → taken b name (taken a name found) ≡ taken a name (taken b name found)
taken_swap (k, []) (k', vs) name found h = refl
taken_swap (k, v ∷ vs) (k', []) name found h = refl
taken_swap (k, v ∷ vs) (k', v' ∷ vs') name found h = ground (
  arith,
  h,
  eq_iff (canonical_header_key k) name,
  eq_iff (canonical_header_key k') name,
  eq_iff (canonical_header_key k') (canonical_header_key k),
)

IsFresh-perm : {h h' : Headers} (name : String) → Permᴰ h h' → IsFresh name h → IsFresh name h'
IsFresh-perm name Permᴰ.nil f = f
IsFresh-perm name (Permᴰ.cons {a} {b} e p) (f, g) =
    (ap (λ x. str_eq (canonical_header_key x.0) name) (sym e) ∙ f, IsFresh-perm name p g)
IsFresh-perm name (Permᴰ.swap {a} {b} {a'} {b'} e e') (f, (g, rest)) = (
  ap (λ x. str_eq (canonical_header_key x.0) name) (sym e') ∙ g,
  (ap (λ x. str_eq (canonical_header_key x.0) name) (sym e) ∙ f, rest),
)
IsFresh-perm name (Permᴰ.trans p q) f = IsFresh-perm name q (IsFresh-perm name p f)

IsDistinct-perm : {h h' : Headers} → Permᴰ h h' → IsDistinct h → IsDistinct h'
IsDistinct-perm Permᴰ.nil d = d
IsDistinct-perm (Permᴰ.cons {l₂} e p) (f, d) =
    (subst (λ x. IsFresh (canonical_header_key x.0) l₂) e (IsFresh-perm _ p f), IsDistinct-perm p d)
IsDistinct-perm (Permᴰ.swap {a} {b} {a'} {b'} {l} e e') ((ab, f), (g, d)) =
    let after_b =
      subst (λ y. str_eq (canonical_header_key a.0) (canonical_header_key y.0) ≡ false) e'
        (differs-sym (canonical_header_key b.0) (canonical_header_key a.0) ab) in
    (
      (
        subst (λ x. str_eq (canonical_header_key x.0) (canonical_header_key a'.0) ≡ false) e
            after_b,
        subst (λ x. IsFresh (canonical_header_key x.0) l) e' g,
      ),
      (subst (λ x. IsFresh (canonical_header_key x.0) l) e f, d),
    )
IsDistinct-perm (Permᴰ.trans p q) d = IsDistinct-perm q (IsDistinct-perm p d)

value_of-perm :
    {h h' : Headers} (name : String) (found : Option String)
    → Permᴰ h h'
    → IsDistinct h
    → value_of h name found ≡ value_of h' name found
value_of-perm name found Permᴰ.nil d = refl
value_of-perm name found (Permᴰ.cons {a} {b} {l₂} e p) (f, d) =
    value_of-perm name (taken a name found) p d ∙ ap (λ x. value_of l₂ name (taken x name found)) e
value_of-perm name found (Permᴰ.swap {a} {b} {a'} {b'} {l} e e') ((ab, f), d) =
    ap (value_of l name) (taken_swap a b name found ab)
    ∙ ap (λ x. value_of l name (taken x name (taken b name found))) e
    ∙ ap (λ y. value_of l name (taken b' name (taken y name found))) e'
value_of-perm name found (Permᴰ.trans p q) d =
    value_of-perm name found p d ∙ value_of-perm name found q (IsDistinct-perm p d)

-- The value of a header, or the empty text.
abbrev or_empty : Option String → String
or_empty none = ""
or_empty (some v) = v

payload_header-canonical :
    (p : AuthPayload) (name : String)
    → all_tokens name ≡ true
    → AllCanonical p.headers
    → payload_header p name ≡ or_empty (at_key p.headers (canonical_header_key name))
unfolding payload_header found_or
payload_header-canonical p name valid c =
    elim (Option-cases (at_key p.headers (canonical_header_key name))) [
      | inl missing ↦ rw missing (same_lower-none p.headers name valid c missing)
      | inr (v, found) ↦ rw found refl
    ]

String_discrete : Discrete String
String_discrete a b = elim (Bool-cases (str_eq a b)) [
  | inl same ↦ yes ((eq_iff a b).0 same)
  | inr other ↦ no (λ e. cc (other, (eq_iff a b).1 e))
]

String_set : IsSet String
String_set = hedberg String_discrete

-- A header name is found alike in two payloads from one set of headers, whose canonical names are distinct,
-- in any two orders.
pub payload_header-perm :
    (h h' : Headers) (p p' : AuthPayload) (name : String)
    → all_tokens name ≡ true
    → Perm h h'
    → IsDistinct h
    → p.headers ≡ flat_headers h []
    → p'.headers ≡ flat_headers h' []
    → payload_header p name ≡ payload_header p' name
unfolding at_key
payload_header-perm h h' p p' name valid order distinct e e' =
    let c = subst AllCanonical (sym e) (flat_headers-AllCanonical h [] tt) in
    let c' = subst AllCanonical (sym e') (flat_headers-AllCanonical h' [] tt) in
    let same =
      ∥∥₁_elim order (hlevel (String_set))
        (λ q. value_of-perm (canonical_header_key name) none q distinct) in
    payload_header-canonical p name valid c
    ∙ ap or_empty (
        ap (λ m. at_key m (canonical_header_key name)) e
        ∙ at_key-flat_headers h [] (canonical_header_key name)
        ∙ same
        ∙ sym (at_key-flat_headers h' [] (canonical_header_key name))
        ∙ ap (λ m. at_key m (canonical_header_key name)) (sym e'))
    ∙ sym (payload_header-canonical p' name valid c')
