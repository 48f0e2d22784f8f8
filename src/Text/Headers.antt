-- ===== src/Text/Headers.antt =====
-- Laws of header names: what the canonical form keeps of a name, and when two names have the same one.
use Prim.Native.Char.{Char, char, code, nul}
use Prim.Native.String.{String, [], ◌∷◌}
use mathlib.Core.Logic.{dite}
use text.Mathlib.TextEquality.{Char-path}
use helix_fnd.Prelude.{
  ℕ, ◌+◌, ◌-◌, ◌<◌, ◌≡◌, refl, ◌∙◌, sym, ap, inl, inr, Bool, true, false, arith, ◌==◌, Bool-cases,
  if◌then◌else◌,
}
use helix_fnd.Text.{
  ascii, IsScalar-lt, is_upper, is_lower, is_token, is_digit, lower_char, upper_char, to_lower,
  all_tokens, canonical_from, canonical_header_key,
}
use native.Mathlib.Decide.{dec_lt}

upper-lt : (n : ℕ) → is_upper n ≡ true → n + 32 < 128
unfolding is_upper
upper-lt n h = ground (arith, h)

lower-lt : (n : ℕ) → is_lower n ≡ true → n - 32 < 128
unfolding is_lower
lower-lt n h = ground (arith, h)

code-ascii : (n : ℕ) → n < 128 → code (ascii n) ≡ n
unfolding ascii
code-ascii n h =
    elim (dec_lt n 128) as (λ d. code (dite d (λ l. char n (IsScalar-lt n l)) (λ _. nul)) ≡ n) [
      | yes l ↦ refl
      | no l ↦ absurd (l h)
    ]

code-lower_char :
    (c : Char) → code (lower_char c) ≡ (if is_upper (code c) then code c + 32 else code c)
unfolding lower_char
code-lower_char c = elim (Bool-cases (is_upper (code c))) [
  | inl up ↦ rw up (code-ascii (code c + 32) (upper-lt (code c) up))
  | inr other ↦ rw other refl
]

code-upper_char :
    (c : Char) → code (upper_char c) ≡ (if is_lower (code c) then code c - 32 else code c)
unfolding upper_char
code-upper_char c = elim (Bool-cases (is_lower (code c))) [
  | inl low ↦ rw low (code-ascii (code c - 32) (lower-lt (code c) low))
  | inr other ↦ rw other refl
]

lowered :
    (n : ℕ) → (let m = if is_upper n then n + 32 else n in (if is_upper m then m + 32 else m) ≡ m)
unfolding is_upper
lowered n = ground arith

lower_lower : (c : Char) → lower_char (lower_char c) ≡ lower_char c
lower_lower c =
    Char-path (lower_char (lower_char c)) (lower_char c)
      (rw (code-lower_char (lower_char c), code-lower_char c) (lowered (code c)))

raised :
    (n : ℕ)
    → (let m = if is_upper n then n + 32 else n in
        (if is_lower m then m - 32 else m) ≡ (if is_lower n then n - 32 else n))
unfolding is_upper is_lower
raised n = ground arith

upper_lower : (c : Char) → upper_char (lower_char c) ≡ upper_char c
upper_lower c =
    Char-path (upper_char (lower_char c)) (upper_char c)
      (rw (code-upper_char (lower_char c), code-upper_char c, code-lower_char c) (raised (code c)))

lowered_back :
    (n : ℕ)
    → (let m = if is_lower n then n - 32 else n in
        (if is_upper m then m + 32 else m) ≡ (if is_upper n then n + 32 else n))
unfolding is_upper is_lower
lowered_back n = ground arith

lower_upper : (c : Char) → lower_char (upper_char c) ≡ lower_char c
lower_upper c = Char-path (lower_char (upper_char c)) (lower_char c) (
    rw (code-lower_char (upper_char c), code-upper_char c, code-lower_char c)
      (lowered_back (code c)))

-- A dash is a dash in lower case.
dash_lower : (n : ℕ) → ((if is_upper n then n + 32 else n) == b'-') ≡ (n == b'-')
unfolding is_upper
dash_lower n = ground arith

token_lower : (n : ℕ) → is_token (if is_upper n then n + 32 else n) ≡ is_token n
unfolding is_upper is_lower is_token is_digit
token_lower n = ground arith

to_lower-canonical_from : (up : Bool) (s : String) → to_lower (canonical_from up s) ≡ to_lower s
unfolding to_lower canonical_from
to_lower-canonical_from up [] = refl
to_lower-canonical_from true (c ∷ s) =
    rw (lower_upper c) (ap (λ t. lower_char c ∷ t) (to_lower-canonical_from (code c == b'-') s))
to_lower-canonical_from false (c ∷ s) =
    rw (lower_lower c) (ap (λ t. lower_char c ∷ t) (to_lower-canonical_from (code c == b'-') s))

canonical_from-to_lower :
    (up : Bool) (s : String) → canonical_from up (to_lower s) ≡ canonical_from up s
unfolding to_lower canonical_from
canonical_from-to_lower up [] = refl
canonical_from-to_lower true (c ∷ s) =
    rw (upper_lower c, code-lower_char c, dash_lower (code c))
      (ap (λ t. upper_char c ∷ t) (canonical_from-to_lower (code c == b'-') s))
canonical_from-to_lower false (c ∷ s) =
    rw (lower_lower c, code-lower_char c, dash_lower (code c))
      (ap (λ t. lower_char c ∷ t) (canonical_from-to_lower (code c == b'-') s))

all_tokens-to_lower : (s : String) → all_tokens (to_lower s) ≡ all_tokens s
unfolding to_lower all_tokens
all_tokens-to_lower [] = refl
all_tokens-to_lower (c ∷ s) =
    rw (code-lower_char c, token_lower (code c), all_tokens-to_lower s) refl

-- A canonical name that equals a header name in lower case is the canonical form of that name.
pub canonical_header_key-same :
    (s name : String)
    → all_tokens name ≡ true
    → to_lower (canonical_header_key s) ≡ to_lower name
    → canonical_header_key s ≡ canonical_header_key name
unfolding canonical_header_key
canonical_header_key-same s name valid h = elim (Bool-cases (all_tokens s)) [
  | inl on ↦
      let lower : to_lower s ≡ to_lower name =
        sym (to_lower-canonical_from true s) ∙ ((rw (on, canonical_header_key) at h)) in
      rw (on, valid)
        (sym (canonical_from-to_lower true s)
          ∙ ap (canonical_from true) lower
          ∙ canonical_from-to_lower true name)
  | inr off ↦
      let lower : to_lower s ≡ to_lower name = rw (off, canonical_header_key) at h in
      let same = sym (all_tokens-to_lower s) ∙ ap all_tokens lower ∙ all_tokens-to_lower name in
      absurd (cc (off, same, valid))
]
