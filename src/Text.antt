-- ===== src/Text.antt =====
-- What the code uses of Go's packages strings, strconv and net/textproto, on native texts. Case
-- mapping and white space are those of ASCII.
pub mod Headers
pub mod Laws
use Prim.Native.Nat.{compare, Ordering}
use Prim.Native.Char.{Char, char, code, nul, IsScalar}
use Prim.Native.String
use Prim.Native.String.{String, [], ◌∷◌}
use mathlib.Core.Logic.{dite}
use helix_fnd.Prelude.{
  ℕ, zero, suc, ◌+◌, ◌-◌, ◌/◌, ◌%◌, ◌<◌, ◌≡◌, refl, ℤ, pos, negsuc, Bool, true, false, not, ◌&&◌,
  ◌||◌, List, arith, ltb, leb, ◌==◌, if◌then◌else◌,
}
use native.Mathlib.Decide.{dec_lt}

compare-surrogates : (n : ℕ) → n < 128 → compare n 55296 ≡ Ordering.lt
compare-surrogates n h = ground arith

pub IsScalar-lt : (n : ℕ) → n < 128 → IsScalar n
IsScalar-lt n h = rw (compare-surrogates n h) tt

-- The ASCII character of a number.
unfoldable pub ascii : ℕ → Char
unfolding dec_lt
ascii n = dite (dec_lt n 128) (λ h. char n (IsScalar-lt n h)) (λ _. nul)

is_upper : ℕ → Bool
is_upper c = leb b'A' c && leb c b'Z'

is_lower : ℕ → Bool
is_lower c = leb b'a' c && leb c b'z'

unfoldable pub lower_char : Char → Char
unfolding is_upper ascii
lower_char c = if is_upper (code c) then ascii (code c + 32) else c

unfoldable pub upper_char : Char → Char
unfolding is_lower ascii
upper_char c = if is_lower (code c) then ascii (code c - 32) else c

-- `strings.ToLower`.
unfoldable pub to_lower : String → String
unfolding lower_char
to_lower [] = []
to_lower (c ∷ s) = lower_char c ∷ to_lower s

is_digit : ℕ → Bool
is_digit c = leb b'0' c && leb c b'9'

-- One of !#$%&'*+-.^_`|~, a letter or a digit: what a header's name may hold.
is_token : ℕ → Bool
unfolding is_upper is_lower is_digit
is_token c =
    is_upper c
    || is_lower c
    || is_digit c
    || c == 33
    || (leb 35 c && leb c 39)
    || c == 42
    || c == 43
    || c == 45
    || c == 46
    || (leb 94 c && leb c 96)
    || c == 124
    || c == 126

unfoldable pub all_tokens : String → Bool
unfolding is_token
all_tokens [] = true
all_tokens (c ∷ s) = is_token (code c) && all_tokens s

canonical_from : Bool → String → String
unfolding lower_char upper_char
canonical_from up [] = []
canonical_from up (c ∷ s) =
    (if up then upper_char c else lower_char c) ∷ canonical_from (code c == b'-') s

-- `http.CanonicalHeaderKey`.
unfoldable pub canonical_header_key : String → String
unfolding all_tokens canonical_from
canonical_header_key s = if all_tokens s then canonical_from true s else s

-- `strings.Split` by one character.
unfoldable pub split_from : ℕ → String → String → List String
split_from sep piece [] = List.◌∷◌ piece List.[]
split_from sep piece (c ∷ s) =
    let longer = split_from sep (String.◌++◌ piece (c ∷ [])) s in
    let closed = List.◌∷◌ piece (split_from sep [] s) in if code c == sep then closed else longer

unfoldable pub split : ℕ → String → List String
unfolding split_from
split sep s = split_from sep [] s

-- `strings.TrimSpace`.
is_space : ℕ → Bool
is_space c = c == 32 || (leb 9 c && leb c 13)

trim_left : String → String
unfolding is_space
trim_left [] = []
trim_left (c ∷ s) = if is_space (code c) then trim_left s else c ∷ s

is_empty : String → Bool
is_empty [] = true
is_empty (c ∷ s) = false

trim_right : String → String
unfolding is_space is_empty
trim_right [] = []
trim_right (c ∷ s) =
    let rest = trim_right s in if is_space (code c) && is_empty rest then [] else c ∷ rest

unfoldable pub trim_space : String → String
unfolding trim_left trim_right
trim_space s = trim_right (trim_left s)

-- The decimal digits of a number, on fuel above it.
decimal : ℕ → ℕ → String
unfolding ascii
decimal zero n = []
decimal (suc fuel) n =
    let more = decimal fuel (n / 10) in
    let last = ascii (b'0' + n % 10) ∷ [] in if ltb n 10 then last else String.◌++◌ more last

-- `strconv.Itoa`.
unfoldable pub itoa : ℤ → String
unfolding decimal
itoa (pos n) = decimal (suc n) n
itoa (negsuc n) = String.◌++◌ "-" (decimal (suc (suc n)) (suc n))

tests :
    (canonical_header_key "X-RateLimit-Limit" ≡ "X-Ratelimit-Limit")
    × (to_lower "API_Key" ≡ "api_key")
    × (trim_space " 10.0.0.1 " ≡ "10.0.0.1")
    × (itoa (pos 4096) ≡ "4096")
    × (split b',' "a,,b" ≡ List.◌∷◌ "a" (List.◌∷◌ "" (List.◌∷◌ "b" List.[])))
unfolding canonical_header_key to_lower trim_space itoa split
tests = (refl, refl, refl, refl, refl)
