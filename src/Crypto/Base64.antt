-- ===== src/Crypto/Base64.antt =====
-- `base64.RawURLEncoding.DecodeString` of Go's encoding/base64: no padding, line ends are skipped.
use Prim.Native.Char.{code}
use helix_fnd.Prelude.{
  ℕ, ◌+◌, ◌-◌, ◌*◌, ◌/◌, ◌%◌, ◌≡◌, refl, ◌&&◌, ◌||◌, String, List, [], ◌∷◌, Option, none, some, leb,
  ◌==◌, if◌then◌else◌,
}

sextet : ℕ → Option ℕ
sextet c =
    if leb b'A' c && leb c b'Z'
    then some (c - b'A')
    else if leb b'a' c && leb c b'z'
    then some (c - b'a' + 26)
    else if leb b'0' c && leb c b'9'
    then some (c - b'0' + 52)
    else if c == b'-'
    then some 62
    else if c == b'_'
    then some 63
    else none

abbrev put : Option ℕ → Option (List ℕ) → Option (List ℕ)
put (some v) (some vs) = some (v ∷ vs)
put _ _ = none

sextets : String → Option (List ℕ)
unfolding sextet
sextets String.[] = some []
sextets (String.◌∷◌ c s) =
    let rest = sextets s in
    if code c == 10 || code c == 13 then rest else put (sextet (code c)) rest

-- Four of six bits are three of eight; two or three are one or two, and their last bits are dropped.
bytes_of : List ℕ → Option (List ℕ)
bytes_of [] = some []
bytes_of (a ∷ []) = none
bytes_of (a ∷ b ∷ []) = some ((a * 4 + b / 16) ∷ [])
bytes_of (a ∷ b ∷ c ∷ []) = some ((a * 4 + b / 16) ∷ (b % 16 * 16 + c / 4) ∷ [])
bytes_of (a ∷ b ∷ c ∷ d ∷ rest) =
    put (some (a * 4 + b / 16))
      (put (some (b % 16 * 16 + c / 4)) (put (some (c % 4 * 64 + d)) (bytes_of rest)))

abbrev bytes_if : Option (List ℕ) → Option (List ℕ)
unfolding bytes_of
bytes_if none = none
bytes_if (some vs) = bytes_of vs

unfoldable pub decode_string : String → Option (List ℕ)
unfolding sextets bytes_of
decode_string s = bytes_if (sextets s)

tests :
    (decode_string "AQAB" ≡ some (1 ∷ 0 ∷ 1 ∷ []))
    × (decode_string "Aw" ≡ some (3 ∷ []))
    × (decode_string "A" ≡ none)
    × (decode_string "AQ==" ≡ none)
unfolding decode_string
tests = (refl, refl, refl, refl)
