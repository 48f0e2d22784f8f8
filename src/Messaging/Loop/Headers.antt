-- ===== src/Messaging/Loop/Headers.antt =====
-- What the carrier of a record holds.
use text.Mathlib.Text.{◌==◌ as str_eq}
use text.Mathlib.TextEquality.{eq_iff}
use helix_fnd.Prelude.{
  ◌≡◌, refl, ap, ◌∙◌, inl, inr, String, List, [], ◌∷◌, Option, none, some, at_key, assign, foldl,
  at_key-assign_self, at_key-assign_ne, Bool-cases, if◌then◌else◌,
}
use helix_fnd.Messaging.Env.{Bytes, KafkaRecord}
use helix_fnd.Messaging.Loop.{carrier}

-- The last value under the key, or else the one found before.
abbrev pub last_or : List (String × Bytes) → String → Option Bytes → Option Bytes
last_or [] key found = found
last_or ((k, v) ∷ headers) key found = last_or headers key (if str_eq k key then some v else found)

-- For every record a map that holds the last value of each of its headers, and nothing else.
abbrev pub HoldsHeaders : (KafkaRecord → List (String × Bytes)) → Type 0
HoldsHeaders map_of =
    (rec : KafkaRecord) (key : String) → at_key (map_of rec) key ≡ last_or rec.headers key none

at_key-assign :
    (m : List (String × Bytes)) (k key : String) (v : Bytes)
    → at_key (assign m k v) key ≡ (if str_eq k key then some v else at_key m key)
at_key-assign m k key v = elim (Bool-cases (str_eq k key)) [
  | inl same ↦ rw (same, (eq_iff k key).0 same) (at_key-assign_self m key v)
  | inr other ↦ rw other (at_key-assign_ne m k key v other)
]

at_key-foldl :
    (headers m : List (String × Bytes)) (key : String)
    → at_key (foldl (λ m h. assign m h.0 h.1) m headers) key ≡ last_or headers key (at_key m key)
at_key-foldl [] m key = refl
at_key-foldl ((k, v) ∷ headers) m key =
    at_key-foldl headers (assign m k v) key ∙ ap (last_or headers key) (at_key-assign m k key v)

pub carrier-HoldsHeaders : HoldsHeaders (λ rec. carrier rec.headers)
unfolding carrier at_key
carrier-HoldsHeaders rec key = at_key-foldl rec.headers [] key
