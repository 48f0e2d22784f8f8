-- ===== src/Crypto/Hash.antt =====
-- crypto/hash.go. The package bcrypt is a parameter.
use text.Mathlib.Text.{◌==◌ as str_eq}
use helix_fnd.Prelude.{
  ◌≡◌, ℤ, pos, negsuc, ◌≤ℤ◌, ltb_ℤ, Bool, true, false, ◌||◌, String, Option, none, some, arith,
  if◌then◌else◌,
}

-- The hash or an error, and whether the hash is of the password; randomness is part of `W`.
pub record Bcrypt (W : Type 0) : Type 0 where
  pub generate : String → ℤ → W → W × Option String
  pub compare : String → String → Bool

abbrev pub min_cost : ℤ
min_cost = pos 4

abbrev pub max_cost : ℤ
max_cost = pos 31

-- `NewHasher`: the cost that it keeps.
unfoldable pub new_hasher : ℤ → ℤ
new_hasher cost = if ltb_ℤ cost min_cost || ltb_ℤ max_cost cost then pos 12 else cost

module _ {W : Type 0} (bcrypt : Bcrypt W) where
  unfoldable pub hash_password : ℤ → String → W → W × Option String
  hash_password cost password w =
      let made = bcrypt.generate password cost w in if str_eq password "" then (w, none) else made

  abbrev pub check_password : String → String → Bool
  check_password hash password = bcrypt.compare hash password

-- What bcrypt documents: it refuses only passwords of more than 72 bytes and costs out of range, and a
-- hash that it generates compares as equal to its password.
pub record IsBcrypt {W : Type 0} (bcrypt : Bcrypt W) (fits : String → Bool) : Type 0 where
  pub generates :
      (password : String) (cost : ℤ) (w : W)
      → fits password ≡ true
      → min_cost ≤ℤ cost
      → cost ≤ℤ max_cost
      → (w' : W) × (hash : String) × (bcrypt.generate password cost w ≡ (w', some hash))
        × (bcrypt.compare hash password ≡ true)

new_hasher_range : (cost : ℤ) → (min_cost ≤ℤ new_hasher cost) × (new_hasher cost ≤ℤ max_cost)
unfolding new_hasher
new_hasher_range (pos n) = ground arith
new_hasher_range (negsuc n) = ground arith

-- A hasher made with any configured cost hashes each password that is not empty and that fits bcrypt,
-- and the hash checks against the password.
pub check_password-hash_password :
    {W : Type 0} (bcrypt : Bcrypt W) (fits : String → Bool) (lib : IsBcrypt bcrypt fits) (cost : ℤ)
    (password : String) (w : W)
    → str_eq password "" ≡ false
    → fits password ≡ true
    → (w' : W) × (hash : String) × (hash_password bcrypt (new_hasher cost) password w
        ≡ (w', some hash))
      × (check_password bcrypt hash password ≡ true)
unfolding hash_password
check_password-hash_password bcrypt fits lib cost password w given small =
    let range = new_hasher_range cost in
    let (w', hash, made, checks) =
      lib.generates password (new_hasher cost) w small range.0 range.1 in
    (w', hash, rw given made, checks)
