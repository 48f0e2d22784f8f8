-- ===== src/Crypto/Tests.antt =====
-- A hasher over a bcrypt that takes every password.
use text.Mathlib.Text.{◌==◌ as str_eq}
use text.Mathlib.TextPositions.{eq_refl}
use helix_fnd.Prelude.{ℕ, ◌≡◌, refl, pos, Bool, true, String, some}
use helix_fnd.Crypto.Hash.{
  Bcrypt, IsBcrypt, new_hasher, hash_password, check_password, check_password-hash_password,
}

abbrev plain_text : Bcrypt ℕ
plain_text = record {
  generate = λ password cost w. (w, some password);
  compare = λ hash password. str_eq hash password;
}

abbrev all_fit : String → Bool
all_fit password = true

plain_text-IsBcrypt : IsBcrypt plain_text all_fit
plain_text-IsBcrypt = record {
  generates = λ password cost w small low high. (w, password, refl, eq_refl password);
}

check_password_example :
    (w' : ℕ) × (hash : String) × (hash_password plain_text (new_hasher (pos 99)) "secret" 0
      ≡ (w', some hash))
    × (check_password plain_text hash "secret" ≡ true)
check_password_example =
    check_password-hash_password plain_text all_fit plain_text-IsBcrypt (pos 99) "secret" 0 refl
      refl

default_cost : new_hasher (pos 99) ≡ pos 12
unfolding new_hasher
default_cost = refl
