-- ===== src/Crypto/Jwks/Tests.antt =====
-- The client over the samples.
use helix_fnd.Prelude.{
  ℕ, ◌≡◌, ◌≢◌, refl, ◌⊎◌, pos, true, false, String, List, [], ◌∷◌, some, at_key, assign, arith,
}
use helix_fnd.Crypto.Base64.{decode_string}
use helix_fnd.Crypto.Jwks.{
  JsonWebKey, PublicKey, to_rsa_public_key, set_bytes, exponent_bits, responded, Using, refreshed,
  refresh_failed, fetch_keys, new_cache, keyfunc, Header, HelixClaims, TokenError, rejected,
  claimed, verify_token, noticed, expired_token,
}
use helix_fnd.Crypto.Jwks.Leeway.{as_parsed, verify_token-as_parsed}
use helix_fnd.Crypto.Jwks.Samples.{
  k1, one_key, empty_client, one_format, header, claims, asks, asks-IsJwtParser, asks_in_time,
  asks_in_time-IsStrict,
}
use helix_fnd.Crypto.Jwks.Keys.{to_rsa_public_key-exact, SourcedAt, fetch_keys-cases}
use helix_fnd.Crypto.Jwks.Lifecycle.{
  new_jwks_caching_client, tick, ticks, asks_for, rest, step, IsServing, made-IsServing,
}
use text.Mathlib.Text.{◌==◌ as str_eq}
use helix_fnd.Crypto.Jwks.Tokens.{IsCached, IsInTime, verify_token-cases}

to_rsa_public_key_example :
    to_rsa_public_key k1
    ≡ some
        (record { modulus = set_bytes 0 (1 ∷ 0 ∷ 1 ∷ []); exponent = pos (set_bytes 0 (3 ∷ [])) })
unfolding decode_string set_bytes
to_rsa_public_key_example =
    to_rsa_public_key-exact k1 (1 ∷ 0 ∷ 1 ∷ []) (3 ∷ []) refl refl (omega arith)

fetch_keys_example :
    ((err : String) × (fetch_keys one_key empty_client
        ≡ refresh_failed err (record empty_client { world = 1 })))
    ⊎ ((keys : List JsonWebKey) × (u' : Using ℕ) × (responded 200 (some (k1 ∷ []))
          ≡ responded 200 (some keys))
        × (fetch_keys one_key empty_client ≡ refreshed u')
        × (u'.client.cache ≢ [])
        × (u'.client.last_updated ≡ 1)
        × SourcedAt keys u'.client.cache "k1")
fetch_keys_example = fetch_keys-cases one_key empty_client "k1"

verify_token_example :
    ((u' : Using ℕ) × (e : TokenError) × (verify_token one_key asks "abc" empty_client
        ≡ (u', rejected e)))
    ⊎ ((u' : Using ℕ) × (c : HelixClaims) × (key : PublicKey) × (verify_token one_key asks "abc"
            empty_client
          ≡ (u', claimed c))
        × IsCached header u' key
        × (true ≡ true)
        × (c ≡ claims)
        × IsInTime one_key u'.world c)
verify_token_example =
    verify_token-cases one_key one_format asks asks-IsJwtParser "abc" empty_client

accepted : (verify_token one_key asks "abc" empty_client).1 ≡ claimed claims
unfolding verify_token keyfunc fetch_keys new_cache to_rsa_public_key at_key decode_string assign
accepted = refl

-- A client that is made, and then ticks and is asked for a key that the endpoint does not have.
abbrev serving : Using ℕ
serving = record {
  client = record {
    issuer = "helix";
    cache = ("k1", record { modulus = 65537; exponent = pos 3 }) ∷ [];
    last_updated = 1;
    max_stale_duration = 86_400_000_000_000;
  };
  world = 1;
  stale_logs = 0;
}

abbrev unknown_key : Header
unknown_key = record { is_rsa = true; kid = some "k9" }

abbrev afterwards : Using ℕ
afterwards = (keyfunc one_key unknown_key (tick one_key serving)).0

made-IsServing_example :
    (str_eq "https://id/keys" "" ≡ false)
    × (str_eq "helix" "" ≡ false)
    × IsServing one_key "helix" afterwards
unfolding new_jwks_caching_client fetch_keys new_cache to_rsa_public_key at_key decode_string assign
    set_bytes exponent_bits
made-IsServing_example =
    made-IsServing one_key "https://id/keys" "helix" (pos 0) 0 serving afterwards refl (
      step serving (tick one_key serving) afterwards (ticks serving) (
        step (tick one_key serving) afterwards afterwards
          (asks_for (tick one_key serving) unknown_key) (rest afterwards)))

-- A client whose clock has reached the expiry: within the minute of leeway, and refused.
abbrev late_client : Using ℕ
late_client = record empty_client { world = 5 }

verify_token-as_parsed_example :
    verify_token one_key asks_in_time "abc" late_client
    ≡ as_parsed (asks_in_time "abc" (keyfunc one_key) "helix" (noticed one_key late_client))
verify_token-as_parsed_example =
    verify_token-as_parsed one_key asks_in_time asks_in_time-IsStrict "abc" late_client

no_leeway : (verify_token one_key asks_in_time "abc" late_client).1 ≡ rejected expired_token
unfolding verify_token keyfunc fetch_keys new_cache to_rsa_public_key at_key decode_string assign
no_leeway = refl
