-- ===== src/Crypto/Jwks/Samples.antt =====
-- An endpoint that serves one key, and a parser that asks for it.
use helix_fnd.Prelude.{
  ℕ, suc, ◌<◌, ◌≡◌, refl, ap, inl, ltb, if◌then◌else◌, true, false, [], ◌∷◌, Option, none, some,
  arith,
}
use helix_fnd.Crypto.Jwks.{
  JsonWebKey, PublicKey, responded, Using, Endpoint, Header, HelixClaims, Parsed, parse_failed,
  parsed, Parser,
}
use helix_fnd.Crypto.Jwks.Leeway.{IsStrict}
use helix_fnd.Crypto.Jwks.Tokens.{TokenFormat, IsJwtParser}

abbrev pub k1 : JsonWebKey
k1 = record { kty = "RSA"; use_ = "sig"; kid = "k1"; n = "AQAB"; e = "Aw" }

-- The endpoint counts its requests, and the clock is that count.
abbrev pub one_key : Endpoint ℕ
one_key = record { get = λ w. (suc w, responded 200 (some (k1 ∷ []))); time_now = λ w. w }

abbrev pub empty_client : Using ℕ
empty_client = record {
  client = record { issuer = "helix"; cache = []; last_updated = 0; max_stale_duration = 10 };
  world = 0;
  stale_logs = 0;
}

abbrev pub claims : HelixClaims
claims = record { subject = "ann"; exp = some 5; nbf = none; scope = ""; roles = []; sid = "" }

abbrev pub with_key : Using ℕ × Option PublicKey → Using ℕ × Parsed
with_key (u, none) = (u, parse_failed false)
with_key (u, some key) = (u, parsed claims)

abbrev pub header : Header
header = record { is_rsa = true; kid = some "k1" }

-- Every token has these claims, and a signature that fits.
abbrev pub one_format : TokenFormat
one_format = record {
  header_of = λ token. header;
  claims_of = λ token. claims;
  is_signed = λ key token. true;
}

abbrev pub asks : Parser ℕ
asks token keyfunc issuer u = with_key (keyfunc header u)

with_key-accepts :
    (found : Using ℕ × Option PublicKey) (u' : Using ℕ) (c : HelixClaims)
    → with_key found ≡ (u', parsed c)
    → (key : PublicKey) × (found ≡ (u', some key)) × (c ≡ claims) × ((t : ℕ) × (c.exp ≡ some t))
with_key-accepts (u, none) u' c h = ground (arith, h)
with_key-accepts (u, some key) u' c h =
    (key, ground (arith, h), ground (arith, h), (5, ground (arith, h)))

pub asks-IsJwtParser : IsJwtParser one_format asks
asks-IsJwtParser = record {
  accepts = λ token keyfunc issuer u u' c h.
      let (key, found, own, due) = with_key-accepts (keyfunc header u) u' c h in
      (key, found, refl, own, due);
}

-- A parser that also looks at the clock.
abbrev pub in_time : Using ℕ × Parsed → Using ℕ × Parsed
in_time (u, parse_failed expired) = (u, parse_failed expired)
in_time (u, parsed c) = (u, if ltb u.world 5 then parsed c else parse_failed true)

abbrev pub asks_in_time : Parser ℕ
asks_in_time token keyfunc issuer u = in_time (asks token keyfunc issuer u)

with_key-claims :
    (found : Using ℕ × Option PublicKey) (u' : Using ℕ) (c : HelixClaims)
    → in_time (with_key found) ≡ (u', parsed c)
    → (c ≡ claims) × (u'.world < 5)
with_key-claims (u, none) u' c h = absurd (ground (arith, h))
with_key-claims (u, some key) u' c h = (ground (arith, h), ground (arith, h))

pub asks_in_time-IsStrict : IsStrict one_key asks_in_time
asks_in_time-IsStrict = record {
  in_time = λ token keyfunc issuer u u' c h.
      let (same, fresh) = with_key-claims (keyfunc header u) u' c h in
      ((5, ap (λ c. c.exp) same, fresh), inl (ap (λ c. c.nbf) same));
}
