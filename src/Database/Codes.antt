-- ===== src/Database/Codes.antt =====
-- The statuses that database errors end up with.
use text.Mathlib.Text.{◌==◌ as str_eq}
use helix_fnd.Prelude.{
  ℕ, ◌≡◌, refl, inl, inr, Bool, true, false, String, List, [], ◌∷◌, Option, none, some, Bool-cases,
  if◌then◌else◌,
}
use helix_fnd.Response.{map_status}
use helix_fnd.Database.{
  DbError, PgError, MappedError, sql_state, coded, map_error, from_pg, from_driver, wrap,
}

-- What a SQLSTATE calls for: the error code and its HTTP status.
abbrev pub sql_states : List (String × (String × ℕ))
sql_states =
    ("23505", ("RES_ALREADY_EXISTS", 409))
    ∷ ("23503", ("RES_CONFLICT", 409))
    ∷ ("23514", ("VAL_INVALID_INPUT", 400))
    ∷ ("40001", ("RES_VERSION_MISMATCH", 409))
    ∷ ("57014", ("SYS_GATEWAY_TIMEOUT", 503))
    ∷ []

abbrev pub listed_or : String × ℕ → List (String × (String × ℕ)) → String → String × ℕ
listed_or other [] state = other
listed_or other ((s, c) ∷ states) state =
    let later = listed_or other states state in if str_eq state s then c else later

abbrev pub called_for : Bool → Option PgError → String × ℕ
called_for true o = ("RES_NOT_FOUND", 404)
called_for false none = ("SYS_INTERNAL_ERROR", 500)
called_for false (some p) = listed_or ("SYS_INTERNAL_ERROR", 500) sql_states p.code

-- The text starts with the code and a colon, and `MapStatus` gives the code the status.
abbrev pub HasStatus : MappedError → String × ℕ → Type 0
HasStatus m (code, status) =
    (rest : String) × (m.text ≡ coded code rest) × (map_status code ≡ status)

from_pg-HasStatus :
    (e : DbError) (p : PgError)
    → HasStatus
        (from_pg e p (sql_state p.code))
        (listed_or ("SYS_INTERNAL_ERROR", 500) sql_states p.code)
unfolding from_pg sql_state map_status
from_pg-HasStatus e p = elim (Bool-cases (str_eq p.code "23505")) [
  | inl y ↦ rw y (p.detail, refl, refl)
  | inr n ↦ elim (Bool-cases (str_eq p.code "23503")) [
    | inl y ↦ rw (n, y) ("referenced record not found", refl, refl)
    | inr n' ↦ elim (Bool-cases (str_eq p.code "23514")) [
      | inl y ↦ rw (n, n', y) (p.message, refl, refl)
      | inr n'' ↦ elim (Bool-cases (str_eq p.code "40001")) [
        | inl y ↦ rw (n, n', n'', y) ("retry transaction", refl, refl)
        | inr n₃ ↦ elim (Bool-cases (str_eq p.code "57014")) [
          | inl y ↦ rw (n, n', n'', n₃, y) ("query timeout", refl, refl)
          | inr n₄ ↦ rw (n, n', n'', n₃, n₄) (e.text, refl, refl)
        ]
      ]
    ]
  ]
]

chosen-HasStatus :
    (e : DbError) (no_rows : Bool) (o : Option PgError)
    → HasStatus (if no_rows then wrap "RES_NOT_FOUND" e else from_driver e o) (called_for no_rows o)
unfolding from_driver map_status
chosen-HasStatus e true o = (e.text, refl, refl)
chosen-HasStatus e false none = (e.text, refl, refl)
chosen-HasStatus e false (some p) = from_pg-HasStatus e p

-- Every error of the driver is mapped to one whose text starts with the error code that it calls for and
-- a colon, and `MapStatus` gives that code its status: RES_NOT_FOUND and 404 for no rows; for the
-- SQLSTATEs 23505, 23503, 23514, 40001 and 57014 RES_ALREADY_EXISTS and 409, RES_CONFLICT and 409,
-- VAL_INVALID_INPUT and 400, RES_VERSION_MISMATCH and 409, SYS_GATEWAY_TIMEOUT and 503; and
-- SYS_INTERNAL_ERROR and 500 for all others. And nil stays nil.
pub map_error-HasStatus :
    (e : DbError)
    → (map_error none ≡ none)
      × ((m : MappedError) × (map_error (some e) ≡ some m)
          × HasStatus m (called_for e.is_no_rows_in_chain e.pg))
unfolding map_error
map_error-HasStatus e = (
  refl,
  (
    if e.is_no_rows_in_chain then wrap "RES_NOT_FOUND" e else from_driver e e.pg,
    refl,
    chosen-HasStatus e e.is_no_rows_in_chain e.pg,
  ),
)
