-- ===== src/Database.antt =====
-- database/errors.go. An error is its text, with what `errors.Is` and `errors.As` find in its chain.
mod Tests
pub mod Codes
pub mod Postgres
use Prim.Native.String.{◌++◌ as str_append}
use text.Mathlib.Text.{◌==◌ as str_eq}
use helix_fnd.Prelude.{Bool, true, false, String, Option, none, some, if◌then◌else◌}
use helix_fnd.Response.{
  err_system, err_validation, err_gateway_timeout, err_not_found, err_already_exists, err_conflict,
  err_version_mismatch,
}

pub record PgError : Type 0 where
  pub code : String
  pub detail : String
  pub message : String

pub record DbError : Type 0 where
  pub text : String
  pub is_no_rows_in_chain : Bool
  pub pg : Option PgError

-- The error returned: its text, and the error that `%w` wraps.
pub record MappedError : Type 0 where
  pub text : String
  pub wrapped : Option DbError

abbrev pub coded : String → String → String
coded code rest = str_append code (str_append ": " rest)

abbrev wrap : String → DbError → MappedError
wrap code e = record { text = coded code e.text; wrapped = some e }

abbrev plain : String → String → MappedError
plain code rest = record { text = coded code rest; wrapped = none }

-- The codes that the `switch` tells apart.
pub data SqlState : Type 0 where
  unique_violation foreign_key_violation check_violation : SqlState
  serialization_failure query_canceled unlisted : SqlState

unfoldable pub sql_state : String → SqlState
sql_state code =
    if str_eq code "23505"
    then unique_violation
    else if str_eq code "23503"
    then foreign_key_violation
    else if str_eq code "23514"
    then check_violation
    else if str_eq code "40001"
    then serialization_failure
    else if str_eq code "57014"
    then query_canceled
    else unlisted

from_pg : DbError → PgError → SqlState → MappedError
from_pg e p unique_violation = plain err_already_exists p.detail
from_pg e p foreign_key_violation = plain err_conflict "referenced record not found"
from_pg e p check_violation = plain err_validation p.message
from_pg e p serialization_failure = plain err_version_mismatch "retry transaction"
from_pg e p query_canceled = plain err_gateway_timeout "query timeout"
from_pg e p unlisted = wrap err_system e

from_driver : DbError → Option PgError → MappedError
unfolding from_pg
from_driver e none = wrap err_system e
from_driver e (some p) = from_pg e p (sql_state p.code)

unfoldable pub map_error : Option DbError → Option MappedError
unfolding from_driver
map_error none = none
map_error (some e) =
    some (if e.is_no_rows_in_chain then wrap err_not_found e else from_driver e e.pg)

-- `errors.Is(err, pgx.ErrNoRows)`.
abbrev pub is_no_rows : Option DbError → Bool
is_no_rows none = false
is_no_rows (some e) = e.is_no_rows_in_chain
