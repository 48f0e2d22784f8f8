-- ===== src/Context.antt =====
-- pkg/contextx/context.go: the typed keys of a `context.Context` and their accessors. A context is
-- the list of its `WithValue` layers, the latest first; `none` is a nil `context.Context`.
pub mod Accessors
mod Tests
use text.Mathlib.Text.{◌==◌ as str_eq}
use helix_fnd.Prelude.{ℤ, pos, String, List, [], ◌∷◌, Option, none, some, if◌then◌else◌}

-- What the code stores or finds under a key: `other` is a value of any further type, by its `%v` text.
pub data Value : Type 0 where
  str : String → Value
  int : ℤ → Value
  strs : List String → Value
  other : String → Value  -- its text under `%v`

abbrev pub Context : Type 0
Context = List (String × Value)

-- `ctx.Value(key)`: the innermost layer of that key.
unfoldable pub value : Context → String → Option Value
value [] key = none
value ((k, v) ∷ layers) key = if str_eq k key then some v else value layers key

abbrev pub with_value : Context → String → Value → Context
with_value ctx key v = (key, v) ∷ ctx

-- The type assertion `.(string)` with its fallback.
abbrev string_or : String → Option Value → String
string_or fallback (some (str s)) = s
string_or fallback _ = fallback

abbrev int_or : ℤ → Option Value → ℤ
int_or fallback (some (int n)) = n
int_or fallback _ = fallback

abbrev strings_or : Option Value → List String
strings_or (some (strs l)) = l
strings_or _ = []

unfoldable pub get_string : Option Context → String → String → String
unfolding value
get_string none key fallback = fallback
get_string (some ctx) key fallback = string_or fallback (value ctx key)

unfoldable pub get_int : Option Context → String → ℤ → ℤ
unfolding value
get_int none key fallback = fallback
get_int (some ctx) key fallback = int_or fallback (value ctx key)

unfoldable pub get_string_slice : Option Context → String → List String
unfolding value
get_string_slice none key = []
get_string_slice (some ctx) key = strings_or (value ctx key)

abbrev pub auth_principal_id_key : String
auth_principal_id_key = "helix.auth_principal_id"

abbrev pub auth_session_id_key : String
auth_session_id_key = "helix.auth_session_id"

abbrev pub auth_decision_id_key : String
auth_decision_id_key = "helix.auth_decision_id"

abbrev pub trace_id_key : String
trace_id_key = "helix.trace_id"

abbrev pub parent_trace_id_key : String
parent_trace_id_key = "helix.parent_trace_id"

abbrev pub span_id_key : String
span_id_key = "helix.span_id"

abbrev pub request_id_key : String
request_id_key = "helix.request_id"

abbrev pub source_service_key : String
source_service_key = "helix.source_service"

abbrev pub entry_point_key : String
entry_point_key = "helix.entry_point"

abbrev pub idempotency_key : String
idempotency_key = "helix.idempotency_key"

abbrev pub retry_attempt_key : String
retry_attempt_key = "helix.retry_attempt"

abbrev pub audit_reason_key : String
audit_reason_key = "helix.audit_reason"

abbrev pub change_ticket_key : String
change_ticket_key = "helix.change_ticket"
