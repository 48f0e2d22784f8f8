-- ===== src/Context/Accessors.antt =====
-- The accessors of pkg/contextx/context.go, and the table of their keys and fallbacks.
use helix_fnd.Prelude.{ℤ, pos, ◌≡◌, refl, Bool, true, false, String, Option, some, if◌then◌else◌}
use helix_fnd.Context.{
  Context, str, int, with_value, get_string, get_int, retry_attempt_key, trace_id_key,
  parent_trace_id_key, span_id_key, request_id_key, source_service_key, entry_point_key,
  auth_principal_id_key, auth_session_id_key, auth_decision_id_key, idempotency_key,
  audit_reason_key, change_ticket_key,
}

unfoldable pub get_trace_id : Option Context → String
unfolding get_string
get_trace_id ctx = get_string ctx trace_id_key "untriaged"

unfoldable pub with_trace_id : Context → String → Context
with_trace_id ctx v = with_value ctx trace_id_key (str v)

unfoldable pub get_parent_trace_id : Option Context → String
unfolding get_string
get_parent_trace_id ctx = get_string ctx parent_trace_id_key ""

unfoldable pub with_parent_trace_id : Context → String → Context
with_parent_trace_id ctx v = with_value ctx parent_trace_id_key (str v)

unfoldable pub get_span_id : Option Context → String
unfolding get_string
get_span_id ctx = get_string ctx span_id_key ""

unfoldable pub with_span_id : Context → String → Context
with_span_id ctx v = with_value ctx span_id_key (str v)

unfoldable pub get_request_id : Option Context → String
unfolding get_string
get_request_id ctx = get_string ctx request_id_key ""

unfoldable pub with_request_id : Context → String → Context
with_request_id ctx v = with_value ctx request_id_key (str v)

unfoldable pub get_source_service : Option Context → String
unfolding get_string
get_source_service ctx = get_string ctx source_service_key "unknown"

unfoldable pub with_source_service : Context → String → Context
with_source_service ctx v = with_value ctx source_service_key (str v)

unfoldable pub get_entry_point : Option Context → String
unfolding get_string
get_entry_point ctx = get_string ctx entry_point_key "unknown"

unfoldable pub with_entry_point : Context → String → Context
with_entry_point ctx v = with_value ctx entry_point_key (str v)

unfoldable pub get_auth_principal_id : Option Context → String
unfolding get_string
get_auth_principal_id ctx = get_string ctx auth_principal_id_key ""

unfoldable pub with_auth_principal_id : Context → String → Context
with_auth_principal_id ctx v = with_value ctx auth_principal_id_key (str v)

unfoldable pub get_auth_session_id : Option Context → String
unfolding get_string
get_auth_session_id ctx = get_string ctx auth_session_id_key ""

unfoldable pub with_auth_session_id : Context → String → Context
with_auth_session_id ctx v = with_value ctx auth_session_id_key (str v)

unfoldable pub get_auth_decision_id : Option Context → String
unfolding get_string
get_auth_decision_id ctx = get_string ctx auth_decision_id_key ""

unfoldable pub with_auth_decision_id : Context → String → Context
with_auth_decision_id ctx v = with_value ctx auth_decision_id_key (str v)

unfoldable pub get_idempotency_key : Option Context → String
unfolding get_string
get_idempotency_key ctx = get_string ctx idempotency_key ""

unfoldable pub with_idempotency_key : Context → String → Context
with_idempotency_key ctx v = with_value ctx idempotency_key (str v)

unfoldable pub get_audit_reason : Option Context → String
unfolding get_string
get_audit_reason ctx = get_string ctx audit_reason_key ""

unfoldable pub with_audit_reason : Context → String → Context
with_audit_reason ctx v = with_value ctx audit_reason_key (str v)

unfoldable pub get_change_ticket : Option Context → String
unfolding get_string
get_change_ticket ctx = get_string ctx change_ticket_key ""

unfoldable pub with_change_ticket : Context → String → Context
with_change_ticket ctx v = with_value ctx change_ticket_key (str v)

unfoldable pub get_retry_attempt : Option Context → ℤ
unfolding get_int
get_retry_attempt ctx = get_int ctx retry_attempt_key (pos 0)

unfoldable pub with_retry_attempt : Context → ℤ → Context
with_retry_attempt ctx v = with_value ctx retry_attempt_key (int v)

-- The text attributes, one for each pair of accessors.
pub data Attribute : Type 0 where
  trace_id : Attribute
  parent_trace_id : Attribute
  span_id : Attribute
  request_id : Attribute
  source_service : Attribute
  entry_point : Attribute
  auth_principal_id : Attribute
  auth_session_id : Attribute
  auth_decision_id : Attribute
  idempotency : Attribute
  audit_reason : Attribute
  change_ticket : Attribute

pub get : Attribute → Option Context → String
unfolding get_trace_id get_parent_trace_id get_span_id get_request_id get_source_service
    get_entry_point get_auth_principal_id get_auth_session_id get_auth_decision_id
    get_idempotency_key get_audit_reason get_change_ticket
get trace_id = get_trace_id
get parent_trace_id = get_parent_trace_id
get span_id = get_span_id
get request_id = get_request_id
get source_service = get_source_service
get entry_point = get_entry_point
get auth_principal_id = get_auth_principal_id
get auth_session_id = get_auth_session_id
get auth_decision_id = get_auth_decision_id
get idempotency = get_idempotency_key
get audit_reason = get_audit_reason
get change_ticket = get_change_ticket

pub with : Attribute → Context → String → Context
unfolding with_trace_id with_parent_trace_id with_span_id with_request_id with_source_service
    with_entry_point with_auth_principal_id with_auth_session_id with_auth_decision_id
    with_idempotency_key with_audit_reason with_change_ticket
with trace_id = with_trace_id
with parent_trace_id = with_parent_trace_id
with span_id = with_span_id
with request_id = with_request_id
with source_service = with_source_service
with entry_point = with_entry_point
with auth_principal_id = with_auth_principal_id
with auth_session_id = with_auth_session_id
with auth_decision_id = with_auth_decision_id
with idempotency = with_idempotency_key
with audit_reason = with_audit_reason
with change_ticket = with_change_ticket

abbrev pub same : Attribute → Attribute → Bool
same trace_id trace_id = true
same parent_trace_id parent_trace_id = true
same span_id span_id = true
same request_id request_id = true
same source_service source_service = true
same entry_point entry_point = true
same auth_principal_id auth_principal_id = true
same auth_session_id auth_session_id = true
same auth_decision_id auth_decision_id = true
same idempotency idempotency = true
same audit_reason audit_reason = true
same change_ticket change_ticket = true
same _ _ = false

-- What an accessor reads after another wrote: the value if they are of one attribute, and otherwise
-- what it read before.
pub get-with :
    (a b : Attribute) (ctx : Context) (v : String)
    → get b (some (with a ctx v)) ≡ (if same a b then v else get b (some ctx))
unfolding get with
get-with trace_id trace_id ctx v = refl
get-with trace_id _ ctx v = refl
get-with parent_trace_id trace_id ctx v = refl
get-with parent_trace_id _ ctx v = refl
get-with span_id trace_id ctx v = refl
get-with span_id _ ctx v = refl
get-with request_id trace_id ctx v = refl
get-with request_id _ ctx v = refl
get-with source_service trace_id ctx v = refl
get-with source_service _ ctx v = refl
get-with entry_point trace_id ctx v = refl
get-with entry_point _ ctx v = refl
get-with auth_principal_id trace_id ctx v = refl
get-with auth_principal_id _ ctx v = refl
get-with auth_session_id trace_id ctx v = refl
get-with auth_session_id _ ctx v = refl
get-with auth_decision_id trace_id ctx v = refl
get-with auth_decision_id _ ctx v = refl
get-with idempotency trace_id ctx v = refl
get-with idempotency _ ctx v = refl
get-with audit_reason trace_id ctx v = refl
get-with audit_reason _ ctx v = refl
get-with change_ticket trace_id ctx v = refl
get-with change_ticket _ ctx v = refl

-- The retry attempt is read back as it was written, and no text attribute is affected by it.
pub get_retry_attempt-with :
    (a : Attribute) (ctx : Context) (n : ℤ)
    → (get_retry_attempt (some (with_retry_attempt ctx n)) ≡ n)
      × (get a (some (with_retry_attempt ctx n)) ≡ get a (some ctx))
unfolding get get_retry_attempt with_retry_attempt
get_retry_attempt-with trace_id ctx n = (refl, refl)
get_retry_attempt-with _ ctx n = (refl, refl)
