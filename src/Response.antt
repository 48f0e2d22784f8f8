-- ===== src/Response.antt =====
-- http/response: the error codes with their statuses, and the JSON envelope.
mod Tests
pub mod Statuses
use text.Mathlib.Text.{◌==◌ as str_eq}
use helix_fnd.Prelude.{
  ℕ, Bool, true, false, ◌&&◌, not, String, List, [], ◌∷◌, Option, none, some, ◌==◌, if◌then◌else◌,
}
use helix_fnd.Context.Accessors.{get_request_id}
use helix_fnd.Http.{
  Request, Writer, Served, set_header, write_header, write_body, on_writer, logged,
}

abbrev pub err_system : String
err_system = "SYS_INTERNAL_ERROR"

abbrev pub err_bad_request : String
err_bad_request = "SYS_BAD_REQUEST"

abbrev pub err_service_unavail : String
err_service_unavail = "SYS_SERVICE_UNAVAILABLE"

abbrev pub err_gateway_timeout : String
err_gateway_timeout = "SYS_GATEWAY_TIMEOUT"

abbrev pub err_validation : String
err_validation = "VAL_INVALID_INPUT"

abbrev pub err_missing_field : String
err_missing_field = "VAL_MISSING_FIELD"

abbrev pub err_invalid_format : String
err_invalid_format = "VAL_INVALID_FORMAT"

abbrev pub err_missing_token : String
err_missing_token = "AUTH_MISSING_TOKEN"

abbrev pub err_invalid_token : String
err_invalid_token = "AUTH_INVALID_TOKEN"

abbrev pub err_forbidden : String
err_forbidden = "AUTH_FORBIDDEN"

abbrev pub err_account_locked : String
err_account_locked = "AUTH_ACCOUNT_LOCKED"

abbrev pub err_not_found : String
err_not_found = "RES_NOT_FOUND"

abbrev pub err_already_exists : String
err_already_exists = "RES_ALREADY_EXISTS"

abbrev pub err_conflict : String
err_conflict = "RES_CONFLICT"

abbrev pub err_version_mismatch : String
err_version_mismatch = "RES_VERSION_MISMATCH"

abbrev pub err_rule_violation : String
err_rule_violation = "BIZ_RULE_VIOLATION"

abbrev pub err_rate_limit : String
err_rate_limit = "BIZ_RATE_LIMIT_EXCEEDED"

abbrev is_one_of : String → List String → Bool
is_one_of code [] = false
is_one_of code (c ∷ cs) = if str_eq code c then true else is_one_of code cs

unfoldable pub map_status : String → ℕ
map_status code =
    if is_one_of code
      (err_bad_request ∷ err_validation ∷ err_missing_field ∷ err_invalid_format ∷ [])
    then 400
    else if is_one_of code (err_missing_token ∷ err_invalid_token ∷ [])
    then 401
    else if is_one_of code (err_forbidden ∷ err_account_locked ∷ [])
    then 403
    else if is_one_of code (err_not_found ∷ [])
    then 404
    else if is_one_of code (err_already_exists ∷ err_conflict ∷ err_version_mismatch ∷ [])
    then 409
    else if is_one_of code (err_rate_limit ∷ [])
    then 429
    else if is_one_of code (err_rule_violation ∷ [])
    then 422
    else if is_one_of code (err_service_unavail ∷ err_gateway_timeout ∷ [])
    then 503
    else 500

-- An `interface{}` of the code: nil, the empty map that `JSON` puts in its place, or a value.
pub data Payload (V : Type 0) : Type 0 where
  nil : Payload V
  empty_object : Payload V
  given : V → Payload V

pub record ErrorResponse (V : Type 0) : Type 0 where
  pub code : String
  pub message : String
  pub doc_url : String
  pub request_id : String
  pub details : Payload V

pub record Envelope (V : Type 0) : Type 0 where
  pub payload : Payload V
  pub meta : Payload V
  pub error : Option (ErrorResponse V)

abbrev or_empty : {V : Type 0} → ℕ → Payload V → Payload V
or_empty status nil = if status == 204 then nil else empty_object
or_empty status p = p

-- `encode` is the JSON encoder of package encoding/json; `none` is its error.
module _ {V W : Type 0} (encode : Envelope V → Option String) where
  encoded : Option String → Served W → Served W
  encoded none s = logged "http_response_write_failed" s
  encoded (some text) s = on_writer (write_body text) s

  unfoldable pub write : ℕ → Envelope V → Served W → Served W
  unfolding encoded
  write status env s =
      encoded (encode env)
        (on_writer (λ w. write_header status (set_header "Content-Type" "application/json" w)) s)

  unfoldable pub json : ℕ → Payload V → Served W → Served W
  json status p s =
      write status (record { payload = or_empty status p; meta = nil; error = none }) s

  unfoldable pub json_with_meta : ℕ → Payload V → Payload V → Served W → Served W
  json_with_meta status p meta s =
      write status (record { payload = p; meta = meta; error = none }) s

  unfoldable pub error_json_with_details :
      Request → ℕ → String → String → Payload V → Served W → Served W
  error_json_with_details r status code message details s =
      write status
        (record {
          payload = nil;
          meta = nil;
          error = some (record {
            code = code;
            message = message;
            doc_url = "";
            request_id = get_request_id (some r.ctx);
            details = details;
          });
        })
        s

  unfoldable pub error_json : Request → ℕ → String → String → Served W → Served W
  error_json r status code message s = error_json_with_details r status code message nil s
