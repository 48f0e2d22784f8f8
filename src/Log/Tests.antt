-- ===== src/Log/Tests.antt =====
-- A login that fails.
use helix_fnd.Prelude.{◌≡◌, refl, pos, true, List, [], ◌∷◌, ◌++◌, some, none}
use helix_fnd.Text.{to_lower}
use helix_fnd.Log.{
  Attrs, end, leaf, group, string, is_sensitive, redactor, replace_attrs, level_error, level_of,
}
use helix_fnd.Log.Redaction.{AllShow, leaves, replace_attrs-AllShow}
use helix_fnd.Log.Pipeline.{
  LogConfig, Added, added_attrs, added_group, json_at, log_line, new_otel_handler, new_handler,
  extended,
}
use helix_fnd.Log.Pipeline.Lines.{otel, made_logger, IsLogged, log_line-IsLogged}
use helix_fnd.Log.Telemetry.Correlation.{correlation, handle-correlation}
use helix_fnd.Log.Telemetry.{
  Span, LogRecord, record_error, set_status_error, otel_string, handle, enrich_span, otel_attrs,
  err_found, add_attr,
}

abbrev login : Attrs
login = leaf "user" (string "ann") (group "body" (leaf "Password" (string "hunter2") end) end)

replace_attrs_example : AllShow (leaves login) (leaves (replace_attrs login))
replace_attrs_example = replace_attrs-AllShow login

hidden :
    replace_attrs login
    ≡ leaf "user" (string "ann") (group "body" (leaf "Password" (string "[REDACTED]") end) end)
unfolding replace_attrs redactor is_sensitive to_lower
hidden = refl

-- The key of a group is not looked at.
group_shown :
    replace_attrs (group "secret" (leaf "value" (string "hunter2") end) end)
    ≡ group "secret" (leaf "value" (string "hunter2") end) end
unfolding replace_attrs redactor is_sensitive to_lower
group_shown = refl

-- The span takes the attributes as they are, before the redaction.
abbrev span : Span
span = record { is_recording = true; trace_id = some "t1"; span_id = none; calls = [] }

span_takes_password :
    (handle
      (λ xs. "")
      span
      (record {
        level = level_error;
        message = "login failed";
        attrs = leaf "password" (string "hunter2") end;
      })).0.calls
    ≡ record_error "login failed"
        (("password", otel_string "hunter2") ∷ ("trace_id", otel_string "t1") ∷ [])
      ∷ set_status_error "login failed"
      ∷ []
unfolding handle enrich_span otel_attrs err_found add_attr
span_takes_password = refl

warn_level : level_of "WARN" ≡ pos 4
unfolding level_of to_lower
warn_level = refl

handle-correlation_example :
    (leaves
        (handle (λ xs. "") span (record { level = pos 0; message = "m"; attrs = login })).1.attrs
      ≡ leaves login ++ correlation span)
    × (pos 0 ≡ pos 0)
    × ((handle (λ xs. "") span (record { level = pos 0; message = "m"; attrs = login })).1.message
        ≡ "m")
unfolding handle
handle-correlation_example =
    handle-correlation (λ xs. "") span (record { level = pos 0; message = "m"; attrs = login })

-- A logger with a service and a group, from a level that lets the record through.
abbrev warn_json : LogConfig
warn_json = record { level = "warn"; format = "json" }

abbrev in_request : List Added
in_request =
    added_attrs (leaf "service" (string "billing") (leaf "API_KEY" (string "k") end))
    ∷ added_group "request"
    ∷ []

abbrev failed : LogRecord
failed = record { level = level_error; message = "login failed"; attrs = login }

log_line-IsLogged_example :
    IsLogged
      (λ xs. "")
      json_at
      warn_json
      in_request
      span
      failed
      (log_line (otel (λ xs. "")) span failed (made_logger (λ xs. "") json_at warn_json in_request))
log_line-IsLogged_example =
    log_line-IsLogged (λ xs. "") json_at warn_json in_request span failed refl

-- The ids of the span fall into the open group.
one_line :
    (log_line (otel (λ xs. "")) span failed (made_logger (λ xs. "") json_at warn_json in_request)).1
    ≡ some (
        leaf "service" (string "billing") (
          leaf "API_KEY" (string "[REDACTED]") (
            group "request"
              (leaf "user" (string "ann") (
                group "body"
                  (leaf "Password" (string "[REDACTED]") end)
                  (leaf "trace_id" (string "t1") end)))
              end)))
unfolding log_line new_otel_handler new_handler extended handle add_attr enrich_span otel_attrs
    err_found replace_attrs redactor is_sensitive to_lower level_of
one_line = refl
