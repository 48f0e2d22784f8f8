-- ===== src/Log/Telemetry.antt =====
-- pkg/telemetry/otel_handler.go: what a log record adds to the span of its context.
pub mod Correlation
use text.Mathlib.Text.{◌==◌ as str_eq}
use helix_fnd.Prelude.{
  ◌≡◌, refl, ℤ, leb_ℤ, ◌⊎◌, inl, inr, Bool, true, false, not, ◌&&◌, String, List, [], ◌∷◌, ◌++◌,
  Option, none, some, if◌then◌else◌, Bool-cases,
}
use helix_fnd.Log.{
  Leaf, string, int64, float64, boolean, err, any_value, Attrs, end, leaf, group, level_warn,
  level_error,
}

pub record LogRecord : Type 0 where
  pub level : ℤ
  pub message : String
  pub attrs : Attrs

-- `attribute.KeyValue`.
pub data OtelValue : Type 0 where
  otel_string : String → OtelValue
  otel_int64 : ℤ → OtelValue
  otel_float64 : String → OtelValue
  otel_bool : Bool → OtelValue

pub data SpanCall : Type 0 where
  record_error : String → List (String × OtelValue) → SpanCall
  set_status_error : String → SpanCall
  add_event : String → List (String × OtelValue) → SpanCall

-- A span, with the calls made on it, in order.
pub record Span : Type 0 where
  pub is_recording : Bool
  pub trace_id : Option String
  pub span_id : Option String
  pub calls : List SpanCall

-- `r.AddAttrs`.
unfoldable pub add_attr : String → Option String → Attrs → Attrs
add_attr key none xs = xs
add_attr key (some id) end = leaf key (string id) end
add_attr key (some id) (leaf k v rest) = leaf k v (add_attr key (some id) rest)
add_attr key (some id) (group k inner rest) = group k inner (add_attr key (some id) rest)

abbrev otel_value : Leaf → OtelValue
otel_value (string s) = otel_string s
otel_value (int64 n) = otel_int64 n
otel_value (float64 x) = otel_float64 x
otel_value (boolean b) = otel_bool b
otel_value (err e) = otel_string e
otel_value (any_value s) = otel_string s

-- `show` is the text of a group's value.
module _ (show : Attrs → String) where
  unfoldable pub otel_attrs : Attrs → List (String × OtelValue)
  otel_attrs end = []
  otel_attrs (leaf key v rest) = (key, otel_value v) ∷ otel_attrs rest
  otel_attrs (group key inner rest) = (key, otel_string (show inner)) ∷ otel_attrs rest

  abbrev error_here : String → Leaf → Option String → Option String
  error_here key (err e) found = if str_eq key "error" then some e else found
  error_here key _ found = found

  -- The last error under the key "error".
  unfoldable pub err_found : Attrs → Option String → Option String
  err_found end found = found
  err_found (leaf key v rest) found = err_found rest (error_here key v found)
  err_found (group key inner rest) found = err_found rest found

  abbrev or_message : Option String → String → String
  or_message none message = message
  or_message (some e) message = e

  unfoldable pub enrich_span : LogRecord → List SpanCall
  enrich_span r =
      let attrs = otel_attrs r.attrs in
      if leb_ℤ level_error r.level
      then record_error (or_message (err_found r.attrs none) r.message) attrs
        ∷ set_status_error r.message
        ∷ []
      else if leb_ℤ r.level level_warn && leb_ℤ level_warn r.level
      then add_event "log_warning" (attrs ++ (("message", otel_string r.message) ∷ [])) ∷ []
      else []

  -- `Handle`: the span, and the record for the wrapped handler.
  unfoldable pub handle : Span → LogRecord → Span × LogRecord
  handle span r =
      let r' = record r {
        attrs = add_attr "span_id" span.span_id (add_attr "trace_id" span.trace_id r.attrs);
      } in
      let more = if leb_ℤ level_warn r.level then enrich_span r' else [] in
      if span.is_recording then (record span { calls = span.calls ++ more }, r') else (span, r)
