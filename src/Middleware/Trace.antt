-- ===== src/Middleware/Trace.antt =====
-- server/middleware/trace.go. The span of OpenTelemetry and the generator of UUIDs are parameters.
pub mod Agreement
use text.Mathlib.Text.{◌==◌ as str_eq}
use helix_fnd.Prelude.{Bool, String, List, [], ◌∷◌, Option, none, some, at_key, if◌then◌else◌}
use helix_fnd.Context.{Context}
use helix_fnd.Context.Accessors.{with_trace_id, with_request_id}
use helix_fnd.Text.{to_lower}
use helix_fnd.Http.{Request, get_header, Served, Handler, set_header, on_writer, with_ctx}
use helix_fnd.Grpc
use helix_fnd.Grpc.{Call, CallState}

abbrev pub trace_header : String
trace_header = "X-Trace-Id"

abbrev pub request_header : String
request_header = "X-Request-Id"

pub record Ids (W : Type 0) : Type 0 where
  pub span_trace_id : Context → Option String  -- of a valid span context
  pub new_hex : W → W × String
  pub new_string : W → W × String

abbrev or_blank : Option String → String
or_blank none = ""
or_blank (some id) = id

-- The text, or one that is made if it is empty.
abbrev pub or_made : {W : Type 0} → (W → W × String) → String → W → W × String
or_made make text w = if str_eq text "" then make w else (w, text)

module _ {W : Type 0} (ids : Ids W) where
  -- The span's, or else the client's.
  abbrev pub given_trace_id : Request → String
  given_trace_id r =
      let spanned = or_blank (ids.span_trace_id r.ctx) in
      if str_eq spanned "" then get_header r trace_header else spanned

  abbrev pub trace_id_of : Request → W → W × String
  trace_id_of r w = or_made ids.new_hex (given_trace_id r) w

  unfoldable pub trace_id_middleware : Handler W → Handler W
  trace_id_middleware next r s =
      let (w, trace_id) = trace_id_of r s.world in
      let (w', req_id) = or_made ids.new_string (get_header r request_header) w in
      let s' =
        on_writer (λ out. set_header request_header req_id (set_header trace_header trace_id out))
          (record s { world = w' }) in
      next (with_ctx r (with_request_id (with_trace_id r.ctx trace_id) req_id)) s'

  span_or_new : Option String → W → W × String
  span_or_new (some id) w = (w, id)
  span_or_new none w = ids.new_hex w

  first_or_new : Option (List String) → W → W × String
  first_or_new (some (v ∷ vs)) w = (w, v)
  first_or_new _ w = ids.new_string w

  -- `md.Get` of a metadata that may be missing.
  abbrev values_of : Option (List (String × List String)) → String → Option (List String)
  values_of none key = none
  values_of (some md) key = at_key md (to_lower key)

  unfoldable pub grpc_trace_interceptor : Grpc.Handler W → Grpc.Handler W
  unfolding span_or_new first_or_new
  grpc_trace_interceptor handler call s =
      let (w, trace_id) = span_or_new (ids.span_trace_id call.ctx) s.world in
      let (w', req_id) = first_or_new (values_of call.metadata (to_lower request_header)) w in
      handler (Grpc.with_ctx call (with_request_id (with_trace_id call.ctx trace_id) req_id))
        (record s { world = w' })
