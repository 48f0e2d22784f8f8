-- ===== src/Middleware/Trace/Agreement.antt =====
-- The ids that a handler behind the trace middleware finds, and those that its client sees.
use text.Mathlib.Text.{◌==◌ as str_eq}
use helix_fnd.Prelude.{
  ◌≡◌, refl, ◌∙◌, inl, inr, false, String, some, at_key, assign, at_key-assign_self,
  at_key-assign_ne, Bool-cases,
}
use helix_fnd.Context.{Context}
use helix_fnd.Context.Accessors.{get_trace_id, get_request_id, with_trace_id, with_request_id}
use helix_fnd.Text.{canonical_header_key}
use helix_fnd.Http.{Request, get_header, Served, Handler, Writer, set_header, with_ctx}
use helix_fnd.Middleware.Trace.{
  Ids, trace_header, request_header, or_made, given_trace_id, trace_id_of, trace_id_middleware,
}

or_made_given :
    {W : Type 0} (make : W → W × String) (made : (w : W) → str_eq (make w).1 "" ≡ false)
    (text : String) (w : W)
    → str_eq (or_made make text w).1 "" ≡ false
or_made_given make made text w = elim (Bool-cases (str_eq text "")) [
  | inl empty ↦ rw empty (made w)
  | inr given ↦ rw given given
]

set_two :
    (t q : String) (w : Writer)
    → (at_key (set_header request_header q (set_header trace_header t w)).header "X-Trace-Id"
        ≡ some t)
      × (at_key (set_header request_header q (set_header trace_header t w)).header "X-Request-Id"
          ≡ some q)
unfolding set_header canonical_header_key
set_two t q w = (
  at_key-assign_ne (assign w.header "X-Trace-Id" t) "X-Request-Id" "X-Trace-Id" q refl
      ∙ at_key-assign_self w.header "X-Trace-Id" t,
  at_key-assign_self (assign w.header "X-Trace-Id" t) "X-Request-Id" q,
)

-- Where the generator of UUIDs makes no empty text, the handler runs, with a trace id and a request id
-- in its context that are not empty and that stand in the response's headers.
pub trace_id_middleware-agrees :
    {W : Type 0} (ids : Ids W) (hex_made : (w : W) → str_eq (ids.new_hex w).1 "" ≡ false)
    (string_made : (w : W) → str_eq (ids.new_string w).1 "" ≡ false) (next : Handler W)
    (r : Request) (s : Served W)
    → (ctx : Context) × (s' : Served W) × (trace_id_middleware ids next r s
        ≡ next (with_ctx r ctx) s')
      × (at_key s'.writer.header "X-Trace-Id" ≡ some (get_trace_id (some ctx)))
      × (at_key s'.writer.header "X-Request-Id" ≡ some (get_request_id (some ctx)))
      × (str_eq (get_trace_id (some ctx)) "" ≡ false)
      × (str_eq (get_request_id (some ctx)) "" ≡ false)
unfolding trace_id_middleware get_trace_id get_request_id with_trace_id with_request_id
trace_id_middleware-agrees ids hex_made string_made next r s =
    let sets = set_two (trace_id_of ids r s.world).1 _ s.writer in
    (
      _,
      _,
      refl,
      sets.0,
      sets.1,
      or_made_given ids.new_hex hex_made (given_trace_id ids r) s.world,
      or_made_given ids.new_string string_made (get_header r request_header)
          (trace_id_of ids r s.world).0,
    )
