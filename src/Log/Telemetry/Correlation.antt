-- ===== src/Log/Telemetry/Correlation.antt =====
-- What the handler passes on to the handler that it wraps.
use mathlib.Core.List.{append-nil, append_assoc}
use helix_fnd.Prelude.{
  ◌≡◌, refl, sym, ap, ◌∙◌, inl, inr, String, List, [], ◌∷◌, ◌++◌, Option, none, some, if◌then◌else◌,
  Bool-cases,
}
use helix_fnd.Log.{Leaf, string, Attrs, end, leaf, group}
use helix_fnd.Log.Redaction.{leaves}
use helix_fnd.Log.Telemetry.{Span, LogRecord, add_attr, handle}

abbrev id_leaf : String → Option String → List (String × Leaf)
id_leaf key none = []
id_leaf key (some id) = (key, string id) ∷ []

-- The ids of a span that is recording.
abbrev pub correlation : Span → List (String × Leaf)
correlation span =
    if span.is_recording
    then id_leaf "trace_id" span.trace_id ++ id_leaf "span_id" span.span_id
    else []

leaves-add_attr :
    (key : String) (id : Option String) (xs : Attrs)
    → leaves (add_attr key id xs) ≡ leaves xs ++ id_leaf key id
unfolding add_attr
leaves-add_attr key none xs = sym (append-nil (leaves xs))
leaves-add_attr key (some id) end = refl
leaves-add_attr key (some id) (leaf k v rest) =
    ap (λ l. (k, v) ∷ l) (leaves-add_attr key (some id) rest)
leaves-add_attr key (some id) (group k inner rest) =
    ap (λ l. leaves inner ++ l) (leaves-add_attr key (some id) rest)
    ∙ sym (append_assoc (leaves inner) (leaves rest) ((key, string id) ∷ []))

-- The wrapped handler gets the record with its level and message as they were and its attributes in
-- their order, followed, if the span is recording, by the trace id and the span id that the span has.
pub handle-correlation :
    (show : Attrs → String) (span : Span) (r : LogRecord)
    → (leaves (handle show span r).1.attrs ≡ leaves r.attrs ++ correlation span)
      × ((handle show span r).1.level ≡ r.level)
      × ((handle show span r).1.message ≡ r.message)
unfolding handle
handle-correlation show span r = elim (Bool-cases span.is_recording) [
  | inl on ↦ rw on (
    leaves-add_attr "span_id" span.span_id (add_attr "trace_id" span.trace_id r.attrs)
        ∙ ap (λ l. l ++ id_leaf "span_id" span.span_id)
            (leaves-add_attr "trace_id" span.trace_id r.attrs)
        ∙ append_assoc (leaves r.attrs) (id_leaf "trace_id" span.trace_id)
            (id_leaf "span_id" span.span_id),
    refl,
    refl,
  )
  | inr off ↦ rw off (sym (append-nil (leaves r.attrs)), refl, refl)
]
