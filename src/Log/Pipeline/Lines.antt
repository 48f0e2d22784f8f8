-- ===== src/Log/Pipeline/Lines.antt =====
-- The attributes of a line, from the call of the logger to the output.
use mathlib.Core.List.{append_assoc, append-nil}
use std.Path.{subst}
use text.Mathlib.Text.{◌==◌ as str_eq}
use helix_fnd.Prelude.{
  ◌≡◌, refl, sym, ap, ◌∙◌, ◌⊎◌, inl, inr, ℤ, leb_ℤ, true, false, String, List, [], ◌∷◌, ◌++◌,
  Option, none, some, Bool-cases,
}
use helix_fnd.Log.{Leaf, Attrs, end, leaf, group, replace_attrs, level_of}
use helix_fnd.Log.Redaction.{leaves, AllShow, replace_attrs-AllShow}
use helix_fnd.Log.Telemetry.{Span, LogRecord, handle}
use helix_fnd.Log.Telemetry.Correlation.{correlation, handle-correlation}
use helix_fnd.Log.Pipeline.{
  LogConfig, LogHandler, new_otel_handler, new_handler, log_line, Added, added_attrs, added_group,
  extended, JsonHandler, append_attrs, nested, json_handler, json_at,
}

-- The attributes that were added.
abbrev pub added_leaves : List Added → List (String × Leaf)
added_leaves [] = []
added_leaves (added_attrs xs ∷ ops) = leaves xs ++ added_leaves ops
added_leaves (added_group name ∷ ops) = added_leaves ops

leaves-append_attrs : (xs ys : Attrs) → leaves (append_attrs xs ys) ≡ leaves xs ++ leaves ys
leaves-append_attrs end ys = refl
leaves-append_attrs (leaf key v rest) ys = ap (λ l. (key, v) ∷ l) (leaves-append_attrs rest ys)
leaves-append_attrs (group key inner rest) ys =
    ap (λ l. leaves inner ++ l) (leaves-append_attrs rest ys)
    ∙ sym (append_assoc (leaves inner) (leaves rest) (leaves ys))

leaves-nested :
    (ops : List Added) (xs : Attrs) → leaves (nested ops xs) ≡ added_leaves ops ++ leaves xs
leaves-nested [] xs = refl
leaves-nested (added_attrs ys ∷ ops) xs =
    leaves-append_attrs ys (nested ops xs)
    ∙ ap (λ l. leaves ys ++ l) (leaves-nested ops xs)
    ∙ sym (append_assoc (leaves ys) (added_leaves ops) (leaves xs))
leaves-nested (added_group name ∷ ops) xs = append-nil _ ∙ leaves-nested ops xs

module _ (show : Attrs → String) where
  abbrev pub otel : LogHandler JsonHandler
  otel = new_otel_handler show json_handler

  extended-json :
      (ops done : List Added) (level : ℤ)
      → extended otel ops (record { min_level = level; added = done })
        ≡ record { min_level = level; added = done ++ ops }
  unfolding extended new_otel_handler
  extended-json [] done level =
      ap (λ l. record { min_level = level; added = l }) (sym (append-nil done))
  extended-json (added_attrs xs ∷ ops) done level =
      extended-json ops (done ++ (added_attrs xs ∷ [])) level
      ∙ ap (λ l. record { min_level = level; added = l })
          (append_assoc done (added_attrs xs ∷ []) ops)
  extended-json (added_group name ∷ ops) done level =
      extended-json ops (done ++ (added_group name ∷ [])) level
      ∙ ap (λ l. record { min_level = level; added = l })
          (append_assoc done (added_group name ∷ []) ops)

  module _ (console : ℤ → JsonHandler) where
    -- A logger from `New` on which `With` and `WithGroup` were called.
    abbrev pub made_logger : LogConfig → List Added → JsonHandler
    made_logger cfg ops = extended otel ops (new_handler console json_at cfg)

    -- Not a line, and nothing done to the span; or a line that shows what was added, the record's
    -- attributes and the span's ids.
    abbrev pub IsLogged : LogConfig → List Added → Span → LogRecord → Span × Option Attrs → Type 0
    IsLogged cfg ops span r outcome =
        ((leb_ℤ (level_of cfg.level) r.level ≡ false) × (outcome ≡ (span, none)))
        ⊎ ((leb_ℤ (level_of cfg.level) r.level ≡ true)
            × (line : Attrs) × (outcome ≡ ((handle show span r).0, some line))
            × AllShow (added_leaves ops ++ (leaves r.attrs ++ correlation span)) (leaves line))

    line-AllShow :
        (ops : List Added) (span : Span) (r : LogRecord)
        → AllShow
            (added_leaves ops ++ (leaves r.attrs ++ correlation span))
            (leaves (replace_attrs (nested ops (handle show span r).1.attrs)))
    line-AllShow ops span r =
        let same =
          leaves-nested ops (handle show span r).1.attrs
          ∙ ap (λ l. added_leaves ops ++ l) (handle-correlation show span r).0 in
        subst (λ l. AllShow l (leaves (replace_attrs (nested ops (handle show span r).1.attrs))))
          same (replace_attrs-AllShow (nested ops (handle show span r).1.attrs))

    -- From `New` with a format other than "console" to the output: a record below the configured level
    -- leaves no line and no trace on the span. Any other is written, with the attributes that were
    -- given by `With`, its own, and the ids of a recording span, in this order. Of these attributes each
    -- that is not a group, inside groups too, has its value just if its own key in lower case is none of
    -- the eight secret ones, and otherwise the mark.
    pub log_line-IsLogged :
        (cfg : LogConfig) (ops : List Added) (span : Span) (r : LogRecord)
        → str_eq cfg.format "console" ≡ false
        → IsLogged cfg ops span r (log_line otel span r (made_logger cfg ops))
    unfolding log_line new_otel_handler new_handler
    log_line-IsLogged cfg ops span r json = elim (Bool-cases (leb_ℤ (level_of cfg.level) r.level)) [
      | inl on ↦
          rw (json, extended-json ops [] (level_of cfg.level), on)
            (inr (refl, _, refl, line-AllShow ops span r))
      | inr off ↦ rw (json, extended-json ops [] (level_of cfg.level), off) (inl (refl, refl))
    ]
