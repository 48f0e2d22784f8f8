-- ===== src/Log/Pipeline.antt =====
-- `New` of log/logger.go and the handler of pkg/telemetry/otel_handler.go around slog's JSON handler: what
-- becomes of a record that is logged. The console handler of package tint is a parameter.
pub mod Lines
use text.Mathlib.Text.{◌==◌ as str_eq}
use helix_fnd.Prelude.{
  ◌≡◌, refl, sym, ap, ◌∙◌, ◌⊎◌, inl, inr, ℤ, leb_ℤ, Bool, true, false, String, List, [], ◌∷◌, ◌++◌,
  Option, none, some, if◌then◌else◌,
}
use helix_fnd.Log.{Leaf, Attrs, end, leaf, group, replace_attrs, level_of}
use helix_fnd.Log.Redaction.{leaves, AllShow, replace_attrs-AllShow}
use helix_fnd.Log.Telemetry.{Span, LogRecord, handle}
use helix_fnd.Log.Telemetry.Correlation.{correlation, handle-correlation}

pub record LogConfig : Type 0 where
  pub level : String
  pub format : String

-- A `slog.Handler` with the state `H`. `Handle` gives the attributes of the line that it writes.
pub record LogHandler (H : Type 0) : Type 0 where
  pub enabled : ℤ → H → Bool
  pub write_line : Span → LogRecord → H → Span × Attrs
  pub with_attrs : Attrs → H → H
  pub with_group : String → H → H

-- `OTelHandler`: `Enabled` is that of the handler inside.
unfoldable pub new_otel_handler : {H : Type 0} → (Attrs → String) → LogHandler H → LogHandler H
new_otel_handler show inner = record {
  enabled = inner.enabled;
  write_line = λ span r h. let (span', r') = handle show span r in inner.write_line span' r' h;
  with_attrs = inner.with_attrs;
  with_group = inner.with_group;
}

-- The state of the handler that `New` chooses.
unfoldable pub new_handler : {H : Type 0} → (ℤ → H) → (ℤ → H) → LogConfig → H
new_handler console json cfg =
    if str_eq cfg.format "console" then console (level_of cfg.level) else json (level_of cfg.level)

-- `Logger.Log`: nothing below the level.
unfoldable pub log_line : {H : Type 0} → LogHandler H → Span → LogRecord → H → Span × Option Attrs
log_line handler span r h =
    let (span', line) = handler.write_line span r h in
    if handler.enabled r.level h then (span', some line) else (span, none)

-- What `With` and `WithGroup` add to a logger.
pub data Added : Type 0 where
  added_attrs : Attrs → Added
  added_group : String → Added

unfoldable pub extended : {H : Type 0} → LogHandler H → List Added → H → H
extended handler [] h = h
extended handler (added_attrs xs ∷ ops) h = extended handler ops (handler.with_attrs xs h)
extended handler (added_group name ∷ ops) h = extended handler ops (handler.with_group name h)

-- slog's JSON handler: its level and what was added, the first first. A group holds all that follows.
pub record JsonHandler : Type 0 where
  pub min_level : ℤ
  pub added : List Added

abbrev pub append_attrs : Attrs → Attrs → Attrs
append_attrs end ys = ys
append_attrs (leaf key v rest) ys = leaf key v (append_attrs rest ys)
append_attrs (group key inner rest) ys = group key inner (append_attrs rest ys)

abbrev pub nested : List Added → Attrs → Attrs
nested [] xs = xs
nested (added_attrs ys ∷ ops) xs = append_attrs ys (nested ops xs)
nested (added_group name ∷ ops) xs = group name (nested ops xs) end

abbrev pub json_handler : LogHandler JsonHandler
json_handler = record {
  enabled = λ level h. leb_ℤ h.min_level level;
  write_line = λ span r h. (span, replace_attrs (nested h.added r.attrs));
  with_attrs = λ xs h. record h { added = h.added ++ (added_attrs xs ∷ []) };
  with_group = λ name h. record h { added = h.added ++ (added_group name ∷ []) };
}

abbrev pub json_at : ℤ → JsonHandler
json_at level = record { min_level = level; added = [] }
