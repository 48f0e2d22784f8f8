-- ===== src/Log.antt =====
-- log/logger.go: the redaction of attributes and the choice of a level, and what slog's JSON handler
-- does with a ReplaceAttr function.
pub mod Pipeline
pub mod Redaction
pub mod Telemetry
mod Tests
use text.Mathlib.Text.{◌==◌ as str_eq}
use helix_fnd.Prelude.{
  ℤ, pos, negsuc, Bool, true, false, ◌||◌, String, List, [], ◌∷◌, if◌then◌else◌,
}
use helix_fnd.Text.{to_lower}

-- A `slog.Value` that is no group; `err` is an error and `any_value` any other object, by their texts,
-- and `float64` is a number by its text.
pub data Leaf : Type 0 where
  string : String → Leaf
  int64 : ℤ → Leaf
  float64 : String → Leaf
  boolean : Bool → Leaf
  err : String → Leaf
  any_value : String → Leaf

-- A list of `slog.Attr`.
pub data Attrs : Type 0 where
  end : Attrs
  leaf : String → Leaf → Attrs → Attrs
  group : String → Attrs → Attrs → Attrs

-- A key of `sensitiveKeys`.
unfoldable pub is_sensitive : String → Bool
is_sensitive key =
    str_eq key "password"
    || str_eq key "token"
    || str_eq key "access_token"
    || str_eq key "refresh_token"
    || str_eq key "authorization"
    || str_eq key "secret"
    || str_eq key "db_dsn"
    || str_eq key "api_key"

unfoldable pub redactor : String × Leaf → String × Leaf
redactor (key, v) = if is_sensitive (to_lower key) then (key, string "[REDACTED]") else (key, v)

-- ReplaceAttr is called for the contents of a group, and not for the group.
unfoldable pub replace_attrs : Attrs → Attrs
replace_attrs end = end
replace_attrs (leaf key v rest) =
    let (key', v') = redactor (key, v) in leaf key' v' (replace_attrs rest)
replace_attrs (group key inner rest) = group key (replace_attrs inner) (replace_attrs rest)

-- slog's levels.
abbrev pub level_debug : ℤ
level_debug = negsuc 3

abbrev pub level_info : ℤ
level_info = pos 0

abbrev pub level_warn : ℤ
level_warn = pos 4

abbrev pub level_error : ℤ
level_error = pos 8

-- The level that `New` sets.
unfoldable pub level_of : String → ℤ
level_of text =
    if str_eq (to_lower text) "debug"
    then level_debug
    else if str_eq (to_lower text) "warn"
    then level_warn
    else if str_eq (to_lower text) "error"
    then level_error
    else level_info
