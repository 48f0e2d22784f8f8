-- ===== src/Context/Tests.antt =====
-- A request's context.
use helix_fnd.Prelude.{◌≡◌, pos, [], ◌∷◌, some, if◌then◌else◌}
use helix_fnd.Context.{Context, str, entry_point_key}
use helix_fnd.Context.Accessors.{
  Attribute, get, with, same, get-with, get_retry_attempt, with_retry_attempt,
  get_retry_attempt-with,
}

abbrev over_http : Context
over_http = (entry_point_key, str "http") ∷ []

get-with_example : get Attribute.entry_point (some (with Attribute.trace_id over_http "abc")) ≡ (
    if same Attribute.trace_id Attribute.entry_point
    then "abc"
    else get Attribute.entry_point (some over_http))
get-with_example = get-with Attribute.trace_id Attribute.entry_point over_http "abc"

get_retry_attempt_example :
    (get_retry_attempt (some (with_retry_attempt over_http (pos 2))) ≡ pos 2)
    × (get Attribute.entry_point (some (with_retry_attempt over_http (pos 2)))
        ≡ get Attribute.entry_point (some over_http))
get_retry_attempt_example = get_retry_attempt-with Attribute.entry_point over_http (pos 2)
