-- ===== src/Config/Tests.antt =====
-- A port that the file, the defaults and the environment set, and a name that the file alone sets.
use text.Mathlib.Text.{◌==◌ as str_eq}
use helix_fnd.Prelude.{
  ◌≡◌, refl, inl, inr, true, String, [], ◌∷◌, Option, none, some, at_key, arith, Bool-cases,
}
use helix_fnd.Config.{Fields, Loaded, loaded, Sources, from_yaml, load}
use helix_fnd.Config.Priority.{Ends, IsEnvconfig, load-Ends}

abbrev env : String → String → Option String
env env_prefix field = at_key (("host", "db1") ∷ []) field

abbrev default : String → Option String
default field = at_key (("port", "5432") ∷ ("host", "localhost") ∷ []) field

abbrev set_field : String → Option String → Fields → Fields
set_field field (some v) fields = (field, v) ∷ fields
set_field field none fields = fields

abbrev process : String → Fields → Loaded
process env_prefix fields = loaded (("host", "db1") ∷ ("port", "5432") ∷ fields)

process-IsEnvconfig : IsEnvconfig process env default
unfolding at_key
process-IsEnvconfig = record {
  fills = λ env_prefix before after field h. elim (Bool-cases (str_eq "host" field)) [
    | inl host ↦ ground (arith, h, host)
    | inr other ↦ ground (arith, h, other)
  ];
}

-- One file, with its fields.
abbrev sources : Sources Fields
sources = record {
  stat = λ path. true;
  open_file = λ path. inl (("port", "6000") ∷ ("name", "billing") ∷ []);
  decode = λ file fields. loaded file;
  process = process;
}

load-Ends_example :
    Ends sources env default process-IsEnvconfig "" "app.yaml" (load sources "" "app.yaml")
load-Ends_example = load-Ends sources env default process-IsEnvconfig "" "app.yaml"

-- The file's port gives way to the default.
loads_default :
    (fields : Fields) × (load sources "" "app.yaml" ≡ loaded fields)
    × (at_key fields "port" ≡ some "5432")
    × (at_key fields "name" ≡ some "billing")
unfolding load from_yaml at_key
loads_default = (_, refl, refl, refl)
