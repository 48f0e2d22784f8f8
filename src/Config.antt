-- ===== src/Config.antt =====
-- config/loader.go, and the loader of app/config.go. A configuration is the text of each field that has
-- a value. The files, the YAML decoder, envconfig and the validator are parameters.
pub mod Priority
mod Tests
use Prim.Native.String.{◌++◌ as str_append}
use text.Mathlib.Text.{◌==◌ as str_eq}
use helix_fnd.Prelude.{
  ◌⊎◌, inl, inr, Bool, true, false, String, List, [], Option, none, some, if◌then◌else◌,
}

abbrev pub Fields : Type 0
Fields = List (String × String)

pub data Loaded : Type 0 where
  loaded : Fields → Loaded
  load_error : String → Loaded

pub record Sources (F : Type 0) : Type 0 where
  pub stat : String → Bool  -- whether `os.Stat` has no error
  pub open_file : String → F ⊎ String  -- the file, or the error
  pub decode : F → Fields → Loaded  -- into the fields that are there
  pub process : String → Fields → Loaded  -- `envconfig.Process(prefix, &cfg)`

abbrev labelled : String → Loaded → Loaded
labelled label (loaded fields) = loaded fields
labelled label (load_error e) = load_error (str_append label e)

module _ {F : Type 0} (sources : Sources F) where
  decoded : F ⊎ String → Loaded
  decoded (inr e) = load_error (str_append "failed to open config file: " e)
  decoded (inl file) = labelled "failed to decode config file: " (sources.decode file [])

  -- The YAML file, if there is one.
  unfoldable pub from_yaml : String → Loaded
  unfolding decoded
  from_yaml path =
      let read = decoded (sources.open_file path) in
      if str_eq path "" then loaded [] else if sources.stat path then read else loaded []

  processed : String → Loaded → Loaded
  processed env_prefix (load_error e) = load_error e
  processed env_prefix (loaded fields) =
      labelled "failed to process env vars: " (sources.process env_prefix fields)

  -- `Loader.Load` of config/loader.go.
  unfoldable pub load : String → String → Loaded
  unfolding processed
  load env_prefix path = processed env_prefix (from_yaml path)

-- `Loader.Load` of app/config.go, into a configuration that is there; `validate` gives an error or none.
validated : (Fields → Option String) → Loaded → Loaded
validated validate (load_error e) = load_error (str_append "config: failed to process env vars: " e)
validated validate (loaded fields) = elim (validate fields) [
  | none ↦ loaded fields
  | some e ↦ load_error (str_append "config: validation failed: " e)
]

unfoldable pub load_validated :
    (String → Fields → Loaded) → (Fields → Option String) → Fields → String → Loaded
unfolding validated
load_validated process validate spec env_prefix = validated validate (process env_prefix spec)
