-- ===== src/Config/Priority.antt =====
-- Which source decides a field, and which failures end the loading.
use Prim.Native.String.{◌++◌ as str_append}
use text.Mathlib.Text.{◌==◌ as str_eq}
use text.Mathlib.TextEquality.{eq_iff}
use helix_fnd.Prelude.{
  ◌≡◌, refl, ◌⊎◌, inl, inr, true, false, String, [], Option, none, some, at_key, Bool-cases,
}
use helix_fnd.Config.{
  Fields, Loaded, loaded, load_error, Sources, labelled, decoded, from_yaml, load, processed,
}

abbrev pub first_of : Option String → Option String → Option String
first_of (some v) later = some v
first_of none later = later

-- What envconfig documents of a field: the variable of this prefix if it is set, else the `default` tag if
-- the field has one; otherwise the field is left alone.
pub record IsEnvconfig (process : String → Fields → Loaded) (env : String → String → Option String)
    (default : String → Option String) : Type 0 where
  pub fills :
      (env_prefix : String) (before after : Fields) (field : String)
      → process env_prefix before ≡ loaded after
      → at_key after field
        ≡ first_of (env env_prefix field) (first_of (default field) (at_key before field))

module _ {F : Type 0} (sources : Sources F) where
  -- What the YAML file gives: nothing without a path or a file, and else what it decodes to.
  pub data Given (path : String) : Fields → Type 0 where
    without_path : path ≡ "" → Given path []
    without_file : sources.stat path ≡ false → Given path []
    from_file :
        (file : F) (fields : Fields)
        → sources.stat path ≡ true
        → sources.open_file path ≡ inl file
        → sources.decode file [] ≡ loaded fields
        → Given path fields

  -- A file that is there and cannot be read, or an environment that does not parse.
  pub data Failure (env_prefix path : String) : String → Type 0 where
    not_opened :
        (e : String)
        → sources.stat path ≡ true
        → sources.open_file path ≡ inr e
        → Failure env_prefix path (str_append "failed to open config file: " e)
    not_decoded :
        (file : F) (e : String)
        → sources.stat path ≡ true
        → sources.open_file path ≡ inl file
        → sources.decode file [] ≡ load_error e
        → Failure env_prefix path (str_append "failed to decode config file: " e)
    not_processed :
        (yaml : Fields) (e : String)
        → Given path yaml
        → sources.process env_prefix yaml ≡ load_error e
        → Failure env_prefix path (str_append "failed to process env vars: " e)

  -- The file's fields, or its failure.
  Read : String → String → Loaded → Type 0
  Read env_prefix path (loaded yaml) = Given path yaml
  Read env_prefix path (load_error e) = Failure env_prefix path e

  decoded-Read :
      (env_prefix path : String) (file : F) (outcome : Loaded)
      → sources.stat path ≡ true
      → sources.open_file path ≡ inl file
      → sources.decode file [] ≡ outcome
      → Read env_prefix path (labelled "failed to decode config file: " outcome)
  unfolding Read
  decoded-Read env_prefix path file (loaded fields) there opens decodes =
      from_file file fields there opens decodes
  decoded-Read env_prefix path file (load_error e) there opens decodes =
      not_decoded file e there opens decodes

  opened-Read :
      (env_prefix path : String) (o : F ⊎ String)
      → sources.stat path ≡ true
      → sources.open_file path ≡ o
      → Read env_prefix path (decoded sources o)
  unfolding decoded Read
  opened-Read env_prefix path (inr e) there opens = not_opened e there opens
  opened-Read env_prefix path (inl file) there opens =
      decoded-Read env_prefix path file (sources.decode file []) there opens refl

  from_yaml-Read : (env_prefix path : String) → Read env_prefix path (from_yaml sources path)
  unfolding from_yaml Read
  from_yaml-Read env_prefix path = elim (Bool-cases (str_eq path "")) [
    | inl empty ↦ rw empty (without_path ((eq_iff path "").0 empty))
    | inr given ↦ elim (Bool-cases (sources.stat path)) [
      | inl there ↦
          rw (given, there) (opened-Read env_prefix path (sources.open_file path) there refl)
      | inr missing ↦ rw (given, missing) (without_file missing)
    ]
  ]

  module _ (env : String → String → Option String) (default : String → Option String)
      (lib : IsEnvconfig sources.process env default) where
    -- The end of `Load`.
    abbrev pub Ends : String → String → Loaded → Type 0
    Ends env_prefix path outcome =
        ((fields yaml : Fields) × (outcome ≡ loaded fields)
          × Given path yaml
          × ((field : String)
              → at_key fields field
                ≡ first_of (env env_prefix field) (first_of (default field) (at_key yaml field))))
        ⊎ ((e : String) × (outcome ≡ load_error e) × Failure env_prefix path e)

    labelled-Ends :
        (env_prefix path : String) (yaml : Fields) (outcome : Loaded)
        → Given path yaml
        → sources.process env_prefix yaml ≡ outcome
        → Ends env_prefix path (labelled "failed to process env vars: " outcome)
    labelled-Ends env_prefix path yaml (loaded fields) given h =
        inl (fields, yaml, refl, given, λ field. lib.fills env_prefix yaml fields field h)
    labelled-Ends env_prefix path yaml (load_error e) given h =
        inr (_, refl, not_processed yaml e given h)

    processed-Ends :
        (env_prefix path : String) (yaml : Loaded)
        → Read env_prefix path yaml
        → Ends env_prefix path (processed sources env_prefix yaml)
    unfolding processed Read
    processed-Ends env_prefix path (load_error e) failure = inr (e, refl, failure)
    processed-Ends env_prefix path (loaded yaml) given =
        labelled-Ends env_prefix path yaml (sources.process env_prefix yaml) given refl

    -- A configuration loads or fails. If it loads, each field has the environment's value, if it is set;
    -- else the default of the field, if it has one; and only else what the YAML file says, which
    -- is nothing without a path or a file. It fails with a labelled error of opening or decoding a
    -- file that exists, or of the environment, and never falls back to the other sources then.
    pub load-Ends : (env_prefix path : String) → Ends env_prefix path (load sources env_prefix path)
    unfolding load
    load-Ends env_prefix path =
        processed-Ends env_prefix path (from_yaml sources path) (from_yaml-Read env_prefix path)
