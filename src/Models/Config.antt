-- ===== src/Models/Config.antt =====
-- ResourceValues and ProjectConfig of models.py. A dictionary is a list of its items, in order,
-- whose names differ; a raw field that the JSON leaves out is `none` and takes its default, which
-- pydantic does not validate.
use demos_rework.Base.{
  ℕ, suc, ◌*◌, Bool, true, false, not, ◌&&◌, ◌||◌, Option, none, some, List, [], ◌∷◌, ltb, leb,
  if◌then◌else◌, length, all, any,
}
use demos_rework.Base.Maybe.{◌>>=◌, ◌>>◌, check}
use demos_rework.Base.Text.{Text, text, text_eq, is_digit, starts_with}
use demos_rework.Base.Decimal.{value}
use demos_rework.Base.Int.{ℤ, pos}
use demos_rework.Regex.{fullmatch}
use demos_rework.Models.Patterns.{env_re, cpu_re, memory_re, health_path_re}
use demos_rework.Models.{bounded}

abbrev pub Dict : Type 0
Dict = List (Text × Text)

-- d.get(k)
unfoldable pub lookup : Text → Dict → Option Text
lookup k [] = none
lookup k ((j, v) ∷ d) = if text_eq j k then some v else lookup k d

pub record ResourceValues : Type 0 where
  pub cpu_request : Text
  pub cpu_limit : Text
  pub memory_request : Text
  pub memory_limit : Text

pub record RawResources : Type 0 where
  pub cpu_request : Option Text
  pub cpu_limit : Option Text
  pub memory_request : Option Text
  pub memory_limit : Option Text

-- validate_cpu
unfoldable pub validate_cpu : Text → Option Text
validate_cpu v = if fullmatch cpu_re v then some v else none

-- match.group(1) and match.group(2) of a memory value: its leading digits, and what follows them
unfoldable pub leading_digits : Text → Text
leading_digits [] = []
leading_digits (c ∷ s) = if is_digit c then c ∷ leading_digits s else []

unfoldable pub after_digits : Text → Text
after_digits [] = []
after_digits (c ∷ s) = if is_digit c then after_digits s else c ∷ s

-- The value in MiB, as validate_memory computes it.
unfoldable pub mib : Text → ℕ
unfolding leading_digits after_digits
mib v = value 0 (leading_digits v) * (if text_eq (after_digits v) (text "Gi") then 1024 else 1)

-- validate_memory
unfoldable pub validate_memory : Text → Option Text
validate_memory v =
    if fullmatch memory_re v then (if ltb 8192 (mib v) then none else some v) else none

-- A field with a default, validated if it is given.
abbrev pub field_or : Text → (Text → Option Text) → Option Text → Option Text
field_or default validate none = some default
field_or default validate (some v) = validate v

-- ResourceValues.model_validate
unfoldable pub validate_resources : RawResources → Option ResourceValues
validate_resources raw = do
  cpu_request ← field_or (text "50m") validate_cpu raw.cpu_request
  cpu_limit ← field_or (text "1") validate_cpu raw.cpu_limit
  memory_request ← field_or (text "128Mi") validate_memory raw.memory_request
  memory_limit ← field_or (text "1Gi") validate_memory raw.memory_limit
  some (record {
    cpu_request = cpu_request;
    cpu_limit = cpu_limit;
    memory_request = memory_request;
    memory_limit = memory_limit;
  })

pub record RawConfig : Type 0 where
  pub schema_version : ℤ
  pub enabled : Bool
  pub environment : Dict
  pub secrets : Dict
  pub port : Option ℤ
  pub health_path : Option Text
  pub resources : RawResources
  pub image_namespace : Option Text

pub record ProjectConfig : Type 0 where
  pub environment : Dict
  pub secrets : Dict
  pub port : ℕ
  pub health_path : Text
  pub resources : ResourceValues
  pub image_namespace : Option Text

-- validate_environment
unfoldable pub entry_ok : Text × Text → Bool
entry_ok (name, item) = fullmatch env_re name && leb (length item) 16384

unfoldable pub validate_environment : Dict → Option Dict
validate_environment d = if leb (length d) 100 && all entry_ok d then some d else none

-- sub in s
unfoldable pub contains : Text → Text → Bool
contains sub [] = starts_with sub []
contains sub (c ∷ s) = starts_with sub (c ∷ s) || contains sub s

-- validate_health_path
unfoldable pub validate_health_path : Text → Option Text
validate_health_path v =
    if fullmatch health_path_re v && not (contains (text "..") v) then some v else none

unfoldable pub port_or_default : Option ℤ → Option ℕ
port_or_default none = some 8000
port_or_default (some n) = bounded 1024 65535 n

unfoldable pub has_key : Text → Dict → Bool
has_key k d = any (λ e. text_eq e.0 k) d

-- environment.keys() & secrets.keys()
unfoldable pub overlap : Dict → Dict → Bool
overlap environment secrets = any (λ e. has_key e.0 secrets) environment

unfoldable pub is_version_one : ℤ → Bool
is_version_one (pos (suc ℕ.zero)) = true
is_version_one _ = false

-- ProjectConfig.model_validate, with distinct_environment_names at its end
unfoldable pub validate_project : RawConfig → Option ProjectConfig
validate_project raw = do
  check (is_version_one raw.schema_version)
  environment ← validate_environment raw.environment
  secrets ← validate_environment raw.secrets
  port ← port_or_default raw.port
  health_path ← field_or (text "/") validate_health_path raw.health_path
  resources ← validate_resources raw.resources
  check (not (overlap environment secrets))
  check raw.enabled
  some (record {
    environment = environment;
    secrets = secrets;
    port = port;
    health_path = health_path;
    resources = resources;
    image_namespace = raw.image_namespace;
  })
