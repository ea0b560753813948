-- ===== src/Settings.antt =====
-- src/demo_controller/settings.py, and what main.py builds of the settings. float() and the JSON
-- module are parameters.
pub mod App
use demos_rework.Base.{ℕ, Bool, true, false, Option, none, some, List, [], ◌∷◌, ◌==◌, if◌then◌else◌}
use demos_rework.Base.Text.{Text, text, strip, lower}
use demos_rework.Base.Int.{ℤ}
use demos_rework.Base.ParseInt.{parse_int, is_space}
use demos_rework.Base.Json.{Json, string, object, Members, no_member, member, Codec}
use demos_rework.Base.Result.{Result, raise, ok, value_error, ◌>>=◌}
use demos_rework.Models.Config.{Dict, lookup}

-- float(text); `none` is the ValueError
pub record Floats : Type 1 where
  pub Float : Type 0
  pub read : Text → Option Float

pub record Settings (F : Type 0) : Type 0 where
  pub database_path : Text
  pub namespace : Text
  pub hostname_suffix : Text
  pub controller_owner : Text
  pub image_registry : Text
  pub vault_address : Text
  pub vault_namespace : Option Text
  pub vault_kv_mount : Text
  pub vault_base_path : Text
  pub vault_role_id : Text
  pub vault_secret_id : Text
  pub hmac_credentials : Dict
  pub reconcile_interval_seconds : F
  pub request_max_bytes : ℤ
  pub signature_max_age_seconds : ℤ
  pub rate_limit_per_minute : ℤ
  pub proxy_timeout_seconds : F

-- os.getenv(name, default)
unfoldable pub getenv : Dict → Text → Text → Text
getenv environ name default = elim (lookup name environ) [ none ↦ default | some v ↦ v ]

-- The items of a JSON object whose values are all texts.
unfoldable pub string_map : Members → Option Dict
string_map no_member = some []
string_map (member key (string v) rest) = elim (string_map rest) [
  | none ↦ none
  | some d ↦ some ((key, v) ∷ d)
]
string_map (member key _ rest) = none

abbrev pub bad_credentials : Result Dict
bad_credentials = raise (value_error (text "HMAC_CREDENTIALS must be a JSON string map"))

abbrev pub credentials_of : Option Json → Result Dict
credentials_of none = raise (value_error (text "invalid JSON"))
credentials_of (some (object members)) = elim (string_map members) [
  | none ↦ bad_credentials
  | some d ↦ ok d
]
credentials_of (some _) = bad_credentials

-- text.strip().strip("/").lower()
unfoldable pub registry_name : Text → Text
registry_name t = lower (strip (λ c. c == b'/') (strip is_space t))

-- text or None
abbrev pub or_none : Text → Option Text
or_none [] = none
or_none (c ∷ t) = some (c ∷ t)

abbrev pub or_value_error {ℓ} : {A : Type ℓ} → Option A → Result A
or_value_error none = raise (value_error (text "invalid literal"))
or_value_error (some a) = ok a

-- cls(…)
unfoldable pub settings_of : {F : Type 0} → Dict → Dict → F → ℤ → ℤ → ℤ → F → Settings F
unfolding getenv registry_name
settings_of environ credentials interval max_bytes max_age rate_limit proxy_timeout = record {
  database_path = getenv environ (text "DATABASE_PATH") (text "/data/controller.db");
  namespace = getenv environ (text "KUBERNETES_NAMESPACE") (text "default");
  hostname_suffix =
      strip (λ c. c == b'.') (getenv environ (text "HOSTNAME_SUFFIX") (text "demos.canonical.com"));
  controller_owner = getenv environ (text "CONTROLLER_OWNER") (text "demo-controller");
  image_registry = registry_name (getenv environ (text "IMAGE_REGISTRY") (text "ghcr.io"));
  vault_address =
      getenv environ (text "VAULT_ADDRESS") (text "https://vault.ps7.admin.canonical.com");
  vault_namespace = or_none (getenv environ (text "VAULT_NAMESPACE") []);
  vault_kv_mount = strip (λ c. c == b'/') (getenv environ (text "VAULT_KV_MOUNT") (text "secret"));
  vault_base_path = strip (λ c. c == b'/') (getenv environ (text "VAULT_BASE_PATH") (text "demos"));
  vault_role_id = getenv environ (text "VAULT_ROLE_ID") [];
  vault_secret_id = getenv environ (text "VAULT_SECRET_ID") [];
  hmac_credentials = credentials;
  reconcile_interval_seconds = interval;
  request_max_bytes = max_bytes;
  signature_max_age_seconds = max_age;
  rate_limit_per_minute = rate_limit;
  proxy_timeout_seconds = proxy_timeout;
}

-- Settings.from_env
unfoldable pub from_env : Codec → (floats : Floats) → Dict → Result (Settings floats.Float)
unfolding settings_of
from_env codec floats environ =
    credentials_of (codec.loads (getenv environ (text "HMAC_CREDENTIALS") (text "{}")))
    >>= λ credentials.
        or_value_error (floats.read (getenv environ (text "RECONCILE_INTERVAL") (text "10")))
        >>= λ interval.
            or_value_error (parse_int (getenv environ (text "REQUEST_MAX_BYTES") (text "65536")))
            >>= λ max_bytes.
                or_value_error (parse_int (getenv environ (text "SIGNATURE_MAX_AGE") (text "300")))
                >>= λ max_age.
                    or_value_error
                      (parse_int (getenv environ (text "RATE_LIMIT_PER_MINUTE") (text "60")))
                    >>= λ rate_limit.
                        or_value_error
                          (floats.read (getenv environ (text "PROXY_TIMEOUT") (text "30")))
                        >>= λ proxy_timeout. ok (
                            settings_of environ credentials interval max_bytes max_age rate_limit
                              proxy_timeout)
