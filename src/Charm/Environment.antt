-- ===== src/Charm/Environment.antt =====
-- charm/src/charm.py: _secret_content and _environment, the environment of the controller's
-- process. The JSON module and what Juju gives are parameters.
pub mod Proxies
pub mod Start
use demos_rework.Base.{
  ℕ, ◌+◌, Bool, true, false, not, ◌&&◌, Option, none, some, List, [], ◌∷◌, ◌++◌, ◌==◌, any,
  if◌then◌else◌,
}
use demos_rework.Base.Text.{Text, text, text_eq, strip}
use demos_rework.Base.Decimal.{str}
use demos_rework.Base.Int.{ℤ, pos, negsuc}
use demos_rework.Base.Json.{Json, object, Members, no_member, member, Codec}
use demos_rework.Models.Config.{Dict, lookup}
use demos_rework.Settings.{registry_name}

-- The options of the charm, by their types; an option of type secret is the id, where it is set.
pub record Options : Type 0 where
  pub api_hostname : Text
  pub hostname_suffix : Text
  pub image_registry : Text
  pub vault_address : Text
  pub vault_namespace : Text
  pub vault_kv_mount : Text
  pub vault_base_path : Text
  pub vault_approle_secret : Option Text
  pub hmac_credentials_secret : Option Text
  pub reconcile_interval : ℤ
  pub request_max_bytes : ℤ
  pub signature_max_age : ℤ
  pub rate_limit_per_minute : ℤ

-- What Juju gives: the name of the model and of the application, the options, the content of a
-- secret (`none` is SecretNotFoundError or ModelError), and the environment of the charm's process.
pub record Juju : Type 0 where
  pub model_name : Text
  pub app_name : Text
  pub config : Options
  pub secret : Text → Option Dict
  pub environ : Dict

-- str(n)
unfoldable pub str_int : ℤ → Text
str_int (pos n) = str n
str_int (negsuc n) = text "-" ++ str (n + 1)

-- _secret_content, for the value of the option
abbrev pub secret_content : Juju → Option Text → Option Dict
secret_content juju none = none
secret_content juju (some []) = none
secret_content juju (some (c ∷ secret_id)) = juju.secret (c ∷ secret_id)

-- The role and the secret of the AppRole.
abbrev pub role_of : Option Dict → Option (Text × Text)
role_of none = none
role_of (some content) = elim (lookup (text "role-id") content) [
  | none ↦ none
  | some role_id ↦ elim (lookup (text "secret-id") content) [
    | none ↦ none
    | some secret_id ↦ some (role_id, secret_id)
  ]
]

-- json.loads(…), where it is an object with members
abbrev pub filled_object : Option Json → Option Members
filled_object (some (object (member key v rest))) = some (member key v rest)
filled_object _ = none

abbrev pub credentials_of : Codec → Option Dict → Option Members
credentials_of codec none = none
credentials_of codec (some content) = elim (lookup (text "credentials") content) [
  | none ↦ none
  | some shown ↦ filled_object (codec.loads shown)
]

-- environment[name] = value, if there is a value that is not empty
abbrev pub proxy_entry : Dict → Text → Text → Dict
proxy_entry environ juju_name standard_name = elim (lookup juju_name environ) [
  | none ↦ []
  | some [] ↦ []
  | some (c ∷ v) ↦ (standard_name, c ∷ v) ∷ []
]

-- The items of text.split(",") that are not empty.
unfoldable pub add_char : ℕ → List Text → List Text
add_char c [] = (c ∷ []) ∷ []
add_char c (t ∷ items) = (c ∷ t) ∷ items

unfoldable pub split_commas : Text → List Text
unfolding add_char
split_commas [] = [] ∷ []
split_commas (c ∷ s) = let rest = split_commas s in if c == b',' then [] ∷ rest else add_char c rest

unfoldable pub filled : List Text → List Text
filled [] = []
filled ([] ∷ items) = filled items
filled ((c ∷ t) ∷ items) = (c ∷ t) ∷ filled items

-- list(dict.fromkeys(items)), behind the items that were seen
unfoldable pub distinct : List Text → List Text → List Text
distinct seen [] = []
distinct seen (t ∷ items) =
    let known = distinct seen items in
    let fresh = distinct (t ∷ seen) items in
    if any (λ u. text_eq u t) seen then known else t ∷ fresh

unfoldable pub join_commas : List Text → Text
join_commas [] = []
join_commas (t ∷ []) = t
join_commas (t ∷ u ∷ items) = t ++ (text "," ++ join_commas (u ∷ items))

abbrev pub or_nothing : Option Text → List Text
or_nothing (some (c ∷ t)) = (c ∷ t) ∷ []
or_nothing _ = []

abbrev pub or_blank : Option Text → Text
or_blank none = []
or_blank (some t) = t

abbrev pub no_proxy_entry : List Text → Dict
no_proxy_entry [] = []
no_proxy_entry (t ∷ items) = (text "NO_PROXY", join_commas (distinct [] (t ∷ items))) ∷ []

unfoldable pub proxy_entries : Dict → Dict
unfolding split_commas filled distinct join_commas
proxy_entries environ =
    proxy_entry environ (text "JUJU_CHARM_HTTP_PROXY") (text "HTTP_PROXY")
    ++ (proxy_entry environ (text "JUJU_CHARM_HTTPS_PROXY") (text "HTTPS_PROXY")
        ++ no_proxy_entry (
            filled (split_commas (or_blank (lookup (text "JUJU_CHARM_NO_PROXY") environ)))
            ++ or_nothing (lookup (text "KUBERNETES_SERVICE_HOST") environ)))

abbrev pub is_dot : ℕ → Bool
is_dot c = c == b'.'

-- The environment, of the role, the secret and the credentials.
unfoldable pub filled_environment : Codec → Juju → Text × Text → Members → Dict
unfolding proxy_entries str_int
filled_environment codec juju (role_id, secret_id) credentials =
    let config = juju.config in
    (text "DATABASE_PATH", text "/data/controller.db")
    ∷ (text "KUBERNETES_NAMESPACE", juju.model_name)
    ∷ (text "CONTROLLER_OWNER", juju.app_name)
    ∷ (text "HOSTNAME_SUFFIX", strip is_dot config.hostname_suffix)
    ∷ (text "IMAGE_REGISTRY", registry_name config.image_registry)
    ∷ (text "UVICORN_HOST", text "0.0.0.0")
    ∷ (text "UVICORN_PORT", text "8080")
    ∷ (text "VAULT_ADDRESS", config.vault_address)
    ∷ (text "VAULT_NAMESPACE", config.vault_namespace)
    ∷ (text "VAULT_KV_MOUNT", config.vault_kv_mount)
    ∷ (text "VAULT_BASE_PATH", config.vault_base_path)
    ∷ (text "VAULT_ROLE_ID", role_id)
    ∷ (text "VAULT_SECRET_ID", secret_id)
    ∷ (text "HMAC_CREDENTIALS", codec.dumps (object credentials))
    ∷ (text "RECONCILE_INTERVAL", str_int config.reconcile_interval)
    ∷ (text "REQUEST_MAX_BYTES", str_int config.request_max_bytes)
    ∷ (text "SIGNATURE_MAX_AGE", str_int config.signature_max_age)
    ∷ (text "RATE_LIMIT_PER_MINUTE", str_int config.rate_limit_per_minute)
    ∷ proxy_entries juju.environ

-- _environment
unfoldable pub environment : Codec → Juju → Option Dict
unfolding filled_environment
environment codec juju = elim (role_of (secret_content juju juju.config.vault_approle_secret)) [
  | none ↦ none
  | some role ↦
      elim (credentials_of codec (secret_content juju juju.config.hmac_credentials_secret)) [
        | none ↦ none
        | some credentials ↦ some (filled_environment codec juju role credentials)
      ]
]
