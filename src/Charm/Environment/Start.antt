-- ===== src/Charm/Environment/Start.antt =====
-- The controller starts with the environment that the charm writes.
use demos_rework.Base.{ℕ, ◌≤◌, ◌≡◌, refl, ◌≢◌, ◌==◌, ◌∙◌, none, some, [], ◌∷◌, length}
use demos_rework.Base.Text.{Text, text, text_eq, lower, strip}
use demos_rework.Base.Decimal.{str}
use demos_rework.Base.Int.{ℤ, pos}
use demos_rework.Base.ParseInt.{is_space, parse_int, parse_int-str}
use demos_rework.Base.Json.{object, Members, Codec}
use demos_rework.Base.Result.{ok}
use demos_rework.Models.Config.{Dict, lookup}
use demos_rework.Settings.{
  Settings, Floats, getenv, or_none, registry_name, string_map, credentials_of, settings_of,
  from_env,
}
use demos_rework.Charm.Environment
use demos_rework.Charm.Environment.{
  proxy_entry, no_proxy_entry, role_of, secret_content, is_dot, Juju, Options, str_int,
  proxy_entries, filled_environment, environment,
}
use demos_rework.Charm.Environment.Proxies.{no_timeout}

-- What the json module says of a text that it writes for an object whose values are texts: it is
-- read as an object with the same values.
pub record WritesMaps (codec : Codec) : Type 0 where
  pub read_back :
      (members : Members) (d : Dict)
      → string_map members ≡ some d
      → (members' : Members) × (d' : Dict) × (codec.loads (codec.dumps (object members))
          ≡ some (object members'))
        × (string_map members' ≡ some d')
        × ((k : Text) → lookup k d' ≡ lookup k d)

getenv_missing :
    (environ : Dict) (name default : Text)
    → lookup name environ ≡ none
    → getenv environ name default ≡ default
unfolding getenv
getenv_missing environ name default h = rw (h, getenv) refl

-- A charm whose options and secrets are complete: an AppRole, credentials that are texts, counts
-- that are not negative and not too long for int(), and an interval for float().
pub record IsConfigured (codec : Codec) (floats : Floats) (juju : Juju) : Type 0 where
  pub role : Text × Text
  pub members : Members
  pub credentials : Dict
  pub max_bytes : ℕ
  pub max_age : ℕ
  pub rate_limit : ℕ
  pub interval : floats.Float
  pub timeout : floats.Float
  pub has_role : role_of (secret_content juju juju.config.vault_approle_secret) ≡ some role
  pub has_members :
      Environment.credentials_of codec (secret_content juju juju.config.hmac_credentials_secret)
      ≡ some members
  pub has_texts : string_map members ≡ some credentials
  pub has_max_bytes : juju.config.request_max_bytes ≡ pos max_bytes
  pub has_max_age : juju.config.signature_max_age ≡ pos max_age
  pub has_rate_limit : juju.config.rate_limit_per_minute ≡ pos rate_limit
  pub short_max_bytes : length (str max_bytes) ≤ 4300
  pub short_max_age : length (str max_age) ≤ 4300
  pub short_rate_limit : length (str rate_limit) ≤ 4300
  pub reads_interval : floats.read (str_int juju.config.reconcile_interval) ≡ some interval
  pub reads_timeout : floats.read (text "30") ≡ some timeout

-- t.strip().strip("/").lower()
abbrev pub trimmed : Text → Text
trimmed t = lower (strip (λ c. c == b'/') (strip is_space t))

or_none-filled : (t : Text) → (t ≡ [] → or_none t ≡ none) × (t ≢ [] → or_none t ≡ some t)
or_none-filled [] = (λ e. refl, λ filled. absurd (filled refl))
or_none-filled (c ∷ t) = (λ e. cc e, λ filled. refl)

-- The settings that the options and secrets mean.
pub record Carries {codec : Codec} {floats : Floats} {juju : Juju}
    (known : IsConfigured codec floats juju) (s : Settings floats.Float) : Type 0 where
  pub namespace : s.namespace ≡ juju.model_name
  pub owner : s.controller_owner ≡ juju.app_name
  pub suffix : s.hostname_suffix ≡ strip is_dot (strip is_dot juju.config.hostname_suffix)
  pub address : s.vault_address ≡ juju.config.vault_address
  -- Both sides trim the registry and lower it.
  pub registry : s.image_registry ≡ trimmed (trimmed juju.config.image_registry)
  pub database : s.database_path ≡ text "/data/controller.db"
  pub vault_namespace :
      (juju.config.vault_namespace ≡ [] → s.vault_namespace ≡ none)
      × (juju.config.vault_namespace ≢ [] → s.vault_namespace ≡ some juju.config.vault_namespace)
  pub kv_mount : s.vault_kv_mount ≡ strip (λ c. c == b'/') juju.config.vault_kv_mount
  pub base_path : s.vault_base_path ≡ strip (λ c. c == b'/') juju.config.vault_base_path
  pub role_id : s.vault_role_id ≡ known.role.0
  pub secret_id : s.vault_secret_id ≡ known.role.1
  pub keys : (k : Text) → lookup k s.hmac_credentials ≡ lookup k known.credentials
  pub max_bytes : s.request_max_bytes ≡ pos known.max_bytes
  pub max_age : s.signature_max_age_seconds ≡ pos known.max_age
  pub rate_limit : s.rate_limit_per_minute ≡ pos known.rate_limit
  pub interval : s.reconcile_interval_seconds ≡ known.interval
  pub timeout : s.proxy_timeout_seconds ≡ known.timeout

parse_str_int :
    (z : ℤ) (n : ℕ) → z ≡ pos n → length (str n) ≤ 4300 → parse_int (str_int z) ≡ some (pos n)
unfolding str_int
parse_str_int z n e short = rw (e, str_int) (parse_int-str n short)

-- What the environment has for the names that the controller reads.
module _ (codec : Codec) (juju : Juju) (role : Text × Text) (members : Members) where
  abbrev written : Dict
  written = filled_environment codec juju role members

  timeout_behind :
      lookup (text "PROXY_TIMEOUT") written
      ≡ lookup (text "PROXY_TIMEOUT") (proxy_entries juju.environ)
  unfolding filled_environment lookup text_eq text
  timeout_behind = refl

  get_timeout : getenv written (text "PROXY_TIMEOUT") (text "30") ≡ text "30"
  get_timeout =
      getenv_missing written (text "PROXY_TIMEOUT") (text "30")
        (timeout_behind ∙ no_timeout juju.environ)

  get_credentials :
      getenv written (text "HMAC_CREDENTIALS") (text "{}") ≡ codec.dumps (object members)
  unfolding getenv filled_environment lookup text_eq text
  get_credentials = refl

  get_interval :
      getenv written (text "RECONCILE_INTERVAL") (text "10")
      ≡ str_int juju.config.reconcile_interval
  unfolding getenv filled_environment lookup text_eq text
  get_interval = refl

  get_bytes :
      getenv written (text "REQUEST_MAX_BYTES") (text "65536")
      ≡ str_int juju.config.request_max_bytes
  unfolding getenv filled_environment lookup text_eq text
  get_bytes = refl

  get_age :
      getenv written (text "SIGNATURE_MAX_AGE") (text "300") ≡ str_int juju.config.signature_max_age
  unfolding getenv filled_environment lookup text_eq text
  get_age = refl

  get_rate :
      getenv written (text "RATE_LIMIT_PER_MINUTE") (text "60")
      ≡ str_int juju.config.rate_limit_per_minute
  unfolding getenv filled_environment lookup text_eq text
  get_rate = refl

  environment_written :
      role_of (secret_content juju juju.config.vault_approle_secret) ≡ some role
      → Environment.credentials_of codec (secret_content juju juju.config.hmac_credentials_secret)
        ≡ some members
      → environment codec juju ≡ some written
  unfolding environment filled_environment
  environment_written r m = rw (r, m, environment) refl

-- The settings, where all the parts can be read.
from_env_ok :
    (codec : Codec) (floats : Floats) (environ d : Dict) (members : Members)
    (interval timeout : floats.Float) (a b c : ℤ)
    → codec.loads (getenv environ (text "HMAC_CREDENTIALS") (text "{}")) ≡ some (object members)
    → string_map members ≡ some d
    → floats.read (getenv environ (text "RECONCILE_INTERVAL") (text "10")) ≡ some interval
    → parse_int (getenv environ (text "REQUEST_MAX_BYTES") (text "65536")) ≡ some a
    → parse_int (getenv environ (text "SIGNATURE_MAX_AGE") (text "300")) ≡ some b
    → parse_int (getenv environ (text "RATE_LIMIT_PER_MINUTE") (text "60")) ≡ some c
    → floats.read (getenv environ (text "PROXY_TIMEOUT") (text "30")) ≡ some timeout
    → from_env codec floats environ ≡ ok (settings_of environ d interval a b c timeout)
unfolding from_env settings_of
from_env_ok codec floats environ d members interval timeout a b c h0 h1 h2 h3 h4 h5 h6 =
    rw (h0, from_env, credentials_of, h1, h2, h3, h4, h5, h6, from_env) refl

settings-Carries :
    (codec : Codec) (floats : Floats) (juju : Juju) (known : IsConfigured codec floats juju)
    (d : Dict)
    → ((k : Text) → lookup k d ≡ lookup k known.credentials)
    → Carries known (
        settings_of
          (filled_environment codec juju known.role known.members)
          d
          known.interval
          (pos known.max_bytes)
          (pos known.max_age)
          (pos known.rate_limit)
          known.timeout)
unfolding settings_of getenv filled_environment registry_name lookup text_eq text
settings-Carries codec floats juju known d same = record {
  namespace = refl;
  owner = refl;
  suffix = refl;
  address = refl;
  registry = refl;
  database = refl;
  vault_namespace = or_none-filled juju.config.vault_namespace;
  kv_mount = refl;
  base_path = refl;
  role_id = refl;
  secret_id = refl;
  keys = same;
  max_bytes = refl;
  max_age = refl;
  rate_limit = refl;
  interval = refl;
  timeout = refl;
}

-- Where the options and the secrets are complete, the charm writes an environment, the controller
-- reads settings from it, and each setting is the one that its own option or secret means: the
-- names of the model and the application, the host suffix, the registry, the places and the role
-- in Vault, the keys, the limits and the intervals.
pub environment-starts :
    (codec : Codec) (floats : Floats) (juju : Juju)
    → WritesMaps codec
    → (known : IsConfigured codec floats juju)
    → (environ : Dict) × (s : Settings floats.Float) × (environment codec juju ≡ some environ)
      × (from_env codec floats environ ≡ ok s)
      × Carries known s
environment-starts codec floats juju laws known =
    let written = filled_environment codec juju known.role known.members in
    let (members', d, read, texts, same) =
      laws.read_back known.members known.credentials known.has_texts in
    let bytes =
      parse_str_int juju.config.request_max_bytes known.max_bytes known.has_max_bytes
        known.short_max_bytes in
    let age =
      parse_str_int juju.config.signature_max_age known.max_age known.has_max_age
        known.short_max_age in
    let rate =
      parse_str_int juju.config.rate_limit_per_minute known.rate_limit known.has_rate_limit
        known.short_rate_limit in
    let started =
      from_env_ok codec floats written d members' known.interval known.timeout (pos known.max_bytes)
        (pos known.max_age) (pos known.rate_limit)
        (rw (get_credentials codec juju known.role known.members) read) texts
        (rw (get_interval codec juju known.role known.members) known.reads_interval)
        (rw (get_bytes codec juju known.role known.members) bytes)
        (rw (get_age codec juju known.role known.members) age)
        (rw (get_rate codec juju known.role known.members) rate)
        (rw (get_timeout codec juju known.role known.members) known.reads_timeout) in
    (
      written,
      settings_of written d known.interval (pos known.max_bytes) (pos known.max_age)
          (pos known.rate_limit) known.timeout,
      environment_written codec juju known.role known.members known.has_role known.has_members,
      started,
      settings-Carries codec floats juju known d same,
    )
