-- ===== src/Vault/Lookup.antt =====
-- src/demo_controller/vault.py: project, the lookup of a project's configuration.
use demos_rework.Base.{
  Bool, true, false, ◌||◌, Option, none, some, ◌++◌, ◌==◌, if◌then◌else◌, ◌⊎◌, inl, inr, any,
}
use demos_rework.Base.Text.{Text, text, replace}
use demos_rework.Base.Int.{ℤ, pos}
use demos_rework.Base.Json.{Json}
use demos_rework.Models.Config.{RawConfig, ProjectConfig, validate_project}
use demos_rework.Vault.{Call, Attempt, response, transport, http_error, broken, Transport, request}
use demos_rework.Vault.Client.{
  Config, Token, Failure, http_status, transport_failed, http_failed, type_error, value_error,
  Answer, found, vault_error, crashed, error_detail, headers, index, int_of,
}
use demos_rework.Vault.Token.{is_success, ensure_token, Outcome}

pub record VaultProject : Type 0 where
  pub config : ProjectConfig
  pub version : ℤ

abbrev pub lookup_error : Failure → Answer VaultProject
lookup_error e =
    vault_error (text "lookup_" ++ replace b' ' b'_' (error_detail e))
      (text "Vault project lookup failed (" ++ (error_detail e ++ text ")"))

abbrev pub invalid_data : Answer VaultProject
invalid_data =
    vault_error (text "invalid_project_data") (text "Vault project returned invalid data")

infixl 5 ◌>>=◌
abbrev pub ◌>>=◌ : {A B : Type 0} → Failure ⊎ A → (A → Failure ⊎ B) → Failure ⊎ B
inl e >>= f = inl e
inr a >>= f = f a

abbrev pub or_failing : {A : Type 0} → Failure → Option A → Failure ⊎ A
or_failing e none = inl e
or_failing e (some a) = inr a

-- ProjectConfig.model_validate(…): pydantic's reading, and then the validators
unfoldable pub model_validate : (Json → Option RawConfig) → Json → Failure ⊎ ProjectConfig
model_validate read_config j = elim (read_config j) [
  | none ↦ inl value_error
  | some raw ↦ or_failing value_error (validate_project raw)
]

unfoldable pub read_project : (Json → Option RawConfig) → Json → Failure ⊎ VaultProject
unfolding model_validate
read_project read_config j = do
  payload ← index (text "data") j
  given ← index (text "data") payload
  config ← model_validate read_config given
  metadata ← index (text "metadata") payload
  number ← index (text "version") metadata
  version ← or_failing type_error (int_of number)
  inr (record { config = config; version = version })

abbrev pub or_invalid_data : Failure ⊎ VaultProject → Answer VaultProject
or_invalid_data (inl e) = invalid_data
or_invalid_data (inr p) = found p

abbrev pub json_project : (Json → Option RawConfig) → Option Json → Answer VaultProject
json_project read_config none = invalid_data
json_project read_config (some j) = or_invalid_data (read_project read_config j)

-- What project makes of the last response.
unfoldable pub conclude : (Json → Option RawConfig) → Attempt → Answer VaultProject
unfolding read_project
conclude read_config (response r) =
    if r.status == 404
    then vault_error (text "project_not_configured") (text "repository is not configured in Vault")
    else if is_success r.status
    then json_project read_config r.json
    else lookup_error (http_status r.status)
conclude read_config (transport e) = lookup_error (transport_failed e)
conclude read_config (http_error name) = lookup_error (http_failed name)
conclude read_config (broken name) = crashed name

abbrev pub is_denied : Attempt → Bool
is_denied (response r) = r.status == 401 || r.status == 403
is_denied _ = false

unfoldable pub lookup_call : Config → Text → Token → Call
unfolding headers
lookup_call config repository token = record {
  method = text "GET";
  url =
      config.address
      ++ (text "/v1/"
          ++ (config.kv_mount
              ++ (text "/data/" ++ (config.base_path ++ (text "/v1/" ++ repository)))));
  headers = headers config true token;
  json = none;
}

abbrev pub expired : Token → Token
expired token = record token { token = none; expires_at = pos 0 }

module _ (t : Transport) (config : Config) (read_config : Json → Option RawConfig)
    (repository : Text) where
  open t use {World}

  -- Behind the second _ensure_token.
  abbrev pub second_lookup : Outcome t config (Unit {0}) → Outcome t config VaultProject
  second_lookup (found _, (token, w)) =
      let (a, w') = request t config.owns_client (lookup_call config repository token) w in
      (conclude read_config a, (token, w'))
  second_lookup (vault_error category message, s) = (vault_error category message, s)
  second_lookup (crashed name, s) = (crashed name, s)

  -- Behind the first response.
  unfoldable pub settle : Attempt → Token → World → Outcome t config VaultProject
  unfolding ensure_token lookup_call conclude
  settle a token w =
      if is_denied a
      then second_lookup (ensure_token t config (expired token) w)
      else (conclude read_config a, (token, w))

  -- Behind the first _ensure_token; a repository without a slash is no pair to unpack.
  abbrev pub first_lookup : Outcome t config (Unit {0}) → Outcome t config VaultProject
  first_lookup (found _, (token, w)) =
      let (a, w') = request t config.owns_client (lookup_call config repository token) w in
      if any (λ c. c == b'/') repository
      then settle a token w'
      else (crashed (text "ValueError"), (token, w))
  first_lookup (vault_error category message, s) = (vault_error category message, s)
  first_lookup (crashed name, s) = (crashed name, s)

  -- project
  unfoldable pub project : Token → World → Outcome t config VaultProject
  unfolding settle ensure_token
  project token w = first_lookup (ensure_token t config token w)
