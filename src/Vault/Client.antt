-- ===== src/Vault/Client.antt =====
-- src/demo_controller/vault.py: VaultClient's token and the lookup of a project. JSON is read on the
-- values of Base/Json, and pydantic's reading of a configuration is a parameter.
use demos_rework.Base.{
  ℕ, suc, ◌+◌, ◌-◌, Bool, true, false, not, ◌||◌, Option, none, some, [], ◌∷◌, ◌++◌, leb, ltb, ◌==◌,
  if◌then◌else◌, ◌⊎◌, inl, inr,
}
use demos_rework.Base.Text.{Text, text, text_eq, replace, rstrip, strip}
use demos_rework.Base.Decimal.{str}
use demos_rework.Base.Int.{ℤ, pos, negsuc}
use demos_rework.Base.ParseInt.{parse_int}
use demos_rework.Base.Json.{
  Json, null, boolean, number, string, array, object, no_item, Members, no_member, member,
}
use demos_rework.Models.Config.{Dict}
use demos_rework.Vault.{
  TransportError, pool_timeout, connect_timeout, connect_error, proxy_error, other_transport,
}

-- The fields that stay as they are, as the constructor leaves them.
pub record Config : Type 0 where
  pub address : Text
  pub role_id : Text
  pub secret_id : Text
  pub kv_mount : Text
  pub base_path : Text
  pub namespace : Option Text
  pub owns_client : Bool

-- VaultClient.__init__, for a client of its own or a given one
unfoldable pub vault_client : Text → Text → Text → Text → Text → Option Text → Bool → Config
vault_client address role_id secret_id kv_mount base_path namespace owns_client = record {
  address = rstrip (λ c. c == b'/') address;
  role_id = role_id;
  secret_id = secret_id;
  kv_mount = strip (λ c. c == b'/') kv_mount;
  base_path = strip (λ c. c == b'/') base_path;
  namespace = namespace;
  owns_client = owns_client;
}

-- _token, _token_expires_at and _renewable
pub record Token : Type 0 where
  pub token : Option Text
  pub expires_at : ℤ
  pub renewable : Bool

-- The exceptions that are caught.
pub data Failure : Type 0 where
  http_status : ℕ → Failure
  transport_failed : TransportError → Failure
  http_failed : Text → Failure
  key_error type_error value_error : Failure

abbrev pub transport_name : TransportError → Text
transport_name pool_timeout = text "PoolTimeout"
transport_name connect_timeout = text "ConnectTimeout"
transport_name connect_error = text "ConnectError"
transport_name proxy_error = text "ProxyError"
transport_name (other_transport name) = name

-- _error_detail
unfoldable pub error_detail : Failure → Text
error_detail (http_status code) = text "HTTP " ++ str code
error_detail (transport_failed e) = transport_name e
error_detail (http_failed name) = name
error_detail key_error = text "KeyError"
error_detail type_error = text "TypeError"
error_detail value_error = text "ValueError"

-- What a method gives or raises: a value, a VaultError by its category and text, or any other
-- exception.
pub data Answer {ℓ} (A : Type ℓ) : Type ℓ where
  found : A → Answer A
  vault_error : Text → Text → Answer A
  crashed : Text → Answer A

-- _authentication_error
unfoldable pub authentication_error {ℓ} : {A : Type ℓ} → Failure → Answer A
authentication_error e =
    vault_error (text "authentication_" ++ replace b' ' b'_' (error_detail e))
      (text "Vault authentication failed (" ++ (error_detail e ++ text ")"))

abbrev pub is_filled : Text → Bool
is_filled [] = false
is_filled (_ ∷ _) = true

abbrev pub namespace_header : Option Text → Dict
namespace_header none = []
namespace_header (some []) = []
namespace_header (some (c ∷ n)) = (text "X-Vault-Namespace", c ∷ n) ∷ []

abbrev pub token_header : Option Text → Dict
token_header none = []
token_header (some []) = []
token_header (some (c ∷ t)) = (text "X-Vault-Token", c ∷ t) ∷ []

-- _headers
unfoldable pub headers : Config → Bool → Token → Dict
headers config authenticated token =
    namespace_header config.namespace ++ (if authenticated then token_header token.token else [])

-- members.get(key), and value[key], which raises KeyError, or TypeError where there are no keys
unfoldable pub get_member : Text → Members → Option Json
get_member key no_member = none
get_member key (member k v rest) =
    let later = get_member key rest in if text_eq k key then some v else later

abbrev pub or_failure : Option Json → Failure ⊎ Json
or_failure none = inl key_error
or_failure (some j) = inr j

unfoldable pub index : Text → Json → Failure ⊎ Json
index key (object members) = or_failure (get_member key members)
index key _ = inl type_error

-- What a value is as an int, if isinstance(value, int): a bool is one.
unfoldable pub int_of : Json → Option ℤ
int_of (boolean true) = some (pos 1)
int_of (boolean false) = some (pos 0)
int_of (number t) = parse_int t
int_of _ = none

unfoldable pub text_of : Json → Option Text
text_of (string t) = some t
text_of _ = none

-- bool(value); a number is false if it is written as a zero
abbrev pub is_zero : Text → Bool
is_zero t = text_eq t (text "0") || text_eq t (text "0.0") || text_eq t (text "-0.0")

unfoldable pub truth : Json → Bool
truth null = false
truth (boolean b) = b
truth (number t) = not (is_zero t)
truth (string t) = is_filled t
truth (array no_item) = false
truth (array _) = true
truth (object no_member) = false
truth (object _) = true

abbrev pub truth_of : Option Json → Bool
truth_of none = false
truth_of (some j) = truth j

-- now + lease_duration
abbrev pub shifted : ℕ → ℤ → ℤ
shifted now (pos n) = pos (now + n)
shifted now (negsuc n) = if leb (suc n) now then pos (now - suc n) else negsuc (n - now)

-- now < expires_at - 30
abbrev pub is_current : ℕ → ℤ → Bool
is_current now (pos e) = ltb (now + 30) e
is_current now (negsuc e) = false

abbrev pub bind_option {ℓ κ} : {A : Type ℓ} {B : Type κ} → Option A → (A → Option B) → Option B
bind_option none f = none
bind_option (some a) f = f a

-- The fields that _set_token reads of an object.
unfoldable pub read_token : ℕ → Members → Option Token
read_token now auth = elim (bind_option (get_member (text "client_token") auth) text_of) [
  | none ↦ none
  | some token ↦ elim (bind_option (get_member (text "lease_duration") auth) int_of) [
    | none ↦ none
    | some lease ↦ some (record {
      token = some token;
      expires_at = shifted now lease;
      renewable = truth_of (get_member (text "renewable") auth);
    })
  ]
]
