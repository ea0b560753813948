-- ===== src/Vault/Token.antt =====
-- src/demo_controller/vault.py: the token, by renewal or by a new login.
use demos_rework.Base.{
  ℕ, Bool, true, false, ◌&&◌, Option, none, some, ◌++◌, leb, if◌then◌else◌, inl, inr,
}
use demos_rework.Base.Text.{Text, text}
use demos_rework.Base.Json.{Json, string, object, no_member, member}
use demos_rework.Vault.{Call, Attempt, response, transport, http_error, broken, Transport, request}
use demos_rework.Vault.Client.{
  Config, Token, Failure, http_status, transport_failed, http_failed, value_error, Answer, found,
  vault_error, crashed, authentication_error, is_filled, headers, index, is_current, read_token,
}

-- What the answer to a login or a renewal is to the client.
pub data Grant : Type 0 where
  granted : Token → Grant
  -- VaultError of _set_token
  invalid : Grant
  failing : Failure → Grant
  crashing : Text → Grant

abbrev pub or_invalid : Option Token → Grant
or_invalid none = invalid
or_invalid (some token) = granted token

-- _set_token(response.json()["auth"]): what is no object has no method get
unfoldable pub grant_of : ℕ → Json → Grant
grant_of now j = elim (index (text "auth") j) [
  | inl e ↦ failing e
  | inr (object auth) ↦ or_invalid (read_token now auth)
  | inr _ ↦ crashing (text "AttributeError")
]

-- response.is_success, the test of raise_for_status
abbrev pub is_success : ℕ → Bool
is_success code = leb 200 code && leb code 299

abbrev pub json_grant : ℕ → Option Json → Grant
json_grant now none = failing value_error
json_grant now (some j) = grant_of now j

unfoldable pub accept_grant : ℕ → Attempt → Grant
unfolding grant_of
accept_grant now (response r) =
    if is_success r.status then json_grant now r.json else failing (http_status r.status)
accept_grant now (transport e) = failing (transport_failed e)
accept_grant now (http_error name) = failing (http_failed name)
accept_grant now (broken name) = crashing name

abbrev pub has_token : Option Text → Bool
has_token none = false
has_token (some t) = is_filled t

abbrev pub invalid_authentication {ℓ} : {A : Type ℓ} → Answer A
invalid_authentication =
    vault_error (text "invalid_authentication_response")
      (text "Vault returned an invalid authentication response")

abbrev pub missing_credentials {ℓ} : {A : Type ℓ} → Answer A
missing_credentials =
    vault_error (text "missing_credentials") (text "Vault AppRole credentials are not configured")

unfoldable pub login_call : Config → Token → Call
unfolding headers
login_call config token = record {
  method = text "POST";
  url = config.address ++ text "/v1/auth/approle/login";
  headers = headers config false token;
  json = some (
      object (
        member (text "role_id") (string config.role_id)
          (member (text "secret_id") (string config.secret_id) no_member)));
}

unfoldable pub renew_call : Config → Token → Call
unfolding headers
renew_call config token = record {
  method = text "POST";
  url = config.address ++ text "/v1/auth/token/renew-self";
  headers = headers config true token;
  json = none;
}

abbrev pub without_token : Token → Token
without_token token = record token { token = none }

module _ (t : Transport) (config : Config) where
  open t use {World, clock}

  abbrev pub Outcome : Type 0 → Type 0
  Outcome A = Answer A × (Token × World)

  -- Behind the login's request.
  abbrev pub after_login : Grant → Token → World → Outcome (Unit {0})
  after_login (granted fresh) token w = (found tt, (fresh, w))
  after_login invalid token w = (invalid_authentication, (token, w))
  after_login (failing e) token w = (authentication_error e, (token, w))
  after_login (crashing name) token w = (crashed name, (token, w))

  -- _ensure_token, from the test of the credentials on
  unfoldable pub log_in : Token → World → Outcome (Unit {0})
  unfolding login_call accept_grant
  log_in token w =
      let (a, w') = request t config.owns_client (login_call config token) w in
      if is_filled config.role_id && is_filled config.secret_id
      then after_login (accept_grant (clock w') a) token w'
      else (missing_credentials, (token, w))

  -- Behind the renewal's request: after a failure that is none of the transport a login follows.
  abbrev pub after_renewal : Grant → Token → World → Outcome (Unit {0})
  after_renewal (granted fresh) token w = (found tt, (fresh, w))
  after_renewal invalid token w = (invalid_authentication, (token, w))
  after_renewal (failing (transport_failed e)) token w =
      (authentication_error (transport_failed e), (token, w))
  after_renewal (failing e) token w = log_in (without_token token) w
  after_renewal (crashing name) token w = (crashed name, (token, w))

  -- _ensure_token
  unfoldable pub ensure_token : Token → World → Outcome (Unit {0})
  unfolding log_in renew_call accept_grant
  ensure_token token w =
      let (a, w') = request t config.owns_client (renew_call config token) w in
      if has_token token.token && is_current (clock w) token.expires_at
      then (found tt, (token, w))
      else if has_token token.token && token.renewable
      then after_renewal (accept_grant (clock w') a) token w'
      else log_in token w
