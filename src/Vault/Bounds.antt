-- ===== src/Vault/Bounds.antt =====
-- How many requests a lookup sends to Vault, and what it returns.
use demos_rework.Base.{
  ℕ, ◌+◌, ◌≤◌, ◌≡◌, refl, Bool, true, false, ◌&&◌, Option, arith, if◌then◌else◌, Bool-cases, inl,
  inr, any, ◌==◌,
}
use demos_rework.Base.Text.{Text}
use demos_rework.Base.Json.{Json}
use demos_rework.Models.Config.{RawConfig}
use demos_rework.Vault.{Call, Attempt, Transport, request}
use demos_rework.Vault.Requests.{Counts, request_sends_once}
use demos_rework.Vault.Client.{
  Config, Token, http_status, transport_failed, http_failed, key_error, type_error, value_error,
  found, vault_error, crashed, is_current, is_filled,
}
use demos_rework.Vault.Token.{
  Grant, granted, invalid, failing, crashing, accept_grant, login_call, renew_call, has_token,
  without_token, Outcome, after_login, log_in, after_renewal, ensure_token,
}
use demos_rework.Vault.Lookup.{
  is_denied, lookup_call, expired, second_lookup, settle, first_lookup, project,
}

module _ (t : Transport) (received : t.World → ℕ) (laws : Counts t received) (config : Config) where
  -- The requests that have reached Vault behind an outcome.
  abbrev sent : {A : Type 0} → Outcome t config A → ℕ
  sent o = received o.1.1

  abbrev sends_once :
      (call : Call) (w : t.World)
      → received (request t config.owns_client call w).1 ≤ received w + 1
  sends_once call w = request_sends_once t received laws config.owns_client call w

  branch_sent :
      {A : Type 0} (b : Bool) (o p : Outcome t config A) (n : ℕ)
      → sent o ≤ n
      → sent p ≤ n
      → sent (if b then o else p) ≤ n
  branch_sent true o p n ho hp = ho
  branch_sent false o p n ho hp = hp

  after_login_sent :
      (g : Grant) (token : Token) (w : t.World) → sent (after_login t config g token w) ≡ received w
  after_login_sent (granted fresh) token w = refl
  after_login_sent invalid token w = refl
  after_login_sent (failing e) token w = refl
  after_login_sent (crashing name) token w = refl

  log_in_sent : (token : Token) (w : t.World) → sent (log_in t config token w) ≤ received w + 1
  unfolding log_in
  log_in_sent token w =
      let call = login_call config token in
      let (a, w') = request t config.owns_client call w in
      branch_sent (is_filled config.role_id && is_filled config.secret_id) _ _ (received w + 1)
        (omega (arith, after_login_sent (accept_grant (t.clock w') a) token w', sends_once call w))
        (omega arith)

  after_renewal_sent :
      (g : Grant) (token : Token) (w : t.World)
      → sent (after_renewal t config g token w) ≤ received w + 1
  after_renewal_sent (granted fresh) token w = omega arith
  after_renewal_sent invalid token w = omega arith
  after_renewal_sent (crashing name) token w = omega arith
  after_renewal_sent (failing (transport_failed e)) token w = omega arith
  after_renewal_sent (failing (http_status code)) token w = log_in_sent (without_token token) w
  after_renewal_sent (failing (http_failed name)) token w = log_in_sent (without_token token) w
  after_renewal_sent (failing key_error) token w = log_in_sent (without_token token) w
  after_renewal_sent (failing type_error) token w = log_in_sent (without_token token) w
  after_renewal_sent (failing value_error) token w = log_in_sent (without_token token) w

  with_token :
      (token : Token) (w : t.World)
      → let (a, w') = request t config.owns_client (renew_call config token) w in
        received
          (if is_current (t.clock w) token.expires_at
            then (found tt, (token, w))
            else if token.renewable
            then after_renewal t config (accept_grant (t.clock w') a) token w'
            else log_in t config token w).1.1
        ≤ received w + 2
  with_token token w =
      let call = renew_call config token in
      let (a, w') = request t config.owns_client call w in
      branch_sent (is_current (t.clock w) token.expires_at) _ _ (received w + 2) (omega arith) (
        branch_sent token.renewable _ _ (received w + 2)
          (omega
            (arith, after_renewal_sent (accept_grant (t.clock w') a) token w', sends_once call w))
          (omega (arith, log_in_sent token w)))

  -- A token is had by at most a renewal and a login, and without a token by at most a login.
  ensure_token_sent :
      (token : Token) (w : t.World)
      → sent (ensure_token t config token w) ≤ received w + (if has_token token.token then 2 else 1)
  unfolding ensure_token
  ensure_token_sent token w =
      let call = renew_call config token in
      let (a, w') = request t config.owns_client call w in
      elim (Bool-cases (has_token token.token)) [
        | inr absent ↦ rw absent (log_in_sent token w)
        | inl there ↦ rw there (with_token token w)
      ]

  ensure_token_twice :
      (token : Token) (w : t.World) → sent (ensure_token t config token w) ≤ received w + 2
  ensure_token_twice token w = elim (Bool-cases (has_token token.token)) [
    | inl there ↦ omega (arith, rw there at (ensure_token_sent token w))
    | inr absent ↦ omega (arith, rw absent at (ensure_token_sent token w))
  ]

  module _ (read_config : Json → Option RawConfig) (repository : Text) where
    second_lookup_sent :
        (o : Outcome t config (Unit {0}))
        → sent (second_lookup t config read_config repository o) ≤ sent o + 1
    second_lookup_sent (found x, (token, w)) = sends_once (lookup_call config repository token) w
    second_lookup_sent (vault_error category message, s) = omega arith
    second_lookup_sent (crashed name, s) = omega arith

    settle_sent :
        (a : Attempt) (token : Token) (w : t.World)
        → sent (settle t config read_config repository a token w) ≤ received w + 2
    unfolding settle
    settle_sent a token w =
        branch_sent (is_denied a) _ _ (received w + 2)
          (omega (
            arith,
            second_lookup_sent (ensure_token t config (expired token) w),
            ensure_token_sent (expired token) w,
          ))
          (omega arith)

    first_lookup_sent :
        (o : Outcome t config (Unit {0}))
        → sent (first_lookup t config read_config repository o) ≤ sent o + 3
    first_lookup_sent (found x, (token, w)) =
        let call = lookup_call config repository token in
        let (a, w') = request t config.owns_client call w in
        branch_sent (any (λ c. c == b'/') repository) _ _ (received w + 3)
          (omega (arith, settle_sent a token w', sends_once call w)) (omega arith)
    first_lookup_sent (vault_error category message, s) = omega arith
    first_lookup_sent (crashed name, s) = omega arith

    -- A lookup sends at most five requests to Vault, whatever fails: a renewal and a login, the
    -- request for the project, and, if that is denied, one more login and one more request.
    pub project_sent :
        (token : Token) (w : t.World)
        → received (project t config read_config repository token w).1.1 ≤ received w + 5
    unfolding project
    project_sent token w =
        omega (arith, first_lookup_sent (ensure_token t config token w), ensure_token_twice token w)
