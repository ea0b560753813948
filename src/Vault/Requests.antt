-- ===== src/Vault/Requests.antt =====
-- How many requests reach Vault when the client sends one.
use demos_rework.Base.{ℕ, ◌+◌, ◌≤◌, ◌≡◌, refl, ap, Bool, true, false, arith, Bool-cases, inl, inr}
use demos_rework.Vault.{
  Call, Attempt, response, transport, http_error, broken, TransportError, Transport, is_unsent,
  last_attempt, first_attempt, request,
}

-- What the client's documentation says of the number of requests that reach Vault: one call sends
-- at most one, and none if it fails to connect; the rest sends nothing.
pub record Counts (t : Transport) (received : t.World → ℕ) : Type 0 where
  pub one : (call : Call) (w : t.World) → received (t.send call w).1 ≤ received w + 1
  pub unsent :
      (call : Call) (w : t.World) (e : TransportError)
      → (t.send call w).0 ≡ transport e
      → is_unsent e ≡ true
      → received (t.send call w).1 ≡ received w
  pub replacing : (w : t.World) → received (t.replace_client w) ≡ received w
  pub pausing : (w : t.World) → received (t.pause w) ≡ received w

module _ (t : Transport) (received : t.World → ℕ) (laws : Counts t received) where
  last_attempt_count : (p : Attempt × t.World) → received (last_attempt t p).1 ≡ received p.1
  last_attempt_count (transport e, w) = laws.replacing w
  last_attempt_count (response r, w) = refl
  last_attempt_count (http_error e, w) = refl
  last_attempt_count (broken e, w) = refl

  first_attempt_count :
      (owns_client : Bool) (call : Call) (w : t.World) (p : Attempt × t.World)
      → t.send call w ≡ p
      → received (first_attempt t owns_client call p).1 ≤ received w + 1
  first_attempt_count owns_client call w (response r, w') e = rw e at (laws.one call w)
  first_attempt_count owns_client call w (http_error b, w') e = rw e at (laws.one call w)
  first_attempt_count owns_client call w (broken b, w') e = rw e at (laws.one call w)
  first_attempt_count false call w (transport x, w') e = rw e at (laws.one call w)
  first_attempt_count true call w (transport x, w') e =
      let sent : received w' ≤ received w + 1 = (rw e at (laws.one call w)) in
      let again = t.pause (t.replace_client w') in
      elim (Bool-cases (is_unsent x)) [
        | inr reached ↦ rw reached (omega (arith, sent, laws.replacing w'))
        | inl unsent ↦
            let none_sent : received w' ≡ received w =
              (rw e at (laws.unsent call w x (ap (λ p. p.0) e) unsent)) in
            rw unsent (
              omega (
                arith,
                last_attempt_count (t.send call again),
                laws.one call again,
                laws.pausing (t.replace_client w'),
                laws.replacing w',
                none_sent,
              ))
      ]

  -- Whatever goes wrong in the network, one call of _request sends at most one request to Vault: a
  -- login or a renewal is never replayed.
  pub request_sends_once :
      (owns_client : Bool) (call : Call) (w : t.World)
      → received (request t owns_client call w).1 ≤ received w + 1
  unfolding request
  request_sends_once owns_client call w =
      first_attempt_count owns_client call w (t.send call w) refl
