-- ===== src/Store.antt =====
-- src/demo_controller/store.py: the desired state and the nonces, in two SQLite tables. A table is
-- the list of its rows in the order of their insertion, which is the order of a SELECT. The clock
-- is an argument `now`; a method returns its result, or what it raises, beside the new state.
pub mod Rows
pub mod Fields
pub mod Keys
pub mod Deploy
pub mod Destroy
pub mod Nonces
pub mod Serving
pub mod Changes
pub mod Tables
pub mod Whole
pub mod Reachable
use demos_rework.Base.{
  ℕ, ◌+◌, Bool, true, false, not, ◌&&◌, Option, none, some, List, [], ◌∷◌, ◌++◌, ltb, ◌==◌,
  if◌then◌else◌, take,
}
use demos_rework.Base.Text.{Text, text, text_eq}
use demos_rework.Base.Result.{Result, ok, raise, value_error, type_error, index_error}
use demos_rework.Models.{DeployRequest}
use demos_rework.Naming.{hostname}
use demos_rework.Store.Rows.{
  DemoState, pending, reconciling, ready, failed, deleting, DemoRecord, find, amend, discard,
  NonceRow, find_nonce, prune,
}

-- DEMO_LIFETIME_SECONDS
abbrev pub demo_lifetime : ℕ
demo_lifetime = 259_200

pub record Store : Type 0 where
  pub demos : List DemoRecord
  pub nonces : List NonceRow
  pub hostname_suffix : Text

-- The row that a SELECT must find: None has no columns, so reading it is a TypeError.
abbrev pub fetched {ℓ} : {A : Type ℓ} → Option DemoRecord → (DemoRecord → A) → Result A
fetched none f = raise type_error
fetched (some r) f = ok (f r)

-- use_nonce
unfoldable pub use_nonce : Text → Text → Text → ℕ → ℕ → Store → Bool × Store
use_nonce repository nonce fingerprint now max_age s =
    let kept = prune now max_age s.nonces in
    elim (find_nonce repository nonce kept) [
      | some row ↦ (text_eq row.request_fingerprint fingerprint, record s { nonces = kept })
      | none ↦ (
        true,
        record s {
          nonces =
              kept
              ++ record {
                repository = repository;
                nonce = nonce;
                request_fingerprint = fingerprint;
                seen_at = now;
              }
                ∷ [];
        },
      )
    ]

-- The row that an accepted deployment writes where there was none.
unfoldable pub new_deploy : ℕ → DeployRequest → Text → DemoRecord
new_deploy now request hash = record {
  repository = request.repository;
  pr = request.pr;
  commit_sha = some request.commit_sha;
  image = some request.image;
  delivery_id = request.delivery_id;
  request_hash = hash;
  desired_present = true;
  state = pending;
  vault_version = none;
  port = none;
  message = text "deployment accepted";
  created_at = now;
  updated_at = now;
  expires_at = now + demo_lifetime;
}

-- ON CONFLICT(repository, pr) DO UPDATE SET …
unfoldable pub redeploy : ℕ → DeployRequest → Text → DemoRecord → DemoRecord
redeploy now request hash r = record r {
  commit_sha = some request.commit_sha;
  image = some request.image;
  delivery_id = request.delivery_id;
  request_hash = hash;
  desired_present = true;
  state = pending;
  message = text "deployment accepted";
  updated_at = now;
  expires_at = now + demo_lifetime;
}

abbrev pub reused : Text
reused = text "delivery ID reused with different request"

-- The row of a repeated delivery, or the refusal of a reused one.
abbrev pub repeated {ℓ} : {A : Type ℓ} → Text → DemoRecord → (DemoRecord → A) → Result A
repeated hash r f = if text_eq r.request_hash hash then ok (f r) else raise (value_error reused)

-- The INSERT of upsert_deploy.
unfoldable pub write_deploy : ℕ → DeployRequest → Text → Store → Store
unfolding new_deploy redeploy
write_deploy now request hash s = elim (find request.repository request.pr s.demos) [
  | none ↦ record s { demos = s.demos ++ new_deploy now request hash ∷ [] }
  | some _ ↦ record s {
    demos = amend request.repository request.pr (redeploy now request hash) s.demos;
  }
]

-- upsert_deploy
unfoldable pub upsert_deploy : ℕ → DeployRequest → Text → Store → Result (DemoRecord × Bool) × Store
upsert_deploy now request hash s =
    let written = write_deploy now request hash s in
    let accepted : Result (DemoRecord × Bool) × Store =
      (fetched (find request.repository request.pr written.demos) (λ r. (r, true)), written) in
    elim (find request.repository request.pr s.demos) [
      | none ↦ accepted
      | some current ↦
          if text_eq current.delivery_id request.delivery_id
          then (repeated hash current (λ r. (r, false)), s)
          else accepted
    ]

-- The INSERT of request_destroy.
unfoldable pub new_destroy : ℕ → Text → ℕ → Text → Text → DemoRecord
new_destroy now repository pr delivery_id hash = record {
  repository = repository;
  pr = pr;
  commit_sha = none;
  image = none;
  delivery_id = delivery_id;
  request_hash = hash;
  desired_present = false;
  state = deleting;
  vault_version = none;
  port = none;
  message = text "deletion accepted";
  created_at = now;
  updated_at = now;
  expires_at = now;
}

-- The UPDATE of request_destroy.
unfoldable pub withdraw : ℕ → Text → Text → DemoRecord → DemoRecord
withdraw now delivery_id hash r = record r {
  delivery_id = delivery_id;
  request_hash = hash;
  desired_present = false;
  state = deleting;
  message = text "deletion accepted";
  updated_at = now;
}

unfoldable pub write_destroy : ℕ → Text → ℕ → Text → Text → Store → Store
unfolding new_destroy withdraw
write_destroy now repository pr delivery_id hash s = elim (find repository pr s.demos) [
  | none ↦ record s { demos = s.demos ++ new_destroy now repository pr delivery_id hash ∷ [] }
  | some _ ↦ record s { demos = amend repository pr (withdraw now delivery_id hash) s.demos }
]

-- request_destroy
unfoldable pub request_destroy : ℕ → Text → ℕ → Text → Text → Store → Result DemoRecord × Store
request_destroy now repository pr delivery_id hash s =
    let written = write_destroy now repository pr delivery_id hash s in
    let accepted : Result DemoRecord × Store =
      (fetched (find repository pr written.demos) (λ r. r), written) in
    elim (find repository pr s.demos) [
      | none ↦ accepted
      | some current ↦
          if text_eq current.delivery_id delivery_id
          then (repeated hash current (λ r. r), s)
          else accepted
    ]
