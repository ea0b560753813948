-- ===== src/Store/Deploy.antt =====
-- upsert_deploy on the map of demos: its reply, the row that it leaves, and what it keeps.
use demos_rework.Base.{
  ℕ, ◌+◌, ◌≡◌, refl, Bool, true, false, Option, none, some, arith, if◌then◌else◌, sym, ◌∙◌,
  Option-cases, inl, inr,
}
use demos_rework.Base.Text.{Text, text_eq, text_eq_iff}
use demos_rework.Base.Result.{Result, ok, raise, value_error}
use demos_rework.Models.{DeployRequest}
use demos_rework.Store.Rows.{DemoRecord, pending, find}
use demos_rework.Store.Keys.{
  KeepsKey, same_key, same_key_refl, find_same, find_key, find-amend, find-append,
}
use demos_rework.Store.{Store, new_deploy, redeploy, reused, write_deploy, upsert_deploy}
use demos_rework.Store.Fields.{get}

-- The row that a new delivery leaves, from the row that was there.
abbrev pub deployed : ℕ → DeployRequest → Text → Option DemoRecord → DemoRecord
deployed now request hash none = new_deploy now request hash
deployed now request hash (some r) = redeploy now request hash r

-- The row of the request's key after a delivery, new or repeated.
abbrev pub deploy_row : ℕ → DeployRequest → Text → Option DemoRecord → DemoRecord
deploy_row now request hash none = new_deploy now request hash
deploy_row now request hash (some r) =
    if text_eq r.delivery_id request.delivery_id then r else redeploy now request hash r

abbrev pub deploy_reply : ℕ → DeployRequest → Text → Option DemoRecord → Result (DemoRecord × Bool)
deploy_reply now request hash none = ok (new_deploy now request hash, true)
deploy_reply now request hash (some r) =
    if text_eq r.delivery_id request.delivery_id
    then (if text_eq r.request_hash hash then ok (r, false) else raise (value_error reused))
    else ok (redeploy now request hash r, true)

abbrev pub port_of : Option DemoRecord → Option ℕ
port_of none = none
port_of (some r) = r.port

abbrev pub version_of : Option DemoRecord → Option ℕ
version_of none = none
version_of (some r) = r.vault_version

pub redeploy-KeepsKey :
    (now : ℕ) (request : DeployRequest) (hash : Text) → KeepsKey (redeploy now request hash)
unfolding redeploy
redeploy-KeepsKey now request hash = record { repository = λ r. refl; pr = λ r. refl }

module _ (now : ℕ) (request : DeployRequest) (hash : Text) (s : Store) where
  find-write_deploy :
      (b : Text) (q : ℕ)
      → find b q (write_deploy now request hash s).demos ≡ (
          if same_key request.repository request.pr b q
          then some (deployed now request hash (find request.repository request.pr s.demos))
          else find b q s.demos)
  unfolding write_deploy
  find-write_deploy b q = elim (Option-cases (find request.repository request.pr s.demos)) [
    | inl e ↦ rw e (
        ground (
          arith,
          find-append b q s.demos (new_deploy now request hash),
          find_same request.repository request.pr b q s.demos,
        ))
    | inr (r, e) ↦ rw e (
        ground (
          arith,
          find-amend request.repository request.pr b q (redeploy now request hash) s.demos
              (redeploy-KeepsKey now request hash),
          find_same request.repository request.pr b q s.demos,
        ))
  ]

  upsert_deploy-reply :
      (upsert_deploy now request hash s).0
      ≡ deploy_reply now request hash (get request.repository request.pr s)
  unfolding upsert_deploy get
  upsert_deploy-reply = ground (
    arith,
    find-write_deploy request.repository request.pr,
    same_key_refl request.repository request.pr,
  )

  get-upsert_deploy :
      (b : Text) (q : ℕ)
      → get b q (upsert_deploy now request hash s).1 ≡ (
          if same_key request.repository request.pr b q
          then some (deploy_row now request hash (get request.repository request.pr s))
          else get b q s)
  unfolding upsert_deploy get
  get-upsert_deploy b q =
      ground (arith, find-write_deploy b q, find_same request.repository request.pr b q s.demos)

  -- On the map from keys to rows: the reply is `deploy_reply` of the row under the request's key, and
  -- afterwards that key has the row `deploy_row` and each other key the row that it had.
  pub upsert_deploy_refines :
      ((upsert_deploy now request hash s).0
        ≡ deploy_reply now request hash (get request.repository request.pr s))
      × ((b : Text) (q : ℕ)
          → get b q (upsert_deploy now request hash s).1 ≡ (
              if same_key request.repository request.pr b q
              then some (deploy_row now request hash (get request.repository request.pr s))
              else get b q s))
  upsert_deploy_refines = (upsert_deploy-reply, get-upsert_deploy)

repeat_delivery :
    (later : ℕ) (request : DeployRequest) (hash : Text) (t : Store) (r : DemoRecord)
    → get request.repository request.pr t ≡ some r
    → r.delivery_id ≡ request.delivery_id
    → r.request_hash ≡ hash
    → upsert_deploy later request hash t ≡ (ok (r, false), t)
unfolding upsert_deploy get
repeat_delivery later request hash t r found same_delivery same_hash =
    ground (arith, text_eq_iff r.delivery_id request.delivery_id, text_eq_iff r.request_hash hash)

accepted_row :
    (now : ℕ) (request : DeployRequest) (hash : Text) (o : Option DemoRecord) (r : DemoRecord)
    (new : Bool)
    → deploy_reply now request hash o ≡ ok (r, new)
    → (deploy_row now request hash o ≡ r)
      × (r.delivery_id ≡ request.delivery_id)
      × (r.request_hash ≡ hash)
unfolding new_deploy redeploy
accepted_row now request hash none r new h = ground arith
accepted_row now request hash (some c) r new h =
    ground (arith, text_eq_iff c.delivery_id request.delivery_id, text_eq_iff c.request_hash hash)

-- The row in the reply is the row in the table.
pub accepted_after :
    (now : ℕ) (request : DeployRequest) (hash : Text) (s : Store) (r : DemoRecord) (new : Bool)
    → (upsert_deploy now request hash s).0 ≡ ok (r, new)
    → get request.repository request.pr (upsert_deploy now request hash s).1 ≡ some r
accepted_after now request hash s r new h =
    let o = get request.repository request.pr s in
    let (row, _, _) =
      accepted_row now request hash o r new (sym (upsert_deploy-reply now request hash s) ∙ h) in
    ground (
      arith,
      get-upsert_deploy now request hash s request.repository request.pr,
      same_key_refl request.repository request.pr,
      row,
    )

-- Sent again, at any later time, a delivery that was accepted gets the same row back as not new,
-- and the store stays as it is.
pub upsert_deploy_idempotent :
    (now later : ℕ) (request : DeployRequest) (hash : Text) (s : Store) (r : DemoRecord)
    (new : Bool)
    → (upsert_deploy now request hash s).0 ≡ ok (r, new)
    → upsert_deploy later request hash (upsert_deploy now request hash s).1
      ≡ (ok (r, false), (upsert_deploy now request hash s).1)
upsert_deploy_idempotent now later request hash s r new h =
    let o = get request.repository request.pr s in
    let (row, delivery, same) =
      accepted_row now request hash o r new (sym (upsert_deploy-reply now request hash s) ∙ h) in
    repeat_delivery later request hash (upsert_deploy now request hash s).1 r
      (accepted_after now request hash s r new h) delivery same

pub record IsNewRow (now : ℕ) (request : DeployRequest) (hash : Text) (old : Option DemoRecord)
    (r : DemoRecord) : Type 0 where
  pub repository : r.repository ≡ request.repository
  pub pr : r.pr ≡ request.pr
  pub commit_sha : r.commit_sha ≡ some request.commit_sha
  pub image : r.image ≡ some request.image
  pub delivery : (r.delivery_id ≡ request.delivery_id) × (r.request_hash ≡ hash)
  pub wanted : (r.desired_present ≡ true) × (r.state ≡ pending)
  pub lifetime : r.expires_at ≡ now + 259_200
  -- What the last reconciliation found stays, so that the route of the demo does.
  pub port : r.port ≡ port_of old
  pub vault_version : r.vault_version ≡ version_of old

-- A delivery that is accepted as new leaves a pending row for its key with its commit and image that
-- expires three days later, and keeps the port and the Vault version of the row that was there.
pub upsert_deploy_new :
    (now : ℕ) (request : DeployRequest) (hash : Text) (s : Store) (r : DemoRecord)
    → (upsert_deploy now request hash s).0 ≡ ok (r, true)
    → IsNewRow now request hash (get request.repository request.pr s) r
upsert_deploy_new now request hash s r h =
    new_row (get request.repository request.pr s)
      (λ c found. find_key request.repository request.pr s.demos c (unfold get in found))
      (sym (upsert_deploy-reply now request hash s) ∙ h)
  where
    new_row :
        (o : Option DemoRecord)
        → ((c : DemoRecord)
            → o ≡ some c
            → (c.repository ≡ request.repository) × (c.pr ≡ request.pr))
        → deploy_reply now request hash o ≡ ok (r, true)
        → IsNewRow now request hash o r
    new_row none k e = unfold new_deploy in ground arith
    new_row (some c) k e = let key = k c refl in unfold redeploy in ground arith
