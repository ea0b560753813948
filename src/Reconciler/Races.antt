-- ===== src/Reconciler/Races.antt =====
-- What happens when a request is accepted while a pass over the same demo waits for the cluster.
use demos_rework.Base.{ℕ, ◌≡◌, refl, sym, true, false, Option, none, some}
use demos_rework.Base.Text.{Text, text}
use demos_rework.Base.Result.{ok}
use demos_rework.Hashes.{Hashes}
use demos_rework.Models.{DeployRequest}
use demos_rework.Models.Config.{ProjectConfig}
use demos_rework.Store.{Store, upsert_deploy}
use demos_rework.Store.Rows.{ready, reconciling, deleting, DemoRecord}
use demos_rework.Store.Fields.{get, update_state, with_state}
use demos_rework.Store.Changes.{get-update_state_self, get-delete_record_self}
use demos_rework.Store.Deploy.{accepted_after, upsert_deploy_new}
use demos_rework.Kubernetes.{render_resources, apply, delete}
use demos_rework.Kubernetes.Client.{Cluster, done}
use demos_rework.Reconciler.{
  VaultReply, project, Settings, Clock, Others, State, is_over, namespace_allows, reconcile,
}

-- A deployment that is accepted while the pass waits for the cluster.
abbrev pub deploying : ℕ → DeployRequest → Text → Others
deploying now request hash = record {
  during_vault = λ s. s;
  during_kubernetes = λ s. (upsert_deploy now request hash s).1;
}

-- The store that the request meets.
abbrev pub met_by_deploy : Clock → DemoRecord → Store → Store
met_by_deploy clock r s =
    update_state clock.begun r.repository r.pr deleting (text "deleting resources") none none s

pub moved :
    {a b : Text} {p q : ℕ} {x : Option DemoRecord} (w : Store)
    → a ≡ b
    → p ≡ q
    → get a p w ≡ x
    → get b q w ≡ x
moved w same other e = rw (sym same, sym other) e

module _ (c : Cluster) (h : Hashes) (settings : Settings) (clock : Clock) (r : DemoRecord) where
  -- A deployment of the demo that is accepted as new while its old resources are being deleted is
  -- lost: when the deletion succeeds the pass drops the row that the request has just written.
  pub deploy_lost :
      (reply : VaultReply) (s : State c.World) (now : ℕ) (request : DeployRequest) (hash : Text)
      (x : DemoRecord)
      → is_over clock.expiry r ≡ true
      → (delete c h r.repository r.pr s.world).0 ≡ done tt
      → request.repository ≡ r.repository
      → request.pr ≡ r.pr
      → (upsert_deploy now request hash (met_by_deploy clock r s.store)).0 ≡ ok (x, true)
      → (get request.repository request.pr
            (upsert_deploy now request hash (met_by_deploy clock r s.store)).1
          ≡ some x)
        × (get request.repository request.pr
              (reconcile c h settings clock (deploying now request hash) r reply s).store
            ≡ none)
  unfolding reconcile
  deploy_lost reply s now request hash x over deleted same_repository same_pr accepted = (
    accepted_after now request hash (met_by_deploy clock r s.store) x true accepted,
    rw (same_repository, same_pr, over, deleted, reconcile)
        (get-delete_record_self r.repository r.pr _),
  )

  shown_ready :
      (config : ProjectConfig) (version : ℕ) (w : Store) (x : DemoRecord)
      → get r.repository r.pr w ≡ some x
      → get r.repository r.pr (
          update_state clock.ended r.repository r.pr ready
            (text "deployment is ready")
            (some version)
            (some config.port)
            w)
        ≡ some (
            with_state clock.ended ready
              (text "deployment is ready")
              (some version)
              (some config.port)
              x)
  shown_ready config version w x e = rw (get-update_state_self r.repository r.pr w, e) refl

  -- A deployment of the demo that is accepted as new while a pass applies the old row is shown as
  -- ready, with its own commit and image, once the old Deployment is ready, although the pass has
  -- applied only what is rendered from the old row: the cluster is as that application left it.
  pub deploy_ready_early :
      (config : ProjectConfig) (version : ℕ) (s : State c.World) (now : ℕ) (request : DeployRequest)
      (hash : Text) (x : DemoRecord)
      → is_over clock.expiry r ≡ false
      → namespace_allows settings.image_registry r config ≡ true
      → (apply c (render_resources h r config version settings.namespace settings.owner) s.world).0
        ≡ done true
      → request.repository ≡ r.repository
      → request.pr ≡ r.pr
      → (upsert_deploy now request hash (
          update_state clock.begun r.repository r.pr reconciling
            (text "loading configuration")
            none
            none
            s.store)).0
        ≡ ok (x, true)
      → (r' : DemoRecord) × (get r.repository r.pr
            (reconcile c h settings clock
              (deploying now request hash)
              r
              (project config version)
              s).store
          ≡ some r')
        × (r'.state ≡ ready)
        × (r'.commit_sha ≡ some request.commit_sha)
        × (r'.image ≡ some request.image)
        × ((reconcile c h settings clock
              (deploying now request hash)
              r
              (project config version)
              s).world
            ≡ (apply c
                (render_resources h r config version settings.namespace settings.owner)
                s.world).1)
  unfolding reconcile with_state
  deploy_ready_early config version s now request hash x live allowed applied same_repository
        same_pr accepted =
      let began =
        update_state clock.begun r.repository r.pr reconciling (text "loading configuration") none
          none s.store in
      let row = upsert_deploy_new now request hash began x accepted in
      let met : get r.repository r.pr (upsert_deploy now request hash began).1 ≡ some x =
        moved _ same_repository same_pr (accepted_after now request hash began x true accepted) in
      (
        with_state clock.ended ready (text "deployment is ready") (some version) (some config.port)
            x,
        rw (live, allowed, applied, reconcile) (shown_ready config version _ x met),
        unfold with_state in refl,
        row.commit_sha,
        row.image,
        rw (live, allowed, applied, reconcile) refl,
      )
