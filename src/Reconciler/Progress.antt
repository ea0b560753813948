-- ===== src/Reconciler/Progress.antt =====
-- What a pass achieves for a demo that has been deployed.
use demos_rework.Base.{All, ℕ, ◌+◌, ◌<◌, ◌≡◌, refl, sym, arith, true, false, Option, some, none}
use demos_rework.Base.Text.{Text, text}
use demos_rework.Base.Result.{ok}
use demos_rework.Models.{DeployRequest}
use demos_rework.Store.{Store, upsert_deploy}
use demos_rework.Store.Deploy.{IsNewRow, accepted_after, upsert_deploy_new}
use demos_rework.Hashes.{Hashes}
use demos_rework.Models.Config.{ProjectConfig}
use demos_rework.Store.Rows.{ready, reconciling, DemoRecord}
use demos_rework.Naming.{hostname}
use demos_rework.Store.Serving.{Aside, get_ready_by_hostname_found}
use demos_rework.Store.Fields.{get_ready_by_hostname, get, with_state, is_active}
use demos_rework.Kubernetes.{render_resources, apply}
use demos_rework.Kubernetes.Client.{Cluster, done}
use demos_rework.Reconciler.{
  project, Settings, Clock, Others, State, is_over, allows, namespace_allows, reconcile,
}
use demos_rework.Reconciler.Races.{moved}
use demos_rework.Reconciler.Applying.{Spares, finished, applied_row}

-- A row that passes the conditions of the proxy's query, with the configuration that was applied.
pub record IsUp (config : ProjectConfig) (version : ℕ) (r : DemoRecord) : Type 0 where
  pub state : r.state ≡ ready
  pub port : r.port ≡ some config.port
  pub vault_version : r.vault_version ≡ some version
  pub active : is_active r ≡ true

set-IsUp :
    (clock : Clock) (config : ProjectConfig) (version : ℕ) (old : DemoRecord)
    → old.desired_present ≡ true
    → IsUp config version (
        with_state clock.ended ready
          (text "deployment is ready")
          (some version)
          (some config.port)
          (with_state clock.begun reconciling (text "loading configuration") none none old))
unfolding with_state is_active
set-IsUp clock config version old wanted = record {
  state = refl;
  port = refl;
  vault_version = refl;
  active = rw (wanted, is_active) refl;
}

-- A row that has been accepted as new is not over before its time.
new-is_over :
    (now at : ℕ) (request : DeployRequest) (hash : Text) (o : Option DemoRecord) (x : DemoRecord)
    → IsNewRow now request hash o x
    → at < now + 259_200
    → is_over at x ≡ false
unfolding is_over
new-is_over now at request hash o x row soon =
    let wanted = row.wanted.0 in let until = row.lifetime in ground arith

finished_name :
    (c : Cluster) (h : Hashes) (settings : Settings) (clock : Clock) (x : DemoRecord)
    (config : ProjectConfig) (version : ℕ) (request : DeployRequest) (suffix host : Text)
    → x.repository ≡ request.repository
    → x.pr ≡ request.pr
    → hostname request.repository request.pr suffix ≡ some host
    → let r' = finished c h settings clock x config version x in
      hostname r'.repository r'.pr suffix ≡ some host
unfolding with_state
finished_name c h settings clock x config version request suffix host same_repository same_pr
      named =
    rw (same_repository, same_pr) named

module _ (c : Cluster) (h : Hashes) (settings : Settings) (clock : Clock) where
  -- The store behind a pass for which Vault gives a configuration.
  abbrev pub left_by : Others → DemoRecord → ProjectConfig → ℕ → State c.World → Store
  left_by others x config version t =
      (reconcile c h settings clock others x (project config version) t).store

  -- A deployment that is accepted as new comes up in one pass over its row that begins within three
  -- days, where other handlers leave the row as it is meanwhile, Vault gives a configuration that
  -- allows the requested image, and the cluster takes what is rendered and reports the Deployment as
  -- ready: the row then has the requested commit and image, is ready, and has the port and the
  -- version of the configuration; and the proxy finds it under its host, where behind the pass every
  -- other row is not active or has another host.
  pub wanted_ready :
      (others : Others) (now : ℕ) (request : DeployRequest) (hash : Text) (s : Store)
      (x : DemoRecord) (config : ProjectConfig) (version : ℕ) (t : State c.World) (host : Text)
      → (upsert_deploy now request hash s).0 ≡ ok (x, true)
      → t.store ≡ (upsert_deploy now request hash s).1
      → clock.expiry < now + 259_200
      → Spares others request.repository request.pr
      → allows settings.image_registry config.image_namespace request.image ≡ true
      → (apply c (render_resources h x config version settings.namespace settings.owner) t.world).0
        ≡ done true
      → hostname request.repository request.pr (left_by others x config version t).hostname_suffix
        ≡ some host
      → All
          (Aside
            (left_by others x config version t).hostname_suffix
            host
            request.repository
            request.pr)
          (left_by others x config version t).demos
      → (r' : DemoRecord) × (get request.repository request.pr (left_by others x config version t)
          ≡ some r')
        × IsUp config version r'
        × (r'.commit_sha ≡ some request.commit_sha)
        × (r'.image ≡ some request.image)
        × (get_ready_by_hostname host (left_by others x config version t) ≡ ok (some r'))
  unfolding namespace_allows
  wanted_ready others now request hash s x config version t host accepted stored soon spares allowed
        applied named aside =
      let row = upsert_deploy_new now request hash s x accepted in
      let known : get x.repository x.pr t.store ≡ some x = rw stored (
        moved _ (sym row.repository) (sym row.pr)
          (accepted_after now request hash s x true accepted)) in
      let kept : Spares others x.repository x.pr = rw (row.repository, row.pr) spares in
      let admits : namespace_allows settings.image_registry x config ≡ true =
        rw (row.image, namespace_allows) allowed in
      let live = new-is_over now clock.expiry request hash _ x row soon in
      let left =
        applied_row c h settings clock x others config version t x kept live known admits applied in
      let up = set-IsUp clock config version x row.wanted.0 in
      let found = moved _ row.repository row.pr left in
      (
        finished c h settings clock x config version x,
        found,
        up,
        unfold with_state in row.commit_sha,
        unfold with_state in row.image,
        get_ready_by_hostname_found host request.repository request.pr _ _ found up.active
            (finished_name c h settings clock x config version request _ host row.repository row.pr
              named)
            aside,
      )
