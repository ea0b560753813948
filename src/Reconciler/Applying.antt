-- ===== src/Reconciler/Applying.antt =====
-- A pass that applies, while other handlers leave the demo's row as it is: the row behind it.
use demos_rework.Base.{ℕ, ◌≡◌, refl, Bool, true, false, none, some}
use demos_rework.Base.Text.{Text, text}
use mathlib.Core.Path.{subst}
use demos_rework.Hashes.{Hashes}
use demos_rework.Models.Config.{ProjectConfig}
use demos_rework.Store.{Store}
use demos_rework.Store.Rows.{ready, reconciling, failed, DemoRecord}
use demos_rework.Store.Fields.{get, with_state}
use demos_rework.Store.Changes.{get-update_state_self, update_state-IsUpdated}
use demos_rework.Kubernetes.{render_resources, apply}
use demos_rework.Kubernetes.Client.{Cluster, Reply, done, fault}
use demos_rework.Reconciler.{
  project, Settings, Clock, Others, State, is_over, namespace_allows, reconcile, finish_apply,
  set_state,
}

-- Other handlers that leave the row of a demo as it is.
pub record Spares (others : Others) (repository : Text) (pr : ℕ) : Type 0 where
  pub vault : (s : Store) → get repository pr (others.during_vault s) ≡ get repository pr s
  pub kubernetes :
      (s : Store) → get repository pr (others.during_kubernetes s) ≡ get repository pr s

module _ (c : Cluster) (h : Hashes) (settings : Settings) (clock : Clock) (r : DemoRecord) where
  -- What is set to `failed` is not ready.
  pub not_ready {ℓ} :
      {A : Type ℓ} (others : Others) (s : Store) (message : Text) (r' : DemoRecord)
      → get r.repository r.pr (set_state c h settings clock others r clock.ended failed message s)
        ≡ some r'
      → r'.state ≡ ready
      → A
  not_ready others s message r' e now_ready =
      let set =
        update_state-IsUpdated r.repository r.pr s clock.ended failed message none none r' e in
      absurd (cc (set.state_set, now_ready))

  pub finish_ready :
      (others : Others) (config : ProjectConfig) (version : ℕ) (reply : Reply Bool)
      (s : State c.World) (r' : DemoRecord)
      → get r.repository r.pr
          (finish_apply c h settings clock others r config version reply s).store
        ≡ some r'
      → r'.state ≡ ready
      → reply ≡ done true
  unfolding finish_apply
  finish_ready others config version (fault f) s r' e now_ready =
      not_ready others _ _ r' e now_ready
  finish_ready others config version (done true) s r' e now_ready = refl
  finish_ready others config version (done false) s r' e now_ready =
      let set =
        update_state-IsUpdated r.repository r.pr s.store clock.ended reconciling
          (text "waiting for deployment readiness") (some version) (some config.port) r' e in
      absurd (cc (set.state_set, now_ready))

  -- The row that a pass leaves which finds the Deployment ready.
  abbrev pub finished : ProjectConfig → ℕ → DemoRecord → DemoRecord
  finished config version old =
      with_state clock.ended ready (text "deployment is ready") (some version) (some config.port)
        (with_state clock.begun reconciling (text "loading configuration") none none old)

  pub applied_row :
      (others : Others) (config : ProjectConfig) (version : ℕ) (s : State c.World)
      (old : DemoRecord)
      → Spares others r.repository r.pr
      → is_over clock.expiry r ≡ false
      → get r.repository r.pr s.store ≡ some old
      → namespace_allows settings.image_registry r config ≡ true
      → (apply c (render_resources h r config version settings.namespace settings.owner) s.world).0
        ≡ done true
      → get r.repository r.pr
          (reconcile c h settings clock others r (project config version) s).store
        ≡ some (finished config version old)
  unfolding reconcile
  applied_row others config version s old spares live known allowed applied =
      rw (live, allowed, applied, reconcile)
        (rw
          (
            get-update_state_self r.repository r.pr _ clock.ended ready (text "deployment is ready")
                (some version) (some config.port),
            spares.kubernetes,
            spares.vault,
            get-update_state_self r.repository r.pr s.store clock.begun reconciling
                (text "loading configuration") none none,
            known,
          )
          refl)

  pub finished-fields :
      (config : ProjectConfig) (version : ℕ) (r' : DemoRecord)
      → finished config version r ≡ r'
      → (r'.port ≡ some config.port)
        × (r'.vault_version ≡ some version)
        × (r'.image ≡ r.image)
        × (r'.commit_sha ≡ r.commit_sha)
  unfolding with_state
  finished-fields config version r' same =
      subst
        (λ x.
          (x.port ≡ some config.port)
          × (x.vault_version ≡ some version)
          × (x.image ≡ r.image)
          × (x.commit_sha ≡ r.commit_sha))
        same (refl, refl, refl, refl)
