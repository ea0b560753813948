-- ===== src/Reconciler/Outcomes.antt =====
-- What one pass over a demo leaves. What other handlers do while it waits is an argument: nothing at
-- all, or anything that leaves the demo's row as it is.
use demos_rework.Base.{◌≡◌, refl, true, false, none, some, inl, inr, ◌⊎◌}
use demos_rework.Base.Text.{Text, text}
use demos_rework.Hashes.{Hashes}
use demos_rework.Store.{Store}
use demos_rework.Store.Rows.{DemoState, reconciling, failed, deleting, DemoRecord}
use demos_rework.Store.Fields.{get, with_state}
use demos_rework.Store.Changes.{get-update_state_self, get-delete_record_self}
use demos_rework.Kubernetes.{delete}
use demos_rework.Kubernetes.Client.{Cluster, Reply, done, fault, Fault}
use demos_rework.Reconciler.{
  VaultReply, project, vault_error, crash, Settings, Clock, Others, State, is_over,
  namespace_allows, reconcile, set_state, deletion_failed, failure_message, vault_message,
  outside_namespace,
}
use demos_rework.Reconciler.Applying.{Spares}

abbrev pub quiet : Others
quiet = record { during_vault = λ s. s; during_kubernetes = λ s. s }

-- Vault gave no configuration that allows the demo's image.
abbrev pub Blocks : Settings → DemoRecord → VaultReply → Type 0
Blocks settings r (vault_error category message) = Unit
Blocks settings r (crash f) = Unit
Blocks settings r (project config version) =
    namespace_allows settings.image_registry r config ≡ false

Reply-cases : (o : Reply (Unit {0})) → (o ≡ done tt) ⊎ ((f : Fault) × (o ≡ fault f))
Reply-cases (done tt) = inl refl
Reply-cases (fault f) = inr (f, refl)

-- The row is marked as failed and keeps all that routes the demo and that asks for it.
pub record IsGivenUp (old r' : DemoRecord) : Type 0 where
  pub state : r'.state ≡ failed
  pub port : r'.port ≡ old.port
  pub vault_version : r'.vault_version ≡ old.vault_version
  pub wanted : r'.desired_present ≡ old.desired_present
  pub image : r'.image ≡ old.image
  pub expires_at : r'.expires_at ≡ old.expires_at

module _ (c : Cluster) (h : Hashes) (settings : Settings) (clock : Clock) (r : DemoRecord) where
  -- A pass that Vault blocks leaves the cluster, and what is noted of it, as they were, whatever
  -- other handlers do meanwhile.
  pub blocked_world :
      (others : Others) (reply : VaultReply) (s : State c.World)
      → is_over clock.expiry r ≡ false
      → Blocks settings r reply
      → ((reconcile c h settings clock others r reply s).world ≡ s.world)
        × ((reconcile c h settings clock others r reply s).kubernetes ≡ s.kubernetes)
  unfolding reconcile
  blocked_world others (vault_error category message) s live b = rw (live, reconcile) (refl, refl)
  blocked_world others (crash f) s live b = rw (live, reconcile) (refl, refl)
  blocked_world others (project config version) s live b = rw (live, b, reconcile) (refl, refl)

  twice_set :
      (s : Store) (old : DemoRecord) (first : DemoState) (m m' : Text)
      → get r.repository r.pr s ≡ some old
      → get r.repository r.pr (
          set_state c h settings clock quiet r clock.ended failed m'
            (set_state c h settings clock quiet r clock.begun first m s))
        ≡ some (
            with_state clock.ended failed m' none none
              (with_state clock.begun first m none none old))
  twice_set s old first m m' e =
      rw
        (
          get-update_state_self r.repository r.pr,
          get-update_state_self r.repository r.pr s clock.begun first m none none,
          e,
        )
        refl

  abbrev stopped : Text → DemoRecord → DemoRecord
  stopped message old =
      with_state clock.ended failed message none none
        (with_state clock.begun reconciling (text "loading configuration") none none old)

  given_up :
      (old : DemoRecord) (first : DemoState) (m m' : Text)
      → IsGivenUp old (
          with_state clock.ended failed m' none none (with_state clock.begun first m none none old))
  unfolding with_state
  given_up old first m m' = record {
    state = refl;
    port = refl;
    vault_version = refl;
    wanted = refl;
    image = refl;
    expires_at = refl;
  }

  -- A pass that Vault blocks marks the demo's row as failed and leaves its port, Vault version,
  -- image, expiry and desired state, if no other handler interferes.
  pub blocked_row :
      (reply : VaultReply) (s : State c.World) (old : DemoRecord)
      → is_over clock.expiry r ≡ false
      → Blocks settings r reply
      → get r.repository r.pr s.store ≡ some old
      → (r' : DemoRecord) × (get r.repository r.pr
            (reconcile c h settings clock quiet r reply s).store
          ≡ some r')
        × IsGivenUp old r'
  unfolding reconcile
  blocked_row (vault_error category message) s old live b e = (
    stopped (vault_message message r.port) old,
    rw (live, reconcile) (twice_set s.store old reconciling _ _ e),
    given_up old reconciling _ _,
  )
  blocked_row (crash f) s old live b e = (
    stopped (failure_message f) old,
    rw (live, reconcile) (twice_set s.store old reconciling _ _ e),
    given_up old reconciling _ _,
  )
  blocked_row (project config version) s old live b e = (
    stopped (failure_message outside_namespace) old,
    rw (live, b, reconcile) (twice_set s.store old reconciling _ _ e),
    given_up old reconciling _ _,
  )

  -- A pass that deletes, while other handlers leave the demo's row as it is, drops the row exactly
  -- when the cluster's deletion succeeds; where it fails, the row stays, failed, with what is wanted,
  -- so that the next pass tries again.
  pub deletion_row :
      (others : Others) (reply : VaultReply) (s : State c.World) (old : DemoRecord)
      → Spares others r.repository r.pr
      → is_over clock.expiry r ≡ true
      → get r.repository r.pr s.store ≡ some old
      → (((delete c h r.repository r.pr s.world).0 ≡ done tt)
          × (get r.repository r.pr (reconcile c h settings clock others r reply s).store ≡ none))
        ⊎ ((f : Fault) × ((delete c h r.repository r.pr s.world).0 ≡ fault f)
            × (r' : DemoRecord) × (get r.repository r.pr
                  (reconcile c h settings clock others r reply s).store
                ≡ some r')
            × IsGivenUp old r')
  unfolding reconcile
  deletion_row others reply s old spares over e =
      elim (Reply-cases (delete c h r.repository r.pr s.world).0) [
        | inl d ↦ inl (d, rw (over, d, reconcile) (get-delete_record_self r.repository r.pr _))
        | inr (f, d) ↦ inr (
          f,
          d,
          with_state clock.ended failed deletion_failed none none
              (with_state clock.begun deleting (text "deleting resources") none none old),
          rw (over, d, reconcile)
              (rw
                (
                  get-update_state_self r.repository r.pr _ clock.ended failed deletion_failed none
                      none,
                  spares.kubernetes,
                  get-update_state_self r.repository r.pr s.store clock.begun deleting
                      (text "deleting resources") none none,
                  e,
                )
                refl),
          given_up old deleting _ _,
        )
      ]
