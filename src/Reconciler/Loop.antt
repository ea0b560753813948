-- ===== src/Reconciler/Loop.antt =====
-- src/demo_controller/reconciler.py: run and health, the passes over all demos that are listed, and
-- what they keep of the store.
use demos_rework.Base.{ℕ, Bool, Option, some, List, [], ◌∷◌, All, Bool-cases, inl, inr}
use demos_rework.Base.Text.{Text}
use demos_rework.Hashes.{Hashes}
use demos_rework.Models.Config.{ProjectConfig}
use demos_rework.Store.{Store}
use demos_rework.Store.Rows.{DemoState, DemoRecord}
use demos_rework.Store.Fields.{list_reconcilable, update_state}
use demos_rework.Store.Reachable.{Step, Reachable, next, IsSound, Reachable-IsSound}
use demos_rework.Kubernetes.Client.{Cluster, Reply, done, fault}
use demos_rework.Reconciler.{
  VaultReply, project, vault_error, crash, Observation, Settings, Clock, Others, State, is_over,
  namespace_allows, give_up, finish_delete, run_delete, finish_apply, run_apply, finish_vault,
  run_deploy, reconcile,
}

-- What one pass meets.
pub record Pass : Type 0 where
  pub reply : VaultReply
  pub clock : Clock
  pub others : Others

-- The loop's state: that of its passes, and when it last completed a round.
pub record Loop (W : Type 0) : Type 0 where
  pub state : State W
  pub last_completed_at : Option ℕ

-- health: Vault's observation and the cluster's
abbrev pub health : {W : Type 0} → State W → Observation × Observation
health s = (s.vault, s.kubernetes)

module _ (c : Cluster) (h : Hashes) (settings : Settings) where
  -- A pass over each of the records that were listed.
  unfoldable pub passes : (DemoRecord → Pass) → List DemoRecord → State c.World → State c.World
  passes meet [] s = s
  passes meet (r ∷ rs) s =
      let pass = meet r in
      passes meet rs (reconcile c h settings pass.clock pass.others r pass.reply s)

  -- A round: the records are listed once, at its start.
  unfoldable pub round : (DemoRecord → Pass) → ℕ → Loop c.World → Loop c.World
  unfolding passes
  round meet now l = record {
    state = passes meet (list_reconcilable l.state.store) l.state;
    last_completed_at = some now;
  }

  -- run, for the rounds up to the stop, each with what its passes meet and the time of its end
  unfoldable pub run : List ((DemoRecord → Pass) × ℕ) → Loop c.World → Loop c.World
  unfolding round
  run [] l = l
  run ((meet, now) ∷ rounds) l = run rounds (round meet now l)

-- Other handlers take a store that the methods make to another such store.
pub record Keeps (suffix : Text) (others : Others) : Type 0 where
  pub vault : (s : Store) → Reachable suffix s → Reachable suffix (others.during_vault s)
  pub kubernetes : (s : Store) → Reachable suffix s → Reachable suffix (others.during_kubernetes s)

module _ (suffix : Text) (c : Cluster) (h : Hashes) (settings : Settings) (clock : Clock)
    (others : Others) (keeps : Keeps suffix others) (r : DemoRecord) where
  abbrev Good : State c.World → Type 0
  Good s = Reachable suffix s.store

  update-Reachable :
      (now : ℕ) (state : DemoState) (message : Text) (version port : Option ℕ) (s : Store)
      → Reachable suffix s
      → Reachable suffix (update_state now r.repository r.pr state message version port s)
  update-Reachable now state message version port s g =
      next g (Step.updates now r.repository r.pr state message version port s)

  finish_delete-Reachable :
      (reply : Reply (Unit {0})) (s : State c.World)
      → Good s
      → Good (finish_delete c h settings clock others r reply s)
  unfolding finish_delete
  finish_delete-Reachable (done _) s g = next g (Step.drops r.repository r.pr s.store)
  finish_delete-Reachable (fault f) s g = update-Reachable _ _ _ _ _ s.store g

  finish_apply-Reachable :
      (config : ProjectConfig) (version : ℕ) (reply : Reply Bool) (s : State c.World)
      → Good s
      → Good (finish_apply c h settings clock others r config version reply s)
  unfolding finish_apply give_up
  finish_apply-Reachable config version (fault f) s g = update-Reachable _ _ _ _ _ s.store g
  finish_apply-Reachable config version (done is_ready) s g = update-Reachable _ _ _ _ _ s.store g

  run_delete-Reachable :
      (s : State c.World) → Good s → Good (run_delete c h settings clock others r s)
  unfolding run_delete
  run_delete-Reachable s g =
      finish_delete-Reachable _ _ (keeps.kubernetes _ (update-Reachable _ _ _ _ _ s.store g))

  finish_vault-Reachable :
      (reply : VaultReply) (s : State c.World)
      → Good s
      → Good (finish_vault c h settings clock others r reply s)
  unfolding finish_vault give_up run_apply
  finish_vault-Reachable (vault_error category message) s g = update-Reachable _ _ _ _ _ s.store g
  finish_vault-Reachable (crash f) s g = update-Reachable _ _ _ _ _ s.store g
  finish_vault-Reachable (project config version) s g =
      elim (Bool-cases (namespace_allows settings.image_registry r config)) [
        | inl allowed ↦
            rw allowed (finish_apply-Reachable config version _ _ (keeps.kubernetes _ g))
        | inr outside ↦ rw outside (update-Reachable _ _ _ _ _ s.store g)
      ]

  pub reconcile-Reachable :
      (reply : VaultReply) (s : State c.World)
      → Good s
      → Good (reconcile c h settings clock others r reply s)
  unfolding reconcile run_deploy
  reconcile-Reachable reply s g = elim (Bool-cases (is_over clock.expiry r)) [
    | inl over ↦ rw over (run_delete-Reachable s g)
    | inr live ↦
        rw live
          (finish_vault-Reachable reply _ (keeps.vault _ (update-Reachable _ _ _ _ _ s.store g)))
  ]

module _ (suffix : Text) (c : Cluster) (h : Hashes) (settings : Settings) where
  passes-Reachable :
      (meet : DemoRecord → Pass)
      → ((r : DemoRecord) → Keeps suffix (meet r).others)
      → (rs : List DemoRecord) (s : State c.World) → Reachable suffix s.store
      → Reachable suffix (passes c h settings meet rs s).store
  unfolding passes
  passes-Reachable meet keeps [] s g = g
  passes-Reachable meet keeps (r ∷ rs) s g =
      let pass = meet r in
      passes-Reachable meet keeps rs (reconcile c h settings pass.clock pass.others r pass.reply s)
        (reconcile-Reachable suffix c h settings pass.clock pass.others (keeps r) r pass.reply s g)

  run-Reachable :
      (rounds : List ((DemoRecord → Pass) × ℕ))
      → All (λ x. (r : DemoRecord) → Keeps suffix (x.0 r).others) rounds
      → (l : Loop c.World) → Reachable suffix l.state.store
      → Reachable suffix (run c h settings rounds l).state.store
  unfolding run round
  run-Reachable [] keeps l g = g
  run-Reachable ((meet, now) ∷ rounds) keeps l g =
      run-Reachable rounds keeps.1 (round c h settings meet now l)
        (passes-Reachable meet keeps.0 (list_reconcilable l.state.store) l.state g)

  -- However many rounds the loop runs, and whatever Vault, the cluster and the clock say, the tables
  -- stay sound, where they were made by the store's methods before and the handlers that run while a
  -- pass waits change them by these methods only.
  pub run-IsSound :
      (rounds : List ((DemoRecord → Pass) × ℕ))
      → All (λ x. (r : DemoRecord) → Keeps suffix (x.0 r).others) rounds
      → (l : Loop c.World) → Reachable suffix l.state.store
      → IsSound suffix (run c h settings rounds l).state.store
  run-IsSound rounds keeps l g = Reachable-IsSound suffix (run-Reachable rounds keeps l g)
