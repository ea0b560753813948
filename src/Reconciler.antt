-- ===== src/Reconciler.antt =====
-- src/demo_controller/reconciler.py: one pass over a demo. The Vault client's answer, the cluster,
-- the clock's readings and what other handlers do to the store across an `await` are parameters.
pub mod Applying
pub mod Outcomes
pub mod Races
pub mod Progress
pub mod Loop
use demos_rework.Base.{
  ℕ, ◌+◌, Bool, true, false, not, ◌&&◌, ◌||◌, Option, none, some, List, [], ◌∷◌, ◌++◌, leb,
  if◌then◌else◌, take,
}
use demos_rework.Base.Text.{Text, text, lower, starts_with}
use demos_rework.Hashes.{Hashes}
use demos_rework.Models.Config.{ProjectConfig}
use demos_rework.Store.{Store}
use demos_rework.Store.Rows.{DemoState, ready, reconciling, failed, deleting, DemoRecord}
use demos_rework.Store.Fields.{update_state, delete_record}
use demos_rework.Kubernetes.{RenderedResources, render_resources, apply, delete}
use demos_rework.Kubernetes.Client.{Cluster, Reply, done, fault, Fault}

-- What `await self.vault.project(…)` gives or raises.
pub data VaultReply : Type 0 where
  -- the configuration, and the version of its record
  project : ProjectConfig → ℕ → VaultReply
  -- a VaultError: its category and its text
  vault_error : Text → Text → VaultReply
  -- any other exception
  crash : Fault → VaultReply

pub data Observation : Type 0 where
  unknown : Observation
  fine : ℕ → Observation
  -- when, and what went wrong
  bad : ℕ → Text → Observation

-- _observe
abbrev pub observe : ℕ → Option Text → Observation
observe now none = fine now
observe now (some []) = fine now
observe now (some (c ∷ error)) = bad now (c ∷ error)

-- The fields of ReconciliationLoop that stay as they are.
pub record Settings : Type 0 where
  pub namespace : Text
  pub owner : Text
  pub image_registry : Text

-- The readings of the clock, in the order in which they are taken.
pub record Clock : Type 0 where
  pub expiry : ℕ
  pub begun : ℕ
  pub vault : ℕ
  pub kubernetes : ℕ
  pub ended : ℕ

-- What other handlers do to the store while the pass waits.
pub record Others : Type 0 where
  pub during_vault : Store → Store
  pub during_kubernetes : Store → Store

pub record State (W : Type 0) : Type 0 where
  pub store : Store
  pub world : W
  pub vault : Observation
  pub kubernetes : Observation

-- The pass ends by deleting: the record is not wanted any more, or its time is over.
unfoldable pub is_over : ℕ → DemoRecord → Bool
is_over now r = not r.desired_present || leb r.expires_at now

abbrev pub or_empty : Option Text → Text
or_empty none = []
or_empty (some t) = t

-- Whether a namespace, if there is one, allows an image.
abbrev pub allows : Text → Option Text → Text → Bool
allows registry none image = true
allows registry (some []) image = true
allows registry (some (c ∷ ns)) image =
    starts_with (registry ++ (text "/" ++ (lower (c ∷ ns) ++ text "@sha256:"))) (lower image)

-- The test of the image against the namespace that Vault authorizes, if there is one.
unfoldable pub namespace_allows : Text → DemoRecord → ProjectConfig → Bool
namespace_allows registry r config = allows registry config.image_namespace (or_empty r.image)

unfoldable pub deletion_failed : Text
deletion_failed = text "Kubernetes deletion failed"

unfoldable pub retained : Text
retained = text "; previous resources retained; backend availability is not verified"

-- The text of a VaultError as it is stored: with a remark, if there are resources to retain.
unfoldable pub vault_message : Text → Option ℕ → Text
vault_message message none = message
vault_message message (some _) = message ++ retained

unfoldable pub failure_message : Fault → Text
failure_message f =
    text "Kubernetes reconciliation failed ("
    ++ (f.kind ++ (text ": " ++ (take 300 f.detail ++ text ")")))

unfoldable pub outside_namespace : Fault
outside_namespace = record {
  kind = text "ValueError";
  detail = text "image is outside the Vault-authorized namespace";
  code = 0;
}

module _ (c : Cluster) (h : Hashes) (settings : Settings) (clock : Clock) (others : Others)
    (r : DemoRecord) where
  -- self.store.update_state(record.repository, record.pr, state, message)
  abbrev set_state : ℕ → DemoState → Text → Store → Store
  set_state now state message = update_state now r.repository r.pr state message none none

  -- `except Exception` of the deployment
  unfoldable pub give_up : Fault → State c.World → State c.World
  give_up f s = record s { store = set_state clock.ended failed (failure_message f) s.store }

  -- Behind `await asyncio.to_thread(self.kubernetes.delete, …)`.
  unfoldable pub finish_delete : Reply (Unit {0}) → State c.World → State c.World
  finish_delete (done _) s = record s {
    kubernetes = observe clock.kubernetes none;
    store = delete_record r.repository r.pr s.store;
  }
  finish_delete (fault f) s = record s {
    kubernetes = observe clock.kubernetes (some f.kind);
    store = set_state clock.ended failed deletion_failed s.store;
  }

  unfoldable pub run_delete : State c.World → State c.World
  unfolding finish_delete
  run_delete s =
      let begun = set_state clock.begun deleting (text "deleting resources") s.store in
      let (reply, world) = delete c h r.repository r.pr s.world in
      finish_delete reply (record s { store = others.during_kubernetes begun; world = world })

  -- Behind `await asyncio.to_thread(self.kubernetes.apply, …)`.
  unfoldable pub finish_apply : ProjectConfig → ℕ → Reply Bool → State c.World → State c.World
  unfolding give_up
  finish_apply config version (fault f) s =
      give_up f (record s { kubernetes = observe clock.kubernetes (some f.kind) })
  finish_apply config version (done is_ready) s = record s {
    kubernetes = observe clock.kubernetes none;
    store =
        update_state clock.ended r.repository r.pr (if is_ready then ready else reconciling)
          (if is_ready then text "deployment is ready" else text "waiting for deployment readiness")
          (some version) (some config.port) s.store;
  }

  unfoldable pub run_apply : ProjectConfig → ℕ → State c.World → State c.World
  unfolding finish_apply
  run_apply config version s =
      let rendered = render_resources h r config version settings.namespace settings.owner in
      let (reply, world) = apply c rendered s.world in
      finish_apply config version reply
        (record s { store = others.during_kubernetes s.store; world = world })

  -- Behind `await self.vault.project(…)`.
  unfoldable pub finish_vault : VaultReply → State c.World → State c.World
  unfolding give_up run_apply
  finish_vault (vault_error category message) s = record s {
    vault = observe clock.vault (some category);
    store = set_state clock.ended failed (vault_message message r.port) s.store;
  }
  finish_vault (crash f) s = give_up f s
  finish_vault (project config version) s =
      let seen : State c.World = record s { vault = observe clock.vault none } in
      if namespace_allows settings.image_registry r config
      then run_apply config version seen
      else give_up outside_namespace seen

  unfoldable pub run_deploy : VaultReply → State c.World → State c.World
  unfolding finish_vault
  run_deploy reply s =
      let begun = set_state clock.begun reconciling (text "loading configuration") s.store in
      finish_vault reply (record s { store = others.during_vault begun })

  -- reconcile
  unfoldable pub reconcile : VaultReply → State c.World → State c.World
  unfolding run_delete run_deploy is_over
  reconcile reply s = if is_over clock.expiry r then run_delete s else run_deploy reply s
