-- ===== src/Charm/Adapter/Owned.antt =====
-- What the removal of the charm deletes.
use demos_rework.Base.{◌≡◌, refl, ◌∙◌, ap, true, some, Bool-cases, Option-cases, inl, inr, ◌⊎◌}
use demos_rework.Base.Text.{Text, text_eq_iff}
use demos_rework.Models.Config.{Dict, lookup}
use demos_rework.Kubernetes.Client.{Reply, done, fault}
use demos_rework.Charm.Adapter.{
  NodeClient, SeenService, owner_annotation, service_name, is_owned, after_delete, after_look,
  cleanup,
}

-- The annotation of a Service that names an application as the owner.
unfoldable pub OwnedBy : Text → SeenService → Type 0
OwnedBy app_name seen =
    (annotations : Dict) × (seen.annotations ≡ some annotations)
    × (lookup owner_annotation annotations ≡ some app_name)

is_owned-OwnedBy :
    (app_name : Text) (seen : SeenService)
    → is_owned app_name seen.annotations ≡ true
    → OwnedBy app_name seen
unfolding is_owned OwnedBy
is_owned-OwnedBy app_name seen h = elim (Option-cases seen.annotations) [
  | inl e ↦ cc (rw (e, is_owned) at h)
  | inr (annotations, e) ↦ elim (Option-cases (lookup owner_annotation annotations)) [
    | inl f ↦ cc (rw (e, f, is_owned) at h)
    | inr (owner, f) ↦
        let same = (text_eq_iff owner app_name).0 (rw (e, f, is_owned) at h) in
        (annotations, e, f ∙ ap some same)
  ]
]

after_delete-world :
    (c : NodeClient) (namespace app_name : Text) (p : Reply (Unit {0}) × c.World)
    → (after_delete c namespace app_name p).1 ≡ p.1
after_delete-world c namespace app_name (fault f, w) = refl
after_delete-world c namespace app_name (done _, w) = refl

after_look_cases :
    (c : NodeClient) (namespace app_name : Text) (reply : Reply SeenService) (w : c.World)
    → ((after_look c namespace app_name (reply, w)).1 ≡ w)
      ⊎ ((seen : SeenService) × (reply ≡ done seen)
          × OwnedBy app_name seen
          × ((after_look c namespace app_name (reply, w)).1
              ≡ (c.delete (service_name app_name) namespace w).1))
after_look_cases c namespace app_name (fault f) w = inl refl
after_look_cases c namespace app_name (done seen) w =
    elim (Bool-cases (is_owned app_name seen.annotations)) [
      | inl own ↦ inr (
        seen,
        refl,
        is_owned-OwnedBy app_name seen own,
        rw own (
            after_delete-world c namespace app_name (c.delete (service_name app_name) namespace w)),
      )
      | inr other ↦ inl (rw other refl)
    ]

-- The removal leaves the cluster as the look at the Service left it, or that look showed a Service
-- which the annotation gives to the application, and then it is what the deletion leaves.
pub cleanup_owned :
    (c : NodeClient) (namespace app_name : Text) (w : c.World)
    → let (reply, looked) = c.get (service_name app_name) namespace w in
      ((cleanup c namespace app_name w).1 ≡ looked)
      ⊎ ((seen : SeenService) × (reply ≡ done seen)
          × OwnedBy app_name seen
          × ((cleanup c namespace app_name w).1
              ≡ (c.delete (service_name app_name) namespace looked).1))
unfolding cleanup
cleanup_owned c namespace app_name w =
    let (reply, looked) = c.get (service_name app_name) namespace w in
    after_look_cases c namespace app_name reply looked
