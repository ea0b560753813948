-- ===== src/Tests/Passes.antt =====
-- The theorems on the cluster and on a pass over a demo, at a small cluster.
use demos_rework.Base.{
  ℕ, ◌≡◌, ◌⊎◌, refl, arith, inl, false, none, some, List, [], ◌∷◌, ◌++◌, Option,
}
use demos_rework.Base.Text.{Text, text}
use demos_rework.Naming.{resource_name}
use demos_rework.Store.{Store, redeploy, upsert_deploy}
use demos_rework.Store.Rows.{DemoRecord, ready}
use demos_rework.Base.Result.{ok}
use demos_rework.Store.Fields.{get, get_ready_by_hostname, update_state}
use demos_rework.Store.Keys.{same_key}
use demos_rework.Store.Changes.{get-update_state}
use demos_rework.Base.Int.{pos}
use demos_rework.Kubernetes.{render_resources, apply, delete}
use demos_rework.Kubernetes.Client.{Kind, done, fault, Fault}
use demos_rework.Kubernetes.Deletion.{delete_leaves_nothing}
use demos_rework.Reconciler.{
  project, vault_error, reconcile, namespace_allows, VaultReply, Others, State,
}
use demos_rework.Reconciler.Applying.{Spares}
use demos_rework.Reconciler.Outcomes.{quiet, IsGivenUp, blocked_world, blocked_row, deletion_row}
use demos_rework.Reconciler.Progress.{IsUp, left_by, wanted_ready}
use demos_rework.Store.Reachable.{IsSound}
use demos_rework.Reconciler.Loop.{run}
use demos_rework.Program.{Event, deploys, asks, Meeting, rounds_of, begin}
use demos_rework.Program.Sound.{program-IsSound}
use demos_rework.Reconciler.Races.{deploying, met_by_deploy, deploy_lost, deploy_ready_early}
use demos_rework.Tests.Requests.{controller, reads_one, signed}
use demos_rework.Tests.{
  same_hashes, app, second_request, ready_demo, config, settings, clock, cluster, IsPresent,
  cluster-Deletes, state, Objects,
}

delete_leaves_nothing_example :
    ¬ IsPresent Kind.config_map
      (resource_name same_hashes app 7)
      (delete cluster same_hashes app 7 ((Kind.config_map, resource_name same_hashes app 7) ∷ [])).1
unfolding delete demos_rework.Tests.remove_found demos_rework.Tests.has
    demos_rework.Base.Text.text_eq resource_name demos_rework.Base.Text.rstrip
    demos_rework.Naming.resource_stem text demos_rework.Naming.resource_slug
    demos_rework.Naming.Slug.slug demos_rework.Base.Text.replace demos_rework.Base.Text.lower
    demos_rework.Base.Text.lower_char demos_rework.Tests.zeros demos_rework.Base.Decimal.str
    demos_rework.Tests.remove
delete_leaves_nothing_example =
    delete_leaves_nothing cluster IsPresent cluster-Deletes same_hashes app 7
      ((Kind.config_map, resource_name same_hashes app 7) ∷ []) refl Kind.config_map

abbrev refused : VaultReply
refused = vault_error (text "denied") (text "Vault denied")

-- The demo when its time is over.
abbrev over : DemoRecord
over = record ready_demo { expires_at = 100 }

blocked_world_example :
    ((reconcile cluster same_hashes settings clock quiet ready_demo refused state).world
      ≡ state.world)
    × ((reconcile cluster same_hashes settings clock quiet ready_demo refused state).kubernetes
        ≡ state.kubernetes)
unfolding reconcile
blocked_world_example =
    blocked_world cluster same_hashes settings clock ready_demo quiet refused state refl tt

blocked_row_example :
    (r' : DemoRecord) × (get app 7
        (reconcile cluster same_hashes settings clock quiet ready_demo refused state).store
      ≡ some r')
    × IsGivenUp ready_demo r'
unfolding reconcile get demos_rework.Store.Rows.find demos_rework.Store.Rows.is_demo
    demos_rework.Base.Text.text_eq text
blocked_row_example =
    blocked_row cluster same_hashes settings clock ready_demo refused state ready_demo refl tt refl

-- Other handlers that write to another demo meanwhile.
abbrev busy : Others
busy = record {
  during_vault = update_state 101 app 8 ready (text "other") none none;
  during_kubernetes = update_state 102 app 8 ready (text "other") none none;
}

busy-Spares : Spares busy app 7
unfolding same_key demos_rework.Base.Text.text_eq text
busy-Spares = record {
  vault = λ s. rw (get-update_state app 8 app 7 s) refl;
  kubernetes = λ s. rw (get-update_state app 8 app 7 s) refl;
}

deletion_row_example :
    (((delete cluster same_hashes app 7 state.world).0 ≡ done tt)
      × (get app 7 (reconcile cluster same_hashes settings clock busy over refused state).store
          ≡ none))
    ⊎ ((f : Fault) × ((delete cluster same_hashes app 7 state.world).0 ≡ fault f)
        × (r' : DemoRecord) × (get app 7
              (reconcile cluster same_hashes settings clock busy over refused state).store
            ≡ some r')
        × IsGivenUp ready_demo r')
unfolding reconcile get demos_rework.Store.Rows.find demos_rework.Store.Rows.is_demo
    demos_rework.Base.Text.text_eq text
deletion_row_example =
    deletion_row cluster same_hashes settings clock over busy refused state ready_demo busy-Spares
      refl refl

-- The row that a pass leaves which finds the demo ready.
abbrev passed : DemoRecord
passed = record ready_demo { updated_at = 104 }

-- The row of the second request, over the one that the pass has begun to delete.
abbrev lost : DemoRecord
lost = redeploy 101 second_request (text "h2") ready_demo

deploy_lost_example :
    (get app 7
        (upsert_deploy 101 second_request (text "h2") (met_by_deploy clock over state.store)).1
      ≡ some lost)
    × (get app 7
          (reconcile cluster same_hashes settings clock
            (deploying 101 second_request (text "h2"))
            over
            refused
            state).store
        ≡ none)
unfolding upsert_deploy demos_rework.Reconciler.is_over delete demos_rework.Tests.remove_found
    demos_rework.Tests.has demos_rework.Base.Text.text_eq text resource_name
    demos_rework.Base.Text.rstrip demos_rework.Naming.resource_stem
    demos_rework.Naming.resource_slug demos_rework.Naming.Slug.slug demos_rework.Base.Text.replace
    demos_rework.Base.Text.lower demos_rework.Base.Text.lower_char demos_rework.Tests.zeros
    demos_rework.Base.Decimal.str demos_rework.Store.Rows.find demos_rework.Base.Text.keep_before
    demos_rework.Base.Text.lstrip demos_rework.Base.Text.strip demos_rework.Base.Utf8.encode
    demos_rework.Base.Utf8.encode_char demos_rework.Kubernetes.delete_if_exists
    demos_rework.Kubernetes.forgive_missing demos_rework.Naming.Slug.collapse
    demos_rework.Store.Rows.amend demos_rework.Store.Rows.is_demo demos_rework.Store.new_deploy
    redeploy demos_rework.Store.write_deploy demos_rework.Tests.remove update_state
deploy_lost_example =
    deploy_lost cluster same_hashes settings clock over refused state 101 second_request (text "h2")
      lost refl refl refl refl refl

deploy_ready_early_example :
    (r' : DemoRecord) × (get app 7
        (reconcile cluster same_hashes settings clock
          (deploying 101 second_request (text "h2"))
          ready_demo
          (project config 3)
          state).store
      ≡ some r')
    × (r'.state ≡ ready)
    × (r'.commit_sha ≡ some second_request.commit_sha)
    × (r'.image ≡ some second_request.image)
    × ((reconcile cluster same_hashes settings clock
          (deploying 101 second_request (text "h2"))
          ready_demo
          (project config 3)
          state).world
        ≡ (apply cluster
            (render_resources same_hashes ready_demo config 3 settings.namespace settings.owner)
            state.world).1)
unfolding upsert_deploy demos_rework.Reconciler.is_over namespace_allows apply
    demos_rework.Kubernetes.all_resources render_resources demos_rework.Tests.remove_found
    demos_rework.Tests.has demos_rework.Store.Rows.find update_state demos_rework.Store.Rows.amend
    demos_rework.Store.Rows.is_demo demos_rework.Base.Text.text_eq text
    demos_rework.Store.write_deploy
deploy_ready_early_example =
    deploy_ready_early cluster same_hashes settings clock ready_demo config 3 state 101
      second_request (text "h2") lost refl refl refl refl refl refl

-- The row of the second request, and the program behind it.
abbrev wanted : DemoRecord
wanted = redeploy 90 second_request (text "h2") ready_demo

abbrev deployed : State Objects
deployed = record state { store = (upsert_deploy 90 second_request (text "h2") state.store).1 }

wanted_ready_example :
    (r' : DemoRecord) × (get app 7
        (left_by cluster same_hashes settings clock busy wanted config 4 deployed)
      ≡ some r')
    × IsUp config 4 r'
    × (r'.commit_sha ≡ some second_request.commit_sha)
    × (r'.image ≡ some second_request.image)
    × (get_ready_by_hostname
          (text "app-pr-7.demos")
          (left_by cluster same_hashes settings clock busy wanted config 4 deployed)
        ≡ ok (some r'))
unfolding upsert_deploy reconcile update_state demos_rework.Reconciler.is_over
    demos_rework.Store.Rows.find demos_rework.Store.Rows.is_demo demos_rework.Base.Text.text_eq text
    namespace_allows apply demos_rework.Kubernetes.all_resources render_resources
    demos_rework.Tests.remove_found demos_rework.Tests.has demos_rework.Store.Rows.amend
    demos_rework.Store.write_deploy redeploy demos_rework.Naming.hostname
    demos_rework.Naming.Slug.after_last demos_rework.Naming.hostname_label
    demos_rework.Naming.Slug.slug demos_rework.Base.Text.lower demos_rework.Base.Text.lower_char
    demos_rework.Base.Decimal.str
wanted_ready_example =
    wanted_ready cluster same_hashes settings clock busy 90 second_request (text "h2") state.store
      wanted config 4 deployed (text "app-pr-7.demos") refl refl (omega arith) busy-Spares refl refl
      refl (inl refl, tt)

-- A program that has served one request, runs two rounds, and is sent another request while the
-- passes wait for Vault.
abbrev again : Event
again = deploys 1100 1101 signed

abbrev meeting : Meeting
meeting = record {
  reply = project config 4;
  clock = clock;
  vault_windows = [];
  during_vault = again ∷ asks 1102 (text "me") (text "app") (pos 7) signed ∷ [];
  kubernetes_windows = [];
  during_kubernetes = [];
}

abbrev meetings : List ((DemoRecord → Meeting) × ℕ)
meetings = (λ r. meeting, 104) ∷ (λ r. meeting, 114) ∷ []

program-IsSound_example : IsSound (text "demos") (
    (run cluster same_hashes settings (rounds_of same_hashes (controller reads_one) meetings) (
      begin cluster (text "demos") same_hashes (controller reads_one) (again ∷ []) [])).state.store)
program-IsSound_example =
    program-IsSound (text "demos") cluster same_hashes (controller reads_one) settings (again ∷ [])
      meetings []
