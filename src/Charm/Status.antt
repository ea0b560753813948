-- ===== src/Charm/Status.antt =====
-- charm/src/charm.py: _set_workload_status, what the charm makes of the controller's diagnostics,
-- and the JSON of these diagnostics in src/demo_controller/api.py.
pub mod Active
use demos_rework.Base.{ℕ, Bool, true, false, Option, none, some, List, [], ◌∷◌, if◌then◌else◌}
use demos_rework.Base.Text.{Text, text, text_eq}
use demos_rework.Base.Decimal.{str}
use demos_rework.Base.Json.{
  Json, null, boolean, number, string, array, object, Members, no_member, member,
}
use demos_rework.Store.Rows.{DemoState, pending, reconciling, ready, failed, deleting}
use demos_rework.Reconciler.{Observation, unknown, fine, bad}
use demos_rework.Api.Status.{Report}

-- The status of the unit.
pub data UnitStatus : Type 0 where
  active : UnitStatus
  waiting maintenance blocked : Text → UnitStatus

-- value[key], for a JSON value; `none` is the KeyError or the TypeError
unfoldable pub find_key : Text → Members → Option Json
find_key key no_member = none
find_key key (member k v rest) = if text_eq k key then some v else find_key key rest

abbrev pub get_key : Text → Option Json → Option Json
get_key key (some (object members)) = find_key key members
get_key key _ = none

-- value == text, for a JSON value
abbrev pub is_string : Text → Json → Bool
is_string t (string s) = text_eq s t
is_string t _ = false

abbrev pub diagnostics : UnitStatus
diagnostics = waiting (text "waiting for controller diagnostics")

-- if value == text: … else: …, where the value can be read
abbrev pub branch : Option Json → Text → UnitStatus → UnitStatus → UnitStatus
branch none t then_ else_ = diagnostics
branch (some v) t then_ else_ = if is_string t v then then_ else else_

-- What is made of the output, read as JSON; `none` is an exception up to that.
unfoldable pub workload_status : Option Json → UnitStatus
unfolding find_key
workload_status health =
    let dependencies = get_key (text "dependencies") health in
    let vault = get_key (text "status") (get_key (text "vault") dependencies) in
    let kubernetes = get_key (text "status") (get_key (text "kubernetes") dependencies) in
    let state = get_key (text "state") (get_key (text "reconciliation") health) in
    let overall = get_key (text "status") health in
    branch (get_key (text "database") health) (text "ok")
      (branch state (text "running")
        (branch vault (text "error")
          (waiting (text "Vault reconciliation degraded; see controller logs"))
          (branch kubernetes (text "error")
            (waiting (text "Kubernetes reconciliation degraded; see controller logs"))
            (branch overall (text "degraded")
              (waiting (text "demo reconciliation degraded; see controller logs"))
              (branch overall (text "ok") active diagnostics))))
        (maintenance (text "controller reconciliation loop stopped")))
      (waiting (text "controller state database unavailable"))

-- An observation, as `health` gives it.
abbrev pub shown_time : Option ℕ → Json
shown_time none = null
shown_time (some n) = number (str n)

unfoldable pub shown_observation : Observation → Json
shown_observation unknown = object (
    member (text "status") (string (text "unknown"))
      (member (text "checked_at") null (member (text "error") null no_member)))
shown_observation (fine now) = object (
    member (text "status") (string (text "ok"))
      (member (text "checked_at") (number (str now)) (member (text "error") null no_member)))
shown_observation (bad now error) = object (
    member (text "status") (string (text "error")) (
      member (text "checked_at") (number (str now))
        (member (text "error") (string error) no_member)))

abbrev pub state_name : DemoState → Text
state_name pending = text "pending"
state_name reconciling = text "reconciling"
state_name ready = text "ready"
state_name failed = text "failed"
state_name deleting = text "deleting"

unfoldable pub shown_counts : List (DemoState × ℕ) → Members
shown_counts [] = no_member
shown_counts ((state, n) ∷ counts) =
    member (state_name state) (number (str n)) (shown_counts counts)

-- The content of the JSONResponse of controller_status.
unfoldable pub shown_report : Report → Json
unfolding shown_observation shown_counts
shown_report r = object (
    member (text "status") (string (if r.ok then text "ok" else text "degraded")) (
      member (text "database") (string (if r.database_ok then text "ok" else text "error")) (
        member (text "reconciliation")
          (object (
            member (text "state") (string (if r.running then text "running" else text "stopped"))
              (member (text "last_completed_at") (shown_time r.last_completed_at) no_member)))
          (member (text "dependencies")
            (object (
              member (text "vault") (shown_observation r.vault)
                (member (text "kubernetes") (shown_observation r.kubernetes) no_member)))
            (member (text "demos") (object (shown_counts r.demos)) no_member)))))
