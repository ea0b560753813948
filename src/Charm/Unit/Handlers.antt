-- ===== src/Charm/Unit/Handlers.antt =====
-- charm/src/charm.py: _remove and the actions.
use demos_rework.Base.{
  ℕ, ◌+◌, Bool, Option, none, some, List, [], ◌∷◌, ◌++◌, ◌||◌, ◌==◌, zero, if◌then◌else◌,
}
use demos_rework.Base.Text.{Text, text, strip}
use demos_rework.Base.Text.{is_lower, is_upper, is_digit}
use demos_rework.Base.Decimal.{str}
use demos_rework.Base.Int.{ℤ, pos}
use demos_rework.Base.ParseInt.{is_space}
use demos_rework.Hashes.{Hashes}
use demos_rework.Regex.{Regex, class, seq, plus, lit, fullmatch}
use demos_rework.Models.Config.{Dict}
use demos_rework.Charm.Logs.{
  default_tail, Pod, Exec, Fetched, fetched, logs_error, demo_pod_selector, fetch_demo_logs,
  clamp_tail,
}
use demos_rework.Charm.Adapter.{NodeClient, cleanup}
use demos_rework.Charm.Environment.{Juju, is_dot}
use demos_rework.Charm.Unit.{Surroundings, State}

-- What an action reports: the results, or why it failed.
pub data ActionReport : Type 0 where
  results : Dict → ActionReport
  failed : Text → ActionReport
  -- an exception that the handler does not catch
  crashed : Text → ActionReport

module _ (c : NodeClient) (juju : Juju) (seen : Surroundings) where
  -- _remove; an ApiError and a KubernetesPermissionError are logged
  unfoldable pub remove : State c.World → State c.World
  remove s =
      let (outcome, world) = cleanup c juju.model_name juju.app_name s.world in
      if seen.is_leader then record s { world = world } else s

  -- _reconcile_action
  unfoldable pub reconcile_action : State c.World → ActionReport × State c.World
  reconcile_action s =
      if seen.can_connect
      then (
        results ((text "result", text "controller restarted; reconciliation will resume") ∷ []),
        record s { restarts = s.restarts + 1 },
      )
      else (failed (text "controller container is unavailable"), s)

-- _show_endpoint_action
unfoldable pub show_endpoint_action : Juju → ActionReport
show_endpoint_action juju = results (
    (text "api-url", text "https://" ++ strip is_dot juju.config.api_hostname)
    ∷ (text "demo-hostname", text "*." ++ strip is_dot juju.config.hostname_suffix)
    ∷ (
      text "service",
      juju.app_name ++ (text "." ++ (juju.model_name ++ text ".svc.cluster.local:8080")),
    )
    ∷ [])

-- [A-Za-z0-9_.-]+/[A-Za-z0-9_.-]+
abbrev pub is_name_char : ℕ → Bool
is_name_char c = is_lower c || is_upper c || is_digit c || c == b'_' || c == b'.' || c == b'-'

unfoldable pub pair_re : Regex
pair_re = seq (plus (class is_name_char)) (seq (lit (text "/")) (plus (class is_name_char)))

-- event.params.get("tail") or DEFAULT_TAIL
abbrev pub tail_or_default : Option ℤ → ℤ
tail_or_default none = pos default_tail
tail_or_default (some (pos zero)) = pos default_tail
tail_or_default (some tail) = tail

abbrev pub report_logs : ℕ → Fetched → ActionReport
report_logs tail (fetched logs) = results ((text "logs", logs) ∷ (text "tail", str tail) ∷ [])
report_logs tail (logs_error message) = failed message
report_logs tail (Fetched.crashed name) = crashed name

-- _demo_logs_action: `pods` lists the pods that a selector selects, and the number of the pull
-- request is not negative
unfoldable pub demo_logs_action :
    Hashes → (List ℕ → Text) → Exec → (Dict → List Pod) → Text → ℕ → Option ℤ → ActionReport
unfolding demo_pod_selector fetch_demo_logs clamp_tail pair_re
demo_logs_action h decode exec pods given pr tail =
    let repository = strip is_space given in
    let count = clamp_tail (tail_or_default tail) in
    if fullmatch pair_re repository
    then report_logs count (
        fetch_demo_logs decode exec (pods (demo_pod_selector h repository pr)) repository pr
          (pos count))
    else failed (text "repository must be the owner/name GitHub repository")
