-- ===== src/Program.antt =====
-- The handlers of src/demo_controller/api.py and the loop of src/demo_controller/reconciler.py
-- together, on one database: while a pass waits, requests are served.
pub mod Sound
use demos_rework.Base.{
  ℕ, ◌*◌, ◌≡◌, refl, Bool, true, false, Option, none, some, List, [], ◌∷◌, All, sym, Bool-cases,
  inl, inr,
}
use demos_rework.Base.Text.{Text, text}
use demos_rework.Base.Result.{Error, Result, ok, raise}
use demos_rework.Base.Int.{ℤ}
use demos_rework.Hashes.{Hashes}
use demos_rework.Http.{Request, header}
use demos_rework.Models.{DeployRequest, DestroyRequest}
use demos_rework.Auth.{
  Policy, Windows, Session, fingerprint_input, authenticate, claimed_repository, verify,
  spend_nonce, check_rate, within_rate, request_hash,
}
use mathlib.Core.Path.{subst}
use demos_rework.Api.Serve.{Result-cases}
use demos_rework.Api.{
  Service, behind, body_limit, serve, deploy, destroy, report_deploy, report, admit_deploy,
  admit_destroy, post_deploy, post_destroy, get_status,
}
use demos_rework.Store.{Store, use_nonce, upsert_deploy, request_destroy}
use demos_rework.Store.Rows.{DemoRecord}
use demos_rework.Store.Reachable.{Step, Reachable, start, next, empty_store, IsSound}
use demos_rework.Kubernetes.Client.{Cluster}
use demos_rework.Reconciler.{VaultReply, Settings, Clock, Others, State, unknown}
use demos_rework.Reconciler.Loop.{Pass, Loop, Keeps, run, run-IsSound}

-- A request of a workflow that arrives: a deployment or a deletion with the two readings of the
-- clock that it meets, or a request for the status of a demo with one reading and the parts of its
-- path. The other requests (healthz, readyz, statusz, the proxy) write to no table.
pub data Event : Type 0 where
  deploys destroys : ℕ → ℕ → Request → Event
  asks : ℕ → Text → Text → ℤ → Request → Event

-- What a pass meets: the requests that are served while it waits, beside the deques of the rate
-- limit at that time.
pub record Meeting : Type 0 where
  pub reply : VaultReply
  pub clock : Clock
  pub vault_windows : Windows
  pub during_vault : List Event
  pub kubernetes_windows : Windows
  pub during_kubernetes : List Event

module _ (h : Hashes) (service : Service) where
  abbrev pub handle : Event → Session → Session
  handle (deploys now later request) session = (post_deploy h service now later request session).1
  handle (destroys now later request) session = (post_destroy h service now later request session).1
  handle (asks now owner name pr request) session =
      (get_status h service now owner name pr request session).1

  unfoldable pub handle_all : List Event → Session → Session
  handle_all [] session = session
  handle_all (e ∷ events) session = handle_all events (handle e session)

  abbrev pub served : Windows → List Event → Store → Store
  served windows events s = (handle_all events (record { windows = windows; store = s })).store

  abbrev pub pass_of : Meeting → Pass
  pass_of m = record {
    reply = m.reply;
    clock = m.clock;
    others = record {
      during_vault = served m.vault_windows m.during_vault;
      during_kubernetes = served m.kubernetes_windows m.during_kubernetes;
    };
  }

  unfoldable pub rounds_of : List ((DemoRecord → Meeting) × ℕ) → List ((DemoRecord → Pass) × ℕ)
  rounds_of [] = []
  rounds_of ((meet, now) ∷ rounds) = (λ r. pass_of (meet r), now) ∷ rounds_of rounds

-- The loop as it begins, at a database that was empty before these requests.
unfoldable pub begin : (c : Cluster) → Text → Hashes → Service → List Event → c.World → Loop c.World
unfolding handle_all
begin c suffix h service before w = record {
  state = record {
    store = served h service [] before (empty_store suffix);
    world = w;
    vault = unknown;
    kubernetes = unknown;
  };
  last_completed_at = none;
}
