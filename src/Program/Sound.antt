-- ===== src/Program/Sound.antt =====
-- What the handlers and the loop keep together.
use demos_rework.Base.{
  ℕ, ◌*◌, ◌≡◌, refl, Bool, true, false, List, [], ◌∷◌, All, sym, Bool-cases, inl, inr,
}
use demos_rework.Base.Text.{Text, text}
use demos_rework.Base.Result.{Result, ok, raise}
use demos_rework.Hashes.{Hashes}
use demos_rework.Http.{Request, header}
use demos_rework.Auth.{
  Session, fingerprint_input, authenticate, claimed_repository, verify, spend_nonce, check_rate,
  within_rate, is_empty, request_hash,
}
use mathlib.Core.Path.{subst}
use demos_rework.Api.Serve.{Result-cases}
use demos_rework.Api.{
  Service, behind, body_limit, serve, deploy, destroy, report_deploy, report, admit_deploy,
  admit_destroy, post_deploy, post_destroy, get_status,
}
use demos_rework.Store.{Store, use_nonce}
use demos_rework.Store.Rows.{DemoRecord}
use demos_rework.Store.Reachable.{Step, Reachable, start, next, IsSound}
use demos_rework.Kubernetes.Client.{Cluster}
use demos_rework.Reconciler.{Settings}
use demos_rework.Reconciler.Loop.{Keeps, run, run-IsSound}
use demos_rework.Program.{
  Event, deploys, destroys, asks, Meeting, handle, handle_all, pass_of, rounds_of, begin,
}

module _ (suffix : Text) (h : Hashes) (service : Service) where
  spend_nonce-Reachable :
      (now : ℕ) (request : Request) (session : Session)
      → Reachable suffix session.store
      → Reachable suffix (spend_nonce h service.policy now request session).1.store
  unfolding spend_nonce
  spend_nonce-Reachable now request session g =
      let nonce = header (text "x-demos-nonce") [] request in
      let repository = claimed_repository request in
      let fingerprint = h.sha256 (fingerprint_input repository request) in
      let used = next g (
        Step.uses_nonce repository nonce fingerprint now (service.policy.max_age_seconds * 2)
          session.store) in
      elim (Bool-cases (is_empty nonce)) [
        | inl empty ↦ rw (empty, spend_nonce) g
        | inr given ↦
            elim (Bool-cases
              (use_nonce repository nonce fingerprint now (service.policy.max_age_seconds * 2)
                session.store).0) [
                  | inl fresh ↦ rw (given, fresh, spend_nonce) used
                  | inr known ↦ rw (given, known, spend_nonce) used
                ]
      ]

  behind-Reachable :
      {A : Type 0} (handler : Text → Store → Result A × Store)
      → ((repository : Text) (s : Store)
          → Reachable suffix s
          → Reachable suffix (handler repository s).1)
      → (p : Result Text × Session) → Reachable suffix p.1.store
      → Reachable suffix (behind handler p).1.store
  behind-Reachable handler keeps (raise e, session) g = g
  behind-Reachable handler keeps (ok repository, session) g = keeps repository session.store g

  within-Reachable :
      (now : ℕ) (request : Request) (p : Bool × Session)
      → Reachable suffix p.1.store
      → Reachable suffix (within_rate h service.policy now request p).1.store
  within-Reachable now request (true, session) g = spend_nonce-Reachable now request session g
  within-Reachable now request (false, session) g = g

  authenticate-Reachable :
      (now : ℕ) (request : Request) (session : Session)
      → Reachable suffix session.store
      → Reachable suffix (authenticate h service.policy now request session).1.store
  unfolding authenticate check_rate
  authenticate-Reachable now request session g =
      elim (Result-cases (verify h service.policy now request)) [
        | inl (e, bad) ↦ rw (bad, authenticate) g
        | inr (_, good) ↦ rw (good, authenticate) (within-Reachable now request _ g)
      ]

  serve-Reachable :
      {A : Type 0} (now : ℕ) (handler : Text → Store → Result A × Store)
      → ((repository : Text) (s : Store)
          → Reachable suffix s
          → Reachable suffix (handler repository s).1)
      → (request : Request) (session : Session) → Reachable suffix session.store
      → Reachable suffix (serve h service now handler request session).1.store
  unfolding serve
  serve-Reachable now handler keeps request session g =
      elim (Result-cases (body_limit service.request_max_bytes request)) [
        | inl (e, long) ↦ rw (long, serve) g
        | inr (_, short) ↦
            rw (short, serve)
              (behind-Reachable handler keeps _ (authenticate-Reachable now request session g))
      ]

  report_deploy-store : (p : Result (DemoRecord × Bool) × Store) → (report_deploy p).1 ≡ p.1
  report_deploy-store (raise e, s) = refl
  report_deploy-store (ok (r, new), s) = refl

  report-store : (p : Result DemoRecord × Store) → (report p).1 ≡ p.1
  report-store (raise e, s) = refl
  report-store (ok r, s) = refl

  deploy-Reachable :
      (now : ℕ) (request : Request) (repository : Text) (s : Store)
      → Reachable suffix s
      → Reachable suffix (deploy h service now request repository s).1
  unfolding deploy
  deploy-Reachable now request repository s g =
      elim (Result-cases (admit_deploy service request repository)) [
        | inl (e, bad) ↦ rw (bad, deploy) g
        | inr (payload, good) ↦
            rw (good, deploy)
              (subst (Reachable suffix) (sym (report_deploy-store _))
                (next g (Step.deploys now payload (request_hash h request.body) s)))
      ]

  destroy-Reachable :
      (now : ℕ) (request : Request) (repository : Text) (s : Store)
      → Reachable suffix s
      → Reachable suffix (destroy h service now request repository s).1
  unfolding destroy
  destroy-Reachable now request repository s g =
      elim (Result-cases (admit_destroy service request repository)) [
        | inl (e, bad) ↦ rw (bad, destroy) g
        | inr (p, good) ↦
            rw (good, destroy)
              (subst (Reachable suffix) (sym (report-store _)) (
                next g (
                  Step.destroys now p.repository p.pr p.delivery_id (request_hash h request.body)
                    s)))
      ]

  handle-Reachable :
      (e : Event) (session : Session)
      → Reachable suffix session.store
      → Reachable suffix (handle h service e session).store
  unfolding post_deploy post_destroy get_status
  handle-Reachable (deploys now later request) session g =
      serve-Reachable now _ (deploy-Reachable later request) request session g
  handle-Reachable (destroys now later request) session g =
      serve-Reachable now _ (destroy-Reachable later request) request session g
  handle-Reachable (asks now owner name pr request) session g =
      serve-Reachable now _ (λ repository s kept. kept) request session g

  handle_all-Reachable :
      (events : List Event) (session : Session)
      → Reachable suffix session.store
      → Reachable suffix (handle_all h service events session).store
  unfolding handle_all
  handle_all-Reachable [] session g = g
  handle_all-Reachable (e ∷ events) session g =
      handle_all-Reachable events (handle h service e session) (handle-Reachable e session g)

  pass_of-Keeps : (m : Meeting) → Keeps suffix (pass_of h service m).others
  pass_of-Keeps m = record {
    vault = λ s g. handle_all-Reachable m.during_vault _ g;
    kubernetes = λ s g. handle_all-Reachable m.during_kubernetes _ g;
  }

  rounds_of-Keeps :
      (rounds : List ((DemoRecord → Meeting) × ℕ))
      → All (λ x. (r : DemoRecord) → Keeps suffix (x.0 r).others) (rounds_of h service rounds)
  unfolding rounds_of
  rounds_of-Keeps [] = tt
  rounds_of-Keeps ((meet, now) ∷ rounds) = (λ r. pass_of-Keeps (meet r), rounds_of-Keeps rounds)

-- From an empty database, after requests that were served, the loop keeps the tables sound: whatever
-- Vault, the cluster and the clock say, however many rounds it runs, and whatever deployments,
-- deletions and requests for a status are served while its passes wait.
pub program-IsSound :
    (suffix : Text) (c : Cluster) (h : Hashes) (service : Service) (settings : Settings)
    (before : List Event) (rounds : List ((DemoRecord → Meeting) × ℕ)) (w : c.World)
    → IsSound suffix (
        (run c h settings
          (rounds_of h service rounds)
          (begin c suffix h service before w)).state.store)
unfolding begin
program-IsSound suffix c h service settings before rounds w =
    run-IsSound suffix c h settings (rounds_of h service rounds)
      (rounds_of-Keeps suffix h service rounds) (begin c suffix h service before w)
      (handle_all-Reachable suffix h service before _ start)
