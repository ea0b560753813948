-- ===== src/Api/Accepted.antt =====
-- What it takes to write a demo, and what an accepted deployment has written.
use mathlib.Core.Path.{subst}
use demos_rework.Base.{ℕ, ◌≡◌, refl, sym, ◌∙◌, ap, Bool, some, inl, inr}
use demos_rework.Base.Text.{Text}
use demos_rework.Base.Result.{Result, ok, raise}
use demos_rework.Hashes.{Hashes}
use demos_rework.Http.{Request}
use demos_rework.Models.{DeployRequest}
use demos_rework.Store.{Store, upsert_deploy}
use demos_rework.Store.Rows.{DemoRecord}
use demos_rework.Store.Fields.{get, DemoStatus, status}
use demos_rework.Store.Deploy.{accepted_after}
use demos_rework.Auth.{Session, authenticate, claimed_repository, request_hash}
use demos_rework.Auth.Sound.{IsAdmitted, authenticate_sound}
use demos_rework.Api.{Service, admit_deploy, report_deploy, deploy, post_deploy}
use demos_rework.Api.Guards.{IsAuthorized, admit_deploy_sound}
use demos_rework.Api.Serve.{Result-cases, serve_cases, authenticate_demos}

-- The row of an accepted deployment, and what is shown of it.
pub record IsWritten (payload : DeployRequest) (s : Store) (reply : DemoStatus) : Type 0 where
  pub row : DemoRecord
  pub listed : get payload.repository payload.pr s ≡ some row
  pub shown : status row s ≡ ok reply

report_ok :
    (p : Result (DemoRecord × Bool) × Store) (reply : DemoStatus)
    → (report_deploy p).0 ≡ ok reply
    → (r : DemoRecord) × (new : Bool) × (p.0 ≡ ok (r, new))
      × (status r p.1 ≡ ok reply)
      × ((report_deploy p).1 ≡ p.1)
report_ok (raise e, s) reply h = cc
report_ok (ok (r, new), s) reply h = (r, new, refl, h, refl)

deploy_ok :
    (h : Hashes) (service : Service) (now : ℕ) (request : Request) (repository : Text) (s : Store)
    (reply : DemoStatus)
    → (deploy h service now request repository s).0 ≡ ok reply
    → (payload : DeployRequest) × IsAuthorized service request repository payload
      × IsWritten payload (deploy h service now request repository s).1 reply
unfolding deploy
deploy_ok h service now request repository s reply e =
    elim (Result-cases (admit_deploy service request repository)) [
      | inl (error, refused) ↦ cc (rw (refused, deploy) at e)
      | inr (payload, admitted) ↦
          let hash = request_hash h request.body in
          let p = upsert_deploy now payload hash s in
          let (r, new, accepted, shown, same) = report_ok p reply (rw (admitted, deploy) at e) in
          (
            payload,
            admit_deploy_sound service request repository payload admitted,
            rw (admitted, deploy)
                (subst (λ t. IsWritten payload t reply) (sym same)
                  (record {
                    row = r;
                    listed = accepted_after now payload hash s r new accepted;
                    shown = shown;
                  })),
          )
    ]

-- A deployment that is accepted was signed with the key of the repository that it names, within its
-- rate and with a nonce that is free for it; its body is a valid request for that repository, with
-- an image of it in the registry and the nonce for its delivery id; and the demo that the reply
-- shows is in the store under the request's key.
pub post_deploy_accepted :
    (h : Hashes) (service : Service) (now later : ℕ) (request : Request) (session : Session)
    (reply : DemoStatus)
    → (post_deploy h service now later request session).0 ≡ ok reply
    → (payload : DeployRequest) × IsAdmitted h service.policy now request session
        (claimed_repository request)
      × IsAuthorized service request (claimed_repository request) payload
      × IsWritten payload (post_deploy h service now later request session).1.store reply
unfolding post_deploy
post_deploy_accepted h service now later request session reply e =
    elim (serve_cases h service now request session (deploy h service later request)) [
      | inl (error, raised, _) ↦ cc (raised, e)
      | inr (repository, known, answer, store) ↦
          let admitted = authenticate_sound h service.policy now request session repository known in
          let named = admitted.named in
          let s = (authenticate h service.policy now request session).1.store in
          let (payload, authorized, written) =
            deploy_ok h service later request repository s reply (sym answer ∙ e) in
          (
            payload,
            subst (IsAdmitted h service.policy now request session) named admitted,
            subst (λ t. IsAuthorized service request t payload) named authorized,
            subst (λ t. IsWritten payload t reply) (sym store) written,
          )
    ]

-- A deploy request whose body is no valid deployment of the repository that it names, with an image
-- of it in the registry and the nonce for its delivery id, leaves the demos as they were.
pub post_deploy_refused :
    (h : Hashes) (service : Service) (now later : ℕ) (request : Request) (session : Session)
    → ((payload : DeployRequest)
        → ¬ IsAuthorized service request (claimed_repository request) payload)
    → (post_deploy h service now later request session).1.store.demos ≡ session.store.demos
unfolding post_deploy deploy
post_deploy_refused h service now later request session never =
    elim (serve_cases h service now request session (deploy h service later request)) [
      | inl (error, raised, same) ↦ same
      | inr (repository, known, answer, store) ↦
          let named =
            (authenticate_sound h service.policy now request session repository known).named in
          elim (Result-cases (admit_deploy service request repository)) [
            | inl (error, refused) ↦
                let s = (authenticate h service.policy now request session).1.store in
                let kept : (deploy h service later request repository s).1 ≡ s =
                  (rw (refused, deploy) refl) in
                ap (λ t. t.demos) (store ∙ kept)
                ∙ authenticate_demos h service.policy now request session
            | inr (payload, admitted) ↦ absurd (
                never payload (
                  subst (λ t. IsAuthorized service request t payload) named
                    (admit_deploy_sound service request repository payload admitted)))
          ]
    ]
