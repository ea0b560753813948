-- ===== src/Api/Rights.antt =====
-- Which rows a request may change.
use demos_rework.Base.{ℕ, ◌≡◌, ◌≢◌, refl, sym, ◌∙◌, ap, Bool, false, Bool-cases, inl, inr}
use demos_rework.Base.Text.{Text, text_eq, text_eq_iff}
use demos_rework.Base.Result.{Result, ok, raise}
use demos_rework.Hashes.{Hashes}
use demos_rework.Http.{Request}
use demos_rework.Store.{Store, upsert_deploy, request_destroy}
use demos_rework.Store.Rows.{DemoRecord}
use demos_rework.Store.Keys.{same_key}
use demos_rework.Store.Fields.{get}
use demos_rework.Store.Deploy.{upsert_deploy_refines}
use demos_rework.Store.Destroy.{request_destroy_refines}
use demos_rework.Auth.{Session, claimed_repository, request_hash}
use demos_rework.Auth.Sound.{authenticate_sound}
use demos_rework.Api.{
  Service, report_deploy, report, admit_deploy, admit_destroy, deploy, destroy, serve, post_deploy,
  post_destroy,
}
use demos_rework.Api.Guards.{admit_deploy_sound, admit_destroy_own}
use demos_rework.Api.Serve.{Result-cases, serve_cases, authenticate_demos}

-- The rows that a handler may change are those of one repository.
abbrev pub Keeps : Text → Store → Store → Type 0
Keeps repository s s' = (b : Text) (q : ℕ) → b ≢ repository → get b q s' ≡ get b q s

get_of_demos : (b : Text) (q : ℕ) (s s' : Store) → s'.demos ≡ s.demos → get b q s' ≡ get b q s
unfolding get
get_of_demos b q s s' e = rw e refl

other_key : (a b : Text) (p q : ℕ) → b ≢ a → same_key a p b q ≡ false
unfolding same_key
other_key a b p q other = elim (Bool-cases (text_eq a b)) [
  | inl same ↦ absurd (other (sym ((text_eq_iff a b).0 same)))
  | inr differ ↦ rw differ refl
]

report_deploy-store : (p : Result (DemoRecord × Bool) × Store) → (report_deploy p).1 ≡ p.1
report_deploy-store (raise e, s) = refl
report_deploy-store (ok (r, new), s) = refl

deploy-Keeps :
    (h : Hashes) (service : Service) (now : ℕ) (request : Request) (repository : Text) (s : Store)
    → Keeps repository s (deploy h service now request repository s).1
unfolding deploy
deploy-Keeps h service now request repository s b q other =
    elim (Result-cases (admit_deploy service request repository)) [
      | inl (e, refused) ↦ rw (refused, deploy) refl
      | inr (payload, admitted) ↦
          let own = (admit_deploy_sound service request repository payload admitted).own in
          rw (admitted, deploy)
            (rw
              (
                report_deploy-store (upsert_deploy now payload (request_hash h request.body) s),
                (upsert_deploy_refines now payload (request_hash h request.body) s).1 b q,
                own,
                other_key repository b payload.pr q other,
              )
              refl)
    ]

report-store : (p : Result DemoRecord × Store) → (report p).1 ≡ p.1
report-store (raise e, s) = refl
report-store (ok r, s) = refl

destroy-Keeps :
    (h : Hashes) (service : Service) (now : ℕ) (request : Request) (repository : Text) (s : Store)
    → Keeps repository s (destroy h service now request repository s).1
unfolding destroy
destroy-Keeps h service now request repository s b q other =
    elim (Result-cases (admit_destroy service request repository)) [
      | inl (e, refused) ↦ rw (refused, destroy) refl
      | inr (payload, admitted) ↦
          let own = admit_destroy_own service request repository payload admitted in
          let hash = request_hash h request.body in
          rw (admitted, destroy)
            (rw
              (
                report-store
                    (request_destroy now payload.repository payload.pr payload.delivery_id hash s),
                (request_destroy_refines now payload.repository payload.pr payload.delivery_id hash
                      s).1
                    b q,
                own,
                other_key repository b payload.pr q other,
              )
              refl)
    ]

module _ (h : Hashes) (service : Service) (now later : ℕ) (request : Request)
    (session : Session) where
  served-Keeps :
      {A : Type 0} (handler : Text → Store → Result A × Store)
      → ((repository : Text) (s : Store) → Keeps repository s (handler repository s).1)
      → Keeps
          (claimed_repository request)
          session.store
          (serve h service now handler request session).1.store
  served-Keeps handler k b q other =
      let kept = authenticate_demos h service.policy now request session in
      elim (serve_cases h service now request session handler) [
        | inl (e, raised, same) ↦ get_of_demos b q _ _ same
        | inr (repository, known, reply, store) ↦
            let named =
              (authenticate_sound h service.policy now request session repository known).named in
            ap (get b q) store ∙ k repository _ b q (rw named other) ∙ get_of_demos b q _ _ kept
      ]

  -- A deploy or destroy request leaves every demo of every repository but the one that it names, as
  -- it was, whether the request is accepted or refused.
  pub post_keeps_others :
      (b : Text) (q : ℕ)
      → b ≢ claimed_repository request
      → (get b q (post_deploy h service now later request session).1.store ≡ get b q session.store)
        × (get b q (post_destroy h service now later request session).1.store
            ≡ get b q session.store)
  unfolding post_deploy post_destroy
  post_keeps_others b q other = (
    served-Keeps (deploy h service later request) (deploy-Keeps h service later request) b q other,
    served-Keeps (destroy h service later request) (destroy-Keeps h service later request) b q
        other,
  )
