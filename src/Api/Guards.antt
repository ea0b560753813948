-- ===== src/Api/Guards.antt =====
-- What a request that passes the tests of its handler is known to be.
use mathlib.Core.Path.{subst}
use demos_rework.Base.{
  ℕ, ◌≡◌, refl, sym, ◌∙◌, ap, Bool, true, false, some, Option-cases, inl, inr, ◌++◌,
}
use demos_rework.Base.Text.{Text, text, text_eq, text_eq_iff, lower, starts_with}
use demos_rework.Base.Result.{Result, ok}
use demos_rework.Http.{Request}
use demos_rework.Models.{
  RawDeploy, DeployRequest, DestroyRequest, validate_deploy, validate_destroy,
}
use demos_rework.Models.Config.{lookup}
use demos_rework.Api.{Service, guard, nonce_is, admit_deploy, admit_destroy}

-- A deploy request that passes all the tests of its handler.
pub record IsAuthorized (service : Service) (request : Request) (repository : Text)
    (payload : DeployRequest) : Type 0 where
  pub raw : RawDeploy
  pub read : service.read_deploy request.body ≡ some raw
  pub valid : validate_deploy raw ≡ some payload
  pub own : payload.repository ≡ repository
  pub registry :
      starts_with
        (service.image_registry ++ (text "/" ++ (repository ++ text "@sha256:")))
        (lower payload.image)
      ≡ true
  pub nonce : lookup (text "x-demos-nonce") request.headers ≡ some payload.delivery_id

nonce_is_sound :
    (request : Request) (delivery_id : Text)
    → nonce_is request delivery_id ≡ true
    → lookup (text "x-demos-nonce") request.headers ≡ some delivery_id
unfolding nonce_is
nonce_is_sound request delivery_id h =
    elim (Option-cases (lookup (text "x-demos-nonce") request.headers)) [
      | inl e ↦ cc (rw (e, nonce_is) at h)
      | inr (nonce, e) ↦ e ∙ ap some ((text_eq_iff nonce delivery_id).0 (rw (e, nonce_is) at h))
    ]

guard_ok :
    {A : Type 0} (t : Bool) (code : ℕ) (detail : Text) (m : Result A) {a : A}
    → guard t code detail m ≡ ok a
    → (t ≡ true) × (m ≡ ok a)
guard_ok true code detail m h = (refl, h)
guard_ok false code detail m h = cc

pub admit_deploy_sound :
    (service : Service) (request : Request) (repository : Text) (payload : DeployRequest)
    → admit_deploy service request repository ≡ ok payload
    → IsAuthorized service request repository payload
unfolding admit_deploy
admit_deploy_sound service request repository payload h =
    elim (Option-cases (service.read_deploy request.body)) [
      | inl e ↦ cc (rw (e, admit_deploy) at h)
      | inr (raw, e) ↦ elim (Option-cases (validate_deploy raw)) [
        | inl bad ↦ cc (rw (e, bad, admit_deploy) at h)
        | inr (p, valid) ↦ tested raw p e valid (rw (e, valid, admit_deploy) at h)
      ]
    ]
  where
    tested :
        (raw : RawDeploy) (p : DeployRequest)
        → service.read_deploy request.body ≡ some raw
        → validate_deploy raw ≡ some p
        → guard
            (text_eq p.repository repository)
            403
            (text "credential does not authorize repository")
            (guard
              (starts_with
                (service.image_registry ++ (text "/" ++ (p.repository ++ text "@sha256:")))
                (lower p.image))
              403
              (text "image registry is not authorized")
              (guard
                (nonce_is request p.delivery_id)
                400
                (text "nonce must equal delivery_id")
                (ok p)))
          ≡ ok payload
        → IsAuthorized service request repository payload
    tested raw p e valid g =
        let last : Result DeployRequest =
          guard (nonce_is request p.delivery_id) 400 (text "nonce must equal delivery_id") (ok p) in
        let listed =
          starts_with (service.image_registry ++ (text "/" ++ (p.repository ++ text "@sha256:")))
            (lower p.image) in
        let (own, g1) =
          guard_ok (text_eq p.repository repository) 403
            (text "credential does not authorize repository")
            (guard listed 403 (text "image registry is not authorized") last) g in
        let (registry, g2) =
          guard_ok listed 403 (text "image registry is not authorized") last g1 in
        let (nonce, g3) =
          guard_ok (nonce_is request p.delivery_id) 400 (text "nonce must equal delivery_id") (ok p)
            g2 in
        let same : p.repository ≡ repository = (text_eq_iff p.repository repository).0 own in
        let here : p ≡ payload = cc g3 in
        subst (IsAuthorized service request repository) here (record {
          raw = raw;
          read = e;
          valid = valid;
          own = same;
          registry = rw same at registry;
          nonce = nonce_is_sound request p.delivery_id nonce;
        })

-- A destroy request that passes the tests of its handler is for the repository that is
-- authenticated.
pub admit_destroy_own :
    (service : Service) (request : Request) (repository : Text) (payload : DestroyRequest)
    → admit_destroy service request repository ≡ ok payload
    → payload.repository ≡ repository
unfolding admit_destroy
admit_destroy_own service request repository payload h =
    elim (Option-cases (service.read_destroy request.body)) [
      | inl e ↦ cc (rw (e, admit_destroy) at h)
      | inr (raw, e) ↦ elim (Option-cases (validate_destroy raw)) [
        | inl bad ↦ cc (rw (e, bad, admit_destroy) at h)
        | inr (p, valid) ↦ tested p (rw (e, valid, admit_destroy) at h)
      ]
    ]
  where
    tested :
        (p : DestroyRequest)
        → guard
            (text_eq p.repository repository)
            403
            (text "credential does not authorize repository")
            (guard
              (nonce_is request p.delivery_id)
              400
              (text "nonce must equal delivery_id")
              (ok p))
          ≡ ok payload
        → payload.repository ≡ repository
    tested p g =
        let last : Result DestroyRequest =
          guard (nonce_is request p.delivery_id) 400 (text "nonce must equal delivery_id") (ok p) in
        let (own, g1) =
          guard_ok (text_eq p.repository repository) 403
            (text "credential does not authorize repository") last g in
        let (nonce, g2) =
          guard_ok (nonce_is request p.delivery_id) 400 (text "nonce must equal delivery_id") (ok p)
            g1 in
        let here : p ≡ payload = cc g2 in
        ap (λ x. x.repository) (sym here) ∙ (text_eq_iff p.repository repository).0 own
