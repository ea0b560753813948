-- ===== src/Api.antt =====
-- src/demo_controller/api.py: the handlers. JSON parsing is FastAPI's and pydantic's: a parameter
-- gives the raw request that a body holds, if it holds one. A handler returns its response, or the
-- error that it raises, beside the new state; an error that is no HTTPException becomes a status
-- 500 in FastAPI.
pub mod Guards
pub mod Serve
pub mod Rights
pub mod Accepted
pub mod Proxy
pub mod Visit
pub mod Response
pub mod Status
use demos_rework.Base.{
  ℕ, ◌+◌, Bool, true, false, not, ◌&&◌, ◌||◌, Option, none, some, List, [], ◌∷◌, ◌++◌, ltb, ◌==◌,
  if◌then◌else◌, length, any,
}
use demos_rework.Base.Text.{Text, text, text_eq, lower, starts_with, ends_with, keep_before, rstrip}
use demos_rework.Base.Int.{ℤ, pos, negsuc}
use demos_rework.Base.ParseInt.{parse_int}
use demos_rework.Base.Decimal.{str}
use demos_rework.Base.Result.{Error, value_error, type_error, index_error, http, Result, ok, raise}
use demos_rework.Hashes.{Hashes}
use demos_rework.Http.{Request, header}
use demos_rework.Models.{
  RawDeploy, DeployRequest, RawDestroy, DestroyRequest, validate_deploy, validate_destroy,
}
use demos_rework.Models.Config.{Dict, lookup}
use demos_rework.Naming.{resource_name}
use demos_rework.Store.{Store, upsert_deploy, request_destroy}
use demos_rework.Store.Rows.{DemoRecord}
use demos_rework.Store.Fields.{get, get_ready_by_hostname, DemoStatus, status}
use demos_rework.Auth.{Policy, Session, authenticate, request_hash}

-- The settings that the handlers read, and the readers of the bodies.
pub record Service : Type 0 where
  pub policy : Policy
  pub request_max_bytes : ℕ
  pub image_registry : Text
  pub hostname_suffix : Text
  pub namespace : Text
  pub read_deploy : List ℕ → Option RawDeploy
  pub read_destroy : List ℕ → Option RawDestroy

-- int(length) > settings.request_max_bytes
abbrev pub exceeds : ℤ → ℕ → Bool
exceeds (pos n) limit = ltb limit n
exceeds (negsuc n) limit = false

-- What body_limit makes of the header content-length.
unfoldable pub declared_length : ℕ → Option Text → Result (Unit {0})
declared_length limit none = ok tt
declared_length limit (some []) = ok tt
declared_length limit (some (c ∷ t)) = elim (parse_int (c ∷ t)) [
  | none ↦ raise (http 400 (text "invalid content-length"))
  | some n ↦ if exceeds n limit then raise (http 413 (text "request body too large")) else ok tt
]

unfoldable pub is_limited : Text → Bool
is_limited path = text_eq path (text "/api/v1/deploy") || text_eq path (text "/api/v1/destroy")

-- body_limit, up to `call_next`
unfoldable pub body_limit : ℕ → Request → Result (Unit {0})
unfolding declared_length is_limited
body_limit limit request =
    if not (is_limited request.path)
    then ok tt
    else (elim (declared_length limit (lookup (text "content-length") request.headers)) [
      | raise e ↦ raise e
      | ok _ ↦
          if ltb limit (length request.body)
          then raise (http 413 (text "request body too large"))
          else ok tt
    ])

-- request.headers.get("X-Demos-Nonce") == delivery_id
unfoldable pub nonce_is : Request → Text → Bool
nonce_is request delivery_id = elim (lookup (text "x-demos-nonce") request.headers) [
  | none ↦ false
  | some nonce ↦ text_eq nonce delivery_id
]

-- except ValueError as error: raise HTTPException(409, str(error))
abbrev pub conflict : Error → Error
conflict (value_error message) = http 409 message
conflict e = e

abbrev pub guard {ℓ} : {A : Type ℓ} → Bool → ℕ → Text → Result A → Result A
guard true code detail rest = rest
guard false code detail rest = raise (http code detail)

-- The tests of deploy, before the store is written.
unfoldable pub admit_deploy : Service → Request → Text → Result DeployRequest
admit_deploy service request repository = elim (service.read_deploy request.body) [
  | none ↦ raise (http 422 (text "invalid deploy request"))
  | some raw ↦ elim (validate_deploy raw) [
    | none ↦ raise (http 422 (text "invalid deploy request"))
    | some payload ↦
        guard (text_eq payload.repository repository) 403
          (text "credential does not authorize repository")
          (guard
            (starts_with
              (service.image_registry ++ (text "/" ++ (payload.repository ++ text "@sha256:")))
              (lower payload.image))
            403 (text "image registry is not authorized")
            (guard (nonce_is request payload.delivery_id) 400 (text "nonce must equal delivery_id")
              (ok payload)))
  ]
]

-- The tests of destroy, before the store is written.
unfoldable pub admit_destroy : Service → Request → Text → Result DestroyRequest
admit_destroy service request repository = elim (service.read_destroy request.body) [
  | none ↦ raise (http 422 (text "invalid destroy request"))
  | some raw ↦ elim (validate_destroy raw) [
    | none ↦ raise (http 422 (text "invalid destroy request"))
    | some payload ↦
        guard (text_eq payload.repository repository) 403
          (text "credential does not authorize repository")
          (guard (nonce_is request payload.delivery_id) 400 (text "nonce must equal delivery_id")
            (ok payload))
  ]
]

-- store.status(record) of what the store returned
abbrev pub report_deploy : Result (DemoRecord × Bool) × Store → Result DemoStatus × Store
report_deploy (raise e, s) = (raise (conflict e), s)
report_deploy (ok (r, new), s) = (status r s, s)

abbrev pub report : Result DemoRecord × Store → Result DemoStatus × Store
report (raise e, s) = (raise (conflict e), s)
report (ok r, s) = (status r s, s)

-- deploy, for the repository that was authenticated; `now` is the clock's reading in the store
unfoldable pub deploy : Hashes → Service → ℕ → Request → Text → Store → Result DemoStatus × Store
unfolding admit_deploy
deploy h service now request repository s = elim (admit_deploy service request repository) [
  | raise e ↦ (raise e, s)
  | ok payload ↦ report_deploy (upsert_deploy now payload (request_hash h request.body) s)
]

-- destroy
unfoldable pub destroy : Hashes → Service → ℕ → Request → Text → Store → Result DemoStatus × Store
unfolding admit_destroy
destroy h service now request repository s = elim (admit_destroy service request repository) [
  | raise e ↦ (raise e, s)
  | ok payload ↦ report (
      request_destroy now payload.repository payload.pr payload.delivery_id
        (request_hash h request.body) s)
]

-- demo_status; a number below 0 is in no row
unfoldable pub demo_status : Text → Text → ℤ → Text → Store → Result DemoStatus
demo_status owner name pr repository s =
    let requested = lower (owner ++ (text "/" ++ name)) in
    if not (text_eq requested repository)
    then raise (http 403 (text "credential does not authorize repository"))
    else (elim pr [
      | negsuc _ ↦ raise (http 404 (text "demo not found"))
      | pos n ↦ elim (get requested n s) [
        | none ↦ raise (http 404 (text "demo not found"))
        | some r ↦ status r s
      ]
    ])

module _ {A : Type 0} where
  -- A handler behind the authentication, which it does not run without.
  abbrev pub behind : (Text → Store → Result A × Store) → Result Text × Session → Result A × Session
  behind handler (raise e, session) = (raise e, session)
  behind handler (ok repository, session) =
      let (reply, store) = handler repository session.store in
      (reply, record session { store = store })

  -- A request to a handler behind body_limit and the authentication; `now` is the clock's reading
  -- in the authentication.
  unfoldable pub serve :
      Hashes
      → Service
      → ℕ
      → (Text → Store → Result A × Store)
      → Request
      → Session
      → Result A × Session
  serve h service now handler request session =
      elim (body_limit service.request_max_bytes request) [
        | raise e ↦ (raise e, session)
        | ok _ ↦ behind handler (authenticate h service.policy now request session)
      ]

-- POST /api/v1/deploy; the store reads the clock later than the authentication
unfoldable pub post_deploy :
    Hashes → Service → ℕ → ℕ → Request → Session → Result DemoStatus × Session
unfolding serve deploy
post_deploy h service now later request session =
    serve h service now (deploy h service later request) request session

-- POST /api/v1/destroy
unfoldable pub post_destroy :
    Hashes → Service → ℕ → ℕ → Request → Session → Result DemoStatus × Session
unfolding serve destroy
post_destroy h service now later request session =
    serve h service now (destroy h service later request) request session

-- GET /api/v1/demos/{owner}/{name}/{pr}, with the parts of the path
unfoldable pub get_status :
    Hashes → Service → ℕ → Text → Text → ℤ → Request → Session → Result DemoStatus × Session
unfolding serve demo_status
get_status h service now owner name pr request session =
    serve h service now (λ repository s. (demo_status owner name pr repository s, s)) request
      session
