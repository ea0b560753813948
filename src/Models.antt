-- ===== src/Models.antt =====
-- src/demo_controller/models.py: the requests and the project configuration that the controller
-- accepts. JSON parsing and type checks are pydantic's: a raw value has the declared types, and a
-- rejected one is `none`, which stands for pydantic's ValidationError.
pub mod Patterns
pub mod Image
pub mod Deploy
pub mod Config
pub mod Project
use demos_rework.Base.{ℕ, Bool, ◌&&◌, Option, none, some, List, leb, if◌then◌else◌, length}
use demos_rework.Base.Maybe.{◌>>=◌, ◌>>◌, check}
use demos_rework.Base.Text.{Text, text_eq, lower}
use demos_rework.Base.Int.{ℤ, pos, negsuc}
use demos_rework.Regex.{fullmatch}
use demos_rework.Models.Patterns.{repository_re, sha_re, image_re, delivery_re, group_repo}

pub record RawDeploy : Type 0 where
  pub repository : Text
  pub pr : ℤ
  pub commit_sha : Text
  pub image : Text
  pub delivery_id : Text

pub record DeployRequest : Type 0 where
  pub repository : Text
  pub pr : ℕ
  pub commit_sha : Text
  pub image : Text
  pub delivery_id : Text

pub record RawDestroy : Type 0 where
  pub repository : Text
  pub pr : ℤ
  pub delivery_id : Text

pub record DestroyRequest : Type 0 where
  pub repository : Text
  pub pr : ℕ
  pub delivery_id : Text

-- Field(ge=lo, le=hi)
unfoldable pub bounded : ℕ → ℕ → ℤ → Option ℕ
bounded lo hi (pos n) = if leb lo n && leb n hi then some n else none
bounded lo hi (negsuc n) = none

abbrev pub max_pr : ℕ
max_pr = 2_147_483_647

-- validate_repository, of both requests
unfoldable pub validate_repository : Text → Option Text
validate_repository value =
    let v = lower value in if fullmatch repository_re v then some v else none

unfoldable pub validate_sha : Text → Option Text
validate_sha value = let v = lower value in if fullmatch sha_re v then some v else none

-- Field(min_length=8, max_length=128, pattern=…)
unfoldable pub validate_delivery_id : Text → Option Text
validate_delivery_id value =
    if leb 8 (length value) && leb (length value) 128 && fullmatch delivery_re value
    then some value
    else none

-- validate_image_namespace: the test under the `if`, negated
unfoldable pub image_matches : Text → Text → Bool
image_matches image repository =
    fullmatch image_re (lower image) && text_eq (group_repo (lower image)) repository

-- DeployRequest.model_validate: the fields, then the model's validator
unfoldable pub validate_deploy : RawDeploy → Option DeployRequest
validate_deploy raw = do
  repository ← validate_repository raw.repository
  pr ← bounded 1 max_pr raw.pr
  commit_sha ← validate_sha raw.commit_sha
  delivery_id ← validate_delivery_id raw.delivery_id
  check (image_matches raw.image repository)
  some (record {
    repository = repository;
    pr = pr;
    commit_sha = commit_sha;
    image = raw.image;
    delivery_id = delivery_id;
  })

-- DestroyRequest.model_validate
unfoldable pub validate_destroy : RawDestroy → Option DestroyRequest
validate_destroy raw = do
  repository ← validate_repository raw.repository
  pr ← bounded 1 max_pr raw.pr
  delivery_id ← validate_delivery_id raw.delivery_id
  some (record { repository = repository; pr = pr; delivery_id = delivery_id })
