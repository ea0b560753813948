-- ===== src/Models/Deploy.antt =====
-- What a deploy or destroy request that passes models.py is known to be.
use mathlib.Core.Path.{subst}
use demos_rework.Base.{ℕ, ◌≤◌, ◌≡◌, refl, true, some, arith, length, All, Bool-cases, inl, inr}
use demos_rework.Base.Maybe.{>>=-eq-some, check-eq-some, some-eq}
use demos_rework.Base.Text.{Text, lower}
use demos_rework.Base.Int.{ℤ, pos, negsuc}
use demos_rework.Hashes.{is_hex}
use demos_rework.Regex.{class, times, fullmatch}
use demos_rework.Regex.Language.{Lang, fullmatch_iff}
use demos_rework.Regex.Classes.{Lang-All, Over-times, length-times}
use demos_rework.Models.{
  RawDeploy, DeployRequest, validate_repository, validate_sha, validate_deploy, image_matches,
  bounded, max_pr, validate_delivery_id,
}
use demos_rework.Models.Patterns.{repository_re, sha_re}
use demos_rework.Models.Image.{IsPinned, image_matches_iff}

pub validate_repository_sound :
    (value : Text) {v : Text}
    → validate_repository value ≡ some v
    → (v ≡ lower value) × Lang repository_re v
unfolding validate_repository
validate_repository_sound value {v} h = elim (Bool-cases (fullmatch repository_re (lower value))) [
  | inl e ↦
      let same : v ≡ lower value = ground arith in
      (same, rw same ((fullmatch_iff repository_re (lower value)).0 e))
  | inr e ↦ ground arith
]

validate_sha_sound :
    (value : Text) {v : Text} → validate_sha value ≡ some v → (v ≡ lower value) × Lang sha_re v
unfolding validate_sha
validate_sha_sound value {v} h = elim (Bool-cases (fullmatch sha_re (lower value))) [
  | inl e ↦
      let same : v ≡ lower value = ground arith in
      (same, rw same ((fullmatch_iff sha_re (lower value)).0 e))
  | inr e ↦ ground arith
]

pub bounded_sound :
    (lo hi : ℕ) (x : ℤ) {n : ℕ} → bounded lo hi x ≡ some n → (x ≡ pos n) × (lo ≤ n) × (n ≤ hi)
unfolding bounded
bounded_sound lo hi (pos m) h = ground arith
bounded_sound lo hi (negsuc m) h = cc

validate_delivery_id_sound :
    (value : Text) {v : Text}
    → validate_delivery_id value ≡ some v
    → (v ≡ value) × (8 ≤ length v) × (length v ≤ 128)
unfolding validate_delivery_id
validate_delivery_id_sound value h = ground arith

pub record IsAccepted (raw : RawDeploy) (request : DeployRequest) : Type 0 where
  pub repository : request.repository ≡ lower raw.repository
  pub identity : Lang repository_re request.repository
  pub pr_raw : raw.pr ≡ pos request.pr
  pub pr_range : (1 ≤ request.pr) × (request.pr ≤ max_pr)
  pub commit_sha : request.commit_sha ≡ lower raw.commit_sha
  pub sha_length : length request.commit_sha ≡ 40
  pub sha_hex : All (λ c. is_hex c ≡ true) request.commit_sha
  pub delivery_id : request.delivery_id ≡ raw.delivery_id
  pub delivery_range : (8 ≤ length request.delivery_id) × (length request.delivery_id ≤ 128)
  pub image : request.image ≡ raw.image
  pub pinned : IsPinned request.repository request.image

-- A deploy request that is accepted keeps what was sent, with the repository and the commit in
-- lower case; each field is in its range, and the image is pinned by digest under the repository.
pub validate_deploy_sound :
    (raw : RawDeploy) (request : DeployRequest)
    → validate_deploy raw ≡ some request
    → IsAccepted raw request
unfolding validate_deploy
validate_deploy_sound raw request h =
    let (repository, hr, h1) = >>=-eq-some (validate_repository raw.repository) _ h in
    let (pr, hp, h2) = >>=-eq-some (bounded 1 max_pr raw.pr) _ h1 in
    let (sha, hs, h3) = >>=-eq-some (validate_sha raw.commit_sha) _ h2 in
    let (delivery, hd, h4) = >>=-eq-some (validate_delivery_id raw.delivery_id) _ h3 in
    let (hi, h5) = check-eq-some (image_matches raw.image repository) _ h4 in
    let (repository_lower, identity) = validate_repository_sound raw.repository hr in
    let (sha_lower, sha_ok) = validate_sha_sound raw.commit_sha hs in
    let accepted : IsAccepted raw (record {
      repository = repository;
      pr = pr;
      commit_sha = sha;
      image = raw.image;
      delivery_id = delivery;
    }) =
      record {
        repository = repository_lower;
        identity = identity;
        pr_raw = (bounded_sound 1 max_pr raw.pr hp).0;
        pr_range = ((bounded_sound 1 max_pr raw.pr hp).1, (bounded_sound 1 max_pr raw.pr hp).2);
        commit_sha = sha_lower;
        sha_length = length-times is_hex 40 sha (unfold sha_re in sha_ok);
        sha_hex =
            Lang-All is_hex (times 40 (class is_hex)) (Over-times is_hex 40 is_hex (λ c h. h)) sha
              (unfold sha_re in sha_ok);
        delivery_id = (validate_delivery_id_sound raw.delivery_id hd).0;
        delivery_range = (
          (validate_delivery_id_sound raw.delivery_id hd).1,
          (validate_delivery_id_sound raw.delivery_id hd).2,
        );
        image = refl;
        pinned = (image_matches_iff repository raw.image).0 hi;
      } in
    subst (IsAccepted raw) (some-eq h5) accepted
