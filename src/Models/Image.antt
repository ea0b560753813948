-- ===== src/Models/Image.antt =====
-- Images that are pinned by digest under the name of a repository: IMAGE_RE and its group `repo`.
use demos_rework.Base.{
  ℕ, ◌≡◌, refl, sym, ◌∙◌, ◌↔◌, true, not, [], ◌∷◌, ◌++◌, arith, ◌==◌, length, All, ==_iff,
  &&-eq-true,
}
use demos_rework.Base.Text.{Text, text, is_digit, lower, text_eq_iff, text_eq_refl}
use demos_rework.Hashes.{is_hex}
use demos_rework.Regex.{class, times, fullmatch}
use demos_rework.Regex.Language.{Lang, fullmatch_iff}
use demos_rework.Regex.Classes.{
  Lang-All, Over-times, Over-upto, lit-Lang, Lang-lit, length-times, Lang-times,
}
use demos_rework.Models.{image_matches}
use demos_rework.Models.Patterns.{image_re, registry_re, repo_re, group_repo, until, behind}

abbrev Lacks : ℕ → Text → Type 0
Lacks d t = All (λ c. not (c == d) ≡ true) t

until-append : (d : ℕ) (t u : Text) → Lacks d t → until d (t ++ d ∷ u) ≡ t
unfolding until
until-append d [] u h = ground arith
until-append d (c ∷ t) u h = ground (arith, until-append d t u h.1)

behind-append : (d : ℕ) (t u : Text) → Lacks d t → behind d (t ++ d ∷ u) ≡ u
unfolding behind
behind-append d [] u h = ground arith
behind-append d (c ∷ t) u h = ground (arith, behind-append d t u h.1)

registry-Lacks : (t : Text) → Lang registry_re t → Lacks b'/' t
unfolding registry_re
registry-Lacks t h =
    Lang-All (λ c. not (c == b'/')) registry_re
      (
        (λ c h. ground arith, λ c h. ground arith),
        (
          tt,
          (
            λ c h. ground arith,
            (
              λ c h. ground arith,
              Over-upto is_digit 4 (λ c. not (c == b'/')) (λ c h. ground arith),
            ),
          ),
        ),
      )
      t h

repo-Lacks : (t : Text) → Lang repo_re t → Lacks b'@' t
unfolding repo_re
repo-Lacks t h =
    Lang-All (λ c. not (c == b'@')) repo_re
      (
        λ c h. ground arith,
        (
          ((λ c h. ground arith, λ c h. ground arith), (λ c h. ground arith, λ c h. ground arith)),
          (λ c h. ground arith, λ c h. ground arith),
        ),
      )
      t h

-- An image that is pinned by digest under the name of a repository.
pub record IsPinned (repository image : Text) : Type 0 where
  pub registry : Text
  pub digest : Text
  pub registry_ok : Lang registry_re registry
  pub repository_ok : Lang repo_re repository
  pub shape : lower image ≡ registry ++ b'/' ∷ (repository ++ (text "@sha256:" ++ digest))
  pub digest_length : length digest ≡ 64
  pub digest_hex : All (λ c. is_hex c ≡ true) digest

group_repo-shape :
    (registry repository digest : Text)
    → Lang registry_re registry
    → Lang repo_re repository
    → group_repo (registry ++ b'/' ∷ (repository ++ (text "@sha256:" ++ digest))) ≡ repository
unfolding group_repo text
group_repo-shape registry repository digest hr hp =
    rw (behind-append b'/' registry _ (registry-Lacks registry hr))
      (until-append b'@' repository _ (repo-Lacks repository hp))

-- The parts of a text that IMAGE_RE matches.
record ImageParts (s : Text) : Type 0 where
  registry : Text
  repository : Text
  digest : Text
  registry_ok : Lang registry_re registry
  repository_ok : Lang repo_re repository
  digest_ok : Lang (times 64 (class is_hex)) digest
  shape : s ≡ registry ++ b'/' ∷ (repository ++ (text "@sha256:" ++ digest))

image_parts : (s : Text) → Lang image_re s → ImageParts s
unfolding image_re
image_parts s
      (
        registry,
        _,
        hr,
        (_, _, (slash, is, es), (repo, _, hp, (at, digest, ha, hd, e4), e3), e2),
        e1,
      ) =
    record {
      registry = registry;
      repository = repo;
      digest = digest;
      registry_ok = hr;
      repository_ok = hp;
      digest_ok = hd;
      shape =
          let same : slash ≡ b'/' = (==_iff slash b'/').0 is in
          rw (e1, e2, es, e3, e4, lit-Lang (text "@sha256:") at ha, same) refl;
    }

match_of_parts : (s : Text) → ImageParts s → Lang image_re s
unfolding image_re
match_of_parts s p = (
  p.registry,
  _,
  p.registry_ok,
  (
    b'/' ∷ [],
    _,
    (b'/', refl, refl),
    (
      p.repository,
      _,
      p.repository_ok,
      (text "@sha256:", p.digest, Lang-lit (text "@sha256:"), p.digest_ok, refl),
      refl,
    ),
    refl,
  ),
  p.shape,
)

IsPinned-of_match :
    (repository image : Text) → image_matches image repository ≡ true → IsPinned repository image
unfolding image_matches
IsPinned-of_match repository image h =
    let (matched, grouped) = &&-eq-true (fullmatch image_re (lower image)) _ h in
    let parts = image_parts (lower image) ((fullmatch_iff image_re (lower image)).0 matched) in
    let found : group_repo (lower image) ≡ parts.repository = rw parts.shape (
      group_repo-shape parts.registry parts.repository parts.digest parts.registry_ok
        parts.repository_ok) in
    let same : parts.repository ≡ repository =
      sym found ∙ (text_eq_iff (group_repo (lower image)) repository).0 grouped in
    record {
      registry = parts.registry;
      digest = parts.digest;
      registry_ok = parts.registry_ok;
      repository_ok = rw (← same) parts.repository_ok;
      shape = rw (← same) parts.shape;
      digest_length = length-times is_hex 64 parts.digest parts.digest_ok;
      digest_hex =
          Lang-All (λ c. is_hex c) (times 64 (class is_hex))
            (Over-times is_hex 64 is_hex (λ c h. h)) parts.digest parts.digest_ok;
    }

match_of_IsPinned :
    (repository image : Text) → IsPinned repository image → image_matches image repository ≡ true
unfolding image_matches
match_of_IsPinned repository image p =
    let matched : fullmatch image_re (lower image) ≡ true =
      (fullmatch_iff image_re (lower image)).1 (
        match_of_parts (lower image) (record {
          registry = p.registry;
          repository = repository;
          digest = p.digest;
          registry_ok = p.registry_ok;
          repository_ok = p.repository_ok;
          digest_ok = Lang-times is_hex 64 p.digest p.digest_length p.digest_hex;
          shape = p.shape;
        })) in
    let found : group_repo (lower image) ≡ repository =
      rw p.shape (group_repo-shape p.registry repository p.digest p.registry_ok p.repository_ok) in
    rw (matched, found) (text_eq_refl repository)

-- An image passes for a repository exactly when, in lower case, it is a registry, the repository
-- under it, and a SHA-256 digest of 64 hexadecimal digits.
pub image_matches_iff :
    (repository image : Text) → (image_matches image repository ≡ true) ↔ IsPinned repository image
image_matches_iff repository image =
    (IsPinned-of_match repository image, match_of_IsPinned repository image)
