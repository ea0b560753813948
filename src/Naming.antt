-- ===== src/Naming.antt =====
-- src/demo_controller/naming.py: the names that a demo has in the cluster and on the network.
pub mod Slug
pub mod Label
use demos_rework.Base.{ℕ, Option, none, some, List, [], ◌∷◌, ◌++◌, ◌==◌, if◌then◌else◌, take}
use demos_rework.Base.Text.{Text, text, lower, replace, rstrip}
use demos_rework.Base.Decimal.{str}
use demos_rework.Base.Utf8.{encode}
use demos_rework.Hashes.{Hashes}
use demos_rework.Naming.Slug.{slug, is_dash, after_last}

unfoldable pub resource_slug : Text → Text
resource_slug repository = slug (replace b'/' b'-' (lower repository))

-- What resource_name writes before the number of the pull request.
unfoldable pub resource_stem : Hashes → Text → Text
resource_stem h repository =
    text "demo-"
    ++ (take 39 (resource_slug repository)
        ++ (text "-" ++ (take 8 (h.sha256 (encode repository)) ++ text "-pr-")))

-- resource_name
unfoldable pub resource_name : Hashes → Text → ℕ → Text
resource_name h repository pr = rstrip is_dash (take 63 (resource_stem h repository ++ str pr))

unfoldable pub hostname_label : Text → ℕ → Text
hostname_label project pr = take 40 (slug (lower project)) ++ (text "-pr-" ++ str pr)

-- hostname; `none` is the IndexError of a repository without a slash.
unfoldable pub hostname : Text → ℕ → Text → Option Text
hostname repository pr suffix = elim (after_last b'/' repository) [
  | none ↦ none
  | some project ↦ some (hostname_label project pr ++ (text "." ++ suffix))
]

pub record RepositoryLabels : Type 0 where
  pub managed_by : Text
  pub repository_hash : Text
  pub pr : Text

-- repository_labels
unfoldable pub repository_labels : Hashes → Text → ℕ → Text → RepositoryLabels
repository_labels h repository pr owner = record {
  managed_by = owner;
  repository_hash = take 16 (h.sha256 (encode repository));
  pr = str pr;
}
