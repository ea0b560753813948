-- ===== src/Tests/Names.antt =====
-- The theorems on names at short and long ones.
use demos_rework.Base.{ℕ, ◌≡◌, ◌↔◌, refl, true, arith, ◌++◌, ◌∷◌, length}
use demos_rework.Base.Text.{Text, text}
use demos_rework.Naming.{resource_slug, resource_name, hostname_label}
use demos_rework.Naming.Label.{
  IsLabel, resource_name-IsLabel, resource_name_injective, resource_name_cut,
}
use demos_rework.Tests.{zeros, same_hashes, app}

resource_name-IsLabel_example : IsLabel (resource_name same_hashes app 7)
resource_name-IsLabel_example = resource_name-IsLabel same_hashes app 7

resource_name_injective_example : ◌≡◌ {A = ℕ} 7 7
resource_name_injective_example =
    resource_name_injective same_hashes app 7 7 (omega arith) (omega arith) refl

-- A repository whose slug has more than 39 characters.
abbrev long : Text
long = text "me/" ++ zeros 40

long_slug : length (resource_slug long) ≡ 43
unfolding resource_slug zeros demos_rework.Naming.Slug.slug demos_rework.Base.Text.replace
    demos_rework.Base.Text.lower text demos_rework.Base.Text.lower_char
long_slug = refl

resource_name_cut_example :
    resource_name same_hashes long 1_234_567 ≡ resource_name same_hashes long 123_456
unfolding zeros
resource_name_cut_example =
    resource_name_cut same_hashes long 1_234_567 (omega (arith, long_slug)) (omega arith)
