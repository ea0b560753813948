-- ===== src/Models/Patterns.antt =====
-- The patterns of models.py, and the group `repo` of IMAGE_RE.
use demos_rework.Base.{ℕ, Bool, ◌&&◌, ◌||◌, [], ◌∷◌, leb, ◌==◌, if◌then◌else◌}
use demos_rework.Base.Text.{Text, text, is_digit, is_lower, is_upper}
use demos_rework.Hashes.{is_hex}
use demos_rework.Regex.{Regex, class, seq, either, star, lit, opt, upto, times, plus}

-- [a-z0-9]
abbrev pub is_name_start : ℕ → Bool
is_name_start c = is_lower c || is_digit c

-- [a-z0-9_.-]
abbrev pub is_name_char : ℕ → Bool
is_name_char c = is_name_start c || c == b'_' || c == b'.' || c == b'-'

abbrev is_slash : ℕ → Bool
is_slash c = c == b'/'

-- REPOSITORY_RE
unfoldable pub repository_re : Regex
repository_re = seq (class is_name_start) (
    seq (upto 38 (class is_name_char))
      (seq (class is_slash) (seq (class is_name_start) (upto 99 (class is_name_char)))))

-- SHA_RE
unfoldable pub sha_re : Regex
sha_re = times 40 (class is_hex)

-- [a-z0-9.-]
abbrev pub is_registry_char : ℕ → Bool
is_registry_char c = is_name_start c || c == b'.' || c == b'-'

-- The group `registry`
unfoldable pub registry_re : Regex
registry_re =
    seq (plus (class is_registry_char))
      (opt (seq (class (λ c. c == b':')) (seq (class is_digit) (upto 4 (class is_digit)))))

-- The group `repo`
unfoldable pub repo_re : Regex
repo_re =
    seq (class is_name_start)
      (seq (plus (seq (star (class is_name_char)) (class is_slash))) (plus (class is_name_char)))

-- IMAGE_RE
unfoldable pub image_re : Regex
unfolding registry_re repo_re
image_re =
    seq registry_re
      (seq (class is_slash) (seq repo_re (seq (lit (text "@sha256:")) (times 64 (class is_hex)))))

-- ENV_RE
unfoldable pub env_re : Regex
env_re =
    seq (class (λ c. is_upper c || c == b'_'))
      (star (class (λ c. is_upper c || is_digit c || c == b'_')))

-- The pattern of `delivery_id`
unfoldable pub delivery_re : Regex
delivery_re = plus (
    class (λ c.
      is_upper c || is_lower c || is_digit c || c == b'_' || c == b'.' || c == b':' || c == b'-'))

-- [1-9][0-9]{0,3}m|[1-4]
unfoldable pub cpu_re : Regex
cpu_re =
    either
      (seq (class (λ c. leb b'1' c && leb c b'9'))
        (seq (upto 3 (class is_digit)) (class (λ c. c == b'm'))))
      (class (λ c. leb b'1' c && leb c b'4'))

-- ([1-9][0-9]{0,4})(Mi|Gi)
unfoldable pub memory_re : Regex
memory_re =
    seq (seq (class (λ c. leb b'1' c && leb c b'9')) (upto 4 (class is_digit)))
      (either (lit (text "Mi")) (lit (text "Gi")))

-- /[A-Za-z0-9_./~-]{0,255}
unfoldable pub health_path_re : Regex
health_path_re = seq (class is_slash) (
    upto 255 (
      class (λ c.
        is_upper c
        || is_lower c
        || is_digit c
        || c == b'_'
        || c == b'.'
        || c == b'/'
        || c == b'~'
        || c == b'-')))

unfoldable pub until : ℕ → Text → Text
until c [] = []
until c (d ∷ s) = if d == c then [] else d ∷ until c s

unfoldable pub behind : ℕ → Text → Text
behind c [] = []
behind c (d ∷ s) = if d == c then s else behind c s

-- match.group("repo"): what stands between the first slash and the `@`. No registry has a slash and
-- no repository an `@`, so this is the one way in which IMAGE_RE can match.
unfoldable pub group_repo : Text → Text
unfolding until behind
group_repo s = until b'@' (behind b'/' s)
