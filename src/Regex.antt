-- ===== src/Regex.antt =====
-- The regular expressions that the program uses, with `re.fullmatch` by derivatives. A class is a
-- test on a code point. `^` and `$` add nothing to a full match and are left out.
pub mod Language
pub mod Classes
use demos_rework.Base.{
  ℕ, zero, suc, Bool, true, false, ◌&&◌, ◌||◌, List, [], ◌∷◌, if◌then◌else◌, ◌==◌,
}
use demos_rework.Base.Text.{Text}

pub data Regex : Type 0 where
  fails empty : Regex
  class : (ℕ → Bool) → Regex
  seq either : Regex → Regex → Regex
  star : Regex → Regex

-- A literal text.
abbrev pub lit : Text → Regex
lit [] = empty
lit (c ∷ s) = seq (class (λ d. d == c)) (lit s)

-- r? and r{0,n} and r{n} and r+
abbrev pub opt : Regex → Regex
opt r = either empty r

abbrev pub upto : ℕ → Regex → Regex
upto zero r = empty
upto (suc n) r = opt (seq r (upto n r))

abbrev pub times : ℕ → Regex → Regex
times zero r = empty
times (suc n) r = seq r (times n r)

abbrev pub plus : Regex → Regex
plus r = seq r (star r)

unfoldable pub nullable : Regex → Bool
nullable fails = false
nullable empty = true
nullable (class p) = false
nullable (seq r q) = nullable r && nullable q
nullable (either r q) = nullable r || nullable q
nullable (star r) = true

-- Sequences and choices that drop what can match nothing, so that derivatives stay small.
unfoldable pub then_ : Regex → Regex → Regex
then_ fails q = fails
then_ empty q = q
then_ r q = seq r q

unfoldable pub or_right : Regex → Regex → Regex
or_right r fails = r
or_right r q = either r q

unfoldable pub or_ : Regex → Regex → Regex
unfolding or_right
or_ fails q = q
or_ r q = or_right r q

unfoldable pub deriv : ℕ → Regex → Regex
unfolding nullable then_ or_
deriv c fails = fails
deriv c empty = fails
deriv c (class p) = if p c then empty else fails
deriv c (seq r q) = or_ (then_ (deriv c r) q) (if nullable r then deriv c q else fails)
deriv c (either r q) = or_ (deriv c r) (deriv c q)
deriv c (star r) = then_ (deriv c r) (star r)

-- re.fullmatch(r, s) is not None
unfoldable pub fullmatch : Regex → Text → Bool
unfolding deriv
fullmatch r [] = nullable r
fullmatch r (c ∷ s) = fullmatch (deriv c r) s
