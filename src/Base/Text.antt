-- ===== src/Base/Text.antt =====
-- Texts as lists of code points, with the functions of Python's `str` that the program calls.
-- `lower` is exact where Python's result is in Latin-1; a character whose lower case is not stays as
-- it is.
use Prim.Native.Char.{code}
use Prim.Native.String.{String}
use demos_rework.Base.{
  ℕ, ◌+◌, ◌-◌, ◌≡◌, refl, ◌↔◌, Bool, true, false, not, ◌&&◌, ◌||◌, List, [], ◌∷◌, ◌++◌, arith, leb,
  ◌==◌, if◌then◌else◌, All,
}

abbrev pub Text : Type 0
Text = List ℕ

-- The code points of a literal. It stays shut, so that proofs do not spell texts out.
unfoldable pub text : String → Text
text String.[] = []
text (String.◌∷◌ c s) = code c ∷ text s

unfoldable pub text_eq : Text → Text → Bool
text_eq [] [] = true
text_eq (a ∷ s) (b ∷ t) = a == b && text_eq s t
text_eq _ _ = false

pub text_eq_iff : (s t : Text) → (text_eq s t ≡ true) ↔ (s ≡ t)
unfolding text_eq
text_eq_iff [] [] = ground arith
text_eq_iff [] (b ∷ t) = ground arith
text_eq_iff (a ∷ s) [] = ground arith
text_eq_iff (a ∷ s) (b ∷ t) = ground (arith, text_eq_iff s t)

pub text_eq_refl : (s : Text) → text_eq s s ≡ true
text_eq_refl s = (text_eq_iff s s).1 refl

-- s.startswith(p), with the prefix first.
unfoldable pub starts_with : Text → Text → Bool
starts_with [] s = true
starts_with (a ∷ p) [] = false
starts_with (a ∷ p) (b ∷ s) = a == b && starts_with p s

pub starts_with_iff : (p s : Text) → (starts_with p s ≡ true) ↔ ((r : Text) × (s ≡ p ++ r))
unfolding starts_with
starts_with_iff [] s = (λ h. (s, refl), λ h. refl)
starts_with_iff (a ∷ p) [] = (λ h. cc, λ h. cc h.1)
starts_with_iff (a ∷ p) (b ∷ s) = (
  λ h. let (r, e) = (starts_with_iff p s).0 (ground arith) in (r, ground arith),
  λ h. let e = (starts_with_iff p s).1 (h.0, ground (arith, h.1)) in ground (arith, h.1),
)

-- s.endswith(p), with the suffix first: some end of the text is the suffix.
unfoldable pub ends_with : Text → Text → Bool
ends_with p [] = text_eq p []
ends_with p (b ∷ s) = text_eq p (b ∷ s) || ends_with p s

abbrev pub is_digit : ℕ → Bool
is_digit c = leb b'0' c && leb c b'9'

abbrev pub is_lower : ℕ → Bool
is_lower c = leb b'a' c && leb c b'z'

abbrev pub is_upper : ℕ → Bool
is_upper c = leb b'A' c && leb c b'Z'

-- The characters beyond Latin-1 with a lower case in it: the signs for Kelvin and Angstrom, the y
-- with a diaeresis and the sharp s.
abbrev pub lower_beyond : ℕ → ℕ
lower_beyond c =
    if c == 0x212a
    then b'k'
    else if c == 0x212b
    then 0xe5
    else if c == 0x178
    then 0xff
    else if c == 0x1e9e
    then 0xdf
    else c

-- One character of s.lower(): A to Z, the capitals of the upper half of Latin-1, and those beyond.
unfoldable pub lower_char : ℕ → ℕ
lower_char c =
    if is_upper c
    then c + 32
    else if leb 0xc0 c && leb c 0xde && not (c == 0xd7)
    then c + 32
    else lower_beyond c

unfoldable pub lower : Text → Text
lower [] = []
lower (c ∷ s) = lower_char c ∷ lower s

-- s.upper(), exact on ASCII, to which the method of an HTTP request is confined.
unfoldable pub upper : Text → Text
upper [] = []
upper (c ∷ s) = (if is_lower c then c - 32 else c) ∷ upper s

lower_char_idem : (c : ℕ) → lower_char (lower_char c) ≡ lower_char c
unfolding lower_char
lower_char_idem c = ground arith

pub lower_idem : (s : Text) → lower (lower s) ≡ lower s
unfolding lower
lower_idem [] = refl
lower_idem (c ∷ s) = cc (lower_char_idem c, lower_idem s)

-- s.lstrip of the characters that pass the test.
unfoldable pub lstrip : (ℕ → Bool) → Text → Text
lstrip p [] = []
lstrip p (c ∷ s) = let rest = lstrip p s in if p c then rest else c ∷ s

-- A character stays if something stays behind it, or if it fails the test.
unfoldable pub keep_before : (ℕ → Bool) → ℕ → Text → Text
keep_before p c [] = if p c then [] else c ∷ []
keep_before p c (d ∷ r) = c ∷ d ∷ r

-- s.rstrip of the characters that pass the test.
unfoldable pub rstrip : (ℕ → Bool) → Text → Text
unfolding keep_before
rstrip p [] = []
rstrip p (c ∷ s) = keep_before p c (rstrip p s)

unfoldable pub strip : (ℕ → Bool) → Text → Text
unfolding lstrip rstrip
strip p s = rstrip p (lstrip p s)

-- Without a character that passes the test nothing is stripped.
pub strip_none : (p : ℕ → Bool) (s : Text) → All (λ c. p c ≡ false) s → strip p s ≡ s
unfolding strip
strip_none p s h = rw (left s h) (right s h)
  where
    left : (t : Text) → All (λ c. p c ≡ false) t → lstrip p t ≡ t
    left [] h = refl
    left (c ∷ t) h = rw (h.0, lstrip) refl

    right : (t : Text) → All (λ c. p c ≡ false) t → rstrip p t ≡ t
    right [] h = refl
    right (c ∷ []) h = rw (h.0, rstrip) refl
    right (c ∷ d ∷ t) h = rw (right (d ∷ t) h.1, rstrip) refl

-- s.replace(a, b), for single characters.
unfoldable pub replace : ℕ → ℕ → Text → Text
replace a b [] = []
replace a b (c ∷ s) = (if c == a then b else c) ∷ replace a b s
