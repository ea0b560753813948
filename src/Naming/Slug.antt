-- ===== src/Naming/Slug.antt =====
-- The text operations of naming.py: the slug of a name, and the last part of a path.
use demos_rework.Base.{
  ℕ, ◌≡◌, refl, Bool, true, false, not, ◌||◌, Option, none, some, [], ◌∷◌, arith, ◌==◌, ◌≤◌,
  if◌then◌else◌, All, length,
}
use demos_rework.Base.Text.{Text, is_lower, is_digit, strip, lstrip, rstrip, keep_before}

abbrev pub is_alnum : ℕ → Bool
is_alnum c = is_lower c || is_digit c

abbrev pub is_dash : ℕ → Bool
is_dash c = c == b'-'

-- [a-z0-9-]
abbrev pub is_slug_char : ℕ → Bool
is_slug_char c = is_alnum c || is_dash c

-- re.sub(r"[^a-z0-9-]+", "-", s); `inside` says that a run of other characters is open.
unfoldable pub collapse : Bool → Text → Text
collapse inside [] = []
collapse inside (c ∷ s) =
    let rest = collapse (not (is_slug_char c)) s in
    if is_slug_char c then c ∷ rest else if inside then rest else b'-' ∷ rest

unfoldable pub slug : Text → Text
unfolding collapse strip
slug s = strip is_dash (collapse false s)

-- s.rsplit(c, 1)[1], or `none` where that raises IndexError.
unfoldable pub after_last : ℕ → Text → Option Text
after_last c [] = none
after_last c (d ∷ s) = elim (after_last c s) [
  | some r ↦ some r
  | none ↦ if d == c then some s else none
]

collapse-All : (b : Bool) (s : Text) → All (λ c. is_slug_char c ≡ true) (collapse b s)
unfolding collapse
collapse-All b [] = tt
collapse-All b (c ∷ s) = ground (arith, collapse-All (not (is_slug_char c)) s)

module _ (p : ℕ → Bool) (q : ℕ → Bool) where
  pub lstrip-All : (s : Text) → All (λ c. q c ≡ true) s → All (λ c. q c ≡ true) (lstrip p s)
  unfolding lstrip
  lstrip-All [] h = tt
  lstrip-All (c ∷ s) h = ground (arith, lstrip-All s h.1)

  keep_before-All :
      (c : ℕ) (s : Text)
      → q c ≡ true
      → All (λ c. q c ≡ true) s
      → All (λ c. q c ≡ true) (keep_before p c s)
  unfolding keep_before
  keep_before-All c [] h k = ground arith
  keep_before-All c (d ∷ r) h k = (h, k)

  pub rstrip-All : (s : Text) → All (λ c. q c ≡ true) s → All (λ c. q c ≡ true) (rstrip p s)
  unfolding rstrip
  rstrip-All [] h = tt
  rstrip-All (c ∷ s) h = keep_before-All c (rstrip p s) h.0 (rstrip-All s h.1)

-- Whatever the text, its slug has only characters of [a-z0-9-].
pub slug-All : (s : Text) → All (λ c. is_slug_char c ≡ true) (slug s)
unfolding slug
slug-All s =
    rstrip-All is_dash is_slug_char _ (lstrip-All is_dash is_slug_char _ (collapse-All false s))

module _ (p : ℕ → Bool) where
  -- The last character, if there is one, fails the test.
  abbrev pub LastFails : Text → Type 0
  LastFails [] = Unit
  LastFails (c ∷ []) = p c ≡ false
  LastFails (c ∷ d ∷ s) = LastFails (d ∷ s)

  keep_before-LastFails : (c : ℕ) (s : Text) → LastFails s → LastFails (keep_before p c s)
  unfolding keep_before
  keep_before-LastFails c [] h = ground arith
  keep_before-LastFails c (d ∷ r) h = h

  pub rstrip-LastFails : (s : Text) → LastFails (rstrip p s)
  unfolding rstrip
  rstrip-LastFails [] = tt
  rstrip-LastFails (c ∷ s) = keep_before-LastFails c (rstrip p s) (rstrip-LastFails s)

  length-keep_before : (c : ℕ) (s : Text) → length (keep_before p c s) ≤ length (c ∷ s)
  unfolding keep_before
  length-keep_before c [] = ground arith
  length-keep_before c (d ∷ r) = omega arith

  pub length-rstrip : (s : Text) → length (rstrip p s) ≤ length s
  unfolding rstrip
  length-rstrip [] = omega arith
  length-rstrip (c ∷ s) = omega (arith, length-keep_before c (rstrip p s), length-rstrip s)

  -- A first character that fails the test stays.
  pub rstrip-head : (c : ℕ) (s : Text) → p c ≡ false → (r : Text) × (rstrip p (c ∷ s) ≡ c ∷ r)
  unfolding rstrip keep_before
  rstrip-head c s h = from (rstrip p s)
    where
      from : (t : Text) → (r : Text) × (keep_before p c t ≡ c ∷ r)
      from [] = ([], ground arith)
      from (d ∷ r) = (d ∷ r, refl)

  -- A text whose last character fails the test stays whole.
  pub rstrip_whole : (s : Text) → LastFails s → rstrip p s ≡ s
  unfolding rstrip keep_before
  rstrip_whole [] h = refl
  rstrip_whole (c ∷ []) h = ground arith
  rstrip_whole (c ∷ d ∷ s) h = rw (rstrip_whole (d ∷ s) h) refl

-- A slug whose text begins with a letter or a digit begins with it too.
pub slug-head : (c : ℕ) (s : Text) → is_alnum c ≡ true → (r : Text) × (slug (c ∷ s) ≡ c ∷ r)
unfolding slug
slug-head c s h =
    let plain : is_dash c ≡ false = ground arith in
    let rest = collapse (not (is_slug_char c)) s in
    let (r, e) = rstrip-head is_dash c rest plain in (r, ground (arith, e))
