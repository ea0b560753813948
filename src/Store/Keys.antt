-- ===== src/Store/Keys.antt =====
-- The table of demos as a map from repository and number to rows.
use demos_rework.Base.{
  ℕ, ◌≡◌, refl, Bool, true, false, ◌&&◌, Option, none, some, List, [], ◌∷◌, ◌++◌, arith, ◌==◌,
  if◌then◌else◌, All, All-append, Bool-cases, inl, inr,
}
use demos_rework.Base.Text.{Text, text_eq, text_eq_iff, text_eq_refl}
use demos_rework.Store.Rows.{DemoRecord, is_demo, find, amend, discard}

pub record KeepsKey (f : DemoRecord → DemoRecord) : Type 0 where
  pub repository : (r : DemoRecord) → (f r).repository ≡ r.repository
  pub pr : (r : DemoRecord) → (f r).pr ≡ r.pr

unfoldable pub same_key : Text → ℕ → Text → ℕ → Bool
same_key a p b q = text_eq a b && p == q

abbrev pub map_found : (DemoRecord → DemoRecord) → Option DemoRecord → Option DemoRecord
map_found f none = none
map_found f (some r) = some (f r)

abbrev pub found_or : Option DemoRecord → Option DemoRecord → Option DemoRecord
found_or none b = b
found_or (some a) b = some a

pub same_key_refl : (a : Text) (p : ℕ) → same_key a p a p ≡ true
unfolding same_key
same_key_refl a p = ground (arith, text_eq_refl a)

pub find_key :
    (b : Text) (q : ℕ) (rs : List DemoRecord) (r : DemoRecord)
    → find b q rs ≡ some r
    → (r.repository ≡ b) × (r.pr ≡ q)
unfolding find is_demo
find_key b q [] r h = cc
find_key b q (x ∷ rs) r h = ground (arith, text_eq_iff x.repository b, find_key b q rs r)

module _ (a : Text) (p : ℕ) (b : Text) (q : ℕ) where
  pub find-amend :
      (f : DemoRecord → DemoRecord) (rs : List DemoRecord)
      → KeepsKey f
      → find b q (amend a p f rs)
        ≡ (if same_key a p b q then map_found f (find b q rs) else find b q rs)
  unfolding find amend is_demo same_key
  find-amend f [] k = ground arith
  find-amend f (r ∷ rs) k = ground (
    arith,
    find-amend f rs k,
    k.repository r,
    k.pr r,
    text_eq_iff r.repository a,
    text_eq_iff r.repository b,
    text_eq_iff a b,
  )

  pub find-discard :
      (rs : List DemoRecord)
      → find b q (discard a p rs) ≡ (if same_key a p b q then none else find b q rs)
  unfolding find discard is_demo same_key
  find-discard [] = ground arith
  find-discard (r ∷ rs) = ground (
    arith,
    find-discard rs,
    text_eq_iff r.repository a,
    text_eq_iff r.repository b,
    text_eq_iff a b,
  )

-- One key finds one row.
pub find_same :
    (a : Text) (p : ℕ) (b : Text) (q : ℕ) (rs : List DemoRecord)
    → same_key a p b q ≡ true
    → find b q rs ≡ find a p rs
unfolding same_key
find_same a p b q rs h =
    let texts : a ≡ b = (text_eq_iff a b).0 (ground arith) in
    let numbers : p ≡ q = ground arith in rw (texts, numbers) refl

pub find-append :
    (b : Text) (q : ℕ) (rs : List DemoRecord) (r : DemoRecord)
    → find b q (rs ++ r ∷ [])
      ≡ found_or (find b q rs) (if same_key r.repository r.pr b q then some r else none)
unfolding find is_demo same_key
find-append b q [] r = refl
find-append b q (x ∷ rs) r = ground (arith, find-append b q rs r)

-- No two rows have one key: what the PRIMARY KEY says.
abbrev pub Fresh : Text → ℕ → List DemoRecord → Type 0
Fresh a p rs = All (λ r. is_demo a p r ≡ false) rs

abbrev pub Unique : List DemoRecord → Type 0
Unique [] = Unit
Unique (r ∷ rs) = Fresh r.repository r.pr rs × Unique rs

pub find-Fresh : (a : Text) (p : ℕ) (rs : List DemoRecord) → find a p rs ≡ none → Fresh a p rs
unfolding find
find-Fresh a p [] h = tt
find-Fresh a p (r ∷ rs) h = ground (arith, find-Fresh a p rs)

Fresh-amend :
    (b : Text) (q : ℕ) (a : Text) (p : ℕ) (f : DemoRecord → DemoRecord) (rs : List DemoRecord)
    → KeepsKey f
    → Fresh b q rs
    → Fresh b q (amend a p f rs)
unfolding amend is_demo
Fresh-amend b q a p f [] k h = tt
Fresh-amend b q a p f (r ∷ rs) k h =
    ground (arith, k.repository r, k.pr r, Fresh-amend b q a p f rs k h.1)

pub Unique-amend :
    (a : Text) (p : ℕ) (f : DemoRecord → DemoRecord) (rs : List DemoRecord)
    → KeepsKey f
    → Unique rs
    → Unique (amend a p f rs)
unfolding amend
Unique-amend a p f [] k h = tt
Unique-amend a p f (r ∷ rs) k h =
    let rest = Fresh-amend r.repository r.pr a p f rs k h.0 in
    elim (Bool-cases (is_demo a p r)) [
      | inl e ↦ rw (e, k.repository r, k.pr r) (rest, Unique-amend a p f rs k h.1)
      | inr e ↦ rw e (rest, Unique-amend a p f rs k h.1)
    ]

Fresh-discard :
    (b : Text) (q : ℕ) (a : Text) (p : ℕ) (rs : List DemoRecord)
    → Fresh b q rs
    → Fresh b q (discard a p rs)
unfolding discard
Fresh-discard b q a p [] h = tt
Fresh-discard b q a p (r ∷ rs) h = ground (arith, Fresh-discard b q a p rs h.1)

pub Unique-discard : (a : Text) (p : ℕ) (rs : List DemoRecord) → Unique rs → Unique (discard a p rs)
unfolding discard
Unique-discard a p [] h = tt
Unique-discard a p (r ∷ rs) h = elim (Bool-cases (is_demo a p r)) [
  | inl e ↦ rw e (Unique-discard a p rs h.1)
  | inr e ↦ rw e (Fresh-discard r.repository r.pr a p rs h.0, Unique-discard a p rs h.1)
]

pub is_demo_sym :
    (x r : DemoRecord) → is_demo r.repository r.pr x ≡ false → is_demo x.repository x.pr r ≡ false
unfolding is_demo
is_demo_sym x r h =
    ground (arith, text_eq_iff x.repository r.repository, text_eq_iff r.repository x.repository)

pub Unique-append :
    (rs : List DemoRecord) (r : DemoRecord)
    → Fresh r.repository r.pr rs
    → Unique rs
    → Unique (rs ++ r ∷ [])
Unique-append [] r f h = (tt, tt)
Unique-append (x ∷ rs) r f h = (
  All-append (λ y. is_demo x.repository x.pr y ≡ false) rs (r ∷ []) h.0 (is_demo_sym x r f.0, tt),
  Unique-append rs r f.1 h.1,
)
