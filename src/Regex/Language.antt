-- ===== src/Regex/Language.antt =====
-- The language of a regular expression, and that `fullmatch` decides it.
use demos_rework.Base.{
  ℕ, ◌≡◌, refl, ap, ◌↔◌, ◌⊎◌, inl, inr, true, [], ◌∷◌, ◌++◌, arith, Bool-cases, &&-eq-true,
}
use demos_rework.Base.Text.{Text}
use demos_rework.Regex.{
  Regex, fails, empty, class, seq, either, star, nullable, then_, or_right, or_, deriv, fullmatch,
}

-- A text cut into non-empty pieces that are all in P.
pub data Pieces (P : Text → Type 0) : Text → Type 0 where
  stop : {s : Text} → s ≡ [] → Pieces P s
  more : {s : Text} (c : ℕ) (t u : Text) → P (c ∷ t) → Pieces P u → s ≡ c ∷ (t ++ u) → Pieces P s

abbrev pub Lang : Regex → Text → Type 0
Lang fails s = ⊥
Lang empty s = s ≡ []
Lang (class p) s = (c : ℕ) × (p c ≡ true) × (s ≡ c ∷ [])
Lang (seq r q) s = (t u : Text) × Lang r t × Lang q u × (s ≡ t ++ u)
Lang (either r q) s = Lang r s ⊎ Lang q s
Lang (star r) s = Pieces (Lang r) s

nullable-Lang : (r : Regex) → nullable r ≡ true → Lang r []
unfolding nullable
nullable-Lang fails h = cc
nullable-Lang empty h = refl
nullable-Lang (class p) h = cc
nullable-Lang (seq r q) h =
    let (hr, hq) = &&-eq-true (nullable r) (nullable q) h in
    ([], [], nullable-Lang r hr, nullable-Lang q hq, refl)
nullable-Lang (either r q) h = elim (Bool-cases (nullable r)) [
  | inl hr ↦ inl (nullable-Lang r hr)
  | inr hr ↦ inr (nullable-Lang q (ground arith))
]
nullable-Lang (star r) h = stop refl

Lang-nullable : (r : Regex) → Lang r [] → nullable r ≡ true
unfolding nullable
Lang-nullable fails h = absurd h
Lang-nullable empty h = refl
Lang-nullable (class p) (c, _, e) = cc
Lang-nullable (seq r q) ([], [], hr, hq, e) = rw (Lang-nullable r hr) (Lang-nullable q hq)
Lang-nullable (seq r q) ([], d ∷ u, hr, hq, e) = cc
Lang-nullable (seq r q) (d ∷ t, u, hr, hq, e) = cc
Lang-nullable (either r q) (inl h) = rw (Lang-nullable r h) refl
Lang-nullable (either r q) (inr h) = let e = Lang-nullable q h in ground arith
Lang-nullable (star r) h = refl

then_-Lang : (r q : Regex) (s : Text) → Lang (then_ r q) s → Lang (seq r q) s
unfolding then_
then_-Lang fails q s h = absurd h
then_-Lang empty q s h = ([], s, refl, h, refl)
then_-Lang _ q s h = h

Lang-then_ : (r q : Regex) (s : Text) → Lang (seq r q) s → Lang (then_ r q) s
unfolding then_
Lang-then_ fails q s h = h.2
Lang-then_ empty q s (t, u, e, h, e') = let e'' : s ≡ u = (rw e at e') in rw e'' h
Lang-then_ _ q s h = h

or_right-Lang : (r q : Regex) (s : Text) → Lang (or_right r q) s → Lang r s ⊎ Lang q s
unfolding or_right
or_right-Lang r fails s h = inl h
or_right-Lang r _ s h = h

or_-Lang : (r q : Regex) (s : Text) → Lang (or_ r q) s → Lang r s ⊎ Lang q s
unfolding or_
or_-Lang fails q s h = inr h
or_-Lang empty q s h = or_right-Lang empty q s h
or_-Lang (class p) q s h = or_right-Lang (class p) q s h
or_-Lang (seq a b) q s h = or_right-Lang (seq a b) q s h
or_-Lang (either a b) q s h = or_right-Lang (either a b) q s h
or_-Lang (star a) q s h = or_right-Lang (star a) q s h

Lang-or_right : (r q : Regex) (s : Text) → Lang r s ⊎ Lang q s → Lang (or_right r q) s
unfolding or_right
Lang-or_right r fails s (inl h) = h
Lang-or_right r fails s (inr h) = absurd h
Lang-or_right r _ s h = h

Lang-or_ : (r q : Regex) (s : Text) → Lang r s ⊎ Lang q s → Lang (or_ r q) s
unfolding or_
Lang-or_ fails q s (inl h) = absurd h
Lang-or_ fails q s (inr h) = h
Lang-or_ empty q s h = Lang-or_right empty q s h
Lang-or_ (class p) q s h = Lang-or_right (class p) q s h
Lang-or_ (seq a b) q s h = Lang-or_right (seq a b) q s h
Lang-or_ (either a b) q s h = Lang-or_right (either a b) q s h
Lang-or_ (star a) q s h = Lang-or_right (star a) q s h

deriv-Lang : (c : ℕ) (r : Regex) (s : Text) → Lang (deriv c r) s → Lang r (c ∷ s)
unfolding deriv
deriv-Lang c fails s h = absurd h
deriv-Lang c empty s h = absurd h
deriv-Lang c (class p) s h = elim (Bool-cases (p c)) [
  | inl e ↦ (c, e, ap (λ t. c ∷ t) (rw e at h))
  | inr e ↦ absurd (rw e at h)
]
deriv-Lang c (seq r q) s h = elim (or_-Lang (then_ (deriv c r) q) _ s h) [
  | inl h' ↦
      let (t, u, hr, hq, e) = then_-Lang (deriv c r) q s h' in
      (c ∷ t, u, deriv-Lang c r t hr, hq, ap (λ t. c ∷ t) e)
  | inr h' ↦ elim (Bool-cases (nullable r)) [
    | inl e ↦ ([], c ∷ s, nullable-Lang r e, deriv-Lang c q s (rw e at h'), refl)
    | inr e ↦ absurd (rw e at h')
  ]
]
deriv-Lang c (either r q) s h = elim (or_-Lang (deriv c r) (deriv c q) s h) [
  | inl h' ↦ inl (deriv-Lang c r s h')
  | inr h' ↦ inr (deriv-Lang c q s h')
]
deriv-Lang c (star r) s h =
    let (t, u, hr, hs, e) = then_-Lang (deriv c r) (star r) s h in
    more c t u (deriv-Lang c r t hr) hs (ap (λ t. c ∷ t) e)

Lang-deriv : (c : ℕ) (r : Regex) (s : Text) → Lang r (c ∷ s) → Lang (deriv c r) s
unfolding deriv
Lang-deriv c fails s h = absurd h
Lang-deriv c empty s h = cc
Lang-deriv c (class p) s (d, e, e') =
    let same : c ≡ d = cc in
    let none_left : s ≡ [] = cc in let passes : p c ≡ true = rw same e in rw passes none_left
Lang-deriv c (seq r q) s ([], u, hr, hq, e) =
    let passes = Lang-nullable r hr in
    let hq' : Lang q (c ∷ s) = rw e hq in
    Lang-or_ (then_ (deriv c r) q) _ s (inr (rw passes (Lang-deriv c q s hq')))
Lang-deriv c (seq r q) s (d ∷ t, u, hr, hq, e) =
    let same : c ≡ d = cc in
    let hr' : Lang r (c ∷ t) = rw same hr in
    Lang-or_ (then_ (deriv c r) q) _ s
      (inl (Lang-then_ (deriv c r) q s (t, u, Lang-deriv c r t hr', hq, cc)))
Lang-deriv c (either r q) s (inl h) = Lang-or_ (deriv c r) (deriv c q) s (inl (Lang-deriv c r s h))
Lang-deriv c (either r q) s (inr h) = Lang-or_ (deriv c r) (deriv c q) s (inr (Lang-deriv c q s h))
Lang-deriv c (star r) s (stop e) = cc
Lang-deriv c (star r) s (more d t u hr hs e) =
    let same : c ≡ d = cc in
    let hr' : Lang r (c ∷ t) = rw same hr in
    Lang-then_ (deriv c r) (star r) s (t, u, Lang-deriv c r t hr', hs, cc)

-- A text matches in full exactly when it is in the language of the expression.
pub fullmatch_iff : (r : Regex) (s : Text) → (fullmatch r s ≡ true) ↔ Lang r s
unfolding fullmatch
fullmatch_iff r [] = (nullable-Lang r, Lang-nullable r)
fullmatch_iff r (c ∷ s) = (
  λ h. deriv-Lang c r s ((fullmatch_iff (deriv c r) s).0 h),
  λ h. (fullmatch_iff (deriv c r) s).1 (Lang-deriv c r s h),
)
