-- ===== src/Charm/Logs/Newest.antt =====
-- Which pod is chosen.
use mathlib.Core.List.{Memᴰ}
use mathlib.Core.Path.{subst}
use demos_rework.Base.{
  ℕ, ◌≤◌, ◌≡◌, refl, sym, ◌∙◌, true, false, Option, none, some, List, [], ◌∷◌, arith, ltb,
  Bool-cases, Option-cases, inl, inr, ◌⊎◌,
}
use demos_rework.Charm.Logs.{Pod, is_running, candidate, newer, newest, select_demo_pod}

-- A pod that runs and is not being deleted, and that started then.
pub record IsCandidate (pod : Pod) (start : ℕ) : Type 0 where
  pub running : is_running pod.phase ≡ true
  pub staying : pod.is_deleting ≡ false
  pub started : pod.start_time ≡ some start

candidate-IsCandidate : (pod : Pod) (start : ℕ) → candidate pod ≡ some start → IsCandidate pod start
unfolding candidate
candidate-IsCandidate pod start h = record {
  running = ground arith;
  staying = ground arith;
  started = ground arith;
}

-- No candidate of the list started later.
unfoldable pub NoneLater : List Pod → ℕ → Type 0
NoneLater pods start = (p : Pod) (s : ℕ) → Memᴰ p pods → candidate p ≡ some s → s ≤ start

abbrev IsNewest : List Pod → Pod → ℕ → Type 0
IsNewest pods pod start = Memᴰ pod pods × (candidate pod ≡ some start) × NoneLater pods start

-- Where the head is no candidate, the rest decides; where it is one, the newer of both.
newest_skip : (q : Pod) (pods : List Pod) → candidate q ≡ none → newest (q ∷ pods) ≡ newest pods
unfolding newest
newest_skip q pods c = rw (c, newest) refl

newest_take :
    (q : Pod) (pods : List Pod) (t : ℕ)
    → candidate q ≡ some t
    → newest (q ∷ pods) ≡ newer q t (newest pods)
unfolding newest
newest_take q pods t c = rw (c, newest) refl

newer-some :
    (q : Pod) (t : ℕ) (rest : Option (Pod × ℕ))
    → (p : Pod) × (s : ℕ) × (newer q t rest ≡ some (p, s))
newer-some q t none = (q, t, refl)
newer-some q t (some (other, later)) = elim (Bool-cases (ltb t later)) [
  | inl lt ↦ (other, later, rw lt refl)
  | inr ge ↦ (q, t, rw ge refl)
]

newest-nothing : (pods : List Pod) (p : Pod) → newest pods ≡ none → Memᴰ p pods → candidate p ≡ none
newest-nothing [] p h m = elim m [ ]
newest-nothing (q ∷ pods) p h m = elim (Option-cases (candidate q)) [
  | inl c ↦ elim m [
    | Memᴰ.head e ↦ rw e c
    | Memᴰ.tail later ↦ newest-nothing pods p (sym (newest_skip q pods c) ∙ h) later
  ]
  | inr (t, c) ↦ let (_, _, e) = newer-some q t (newest pods) in cc (newest_take q pods t c, e, h)
]

newer_cases :
    (q : Pod) (t : ℕ) (other : Pod) (later : ℕ) (pod : Pod) (start : ℕ)
    → newer q t (some (other, later)) ≡ some (pod, start)
    → ((q ≡ pod) × (t ≡ start) × (later ≤ start)) ⊎ ((other ≡ pod) × (later ≡ start) × (t ≤ start))
newer_cases q t other later pod start h = elim (Bool-cases (ltb t later)) [
  | inl lt ↦ let e = rw lt at h in let same : later ≡ start = cc e in inr (cc e, same, ground arith)
  | inr ge ↦ let e = rw ge at h in let same : t ≡ start = cc e in inl (cc e, same, ground arith)
]

NoneLater-cons :
    (q : Pod) (pods : List Pod) (start : ℕ)
    → ((s : ℕ) → candidate q ≡ some s → s ≤ start)
    → NoneLater pods start
    → NoneLater (q ∷ pods) start
unfolding NoneLater
NoneLater-cons q pods start here there p s (Memᴰ.head e) c = here s (rw (sym e) c)
NoneLater-cons q pods start here there p s (Memᴰ.tail m) c = there p s m c

NoneLater-mono : (pods : List Pod) (a b : ℕ) → a ≤ b → NoneLater pods a → NoneLater pods b
unfolding NoneLater
NoneLater-mono pods a b le h p s m c = let bound = h p s m c in omega arith

NoneLater-nothing : (pods : List Pod) (start : ℕ) → newest pods ≡ none → NoneLater pods start
unfolding NoneLater
NoneLater-nothing pods start h p s m c = cc (newest-nothing pods p h m, c)

head-IsNewest :
    (q : Pod) (pods : List Pod) (t : ℕ)
    → candidate q ≡ some t
    → NoneLater pods t
    → IsNewest (q ∷ pods) q t
head-IsNewest q pods t c last = (
  Memᴰ.head refl,
  c,
  NoneLater-cons q pods t (λ s e. let same : t ≡ s = cc (c, e) in omega arith) last,
)

tail-IsNewest :
    (q : Pod) (pods : List Pod) (pod : Pod) (start : ℕ)
    → ((s : ℕ) → candidate q ≡ some s → s ≤ start)
    → IsNewest pods pod start
    → IsNewest (q ∷ pods) pod start
tail-IsNewest q pods pod start here (m, itself, last) =
    (Memᴰ.tail m, itself, NoneLater-cons q pods start here last)

newest_nil : newest [] ≡ none
unfolding newest
newest_nil = refl

newest-IsNewest :
    (pods : List Pod) (pod : Pod) (start : ℕ)
    → newest pods ≡ some (pod, start)
    → IsNewest pods pod start
newest-IsNewest [] pod start h = cc (newest_nil, h)
newest-IsNewest (q ∷ pods) pod start h = elim (Option-cases (candidate q)) [
  | inl c ↦
      tail-IsNewest q pods pod start (λ s e. cc (e, c))
        (newest-IsNewest pods pod start (sym (newest_skip q pods c) ∙ h))
  | inr (t, c) ↦
      let e = sym (newest_take q pods t c) ∙ h in
      elim (Option-cases (newest pods)) [
        | inl r ↦
            let both : some (q, t) ≡ some (pod, start) = rw r at e in
            subst (λ (x : Pod × ℕ). IsNewest (q ∷ pods) x.0 x.1) (cc both)
              (head-IsNewest q pods t c (NoneLater-nothing pods t r))
        | inr ((other, later), r) ↦
            let both : newer q t (some (other, later)) ≡ some (pod, start) = rw r at e in
            let (_, itself, last) = newest-IsNewest pods other later r in
            elim (newer_cases q t other later pod start both) [
              | inl (same, at, le) ↦
                  subst (λ (x : Pod × ℕ). IsNewest (q ∷ pods) x.0 x.1) (cc (same, at))
                    (head-IsNewest q pods t c (NoneLater-mono pods later t (rw at le) last))
              | inr (same, at, le) ↦
                  tail-IsNewest q pods pod start (λ s f. let u : t ≡ s = cc (c, f) in omega arith)
                    (newest-IsNewest pods pod start (cc (r, same, at)))
            ]
      ]
]

-- Where a pod is selected, it is one of the pods, it runs, it is not being deleted and it has a
-- start, and no other pod of that kind started later.
pub select_demo_pod_newest :
    (pods : List Pod) (pod : Pod)
    → select_demo_pod pods ≡ some pod
    → (start : ℕ) × Memᴰ pod pods × IsCandidate pod start × NoneLater pods start
unfolding select_demo_pod
select_demo_pod_newest pods pod h = elim (Option-cases (newest pods)) [
  | inl e ↦ cc (rw (e, select_demo_pod) at h)
  | inr ((best, start), e) ↦
      let found : some best ≡ some pod = rw (e, select_demo_pod) at h in
      let (m, c, last) = newest-IsNewest pods pod start (cc (e, found)) in
      (start, m, candidate-IsCandidate pod start c, last)
]
