-- ===== src/Regex/Classes.antt =====
-- What a match says of the characters and of the length of a text.
use demos_rework.Base.{
  ℕ, zero, suc, ◌≤◌, ◌≡◌, refl, ap, inl, inr, Bool, true, [], ◌∷◌, arith, length, All, All-append,
  ==_iff,
}
use demos_rework.Base.Text.{Text}
use demos_rework.Regex.{Regex, fails, empty, class, seq, either, star, lit, upto, times}
use demos_rework.Regex.Language.{Lang, Pieces, stop, more}

module _ (q : ℕ → Bool) where
  abbrev pub Passes : Text → Type 0
  Passes s = All (λ c. q c ≡ true) s

  -- Every class of the expression passes the test.
  abbrev pub Over : Regex → Type 0
  Over fails = Unit
  Over empty = Unit
  Over (class p) = (c : ℕ) → p c ≡ true → q c ≡ true
  Over (seq r s) = Over r × Over s
  Over (either r s) = Over r × Over s
  Over (star r) = Over r

  Pieces-All :
      (P : Text → Type 0) → ((s : Text) → P s → Passes s) → (s : Text) → Pieces P s → Passes s
  Pieces-All P f s (stop e) = rw e tt
  Pieces-All P f s (more c t u h k e) =
      rw e (All-append (λ c. q c ≡ true) (c ∷ t) u (f (c ∷ t) h) (Pieces-All P f u k))

  -- Then so does every character of a text that matches.
  pub Lang-All : (r : Regex) → Over r → (s : Text) → Lang r s → Passes s
  Lang-All fails o s h = absurd h
  Lang-All empty o s h = rw h tt
  Lang-All (class p) o s (c, h, e) = rw e (o c h, tt)
  Lang-All (seq r r') o s (t, u, h, k, e) =
      rw e (All-append (λ c. q c ≡ true) t u (Lang-All r o.0 t h) (Lang-All r' o.1 u k))
  Lang-All (either r r') o s (inl h) = Lang-All r o.0 s h
  Lang-All (either r r') o s (inr h) = Lang-All r' o.1 s h
  Lang-All (star r) o s h = Pieces-All (Lang r) (Lang-All r o) s h

-- lit t matches t alone.
pub lit-Lang : (t s : Text) → Lang (lit t) s → s ≡ t
lit-Lang [] s h = h
lit-Lang (c ∷ t) s (u, v, (d, h, e), k, e') =
    let same : d ≡ c = (==_iff d c).0 h in
    let rest : v ≡ t = lit-Lang t v k in rw (e', e, rest, same) refl

pub Lang-lit : (t : Text) → Lang (lit t) t
Lang-lit [] = refl
Lang-lit (c ∷ t) = (c ∷ [], t, (c, (==_iff c c).1 refl, refl), Lang-lit t, refl)

module _ (p : ℕ → Bool) where
  pub length-times : (n : ℕ) (s : Text) → Lang (times n (class p)) s → length s ≡ n
  length-times zero s h = rw h refl
  length-times (suc n) s (t, u, (c, h, e), k, e') = rw (e', e) (ap suc (length-times n u k))

  pub Over-times : (n : ℕ) (q : ℕ → Bool) → Over q (class p) → Over q (times n (class p))
  Over-times zero q o = tt
  Over-times (suc n) q o = (o, Over-times n q o)

  pub Over-upto : (n : ℕ) (q : ℕ → Bool) → Over q (class p) → Over q (upto n (class p))
  Over-upto zero q o = tt
  Over-upto (suc n) q o = (tt, (o, Over-upto n q o))

  pub Lang-times :
      (n : ℕ) (s : Text) → length s ≡ n → All (λ c. p c ≡ true) s → Lang (times n (class p)) s
  Lang-times zero [] e h = refl
  Lang-times zero (c ∷ s) e h = absurd (omega arith)
  Lang-times (suc n) [] e h = absurd (omega arith)
  Lang-times (suc n) (c ∷ s) e h =
      (c ∷ [], s, (c, h.0, refl), Lang-times n s (omega arith) h.1, refl)

  pub length-upto : (n : ℕ) (s : Text) → Lang (upto n (class p)) s → length s ≤ n
  length-upto zero s h = rw h (omega arith)
  length-upto (suc n) s (inl h) = rw h (omega arith)
  length-upto (suc n) s (inr (t, u, (c, h, e), k, e')) =
      rw (e', e) (omega (arith, length-upto n u k))
