-- ===== src/Base/Decimal.antt =====
-- Python's str(n) of a natural number, with the facts that names built from it rest on.
use native.Mathlib.Nat.{pow-suc}
use demos_rework.Base.{
  ℕ, zero, suc, ◌+◌, ◌-◌, ◌*◌, ◌/◌, ◌%◌, ◌^◌, ◌≤◌, ◌<◌, ◌≡◌, refl, true, [], ◌∷◌, ◌++◌, arith, ltb,
  if◌then◌else◌, length, All, All-append, Bool-cases, length-append, inl, inr,
}
use demos_rework.Base.Text.{Text, is_digit}

-- The digits of n, the last one first computed. Fuel n is enough, since n / 10 < n.
digits : ℕ → ℕ → Text
digits zero n = (b'0' + n % 10) ∷ []
digits (suc f) n =
    let more = digits f (n / 10) in
    if ltb n 10 then (b'0' + n) ∷ [] else more ++ (b'0' + n % 10) ∷ []

unfoldable pub str : ℕ → Text
unfolding digits
str n = digits n n

digits-All : (f n : ℕ) → All (λ c. is_digit c ≡ true) (digits f n)
unfolding digits
digits-All zero n = (ground arith, tt)
digits-All (suc f) n = elim (Bool-cases (ltb n 10)) [
  | inl e ↦ rw e (ground arith, tt)
  | inr e ↦ rw e (All-append _ (digits f (n / 10)) _ (digits-All f (n / 10)) (ground arith, tt))
]

-- More fuel than n changes nothing.
digits_fuel : (f g n : ℕ) → n ≤ f → n ≤ g → digits f n ≡ digits g n
unfolding digits
digits_fuel zero zero n hf hg = refl
digits_fuel zero (suc g) n hf hg = ground arith
digits_fuel (suc f) zero n hf hg = ground arith
digits_fuel (suc f) (suc g) n hf hg = ground (arith, digits_fuel f g (n / 10))

pub str_digits : (n : ℕ) → All (λ c. is_digit c ≡ true) (str n)
unfolding str
str_digits n = digits-All n n

-- The last digit stands behind the digits of a tenth.
pub str_step : (n : ℕ) → 10 ≤ n → str n ≡ str (n / 10) ++ (b'0' + n % 10) ∷ []
unfolding str
str_step zero h = absurd (omega arith)
str_step (suc f) h = ground (arith, digits_fuel f (suc f / 10) (suc f / 10))

pub str_small : (n : ℕ) → n < 10 → str n ≡ (b'0' + n) ∷ []
unfolding str
str_small zero h = refl
str_small (suc n) h = ground arith

-- A number below 10^(k + 1) has at most k + 1 digits, and one from 10^k on has at least k + 1.
pub length-str-le : (k n : ℕ) → n < 10 ^ suc k → length (str n) ≤ suc k
length-str-le zero n h = rw (str_small n (omega (arith, pow-suc 10 0))) (omega arith)
length-str-le (suc k) n h = elim (Bool-cases (ltb n 10)) [
  | inl e ↦ rw (str_small n (ground arith)) (omega arith)
  | inr e ↦ rw (str_step n (ground arith)) (
      omega (
        arith,
        length-append (str (n / 10)) ((b'0' + n % 10) ∷ []),
        length-str-le k (n / 10) (omega (arith, pow-suc 10 (suc k))),
      ))
]

pub le-length-str : (k n : ℕ) → 10 ^ k ≤ n → suc k ≤ length (str n)
le-length-str zero n h = elim (Bool-cases (ltb n 10)) [
  | inl e ↦ rw (str_small n (ground arith)) (omega arith)
  | inr e ↦
      rw (str_step n (ground arith))
        (omega (arith, length-append (str (n / 10)) ((b'0' + n % 10) ∷ [])))
]
le-length-str (suc k) n h =
    let below : 10 ^ k ≤ n / 10 = omega (arith, pow-suc 10 k) in
    let pos : 1 ≤ 10 ^ k = pow-pos k in
    rw (str_step n (omega (arith, pow-suc 10 k))) (
      omega (
        arith,
        length-append (str (n / 10)) ((b'0' + n % 10) ∷ []),
        le-length-str k (n / 10) below,
      ))
  where
    pow-pos : (k : ℕ) → 1 ≤ 10 ^ k
    pow-pos zero = omega arith
    pow-pos (suc k) = omega (arith, pow-suc 10 k, pow-pos k)

pub le-length-str_one : (n : ℕ) → 1 ≤ length (str n)
le-length-str_one n = elim (Bool-cases (ltb n 10)) [
  | inl e ↦ rw (str_small n (ground arith)) (omega arith)
  | inr e ↦
      rw (str_step n (ground arith))
        (omega (arith, length-append (str (n / 10)) ((b'0' + n % 10) ∷ [])))
]

-- The number that a text of digits stands for, behind the digits that `acc` stands for.
unfoldable pub value : ℕ → Text → ℕ
value acc [] = acc
value acc (c ∷ s) = value (acc * 10 + (c - b'0')) s

value-append :
    (acc : ℕ) (s : Text) (c : ℕ) → value acc (s ++ c ∷ []) ≡ value acc s * 10 + (c - b'0')
unfolding value
value-append acc [] c = refl
value-append acc (d ∷ s) c = value-append (acc * 10 + (d - b'0')) s c

pub value-str : (f n : ℕ) → n ≤ f → value 0 (str n) ≡ n
value-str zero n h = rw (str_small n (omega arith)) (unfold value in omega arith)
value-str (suc f) n h = elim (Bool-cases (ltb n 10)) [
  | inl e ↦ rw (str_small n (ground arith)) (unfold value in omega arith)
  | inr e ↦
      rw (str_step n (ground arith), value-append 0 (str (n / 10)) (b'0' + n % 10))
        (omega (arith, value-str f (n / 10) (ground arith)))
]

-- Different numbers have different texts.
pub str_injective : (m n : ℕ) → str m ≡ str n → m ≡ n
str_injective m n e = cc (value-str m m (omega arith), value-str n n (omega arith))
