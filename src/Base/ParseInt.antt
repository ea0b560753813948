-- ===== src/Base/ParseInt.antt =====
-- Python's int(text), exact on Latin-1: white space is stripped, a sign may stand in front, single
-- underscores between digits, and more than 4300 digits are refused. `none` is the ValueError.
use mathlib.Core.Path.{subst}
use demos_rework.Base.{
  ℕ, ◌+◌, ◌-◌, ◌*◌, ◌≤◌, ◌≡◌, refl, sym, ap, ◌∙◌, arith, length, All, All-imp, Bool, true, false,
  ◌&&◌, ◌||◌, Option, none, some, [], ◌∷◌, leb, ◌==◌, if◌then◌else◌,
}
use demos_rework.Base.Text.{Text, text, is_digit, strip, strip_none}
use demos_rework.Base.Decimal.{str, value, value-str, str_digits, le-length-str_one}
use demos_rework.Base.Int.{ℤ, pos, neg, negsuc}

abbrev pub is_space : ℕ → Bool
is_space c = (leb 0x09 c && leb c 0x0d) || (leb 0x1c c && leb c 0x20) || c == 0x85 || c == 0xa0

-- `after` says that the last character was a digit.
scan : Bool → ℕ → Text → Option ℕ
scan after acc [] = if after then some acc else none
scan after acc (c ∷ s) =
    let digit = scan true (acc * 10 + (c - b'0')) s in
    let gap = scan false acc s in
    if is_digit c then digit else if after && c == b'_' then gap else none

digit_count : Text → ℕ
digit_count [] = 0
digit_count (c ∷ s) = (if is_digit c then 1 else 0) + digit_count s

unsigned : Text → Option ℕ
unfolding scan digit_count
unsigned s = if leb (digit_count s) 4300 then scan false 0 s else none

signed : Text → Option ℤ
unfolding unsigned
signed [] = none
signed (c ∷ s) =
    if c == b'-'
    then (elim (unsigned s) [ none ↦ none | some n ↦ some (neg n) ])
    else (elim (unsigned (if c == b'+' then s else c ∷ s)) [ none ↦ none | some n ↦ some (pos n) ])

unfoldable pub parse_int : Text → Option ℤ
unfolding signed strip
parse_int s = signed (strip is_space s)

parse_int_runs :
    (parse_int (text " -1_000 ") ≡ some (negsuc 999)) × (parse_int (text "1__0") ≡ none)
unfolding parse_int text
parse_int_runs = (refl, refl)

-- What a text of digits is read as.
digit_space : (c : ℕ) → is_digit c ≡ true → is_space c ≡ false
digit_space c h = ground arith

scan-digits :
    (after : Bool) (acc : ℕ) (c : ℕ) (s : Text)
    → All (λ c. is_digit c ≡ true) (c ∷ s)
    → scan after acc (c ∷ s) ≡ some (value acc (c ∷ s))
unfolding scan value
scan-digits after acc c [] h = rw h.0 refl
scan-digits after acc c (d ∷ s) h = rw h.0 (scan-digits true (acc * 10 + (c - b'0')) d s h.1)

digit_count-digits : (s : Text) → All (λ c. is_digit c ≡ true) s → digit_count s ≡ length s
unfolding digit_count
digit_count-digits [] h = refl
digit_count-digits (c ∷ s) h = rw h.0 (omega (arith, digit_count-digits s h.1))

parse_int-digits :
    (c : ℕ) (s : Text)
    → All (λ c. is_digit c ≡ true) (c ∷ s)
    → length (c ∷ s) ≤ 4300
    → parse_int (c ∷ s) ≡ some (pos (value 0 (c ∷ s)))
unfolding parse_int
parse_int-digits c s h short =
    let minus : (c == b'-') ≡ false = ground (arith, h.0) in
    let plus : (c == b'+') ≡ false = ground (arith, h.0) in
    let count : leb (digit_count (c ∷ s)) 4300 ≡ true =
      rw (digit_count-digits (c ∷ s) h) (ground arith) in
    rw (strip_none is_space (c ∷ s) (All-imp _ _ digit_space (c ∷ s) h))
      (rw (minus, signed, plus) (rw (count, scan-digits false 0 c s h, unsigned) refl))

-- A number of up to 4300 digits is read back.
pub parse_int-str : (n : ℕ) → length (str n) ≤ 4300 → parse_int (str n) ≡ some (pos n)
parse_int-str n short = read (str n) refl
  where
    read : (t : Text) → t ≡ str n → parse_int (str n) ≡ some (pos n)
    read [] e = absurd (omega (arith, le-length-str_one n, ap length e))
    read (c ∷ s) e =
        let digits = subst (All (λ d. is_digit d ≡ true)) (sym e) (str_digits n) in
        let number : value 0 (c ∷ s) ≡ n = ap (value 0) e ∙ value-str n n (omega arith) in
        let few = subst (λ t. length t ≤ 4300) (sym e) short in
        subst (λ t. parse_int t ≡ some (pos n)) e
          (parse_int-digits c s digits few ∙ ap (λ k. some (pos k)) number)
