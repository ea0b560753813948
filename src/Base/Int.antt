-- ===== src/Base/Int.antt =====
-- Signed integers over the native numbers, for the values that Python's `int` may make negative.
use demos_rework.Base.{ℕ, suc, ◌+◌, ◌-◌, leb, if◌then◌else◌}

-- `negsuc n` is -(n + 1).
pub data ℤ : Type 0 where
  pos : ℕ → ℤ
  negsuc : ℕ → ℤ

-- -n
abbrev pub neg : ℕ → ℤ
neg n = elim n [ ℕ.zero ↦ pos 0 | suc k ↦ negsuc k ]

-- abs(a - b), for a natural number a.
abbrev pub distance : ℕ → ℤ → ℕ
distance a (pos b) = if leb b a then a - b else b - a
distance a (negsuc b) = a + suc b
