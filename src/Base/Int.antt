-- ===== src/Base/Int.antt =====
-- Go's `int` where the program can meet a negative value: plan limits and differences of counts.
use Prim.Native.Nat.{ℕ, ◌+◌, ◌-◌}
use mathlib.Core.Bool.{Bool, true, false}
use cafe_discovery.Base.Tests.{if◌then◌else◌, ltb, leb, ◌==◌}

-- `negsuc n` is -(n + 1).
pub data ℤ : Type 0 where
  pos : ℕ → ℤ
  negsuc : ℕ → ℤ

-- a - b, as an integer.
abbrev pub sub_ℕ : ℕ → ℕ → ℤ
sub_ℕ a b = if leb b a then pos (a - b) else negsuc (b - a - 1)

abbrev pub is_zero : ℤ → Bool
is_zero (pos n) = n == 0
is_zero (negsuc n) = false

-- 0 < z
abbrev pub is_positive : ℤ → Bool
is_positive (pos n) = ltb 0 n
is_positive (negsuc n) = false

-- The value where it is positive, and 0 elsewhere.
abbrev pub pos_part : ℤ → ℕ
pos_part (pos n) = n
pos_part (negsuc n) = 0

-- z <= n, for a count n.
abbrev pub leb_count : ℤ → ℕ → Bool
leb_count (pos m) n = leb m n
leb_count (negsuc m) n = true

-- z - n, for a count n.
abbrev pub sub_count : ℤ → ℕ → ℤ
sub_count (pos m) n = sub_ℕ m n
sub_count (negsuc m) n = negsuc (m + n)

abbrev pub is_negative : ℤ → Bool
is_negative (pos n) = false
is_negative (negsuc n) = true

abbrev pub suc_ℤ : ℤ → ℤ
suc_ℤ (pos n) = pos (n + 1)
suc_ℤ (negsuc n) = if n == 0 then pos 0 else negsuc (n - 1)

-- z < n, for a count n.
abbrev pub ltb_count : ℤ → ℕ → Bool
ltb_count (pos m) n = ltb m n
ltb_count (negsuc m) n = true
