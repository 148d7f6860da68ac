-- ===== src/Common/Int.antt =====
-- Signed integers over the native numbers, under the library's names (its ℤ stands on the unary ℕ).
use Prim.Native.Nat.{ℕ, zero, suc, ◌+◌, ◌-◌, ◌^◌}
use mathlib.Core.Bool.{Bool, false}
use swift_corelibs_libdispat.Common.Tests.{◌==◌, if◌then◌else◌}

-- `negsuc n` is -(n + 1).
pub data ℤ : Type 0 where
  pos : ℕ → ℤ
  negsuc : ℕ → ℤ

abbrev pub pos_part : ℤ → ℕ
pos_part (pos n) = n
pos_part (negsuc n) = 0

abbrev pub neg_part : ℤ → ℕ
neg_part (pos n) = 0
neg_part (negsuc n) = suc n

abbrev pub eq_ℤ : ℤ → ℤ → Bool
eq_ℤ (pos a) (pos b) = a == b
eq_ℤ (negsuc a) (negsuc b) = a == b
eq_ℤ a b = false

-- `long` and `intptr_t`: the least value, and one more and one less, which wrap around.
abbrev pub long_min : ℤ
long_min = negsuc (2 ^ 63 - 1)

unfoldable pub inc_long : ℤ → ℤ
inc_long (pos n) = if n == 2 ^ 63 - 1 then long_min else pos (n + 1)
inc_long (negsuc zero) = pos 0
inc_long (negsuc (suc n)) = negsuc n

unfoldable pub dec_long : ℤ → ℤ
dec_long (pos zero) = negsuc 0
dec_long (pos (suc n)) = pos n
dec_long (negsuc n) = if n == 2 ^ 63 - 1 then pos (2 ^ 63 - 1) else negsuc (n + 1)
