-- ===== src/Common/Bits.antt =====
-- Bits and bit fields of machine words, in the form that `omega` reads: `x >> k` is a division by
-- 2 ^ k, a mask of one bit or of a contiguous field is a remainder, and `|`, `& ~` and `^` of one
-- bit add or take away the bit's weight.
use Prim.Native.Nat.{ℕ, ◌+◌, ◌-◌, ◌*◌, ◌/◌, ◌%◌, ◌^◌}
use mathlib.Core.Bool.{Bool}
use swift_corelibs_libdispat.Common.Tests.{◌==◌}

-- `(x >> lo) & (2^w - 1)`
abbrev pub field : ℕ → ℕ → ℕ → ℕ
field lo w x = x / 2 ^ lo % 2 ^ w

-- `x & (1 << k)`, as a truth value
abbrev pub test_bit : ℕ → ℕ → Bool
test_bit k x = x / 2 ^ k % 2 == 1

-- `x | (1 << k)`
abbrev pub set_bit : ℕ → ℕ → ℕ
set_bit k x = x + (1 - x / 2 ^ k % 2) * 2 ^ k

-- `x & ~(1 << k)`
abbrev pub clear_bit : ℕ → ℕ → ℕ
clear_bit k x = x - x / 2 ^ k % 2 * 2 ^ k

-- `x & ~(((1 << w) - 1) << lo)`
abbrev pub clear_field : ℕ → ℕ → ℕ → ℕ
clear_field lo w x = x - x / 2 ^ lo % 2 ^ w * 2 ^ lo
