-- ===== src/Bits/Defs.antt =====
-- One bit of a number, and the complement of a word.
use greens.Base.{ℕ, zero, suc, ◌-◌, ◌/◌, ◌%◌, ◌^◌, Bool, ◌==◌}

-- Bit `i` of `x`, 0 or 1.
unfoldable pub testbit : ℕ → ℕ → ℕ
testbit x zero = x % 2
testbit x (suc i) = testbit (x / 2) i

-- `!x` of an unsigned type of `w` bits.
abbrev pub complement : ℕ → ℕ → ℕ
complement w x = 2 ^ w - 1 - x

-- Bit `i` is set.
abbrev pub has_bit : ℕ → ℕ → Bool
has_bit x i = testbit x i == 1
