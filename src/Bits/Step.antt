-- ===== src/Bits/Step.antt =====
-- One equation for the lowest digit of each native bit operation.
use Prim.Native.Nat.{digits, bitwise, bit_and-bitwise, bit_or-bitwise}
use greens.Base.{
  ℕ, zero, suc, ◌+◌, ◌*◌, ◌/◌, ◌%◌, ◌≤◌, min, max, bit_and, bit_or, ◌≡◌, refl, ◌∙◌, sym, arith,
}

module _ (rest : ℕ → ℕ) (digit : ℕ → ℕ → ℕ) where
  digits-zero : (fuel y : ℕ) → digits rest digit fuel 0 y ≡ rest y
  digits-zero zero y = refl
  digits-zero (suc fuel) y = refl

  -- Any two amounts of fuel that reach the first number give the same.
  digits_enough :
      (x y fuel other : ℕ)
      → (x ≤ fuel) × (x ≤ other)
      → digits rest digit other x y ≡ digits rest digit fuel x y
  digits_enough zero y fuel other h = digits-zero other y ∙ sym (digits-zero fuel y)
  digits_enough (suc x) y (suc fuel) (suc other) h =
      rw (digits_enough (suc x / 2) (y / 2) fuel other (omega arith))
  digits_enough (suc x) y zero other h = absurd (omega arith)
  digits_enough (suc x) y (suc fuel) zero h = absurd (omega arith)

  lowest_digit :
      (y x : ℕ)
      → bitwise rest digit (suc x) y
        ≡ digit (suc x % 2) (y % 2) + 2 * bitwise rest digit (suc x / 2) (y / 2)
  lowest_digit y x =
      let half = suc x / 2 in omega (arith, digits_enough half (y / 2) half x (omega arith))

pub bit_and_step : (x y : ℕ) → bit_and x y ≡ min (x % 2) (y % 2) + 2 * bit_and (x / 2) (y / 2)
bit_and_step zero y = simp bit_and-bitwise (omega arith)
bit_and_step (suc x) y = simp bit_and-bitwise (lowest_digit (λ y. 0) min y x)

pub zero-bit_or : (b : ℕ) → bit_or 0 b ≡ b
zero-bit_or b = bit_or-bitwise 0 b

pub bit_or_step : (x y : ℕ) → bit_or x y ≡ max (x % 2) (y % 2) + 2 * bit_or (x / 2) (y / 2)
bit_or_step zero y = simp bit_or-bitwise (omega arith)
bit_or_step (suc x) y = simp bit_or-bitwise (lowest_digit (λ y. y) max y x)

pub zero-bit_and : (b : ℕ) → bit_and 0 b ≡ 0
zero-bit_and b = bit_and-bitwise 0 b
