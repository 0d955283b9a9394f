-- ===== src/Bits/Laws.antt =====
-- The bits of `&`, `|` and `!`, bounds of their results, and equality by bits.
use native.Mathlib.Nat.{pow-suc}
use greens.Base.{ℕ, zero, suc, ◌-◌, ◌/◌, ◌^◌, ◌≤◌, ◌<◌, min, max, bit_and, bit_or, ◌≡◌, arith}
use greens.Bits.Step.{bit_or_step, bit_and_step, zero-bit_and}
use greens.Bits.Defs.{testbit, complement}

pub testbit-le : (x i : ℕ) → testbit x i ≤ 1
unfolding testbit
testbit-le x zero = omega arith
testbit-le x (suc i) = testbit-le (x / 2) i

pub testbit-bit_and : (i x y : ℕ) → testbit (bit_and x y) i ≡ min (testbit x i) (testbit y i)
unfolding testbit
testbit-bit_and zero x y = omega (arith, bit_and_step x y)
testbit-bit_and (suc i) x y =
    let half : bit_and x y / 2 ≡ bit_and (x / 2) (y / 2) = omega (arith, bit_and_step x y) in
    rw half (testbit-bit_and i (x / 2) (y / 2))

pub testbit-bit_or : (i x y : ℕ) → testbit (bit_or x y) i ≡ max (testbit x i) (testbit y i)
unfolding testbit
testbit-bit_or zero x y = omega (arith, bit_or_step x y)
testbit-bit_or (suc i) x y =
    let half : bit_or x y / 2 ≡ bit_or (x / 2) (y / 2) = omega (arith, bit_or_step x y) in
    rw half (testbit-bit_or i (x / 2) (y / 2))

pub testbit-complement :
    (i w x : ℕ) → x < 2 ^ w → i < w → testbit (complement w x) i ≡ 1 - testbit x i
unfolding testbit
testbit-complement i zero x h k = absurd (omega arith)
testbit-complement zero (suc w) x h k = omega (arith, pow-suc 2 w)
testbit-complement (suc i) (suc w) x h k =
    let half : complement (suc w) x / 2 ≡ complement w (x / 2) = omega (arith, pow-suc 2 w) in
    rw half (testbit-complement i w (x / 2) (omega (arith, pow-suc 2 w)) (omega arith))

-- Two words of `w` bits with the same bits are equal.
pub testbit_ext :
    (w x y : ℕ) → x < 2 ^ w → y < 2 ^ w → ((i : ℕ) → i < w → testbit x i ≡ testbit y i) → x ≡ y
unfolding testbit
testbit_ext zero x y p q h = omega arith
testbit_ext (suc w) x y p q h =
    let halves : x / 2 ≡ y / 2 =
      testbit_ext w (x / 2) (y / 2) (omega (arith, pow-suc 2 w)) (omega (arith, pow-suc 2 w))
        (λ i k. h (suc i) (omega arith)) in
    omega (arith, h 0 (omega arith))

pub bit_or-lt : (w x y : ℕ) → x < 2 ^ w → y < 2 ^ w → bit_or x y < 2 ^ w
bit_or-lt zero x y p q =
    let e : x ≡ 0 = omega arith in let f : y ≡ 0 = omega arith in rw (e, f) (omega arith)
bit_or-lt (suc w) x y p q = omega (
  arith,
  pow-suc 2 w,
  bit_or_step x y,
  bit_or-lt w (x / 2) (y / 2) (omega (arith, pow-suc 2 w)) (omega (arith, pow-suc 2 w)),
)

pub bit_and-le : (w x y : ℕ) → x < 2 ^ w → bit_and x y ≤ x
bit_and-le zero x y p = let e : x ≡ 0 = omega arith in rw e (omega (arith, zero-bit_and y))
bit_and-le (suc w) x y p =
    omega (arith, bit_and_step x y, bit_and-le w (x / 2) (y / 2) (omega (arith, pow-suc 2 w)))

pub bit_and-lt : (w x y : ℕ) → x < 2 ^ w → bit_and x y < 2 ^ w
bit_and-lt w x y p = omega (arith, bit_and-le w x y p)
