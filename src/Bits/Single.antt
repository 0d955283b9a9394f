-- ===== src/Bits/Single.antt =====
-- Tests, sets and clears of a single bit, and the masks of the low bits.
use mathlib.Core.WellFounded
use native.Mathlib.Nat.{pow-suc, one-le-pow}
use greens.Base.{
  ℕ, zero, suc, ◌-◌, ◌*◌, ◌/◌, ◌^◌, ◌≤◌, ◌<◌, bit_and, bit_or, ◌≡◌, ap, refl, arith, ◌==◌,
  if◌then◌else◌, not, ltb, lt_wf,
}
use greens.Bits.Step.{bit_and_step, zero-bit_and}
use greens.Bits.Defs.{testbit, complement, has_bit}
use greens.Bits.Laws.{testbit-le, testbit-bit_and, testbit-bit_or, testbit-complement}

pub testbit-zero : (i : ℕ) → testbit 0 i ≡ 0
unfolding testbit
testbit-zero zero = refl
testbit-zero (suc i) = testbit-zero i

pub testbit-pow : (k i : ℕ) → testbit (2 ^ k) i ≡ (if i == k then 1 else 0)
unfolding testbit
testbit-pow zero zero = refl
testbit-pow zero (suc i) = ground (arith, testbit-zero i)
testbit-pow (suc k) zero = ground (arith, pow-suc 2 k)
testbit-pow (suc k) (suc i) =
    let half : 2 ^ suc k / 2 ≡ 2 ^ k = omega (arith, pow-suc 2 k) in
    rw half (ground (arith, testbit-pow k i))

pub bit_and-zero : (a : ℕ) → bit_and a 0 ≡ 0
bit_and-zero a = WellFounded.induction lt_wf {C = λ n. bit_and n 0 ≡ 0} a step
  where
    step : (n : ℕ) → ((m : ℕ) → m < n → bit_and m 0 ≡ 0) → bit_and n 0 ≡ 0
    step zero ih = zero-bit_and 0
    step (suc n) ih = omega (arith, bit_and_step (suc n) 0, ih (suc n / 2) (omega arith))

pub two-pow-pos : (k : ℕ) → 1 ≤ 2 ^ k
two-pow-pos k = one-le-pow k 2 (omega arith)

pub two-pow-lt : (w k : ℕ) → k < w → 2 ^ k < 2 ^ w
two-pow-lt zero k h = absurd (omega arith)
two-pow-lt (suc w) zero h = omega (arith, pow-suc 2 w, two-pow-pos w)
two-pow-lt (suc w) (suc k) h = omega (arith, pow-suc 2 k, pow-suc 2 w, two-pow-lt w k (omega arith))

-- `x & (1 << k)`.
pub bit_and-pow : (k x : ℕ) → bit_and x (2 ^ k) ≡ testbit x k * 2 ^ k
unfolding testbit
bit_and-pow zero x = omega (arith, bit_and_step x 1, bit_and-zero (x / 2))
bit_and-pow (suc k) x = omega (
  arith,
  pow-suc 2 k,
  bit_and_step x (2 ^ suc k),
  ap (λ (t : ℕ). bit_and (x / 2) t) (halves k),
  bit_and-pow k (x / 2),
  ap (λ (t : ℕ). testbit (x / 2) k * t) (pow-suc 2 k),
)
  where
    halves : (k : ℕ) → 2 ^ suc k / 2 ≡ 2 ^ k
    halves k = omega (arith, pow-suc 2 k)

-- `x & (1 << k) != 0` tests bit `k`.
pub bit_and-pow_test : (k x : ℕ) → not (bit_and x (2 ^ k) == 0) ≡ has_bit x k
bit_and-pow_test k x = ground (arith, bit_and-pow k x, testbit-le x k, two-pow-pos k)

-- `x | (1 << k)` sets bit `k` and leaves the others.
pub testbit-set_bit :
    (k x i : ℕ) → testbit (bit_or x (2 ^ k)) i ≡ (if i == k then 1 else testbit x i)
testbit-set_bit k x i = ground (arith, testbit-bit_or i x (2 ^ k), testbit-pow k i, testbit-le x i)

-- `x & !(1 << k)` clears bit `k` and leaves the others.
pub testbit-clear_bit :
    (w k x i : ℕ)
    → k < w
    → i < w
    → testbit (bit_and x (complement w (2 ^ k))) i ≡ (if i == k then 0 else testbit x i)
testbit-clear_bit w k x i h p = ground (
  arith,
  testbit-bit_and i x (complement w (2 ^ k)),
  testbit-complement i w (2 ^ k) (two-pow-lt w k h) p,
  testbit-pow k i,
  testbit-le x i,
)

-- The bits of `2 ^ k - 1`.
pub testbit-low_mask : (k i : ℕ) → testbit (2 ^ k - 1) i ≡ (if ltb i k then 1 else 0)
unfolding testbit
testbit-low_mask zero i = ground (arith, testbit-zero i)
testbit-low_mask (suc k) zero = ground (arith, pow-suc 2 k, two-pow-pos k)
testbit-low_mask (suc k) (suc i) =
    let half : (2 ^ suc k - 1) / 2 ≡ 2 ^ k - 1 = omega (arith, pow-suc 2 k, two-pow-pos k) in
    rw half (ground (arith, testbit-low_mask k i))
