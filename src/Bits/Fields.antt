-- ===== src/Bits/Fields.antt =====
-- `|` of fields that do not overlap is their sum, and `&` with a mask of low bits a remainder.
use mathlib.Core.WellFounded
use native.Mathlib.Nat.{pow-suc}
use greens.Base.{
  ℕ, zero, suc, ◌+◌, ◌-◌, ◌*◌, ◌/◌, ◌%◌, ◌^◌, ◌<◌, ◌≡◌, refl, ap, arith, bit_and, bit_or, lt_wf,
}
use greens.Bits.Step.{bit_or_step, bit_and_step, zero-bit_or}
use greens.Bits.Single.{bit_and-zero, two-pow-pos}

pub bit_or_comm : (w x y : ℕ) → x < 2 ^ w → y < 2 ^ w → bit_or x y ≡ bit_or y x
bit_or_comm zero x y p q =
    let e : x ≡ 0 = omega arith in let f : y ≡ 0 = omega arith in rw (e, f) refl
bit_or_comm (suc w) x y p q = omega (
  arith,
  bit_or_step x y,
  bit_or_step y x,
  bit_or_comm w (x / 2) (y / 2) (omega (arith, pow-suc 2 w)) (omega (arith, pow-suc 2 w)),
)

bit_or-zero : (a : ℕ) → bit_or a 0 ≡ a
bit_or-zero a = WellFounded.induction lt_wf {C = λ n. bit_or n 0 ≡ n} a step
  where
    step : (n : ℕ) → ((m : ℕ) → m < n → bit_or m 0 ≡ m) → bit_or n 0 ≡ n
    step zero ih = zero-bit_or 0
    step (suc n) ih = omega (arith, bit_or_step (suc n) 0, ih (suc n / 2) (omega arith))

scaled : (q k : ℕ) → q * 2 ^ suc k ≡ 2 * (q * 2 ^ k)
scaled q k = omega (arith, ap (λ (t : ℕ). q * t) (pow-suc 2 k))

-- `(q << k) | r`.
pub bit_or-high_low : (k q r : ℕ) → r < 2 ^ k → bit_or (q * 2 ^ k) r ≡ q * 2 ^ k + r
bit_or-high_low zero q r h = ground (arith, bit_or-zero q)
bit_or-high_low (suc k) q r h = ground (
  arith,
  bit_or_step (q * 2 ^ suc k) r,
  scaled q k,
  bit_or-high_low k q (r / 2) (omega (arith, pow-suc 2 k)),
)

-- `r | (q << k)`.
pub bit_or-low_high : (k q r : ℕ) → r < 2 ^ k → bit_or r (q * 2 ^ k) ≡ r + q * 2 ^ k
bit_or-low_high zero q r h = ground (arith, zero-bit_or q)
bit_or-low_high (suc k) q r h = ground (
  arith,
  bit_or_step r (q * 2 ^ suc k),
  scaled q k,
  bit_or-low_high k q (r / 2) (omega (arith, pow-suc 2 k)),
)

bit_and-high_low : (k q r : ℕ) → r < 2 ^ k → bit_and (q * 2 ^ k + r) (2 ^ k - 1) ≡ r
bit_and-high_low zero q r h = ground (arith, bit_and-zero (q + r), bit_and-zero (q * 1 + r))
bit_and-high_low (suc k) q r h = ground (
  arith,
  bit_and_step (q * 2 ^ suc k + r) (2 ^ suc k - 1),
  scaled q k,
  pow-suc 2 k,
  two-pow-pos k,
  bit_and-high_low k q (r / 2) (omega (arith, pow-suc 2 k)),
)

-- `x & ((1 << k) - 1)`.
pub bit_and-low_mask : (k x : ℕ) → bit_and x (2 ^ k - 1) ≡ x % 2 ^ k
bit_and-low_mask k x = ground (arith, two-pow-pos k, bit_and-high_low k (x / 2 ^ k) (x % 2 ^ k))

-- `x & 0xFFFF_FFF0` and `x & 0xFFFF_FFFC` of a 32-bit value.
pub bit_and-base_masks :
    (x : ℕ)
    → x < 2 ^ 32
    → (bit_and x 0xFFFF_FFF0 ≡ x / 16 * 16) × (bit_and x 0xFFFF_FFFC ≡ x / 4 * 4)
bit_and-base_masks x h = (
  omega (
    arith,
    bit_and_step x 0xFFFF_FFF0,
    bit_and_step (x / 2) 0x7FFF_FFF8,
    bit_and_step (x / 2 / 2) 0x3FFF_FFFC,
    bit_and_step (x / 2 / 2 / 2) 0x1FFF_FFFE,
    bit_and-low_mask 28 (x / 2 / 2 / 2 / 2),
  ),
  omega (
    arith,
    bit_and_step x 0xFFFF_FFFC,
    bit_and_step (x / 2) 0x7FFF_FFFE,
    bit_and-low_mask 30 (x / 2 / 2),
  ),
)

-- `x & !3` of a `u8` and of a `usize`.
pub bit_and-align :
    (x : ℕ)
    → (x < 2 ^ 8 → bit_and x (2 ^ 8 - 4) ≡ x / 4 * 4)
      × (x < 2 ^ 64 → bit_and x (2 ^ 64 - 4) ≡ x / 4 * 4)
bit_and-align x = (
  λ h. omega (
    arith,
    bit_and_step x (2 ^ 8 - 4),
    bit_and_step (x / 2) (2 ^ 7 - 2),
    bit_and-low_mask 6 (x / 2 / 2),
  ),
  λ h. omega (
    arith,
    bit_and_step x (2 ^ 64 - 4),
    bit_and_step (x / 2) (2 ^ 63 - 2),
    bit_and-low_mask 62 (x / 2 / 2),
  ),
)
