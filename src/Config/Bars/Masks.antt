-- ===== src/Config/Bars/Masks.antt =====
-- What the checks of a BAR say of its size and address, and how the masks of its register act on
-- them.
use greens.Base.{
  ℕ, zero, suc, ◌+◌, ◌*◌, ◌/◌, ◌%◌, ◌^◌, ◌≤◌, ◌<◌, ◌≡◌, inl, inr, ap, arith, some, true, false,
  ◌==◌, bit_and, bit_or, Bool-cases, ==_iff,
}
use native.Mathlib.Nat.{pow-suc, div-add-mod}
use greens.Bits.{bit_and-base_masks, bit_or-high_low}
use greens.Word.{u64_max, u32_max}
use greens.Error.{ok}
use greens.Bar.{PciBar, PciBarType, PciBarPrefetchable, bits, is_64bit}
use greens.Bar.Validate.{
  validate_bar_size, validate_bar_region, is_power_of_two, min_size, max_size,
}
use greens.Config.Bars.{base_mask}

-- What `validate_bar_region` has checked of an address when it succeeds.
pub validate_bar_region-ok :
    (bar : PciBar) (address : ℕ)
    → validate_bar_region bar ≡ ok tt
    → bar.address ≡ some address
    → (0 < address)
      × (address % bar.size ≡ 0)
      × (address + bar.size ≤ u64_max)
      × (is_64bit bar.region_type ≡ false → address + bar.size ≤ u32_max)
unfolding validate_bar_region
validate_bar_region-ok bar address e a = ground arith

-- What `validate_bar_size` has checked.
pub validate_bar_size-ok :
    (bar : PciBar)
    → validate_bar_size bar ≡ ok tt
    → (is_power_of_two 64 bar.size ≡ true)
      × (min_size bar.region_type ≤ bar.size)
      × (bar.size ≤ max_size bar.region_type)
unfolding validate_bar_size
validate_bar_size-ok bar e = ground arith

power_exponent : (w x : ℕ) → is_power_of_two w x ≡ true → (k : ℕ) × (k < w) × (x ≡ 2 ^ k)
unfolding is_power_of_two
power_exponent zero x e = absurd (cc)
power_exponent (suc w) x e = elim (Bool-cases (x == 2 ^ w)) [
  | inl same ↦ (w, omega arith, (==_iff x (2 ^ w)).0 same)
  | inr other ↦
      let rest = power_exponent w x (rw other at e) in (rest.0, omega (arith, rest.1), rest.2)
]

-- The exponent of a validated size is at least 4.
pub size_exponent :
    (bar : PciBar)
    → validate_bar_size bar ≡ ok tt
    → (k : ℕ) × (4 ≤ k) × (k < 64) × (bar.size ≡ 2 ^ k)
size_exponent bar e =
    let v = validate_bar_size-ok bar e in
    let p = power_exponent 64 bar.size v.0 in
    (p.0, large p.0 (rw p.2 at (at_least bar.region_type v.1)), p.1, p.2)
  where
    at_least : (t : PciBarType) {n : ℕ} → min_size t ≤ n → 16 ≤ n
    at_least PciBarType.io h = h
    at_least (PciBarType.memory_32bit p) h = omega arith
    at_least (PciBarType.memory_64bit p) h = omega arith

    large : (k : ℕ) → 16 ≤ 2 ^ k → 4 ≤ k
    large zero h = absurd (omega arith)
    large (suc zero) h = absurd (omega arith)
    large (suc (suc zero)) h = absurd (omega arith)
    large (suc (suc (suc zero))) h = absurd (omega arith)
    large (suc (suc (suc (suc k)))) h = omega arith

-- A multiple of such a size is a multiple of 16.
pub multiple-16 : (k a : ℕ) → 4 ≤ k → a % 2 ^ k ≡ 0 → a % 16 ≡ 0
multiple-16 (suc (suc (suc (suc k)))) a h e =
    let wide : 2 ^ suc (suc (suc (suc k))) ≡ 16 * 2 ^ k = omega (
      arith,
      pow-suc 2 k,
      pow-suc 2 (suc k),
      pow-suc 2 (suc (suc k)),
      pow-suc 2 (suc (suc (suc k))),
    ) in
    let size = 2 ^ suc (suc (suc (suc k))) in
    omega (arith, div-add-mod a size, ap (λ (t : ℕ). t * (a / size)) wide)
multiple-16 (suc (suc (suc zero))) a h e = absurd (omega arith)
multiple-16 (suc (suc zero)) a h e = absurd (omega arith)
multiple-16 (suc zero) a h e = absurd (omega arith)
multiple-16 zero a h e = absurd (omega arith)

pub beside : (x b : ℕ) → x % 16 ≡ 0 → b < 16 → bit_or x b ≡ x + b
beside x b e h =
    let q : x / 16 * 2 ^ 4 ≡ x = omega arith in rw q at (bit_or-high_low 4 (x / 16) b h)

multiple : (x : ℕ) → x % 16 ≡ 0 → x / 4 * 4 ≡ x
multiple x e = omega arith

-- The mask of an address register keeps a multiple of 16.
pub masked_self : (t : PciBarType) (x : ℕ) → x < 2 ^ 32 → x % 16 ≡ 0 → bit_and x (base_mask t) ≡ x
masked_self PciBarType.io x h e = omega (arith, (bit_and-base_masks x h).1)
masked_self (PciBarType.memory_32bit p) x h e = omega (arith, (bit_and-base_masks x h).0)
masked_self (PciBarType.memory_64bit p) x h e = omega (arith, (bit_and-base_masks x h).0)

masked_mem :
    (x b : ℕ)
    → x < 2 ^ 32
    → x % 16 ≡ 0
    → b < 16
    → (bit_and (bit_or (bit_and x 0xFFFF_FFF0) b) 0xFFFF_FFF0 ≡ x)
      × (bit_or (bit_and x 0xFFFF_FFF0) b < 2 ^ 32)
masked_mem x b h e p =
    let same : bit_and x 0xFFFF_FFF0 ≡ x = omega (arith, (bit_and-base_masks x h).0) in
    rw (same, beside x b e p)
      (omega (arith, (bit_and-base_masks (x + b) (omega arith)).0), omega arith)

-- The lower register holds the address beside the type's bits, and the mask takes them off.
pub masked_low :
    (t : PciBarType) (x : ℕ)
    → x < 2 ^ 32
    → x % 16 ≡ 0
    → (bit_and (bit_or (bit_and x (base_mask t)) (bits t)) (base_mask t) ≡ x)
      × (bit_or (bit_and x (base_mask t)) (bits t) < 2 ^ 32)
unfolding bits
masked_low PciBarType.io x h e =
    rw ((bit_and-base_masks x h).1, multiple x e, beside x 1 e (omega arith))
      (omega (arith, (bit_and-base_masks (x + 1) (omega arith)).1), omega arith)
masked_low (PciBarType.memory_32bit PciBarPrefetchable.not_prefetchable) x h e =
    masked_mem x 0 h e (omega arith)
masked_low (PciBarType.memory_32bit PciBarPrefetchable.prefetchable) x h e =
    masked_mem x 8 h e (omega arith)
masked_low (PciBarType.memory_64bit PciBarPrefetchable.not_prefetchable) x h e =
    masked_mem x 4 h e (omega arith)
masked_low (PciBarType.memory_64bit PciBarPrefetchable.prefetchable) x h e =
    masked_mem x 12 h e (omega arith)
