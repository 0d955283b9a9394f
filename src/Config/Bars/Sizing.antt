-- ===== src/Config/Bars/Sizing.antt =====
-- How a driver finds the size of a BAR: it writes all ones to the register and reads it back.
use native.Mathlib.Nat.{pow-suc, pow-le-pow_right}
use greens.Base.{
  ℕ, zero, suc, ◌+◌, ◌-◌, ◌*◌, ◌/◌, ◌^◌, ◌≤◌, ◌<◌, ◌≡◌, ap, arith, List, length, ltb, if◌then◌else◌,
  bit_and, bit_or,
}
use greens.Bits.{
  testbit, has_bit, complement, testbit-bit_and, testbit-bit_or, testbit-complement,
  testbit-low_mask, testbit-le,
}
use greens.Word.{to_le_bytes, length-to_le_bytes}
use greens.Error.{ok}
use greens.Bar.{PciBarType, bits}
use greens.Utils.RegisterBlock
use greens.Utils.RegisterBlock.Laws.{read_dword-ok, read_dword-set, set_keeps}
use greens.Config.Words.{value_at}
use greens.Config.Bars.{base_mask}

-- The bits of a multiple of `2 ^ k` below `k` are clear.
pub testbit-multiple : (k q i : ℕ) → i < k → testbit (q * 2 ^ k) i ≡ 0
unfolding testbit
testbit-multiple zero q i h = absurd (omega arith)
testbit-multiple (suc k) q zero h = omega (arith, ap (λ (t : ℕ). q * t) (pow-suc 2 k))
testbit-multiple (suc k) q (suc i) h =
    let half : q * 2 ^ suc k / 2 ≡ q * 2 ^ k = omega (arith, ap (λ (t : ℕ). q * t) (pow-suc 2 k)) in
    rw half (testbit-multiple k q i (omega arith))

-- The mask of an address register keeps all bits from 4 on.
testbit-base_mask : (t : PciBarType) (i : ℕ) → 4 ≤ i → i < 32 → testbit (base_mask t) i ≡ 1
testbit-base_mask PciBarType.io i h p =
    ground (arith, testbit-complement i 32 3 (omega arith) p, testbit-low_mask 2 i)
testbit-base_mask (PciBarType.memory_32bit q) i h p =
    ground (arith, testbit-complement i 32 15 (omega arith) p, testbit-low_mask 4 i)
testbit-base_mask (PciBarType.memory_64bit q) i h p =
    ground (arith, testbit-complement i 32 15 (omega arith) p, testbit-low_mask 4 i)

-- All ones written over a register whose writable bits are those from `k` on leave the bits of the
-- type below them.
module _ (k : ℕ) (large : 4 ≤ k) (small : k < 32) (t : PciBarType) where
  abbrev pub ones : ℕ
  ones = complement 32 (2 ^ k - 1)

  pub low_mask-lt : 2 ^ k - 1 < 2 ^ 32
  low_mask-lt = omega (arith, pow-le-pow_right {n = 2} (omega arith) {i = k} {j = 32} (omega arith))

  testbit-ones : (i : ℕ) → i < 32 → testbit ones i ≡ (if ltb i k then 0 else 1)
  testbit-ones i p =
      ground (arith, testbit-complement i 32 (2 ^ k - 1) low_mask-lt p, testbit-low_mask k i)

  pub probed_bit :
      (address i : ℕ)
      → i < 32
      → (i < k → testbit address i ≡ 0)
      → (if has_bit (bit_and ones (base_mask t)) i
          then testbit 0xFFFF_FFFF i
          else testbit (bit_or (bit_and address (base_mask t)) (bits t)) i)
        ≡ testbit (bit_or ones (bits t)) i
  probed_bit address i p clear = ground (
    arith,
    testbit-ones i p,
    testbit-base_mask t i,
    testbit-bit_and i ones (base_mask t),
    testbit-low_mask 32 i,
    testbit-bit_or i (bit_and address (base_mask t)) (bits t),
    testbit-bit_and i address (base_mask t),
    testbit-bit_or i ones (bits t),
    testbit-le (bits t) i,
    clear,
  )

-- The dword that a set of four bytes leaves.
pub set-value_at :
    (arr : List ℕ) (offset v : ℕ) {arr' : List ℕ}
    → v < 2 ^ 32
    → RegisterBlock.set arr offset (to_le_bytes 4 v) ≡ ok arr'
    → value_at arr' offset 4 ≡ v
set-value_at arr offset v {arr'} h e =
    let kept = set_keeps arr offset (to_le_bytes 4 v) e in
    let fits : offset + 4 ≤ length arr' = omega (arith, kept, length-to_le_bytes 4 v) in
    cc (read_dword-ok arr' offset fits, read_dword-set arr offset v h e)
