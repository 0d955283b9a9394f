-- ===== src/Config/Words.antt =====
-- Dwords of the configuration space: what a read returns, a set stores and a masked write changes.
use greens.Base.{
  ℕ, ◌+◌, ◌*◌, ◌/◌, ◌%◌, ◌<◌, ◌≡◌, ◌∙◌, ap, arith, List, length, slice, get_or, if◌then◌else◌,
}
use greens.Base.Slices.{All-slice, get_or-slice}
use greens.Bits.{testbit, has_bit}
use greens.Word.{IsByte, IsBytes, from_le_bytes}
use greens.Word.Bits.{testbit-from_le_bytes}
use greens.Error.{ok}
use greens.Utils.RegisterBlock
use greens.Utils.RegisterBlock.Writes.{write-bits}

-- The integer of `n` bytes at `offset`.
abbrev pub value_at : List ℕ → ℕ → ℕ → ℕ
value_at arr offset n = from_le_bytes (slice arr offset n)

-- A bit of such an integer is a bit of the array.
pub testbit-value_at :
    (arr : List ℕ) (offset n i : ℕ)
    → IsBytes arr
    → i < 8 * n
    → testbit (value_at arr offset n) i ≡ testbit (get_or arr (offset + i / 8) 0) (i % 8)
testbit-value_at arr offset n i b h =
    let split : i ≡ 8 * (i / 8) + i % 8 = omega arith in
    ap (λ k. testbit (value_at arr offset n) k) split
    ∙ testbit-from_le_bytes (i / 8) (i % 8) (slice arr offset n) (All-slice IsByte arr offset n b)
        (omega arith)
    ∙ ap (λ x. testbit x (i % 8)) (get_or-slice 0 arr offset n (i / 8) (omega arith))

-- A masked write of `n` bytes gives each writable bit of the integer there the new value.
pub testbit-value_at-write :
    (arr bits : List ℕ) (offset : ℕ) (new : List ℕ) (i : ℕ) {arr' : List ℕ}
    → IsBytes arr
    → IsBytes bits
    → IsBytes new
    → IsBytes arr'
    → i < 8 * length new
    → RegisterBlock.write arr bits offset new ≡ ok arr'
    → testbit (value_at arr' offset (length new)) i ≡ (
        if has_bit (value_at bits offset (length new)) i
        then testbit (from_le_bytes new) i
        else testbit (value_at arr offset (length new)) i)
testbit-value_at-write arr bits offset new i {arr'} b c d b' h e = ground (
  arith,
  testbit-value_at arr offset (length new) i b h,
  testbit-value_at arr' offset (length new) i b' h,
  testbit-value_at bits offset (length new) i c h,
  write-bits arr bits offset new (offset + i / 8) (i % 8) e c (omega arith),
  testbit-from_le_bytes (i / 8) (i % 8) new d (omega arith),
)
