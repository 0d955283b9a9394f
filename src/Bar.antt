-- ===== src/Bar.antt =====
-- bar.rs: base address registers and their indices.
pub mod Validate
use greens.Base.{
  ℕ, ◌+◌, ◌≤◌, bit_or, Bool, true, false, not, Option, none, some, ltb, leb, if◌then◌else◌,
}
use greens.Word.{usize_max}
use greens.Error.{Result, ok, err, panic, ◌>>=◌, ◌>>◌, assert, invalid_bar_index}
use greens.Registers.{
  num_bar_regs, pci_bar_io_indicator_mask, pci_bar_mem_32_indicator_mask,
  pci_bar_mem_64_indicator_mask, pci_bar_mem_prefetchable_mask,
}

pub data PciBarPrefetchable : Type 0 where
  not_prefetchable prefetchable : PciBarPrefetchable

pub data PciBarType : Type 0 where
  io : PciBarType
  memory_32bit memory_64bit : PciBarPrefetchable → PciBarType

-- `prefetchable as u32`.
abbrev pub prefetchable_bits : PciBarPrefetchable → ℕ
prefetchable_bits PciBarPrefetchable.not_prefetchable = 0
prefetchable_bits PciBarPrefetchable.prefetchable = pci_bar_mem_prefetchable_mask

unfoldable pub bits : PciBarType → ℕ
bits PciBarType.io = pci_bar_io_indicator_mask
bits (PciBarType.memory_32bit p) = bit_or pci_bar_mem_32_indicator_mask (prefetchable_bits p)
bits (PciBarType.memory_64bit p) = bit_or pci_bar_mem_64_indicator_mask (prefetchable_bits p)

-- `matches!(region_type, Memory64Bit(_))`.
abbrev pub is_64bit : PciBarType → Bool
is_64bit (PciBarType.memory_64bit p) = true
is_64bit _ = false

pub record PciBar : Type 0 where
  pub address : Option ℕ
  pub size : ℕ
  pub index : ℕ
  pub region_type : PciBarType

unfoldable pub is_io : PciBar → Bool
is_io bar = elim bar.region_type [ PciBarType.io ↦ true | _ ↦ false ]

unfoldable pub is_mem : PciBar → Bool
unfolding is_io
is_mem bar = not (is_io bar)

-- A `PciBarIndex` is its `usize`.
unfoldable pub try_from : ℕ → Result ℕ
try_from index = if ltb index num_bar_regs then ok index else err (invalid_bar_index index)

-- `PciBarIndex + PciBarIndex`; the sum of `usize` cannot overflow for two indices.
unfoldable pub add_index : ℕ → ℕ → Result ℕ
add_index a b = do
  assert (leb (a + b) usize_max)
  if ltb (a + b) num_bar_regs then ok (a + b) else err (invalid_bar_index (a + b))

-- `PciBarIndex + usize`; the error of an overflow computes the same sum again, which panics.
unfoldable pub add_usize : ℕ → ℕ → Result ℕ
add_usize a n =
    if leb (a + n) usize_max
    then (if ltb (a + n) num_bar_regs then ok (a + n) else err (invalid_bar_index (a + n)))
    else panic
