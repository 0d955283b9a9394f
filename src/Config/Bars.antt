-- ===== src/Config/Bars.antt =====
-- The BARs of configuration_space.rs: `add_bar`, `get_bar`, `max_num_bars` and
-- `bar_update_for_write`.
pub mod Steps
pub mod Slots
pub mod Keeps
pub mod Masks
pub mod RoundTrip
pub mod Sizing
pub mod Dwords
pub mod Probe
use mathlib.Core.Option
use greens.Base.{
  ℕ, zero, suc, ◌+◌, ◌-◌, ◌*◌, ◌/◌, ◌%◌, ◌^◌, bit_and, bit_or, Bool, true, false, not, ◌&&◌, ◌||◌,
  List, Option, none, some, get_elem?, ltb, leb, ◌==◌, if◌then◌else◌,
}
use greens.Base
use greens.Bits.{complement}
use greens.Error.{
  Result, ok, err, panic, ◌>>=◌, ◌>>◌, guard, invalid_bar_index, bar_in_use, unsupported_header,
}
use greens.Registers.{
  pci_type0_num_bars, pci_type1_num_bars, num_bar_regs, pci_command, pci_command_io_space_mask,
  pci_command_mem_space_mask, pci_header_type, pci_bar0, pci_bar_io_base_address_mask,
  pci_bar_mem_32_base_address_mask,
}
use greens.Bar.{PciBar, PciBarType, bits, is_64bit, try_from}
use greens.Bar.Validate.{validate_bar_size, validate_bar_region}
use greens.Config.{
  PciConfigurationSpace, read_byte, read_word, read_dword, set_dword, set_writable_dword,
  add_writable_word,
}

unfoldable pub max_num_bars : PciConfigurationSpace → Result ℕ
max_num_bars c = do
  header_type ← read_byte c pci_header_type
  if header_type == 0
      then ok pci_type0_num_bars
      else if header_type == 1
      then ok pci_type1_num_bars
      else err (unsupported_header header_type)

unfoldable pub validate_header_support : PciConfigurationSpace → ℕ → Result (Unit {0})
unfolding max_num_bars
validate_header_support c index = do
  count ← max_num_bars c
  guard (ltb index count) (invalid_bar_index index)

-- `bars.get(index)`, where a missing slot is the error given.
abbrev pub slot_at : PciConfigurationSpace → ℕ → ℕ → Result (Option PciBar)
slot_at c slot index = elim (get_elem? c.bars slot) [
  | none ↦ err (invalid_bar_index index)
  | some bar ↦ ok bar
]

abbrev pub is_used : Option PciBar → Bool
is_used none = false
is_used (some bar) = true

-- The previous slot holds a 64-bit BAR. An index into `bars` out of range would panic.
unfoldable pub used_by_previous : PciConfigurationSpace → ℕ → Result Bool
used_by_previous c zero = ok false
used_by_previous c (suc previous) = elim (get_elem? c.bars previous) [
  | none ↦ panic
  | some none ↦ ok false
  | some (some bar) ↦ ok (is_64bit bar.region_type)
]

-- The offset of the register of a BAR.
abbrev pub bar_register : ℕ → ℕ
bar_register index = pci_bar0 + index * 4

-- The upper half of a 64-bit BAR, in the register of the next slot.
unfoldable pub set_upper : PciConfigurationSpace → PciBar → ℕ → Result PciConfigurationSpace
set_upper c bar address = do
  next ← slot_at c (bar.index + 1) bar.index
  guard (not (is_used next)) (bar_in_use bar.index)
  c1 ←
      set_writable_dword c (bar_register (bar.index + 1))
        (complement 64 ((bar.size - 1) / 2 ^ 32) % 2 ^ 32)
  set_dword c1 (bar_register (bar.index + 1)) (address / 2 ^ 32 % 2 ^ 32)

-- The `match` on the region type: the state after it, and the mask of the lower register.
unfoldable pub add_region : PciConfigurationSpace → PciBar → ℕ → Result (PciConfigurationSpace × ℕ)
unfolding set_upper
add_region c bar address = elim bar.region_type [
  | PciBarType.io ↦ do
    c1 ← add_writable_word c pci_command pci_command_io_space_mask
    ok (c1, pci_bar_io_base_address_mask)
  | PciBarType.memory_32bit p ↦ do
    c1 ← add_writable_word c pci_command pci_command_mem_space_mask
    ok (c1, pci_bar_mem_32_base_address_mask)
  | PciBarType.memory_64bit p ↦ do
    c1 ← set_upper c bar address
    c2 ← add_writable_word c1 pci_command pci_command_mem_space_mask
    ok (c2, pci_bar_mem_32_base_address_mask)
]

-- The lower register, and the slot.
unfoldable pub finish_bar : PciConfigurationSpace → PciBar → ℕ → ℕ → Result PciConfigurationSpace
finish_bar c bar address bar_mask = do
  c1 ←
      set_writable_dword c (bar_register bar.index)
        (bit_and (complement 64 (bar.size - 1) % 2 ^ 32) bar_mask)
  c2 ←
      set_dword c1 (bar_register bar.index)
        (bit_or (bit_and (address % 2 ^ 32) bar_mask) (bits bar.region_type))
  ok (record c2 { bars = Base.set c2.bars bar.index (some bar) })

-- Every error is returned before the state is changed.
unfoldable pub add_bar : PciConfigurationSpace → PciBar → Result PciConfigurationSpace
add_bar c bar = do
  validate_header_support c bar.index
  validate_bar_size bar
  validate_bar_region bar
  slot ← slot_at c bar.index bar.index
  guard (not (is_used slot)) (bar_in_use bar.index)
  used ← used_by_previous c bar.index
  guard (not used) (bar_in_use bar.index)
  let address = Option.get_or bar.address 0
  (c1, bar_mask) ← add_region c bar address
  finish_bar c1 bar address bar_mask

-- The bit of the command register that enables the BAR's space, and the mask of its register.
abbrev pub command_mask : PciBarType → ℕ
command_mask PciBarType.io = pci_command_io_space_mask
command_mask _ = pci_command_mem_space_mask

abbrev pub base_mask : PciBarType → ℕ
base_mask PciBarType.io = pci_bar_io_base_address_mask
base_mask _ = pci_bar_mem_32_base_address_mask

-- `address |= u64::from(...) << 32` for a 64-bit BAR.
unfoldable pub add_upper : PciConfigurationSpace → PciBar → ℕ → ℕ → Result ℕ
add_upper c bar bar_offset low = elim bar.region_type [
  | PciBarType.memory_64bit p ↦ do
    high ← read_dword c (bar_offset + 4)
    ok (bit_or low (high * 2 ^ 32))
  | _ ↦ ok low
]

-- The address in the registers of an added BAR whose space is enabled; 0 is an uninitialised
-- BAR, and the mask of the size a size probe.
unfoldable pub programmed : PciConfigurationSpace → ℕ → PciBar → Result (Option PciBar)
unfolding add_upper
programmed c index bar = do
  low ← read_dword c (bar_register index)
  address ← add_upper c bar (bar_register index) (bit_and low (base_mask bar.region_type))
  let probe = bit_and (complement 64 (bar.size - 1)) (base_mask bar.region_type)
  ok (
      if address == 0 || address == probe
      then none
      else some (record bar { address = some address }))

-- The space of the BAR's type is enabled in the command register.
unfoldable pub space_enabled : PciConfigurationSpace → PciBar → Result Bool
space_enabled c bar = do
  command ← read_word c pci_command
  ok (not (bit_and command (command_mask bar.region_type) == 0))

unfoldable pub get_bar : PciConfigurationSpace → ℕ → Result (Option PciBar)
unfolding space_enabled
get_bar c index = elim (get_elem? c.bars index) [
  | none ↦ ok none
  | some none ↦ ok none
  | some (some bar) ↦ do
    enabled ← space_enabled c bar
    if enabled then programmed c index bar else ok none
]

-- The slot of the register at `offset`, and the one before it.
unfoldable pub lookup_bar : PciConfigurationSpace → ℕ → Result (Option PciBar)
lookup_bar c index = elim (try_from index) [ ok i ↦ get_bar c i | _ ↦ ok none ]

-- The second half of `bar_update_for_write`: the upper half of a 64-bit BAR in the slot before.
unfoldable pub upper_update : PciConfigurationSpace → ℕ → Result (Option PciBar)
unfolding lookup_bar
upper_update c zero = ok none
upper_update c (suc previous) = elim (get_elem? c.bars previous) [
  | none ↦ panic
  | some none ↦ ok none
  | some (some bar) ↦ if is_64bit bar.region_type then lookup_bar c previous else ok none
]

unfoldable pub bar_update_for_write : PciConfigurationSpace → ℕ → Result (Option PciBar)
unfolding lookup_bar upper_update
bar_update_for_write c offset =
    if ltb offset pci_bar0 || leb (pci_bar0 + num_bar_regs * 4) offset
    then ok none
    else (let reg_index = (offset - pci_bar0) / 4 in
        elim (get_elem? c.bars reg_index) [
          | none ↦ panic
          | some none ↦ upper_update c reg_index
          | some (some bar) ↦ if is_64bit bar.region_type then ok none else lookup_bar c reg_index
        ])
