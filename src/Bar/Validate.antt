-- ===== src/Bar/Validate.antt =====
-- The checks of configuration_space.rs on a BAR before it is added.
use greens.Base.{ℕ, zero, suc, ◌+◌, ◌%◌, ◌^◌, Bool, false, not, ◌||◌, none, some, ltb, leb, ◌==◌}
use greens.Word.{u64_max, u32_max}
use greens.Error.{
  Result, ok, ◌>>◌, guard, invalid_bar_size, invalid_bar_address, invalid_bar_alignment,
  bar_region_overflow,
}
use greens.Registers.{
  pci_bar_io_min_size, pci_bar_mem_min_size, pci_bar_io_max_size, pci_bar_mem_32_max_size,
  pci_bar_mem_64_max_size,
}
use greens.Bar.{PciBar, PciBarType, is_64bit}

-- `x.is_power_of_two()` of an unsigned type of `w` bits.
unfoldable pub is_power_of_two : ℕ → ℕ → Bool
is_power_of_two zero x = false
is_power_of_two (suc w) x = x == 2 ^ w || is_power_of_two w x

abbrev pub min_size : PciBarType → ℕ
min_size PciBarType.io = pci_bar_io_min_size
min_size _ = pci_bar_mem_min_size

abbrev pub max_size : PciBarType → ℕ
max_size PciBarType.io = pci_bar_io_max_size
max_size (PciBarType.memory_32bit p) = pci_bar_mem_32_max_size
max_size (PciBarType.memory_64bit p) = pci_bar_mem_64_max_size

unfoldable pub validate_bar_size : PciBar → Result (Unit {0})
validate_bar_size bar = do
  guard (is_power_of_two 64 bar.size) (invalid_bar_size bar.size)
  guard (not (ltb bar.size (min_size bar.region_type))) (invalid_bar_size bar.size)
  guard (not (ltb (max_size bar.region_type) bar.size)) (invalid_bar_size bar.size)

-- The checks on an address, which `checked_add` and the 32-bit limit end.
unfoldable pub validate_bar_address : PciBar → ℕ → Result (Unit {0})
validate_bar_address bar address = do
  guard (not (address == 0)) (invalid_bar_address address)
  guard (address % bar.size == 0) (invalid_bar_alignment address bar.size)
  guard (leb (address + bar.size) u64_max) (bar_region_overflow address bar.size)
  guard (is_64bit bar.region_type || leb (address + bar.size) u32_max)
      (bar_region_overflow address bar.size)

unfoldable pub validate_bar_region : PciBar → Result (Unit {0})
unfolding validate_bar_address
validate_bar_region bar = do
  validate_bar_size bar
  elim bar.address [ none ↦ ok tt | some address ↦ validate_bar_address bar address ]
