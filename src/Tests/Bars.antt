-- ===== src/Tests/Bars.antt =====
-- Runs of the theorems on BARs, with a BAR of 4 KiB in slot 2 of a new space.
use greens.Base
use greens.Base.{
  ℕ, zero, suc, ◌+◌, ◌≡◌, ◌<◌, refl, arith, List, [], ◌∷◌, Option, length, replicate, get_or,
  get_elem?, some, none, Bool, true, false, ◌==◌, if◌then◌else◌, bit_and,
}
use greens.Bits.{testbit, complement}
use greens.Word.{to_le_bytes, from_le_bytes, to_le_bytes-IsBytes}
use greens.Error.{ok}
use greens.Registers.{pci_command}
use greens.Utils.RegisterBlock
use greens.Bar.{PciBar, bits}
use greens.Bar.Validate.{validate_bar_size, validate_bar_region, is_power_of_two}
use greens.Config.{
  PciConfigurationSpace, new, set_word, set, write_dword, read_dword, set_dword, set_writable_dword,
  set_writable_bits, add_writable_word, add_writable_bits, or_bytes, read_byte, read_word, read,
}
use greens.Config.Shape.{IsShaped, set-IsShaped}
use greens.Config.Access.{write_checked}
use greens.Config.Access.Laws.{write_checked_lem, written_bit}
use greens.Config.Bars.{
  add_bar, get_bar, validate_header_support, max_num_bars, used_by_previous, add_region, set_upper,
  finish_bar, space_enabled, bar_register,
}
use greens.Config.Bars.Slots.{SlotsFit, add_bar-SlotsFit, NotUpper}
use greens.Config.Bars.Keeps.{add_bar-IsShaped}
use greens.Config.Bars.RoundTrip.{add_bar-get_bar, probe_pattern}
use greens.Config.Bars.Probe.{add_bar-probe_size}
use greens.Tests.{fresh, enabled, memory_bar, value_or, fresh-IsShaped}

-- The memory space of `enabled` with the BAR.
unfoldable with_bar : PciConfigurationSpace
unfolding add_bar
with_bar = value_or (add_bar enabled memory_bar) enabled

enabled-IsShaped : IsShaped enabled
unfolding enabled fresh set_word set RegisterBlock.set to_le_bytes
enabled-IsShaped =
    set-IsShaped fresh pci_command (to_le_bytes 2 2) (to_le_bytes-IsBytes 2 2) fresh-IsShaped refl

add_bar-with_bar : add_bar enabled memory_bar ≡ ok with_bar
unfolding with_bar add_bar validate_header_support max_num_bars used_by_previous add_region
    set_upper finish_bar validate_bar_size validate_bar_region is_power_of_two enabled fresh new
    set_word set RegisterBlock.set to_le_bytes from_le_bytes set_dword set_writable_dword
    set_writable_bits add_writable_word add_writable_bits or_bytes read_byte read_word read
    RegisterBlock.read_byte RegisterBlock.read_word RegisterBlock.read bits
add_bar-with_bar = refl

space_enabled-with_bar : space_enabled with_bar memory_bar ≡ ok true
unfolding with_bar space_enabled add_bar validate_header_support max_num_bars used_by_previous
    add_region set_upper finish_bar validate_bar_size validate_bar_region is_power_of_two enabled
    fresh new set_word set RegisterBlock.set to_le_bytes from_le_bytes set_dword set_writable_dword
    set_writable_bits add_writable_word add_writable_bits or_bytes read_byte read_word read
    RegisterBlock.read_byte RegisterBlock.read_word RegisterBlock.read bits
space_enabled-with_bar = refl

not_used : (n i : ℕ) (bar : PciBar) → get_elem? (replicate n none) i ≡ some (some bar) → ⊥
not_used zero i bar e = cc
not_used (suc n) zero bar e = cc
not_used (suc n) (suc i) bar e = not_used n i bar e

no_bars : SlotsFit enabled.bars
unfolding enabled fresh new set_word set RegisterBlock.set to_le_bytes
no_bars i bar e = absurd (not_used 6 i bar e)

add_bar-SlotsFit_example :
    SlotsFit with_bar.bars
    × (get_elem? enabled.bars 2 ≡ some none)
    × NotUpper enabled.bars 2
    × (with_bar.bars ≡ Base.set enabled.bars 2 (some memory_bar))
add_bar-SlotsFit_example = add_bar-SlotsFit enabled memory_bar no_bars add_bar-with_bar

add_bar-get_bar_example :
    get_bar with_bar 2
    ≡ ok (if 0xE000_0000 == probe_pattern memory_bar then none else some memory_bar)
add_bar-get_bar_example =
    add_bar-get_bar enabled memory_bar 0xE000_0000 add_bar-with_bar refl space_enabled-with_bar

with_bar-IsShaped : IsShaped with_bar
with_bar-IsShaped = add_bar-IsShaped enabled memory_bar enabled-IsShaped add_bar-with_bar

add_bar-probe_size_example :
    (c'' : PciConfigurationSpace) × (x : ℕ) × (write_dword with_bar (bar_register 2) 0xFFFF_FFFF
      ≡ ok c'')
    × (read_dword c'' (bar_register 2) ≡ ok x)
    × (complement 32 (bit_and x 0xFFFF_FFF0) + 1 ≡ 0x1000)
add_bar-probe_size_example =
    add_bar-probe_size enabled memory_bar enabled-IsShaped add_bar-with_bar refl

-- The guest moves the BAR: it writes one byte of its register.
write_checked_example :
    (registers : List ℕ) × (write_checked with_bar 0x1B (0x57 ∷ [])
      ≡ ok (record with_bar { registers = registers }))
    × (length registers ≡ 256)
    × (testbit (get_or registers 0x1B 0) 2 ≡ written_bit with_bar 0x1B (0x57 ∷ []) 0x1B 2)
write_checked_example =
    write_checked_lem with_bar 0x1B (0x57 ∷ []) 0x1B 2 with_bar-IsShaped refl (omega arith)
