-- ===== src/Config/Access.antt =====
-- The checked accesses of configuration_space.rs: size, alignment and bounds are validated.
pub mod Laws
use greens.Base.{ℕ, ◌%◌, List, length, replicate, ◌==◌, ◌||◌}
use greens.Error.{
  Error, access_bounds, Result, ok, err, panic, out_of_fuel, ◌>>=◌, ◌>>◌, guard, invalid_io_size,
  invalid_access_alignment,
}
use greens.Word.{to_le_bytes}
use greens.Utils.RegisterBlock.{validate_bounds}
use greens.Config.{PciConfigurationSpace, read, set}
use greens.Utils.RegisterBlock

unfoldable pub validate_access_size : ℕ → Result (Unit {0})
validate_access_size size = guard (size == 1 || size == 2 || size == 4) (invalid_io_size size)

-- The size is 1, 2 or 4 where this is called; the remainder by 0 would panic.
unfoldable pub validate_access_alignment : ℕ → ℕ → Result (Unit {0})
validate_access_alignment offset size =
    guard (offset % size == 0) (invalid_access_alignment offset size)

unfoldable pub validate_access : PciConfigurationSpace → ℕ → ℕ → Result (Unit {0})
unfolding validate_access_size validate_access_alignment
validate_access c offset size = do
  validate_access_size size
  validate_access_alignment offset size
  validate_bounds c.registers offset size

unfoldable pub validate_write_access : PciConfigurationSpace → ℕ → ℕ → Result (Unit {0})
validate_write_access c offset size = do
  validate_access c offset size
  validate_bounds c.writable_bits offset size

-- What is left in the buffer of a read that is refused.
abbrev refused : Error → List ℕ → List ℕ
refused (access_bounds offset size) buffer = replicate (length buffer) 0xFF
refused _ buffer = buffer

-- `read_register_checked`: the buffer afterwards, and the outcome.
unfoldable pub read_checked : PciConfigurationSpace → ℕ → List ℕ → List ℕ × Result (Unit {0})
unfolding read
read_checked c offset buffer = elim (validate_access c offset (length buffer)) [
  | ok _ ↦ elim (read c offset (length buffer)) [
    | ok bytes ↦ (bytes, ok tt)
    | err e ↦ (buffer, err e)
    | panic ↦ (buffer, panic)
    | out_of_fuel ↦ (buffer, out_of_fuel)
  ]
  | err e ↦ (refused e buffer, err e)
  | panic ↦ (buffer, panic)
  | out_of_fuel ↦ (buffer, out_of_fuel)
]

-- `set_register_checked`, the trait's own.
unfoldable pub set_checked : PciConfigurationSpace → ℕ → List ℕ → Result PciConfigurationSpace
set_checked c offset bytes = do validate_access c offset (length bytes); set c offset bytes

unfoldable pub set_byte_checked : PciConfigurationSpace → ℕ → ℕ → Result PciConfigurationSpace
set_byte_checked c offset v = set_checked c offset (to_le_bytes 1 v)

unfoldable pub set_word_checked : PciConfigurationSpace → ℕ → ℕ → Result PciConfigurationSpace
set_word_checked c offset v = set_checked c offset (to_le_bytes 2 v)

unfoldable pub set_dword_checked : PciConfigurationSpace → ℕ → ℕ → Result PciConfigurationSpace
set_dword_checked c offset v = set_checked c offset (to_le_bytes 4 v)

-- `write_register_checked`; it asserts nothing about the two lengths.
unfoldable pub write_checked : PciConfigurationSpace → ℕ → List ℕ → Result PciConfigurationSpace
write_checked c offset bytes = do
  validate_write_access c offset (length bytes)
  registers ← RegisterBlock.write c.registers c.writable_bits offset bytes
  ok (record c { registers = registers })

unfoldable pub write_byte_checked : PciConfigurationSpace → ℕ → ℕ → Result PciConfigurationSpace
write_byte_checked c offset v = write_checked c offset (to_le_bytes 1 v)

unfoldable pub write_word_checked : PciConfigurationSpace → ℕ → ℕ → Result PciConfigurationSpace
write_word_checked c offset v = write_checked c offset (to_le_bytes 2 v)

unfoldable pub write_dword_checked : PciConfigurationSpace → ℕ → ℕ → Result PciConfigurationSpace
write_dword_checked c offset v = write_checked c offset (to_le_bytes 4 v)
