-- ===== src/Config.antt =====
-- `PciConfigurationSpace` of configuration_space.rs: its state and the accessors that
-- `impl_accessors!` and the register block traits give it. A method with `&mut self` returns the
-- new state. The children add the checked accesses, the BARs and the capabilities.
pub mod Access
pub mod Bars
pub mod Caps
pub mod Shape
pub mod Words
use greens.Base.{
  ℕ, ◌+◌, bit_and, bit_or, Bool, List, [], ◌∷◌, Option, none, length, splice, slice, replicate, leb,
  ◌==◌,
}
use greens.Word.{to_le_bytes}
use greens.Error.{Result, ok, ◌>>=◌, ◌>>◌, assert}
use greens.Registers.{
  pci_configuration_space_size, num_bar_regs, pci_vendor_id, pci_command,
  pci_command_bus_master_mask,
}
use greens.Bar.{PciBar}
use greens.Utils.RegisterBlock

pub record PciConfigurationSpace : Type 0 where
  pub registers : List ℕ
  pub writable_bits : List ℕ
  pub bars : List (Option PciBar)
  pub last_cap_size : ℕ

-- `read_register` into a buffer of `n` bytes.
unfoldable pub read : PciConfigurationSpace → ℕ → ℕ → Result (List ℕ)
read c offset n = RegisterBlock.read c.registers offset n

unfoldable pub read_byte : PciConfigurationSpace → ℕ → Result ℕ
read_byte c offset = RegisterBlock.read_byte c.registers offset

unfoldable pub read_word : PciConfigurationSpace → ℕ → Result ℕ
read_word c offset = RegisterBlock.read_word c.registers offset

unfoldable pub read_dword : PciConfigurationSpace → ℕ → Result ℕ
read_dword c offset = RegisterBlock.read_dword c.registers offset

-- `set_register`, which ignores the writable bits.
unfoldable pub set : PciConfigurationSpace → ℕ → List ℕ → Result PciConfigurationSpace
set c offset bytes = do
  registers ← RegisterBlock.set c.registers offset bytes
  ok (record c { registers = registers })

unfoldable pub set_byte : PciConfigurationSpace → ℕ → ℕ → Result PciConfigurationSpace
set_byte c offset v = set c offset (to_le_bytes 1 v)

unfoldable pub set_word : PciConfigurationSpace → ℕ → ℕ → Result PciConfigurationSpace
set_word c offset v = set c offset (to_le_bytes 2 v)

unfoldable pub set_dword : PciConfigurationSpace → ℕ → ℕ → Result PciConfigurationSpace
set_dword c offset v = set c offset (to_le_bytes 4 v)

-- `write_register`, which changes writable bits only.
unfoldable pub write : PciConfigurationSpace → ℕ → List ℕ → Result PciConfigurationSpace
write c offset bytes = do
  assert (length c.registers == length c.writable_bits)
  registers ← RegisterBlock.write c.registers c.writable_bits offset bytes
  ok (record c { registers = registers })

unfoldable pub write_byte : PciConfigurationSpace → ℕ → ℕ → Result PciConfigurationSpace
write_byte c offset v = write c offset (to_le_bytes 1 v)

unfoldable pub write_word : PciConfigurationSpace → ℕ → ℕ → Result PciConfigurationSpace
write_word c offset v = write c offset (to_le_bytes 2 v)

unfoldable pub write_dword : PciConfigurationSpace → ℕ → ℕ → Result PciConfigurationSpace
write_dword c offset v = write c offset (to_le_bytes 4 v)

unfoldable pub set_writable_bits : PciConfigurationSpace → ℕ → List ℕ → Result PciConfigurationSpace
set_writable_bits c offset bits = do
  assert (leb (offset + length bits) (length c.writable_bits))
  ok (record c { writable_bits = splice c.writable_bits offset bits })

unfoldable pub set_writable_byte : PciConfigurationSpace → ℕ → ℕ → Result PciConfigurationSpace
set_writable_byte c offset v = set_writable_bits c offset (to_le_bytes 1 v)

unfoldable pub set_writable_word : PciConfigurationSpace → ℕ → ℕ → Result PciConfigurationSpace
set_writable_word c offset v = set_writable_bits c offset (to_le_bytes 2 v)

unfoldable pub set_writable_dword : PciConfigurationSpace → ℕ → ℕ → Result PciConfigurationSpace
set_writable_dword c offset v = set_writable_bits c offset (to_le_bytes 4 v)

-- The zipped `*cur |= *new`.
unfoldable pub or_bytes : List ℕ → List ℕ → List ℕ
or_bytes [] new = []
or_bytes (c ∷ cs) [] = c ∷ cs
or_bytes (c ∷ cs) (n ∷ ns) = bit_or c n ∷ or_bytes cs ns

unfoldable pub add_writable_bits : PciConfigurationSpace → ℕ → List ℕ → Result PciConfigurationSpace
unfolding or_bytes
add_writable_bits c offset bits = do
  assert (leb (offset + length bits) (length c.writable_bits))
  let added = or_bytes (slice c.writable_bits offset (length bits)) bits
  ok (record c { writable_bits = splice c.writable_bits offset added })

unfoldable pub add_writable_byte : PciConfigurationSpace → ℕ → ℕ → Result PciConfigurationSpace
add_writable_byte c offset v = add_writable_bits c offset (to_le_bytes 1 v)

unfoldable pub add_writable_word : PciConfigurationSpace → ℕ → ℕ → Result PciConfigurationSpace
add_writable_word c offset v = add_writable_bits c offset (to_le_bytes 2 v)

unfoldable pub add_writable_dword : PciConfigurationSpace → ℕ → ℕ → Result PciConfigurationSpace
add_writable_dword c offset v = add_writable_bits c offset (to_le_bytes 4 v)

-- The struct literal of `new`.
abbrev pub zeroed : PciConfigurationSpace
zeroed = record {
  registers = replicate pci_configuration_space_size 0;
  writable_bits = replicate pci_configuration_space_size 0;
  bars = replicate num_bar_regs none;
  last_cap_size = 0;
}

unfoldable pub new : Result PciConfigurationSpace
new = set_word zeroed pci_vendor_id 0xFFFF

unfoldable pub allow_bus_master : PciConfigurationSpace → Result PciConfigurationSpace
allow_bus_master config = add_writable_word config pci_command pci_command_bus_master_mask

unfoldable pub is_bus_master : PciConfigurationSpace → Result Bool
is_bus_master config = do
  command ← read_word config pci_command
  ok (bit_and command pci_command_bus_master_mask == pci_command_bus_master_mask)
