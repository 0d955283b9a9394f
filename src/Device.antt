-- ===== src/Device.antt =====
-- device.rs: the trait `PciDevice`, whose own methods divide an offset into a function and an offset
-- in its configuration space. The methods that a device implements are parameters.
pub mod Laws
use greens.Base.{ℕ, ◌*◌, ◌/◌, ◌%◌, List, length, Option, none, some, not, ltb, if◌then◌else◌}
use greens.Error.{Error, Result, ok, err, ◌>>=◌, ◌>>◌, guard, access_bounds, invalid_io_size}
use greens.Registers.{
  pci_configuration_space_size, pci_configuration_space_max_io_size, pci_max_device_functions,
}
use greens.Function.{PciConfigurationUpdate}
use greens.Utils.Endian.{Endian, EndianSwapSize, from_little_endian, to_little_endian}

unfoldable pub function_index_and_offset : ℕ → Option (ℕ × ℕ)
function_index_and_offset offset =
    if ltb pci_max_device_functions (offset / pci_configuration_space_size)
    then none
    else some (offset / pci_configuration_space_size, offset % pci_configuration_space_size)

-- The methods that a device with the state `S` implements: the state and the buffer after a read,
-- the state and the update after a write.
pub record PciDevice (S : Type 0) : Type 0 where
  pub read_fn_config : S → ℕ → ℕ → List ℕ → Result (S × List ℕ)
  pub write_fn_config : S → ℕ → ℕ → List ℕ → Result (S × Option PciConfigurationUpdate)

module _ {S : Type 0} (device : PciDevice S) where
  unfoldable pub read_config : S → ℕ → List ℕ → Result (S × List ℕ)
  unfolding function_index_and_offset
  read_config s offset buffer = elim (function_index_and_offset offset) [
    | none ↦ err (access_bounds offset (length buffer))
    | some (function, within) ↦ device.read_fn_config s function within buffer
  ]

  unfoldable pub write_config : S → ℕ → List ℕ → Result (S × Option PciConfigurationUpdate)
  unfolding function_index_and_offset
  write_config s offset bytes = elim (function_index_and_offset offset) [
    | none ↦ err (access_bounds offset (length bytes))
    | some (function, within) ↦ device.write_fn_config s function within bytes
  ]

  unfoldable pub read_config_le : Endian → S → ℕ → List ℕ → Result (S × List ℕ)
  unfolding read_config
  read_config_le target s offset buffer = do
    (t, native) ← read_config s offset buffer
    bytes ← to_little_endian target native EndianSwapSize.dword
    ok (t, bytes)

  unfoldable pub write_config_le :
      Endian → S → ℕ → List ℕ → Result (S × Option PciConfigurationUpdate)
  unfolding write_config
  write_config_le target s offset bytes = do
    guard (not (ltb pci_configuration_space_max_io_size (length bytes)))
        (invalid_io_size (length bytes))
    input ← from_little_endian target bytes EndianSwapSize.dword
    write_config s offset input
