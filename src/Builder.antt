-- ===== src/Builder.antt =====
-- `PciFunctionBuilder` of function.rs: the identification registers of a new configuration space.
pub mod Laws
use greens.Base.{ℕ, bit_or, Bool, true, false, if◌then◌else◌}
use greens.Error.{Result, ok, ◌>>=◌}
use greens.Registers.{
  pci_vendor_id, pci_device_id, pci_revision_id, pci_class_code_base, pci_class_code_sub,
  pci_class_code_pi, pci_subsystem_vendor_id, pci_subsystem_id, pci_header_type,
  pci_header_type_multifunction, pci_cache_line_size,
}
use greens.Config.{PciConfigurationSpace, set_byte, set_word, set_writable_byte, read_byte}
use greens.Config

pub record PciFunctionBuilder : Type 0 where
  pub config : PciConfigurationSpace
  pub multifunction : Bool

-- `new`, the default.
unfoldable pub new_builder : Result PciFunctionBuilder
new_builder = do c ← Config.new; ok (record { config = c; multifunction = false })

unfoldable pub with_id : PciFunctionBuilder → ℕ → ℕ → ℕ → Result PciFunctionBuilder
with_id b vendor_id device_id rev_id = do
  c1 ← set_word b.config pci_vendor_id vendor_id
  c2 ← set_word c1 pci_device_id device_id
  c3 ← set_byte c2 pci_revision_id rev_id
  ok (record b { config = c3 })

unfoldable pub with_class : PciFunctionBuilder → ℕ → ℕ → ℕ → Result PciFunctionBuilder
with_class b baseclass subclass programming_interface = do
  c1 ← set_byte b.config pci_class_code_base baseclass
  c2 ← set_byte c1 pci_class_code_sub subclass
  c3 ← set_byte c2 pci_class_code_pi programming_interface
  ok (record b { config = c3 })

unfoldable pub with_subsystem_id : PciFunctionBuilder → ℕ → ℕ → Result PciFunctionBuilder
with_subsystem_id b subsystem_vendor_id subsystem_id = do
  c1 ← set_word b.config pci_subsystem_vendor_id subsystem_vendor_id
  c2 ← set_word c1 pci_subsystem_id subsystem_id
  ok (record b { config = c2 })

unfoldable pub with_header_type : PciFunctionBuilder → ℕ → Result PciFunctionBuilder
with_header_type b header_type = do
  c ← set_byte b.config pci_header_type header_type
  ok (record b { config = c })

unfoldable pub with_multifunction : PciFunctionBuilder → PciFunctionBuilder
with_multifunction b = record b { multifunction = true }

unfoldable pub set_multifunction : PciConfigurationSpace → Result PciConfigurationSpace
set_multifunction c = do
  header_type ← read_byte c pci_header_type
  set_byte c pci_header_type (bit_or header_type pci_header_type_multifunction)

unfoldable pub build : PciFunctionBuilder → Result PciConfigurationSpace
unfolding set_multifunction
build b = do
  c ← (if b.multifunction then set_multifunction b.config else ok b.config)
  set_writable_byte c pci_cache_line_size 0xFF
