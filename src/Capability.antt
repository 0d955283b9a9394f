-- ===== src/Capability.antt =====
-- capability.rs: the identifiers of capabilities and the trait `PciCapability`.
use greens.Base.{ℕ, List, length, ◌≡◌}
use greens.Word.{IsBytes}
use greens.Error.{Result, ok}

pub data PciCapabilityId : Type 0 where
  null_cap pci_pm_interface agp vpd slot_id msi compact_pci_hot_swap pci_x : PciCapabilityId
  hyper_transport vendor_specific debug_port compact_pci_res_ctrl pci_hop_plug : PciCapabilityId
  pci_bridge_vendor_id agp8x secure_device pci_express msi_x serial_ata_config : PciCapabilityId
  advanced_features enhanced_allocation flattening_portal_bridge others : PciCapabilityId

-- `u8::from`.
unfoldable pub id_code : PciCapabilityId → ℕ
id_code PciCapabilityId.null_cap = 0x00
id_code PciCapabilityId.pci_pm_interface = 0x01
id_code PciCapabilityId.agp = 0x02
id_code PciCapabilityId.vpd = 0x03
id_code PciCapabilityId.slot_id = 0x04
id_code PciCapabilityId.msi = 0x05
id_code PciCapabilityId.compact_pci_hot_swap = 0x06
id_code PciCapabilityId.pci_x = 0x07
id_code PciCapabilityId.hyper_transport = 0x08
id_code PciCapabilityId.vendor_specific = 0x09
id_code PciCapabilityId.debug_port = 0x0A
id_code PciCapabilityId.compact_pci_res_ctrl = 0x0B
id_code PciCapabilityId.pci_hop_plug = 0x0C
id_code PciCapabilityId.pci_bridge_vendor_id = 0x0D
id_code PciCapabilityId.agp8x = 0x0E
id_code PciCapabilityId.secure_device = 0x0F
id_code PciCapabilityId.pci_express = 0x10
id_code PciCapabilityId.msi_x = 0x11
id_code PciCapabilityId.serial_ata_config = 0x12
id_code PciCapabilityId.advanced_features = 0x13
id_code PciCapabilityId.enhanced_allocation = 0x14
id_code PciCapabilityId.flattening_portal_bridge = 0x15
id_code PciCapabilityId.others = 0xFF

-- A value of a type that implements the trait. `registers` and `writable_bits` fill a slice in
-- place: they take its bytes and return the new ones.
pub record PciCapability : Type 0 where
  pub id : PciCapabilityId
  pub size : ℕ
  pub registers : List ℕ → Result (List ℕ)
  pub writable_bits : List ℕ → Result (List ℕ)

-- On a slice of the capability's size both fill it without a panic, with as many bytes.
pub record Fills (size : ℕ) (fill : List ℕ → Result (List ℕ)) : Type 0 where
  pub filled :
      (bytes : List ℕ)
      → length bytes ≡ size
      → IsBytes bytes
      → (new : List ℕ) × (fill bytes ≡ ok new) × (length new ≡ size) × IsBytes new

pub record IsCapability (cap : PciCapability) : Type 0 where
  pub fills_registers : Fills cap.size cap.registers
  pub fills_writable_bits : Fills cap.size cap.writable_bits
