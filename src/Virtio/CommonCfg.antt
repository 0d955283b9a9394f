-- ===== src/Virtio/CommonCfg.antt =====
-- pci_common_cfg.rs: the registers of the common configuration, which refresh from the device before
-- a read and act on the device after a write.
pub mod Registers
pub mod Read
pub mod Write
pub mod Laws
pub mod Served
pub mod Acts
pub mod Clears
