-- ===== src/Virtio.antt =====
-- crates/greens-pci-virtio: a virtio device as a PCI function.
pub mod Cap
pub mod Device
pub mod Isr
pub mod Notify
pub mod CommonCfg
pub mod PciCfg
pub mod Handler
pub mod Function
