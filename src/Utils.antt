-- ===== src/Utils.antt =====
-- `crates/greens-pci/src/utils`: ranges, access windows, byte order and register blocks.
pub mod Range
pub mod Window
pub mod Endian
pub mod RegisterBlock
pub mod Checked
