-- ===== src/Lib.antt =====
-- Verification of Greens, a library of PCI device emulation (crates/greens-pci)
-- and of the virtio transport on it (crates/greens-pci-virtio).
--
-- The program: a device model keeps, for every PCI function, a configuration space of 256 bytes with
-- a mask of the bits that the guest may write, the base address registers (BARs) that the function
-- has asked for, and a linked list of capabilities. A guest access comes in as an offset and a buffer;
-- it is checked for its size and alignment and then read from, or written under the mask into, the
-- registers. Capabilities keep registers of their own, which the same register block functions access.
-- A write may change the state of the interrupts: INTx, MSI and MSI-X are composed in a context, which
-- a function calls for every access before it calls its device.
--
-- Files, with the code that each models:
--   Base, Bits, Word: shared lists, Boolean tests, bits of numbers, bytes of unsigned integers;
--   Error: the errors of crates/greens-pci/src/lib.rs, and the outcome of a fallible function;
--   Utils: crates/greens-pci/src/utils. Range (range_contains, range_overlaps, offset_within_range),
--     Window (access_data_window), Endian (from_little_endian, to_little_endian), RegisterBlock
--     (register_block.rs: read, set, write and validate_bounds), Checked (the checked accesses of
--     utils/mod.rs);
--   Registers: the constants of registers.rs;
--   Bar, Bar/Validate: bar.rs, and validate_bar_size and validate_bar_region of
--     configuration_space.rs;
--   Capability: the identifiers and the trait of capability.rs;
--   Config: configuration_space.rs. The state is the record PciConfigurationSpace with the fields of
--     the struct; Config/Access has the checked accesses, Config/Bars the BARs, Config/Caps the
--     capability list. Config/Shape says what the array types of the struct say.
--   Function: the result and update types of function.rs, the message of lib.rs;
--   Effects: runs of code that changes a state, calls the interrupt controller (PciInterruptController
--     of lib.rs) and returns a value or an error;
--   Msi: msi.rs. Msi/Source has PciMsiMessageSource and PciMsi, Msi/Handler the handler of writes and
--     evaluate_pending_interrupts, Msi/Fits the size of the capability;
--   Msix: msix.rs, PciMsiXCapability and PciMsiXConfig::build. Msix/Table has the tables and their
--     bytes, Msix/Source PciMsiX as a message source, Msix/Handler find_pending_vector,
--     evaluate_pending_interrupts and on_write_config, Msix/Bar the accesses to the tables;
--   Intx: intx.rs;
--   Interrupt: interrupt.rs, the handlers of the three mechanisms and PciInterruptContext;
--   Routing: find_bar_and_offset and the accesses by address and port of the trait PciFunction, in
--     function.rs; Composite: PciFunctionWithInterrupts; Builder: PciFunctionBuilder;
--   BarRegion: bar_region.rs, where the implementation of a region is a parameter;
--   Device: device.rs, where the methods that a device implements are parameters;
--   Virtio: crates/greens-pci-virtio. Virtio/Cap has the capabilities of pci_cap.rs and of the files
--     that hold one, Virtio/Device the device as a record of functions, Virtio/CommonCfg
--     pci_common_cfg.rs (Registers the typed accesses, Read read_bar and prepare_read, Write write_bar
--     and process_write), Virtio/Isr pci_isr_cfg.rs, Virtio/Notify pci_notify_cfg.rs, Virtio/PciCfg
--     pci_cfg_cap.rs, for a function that is a parameter, Virtio/Handler VirtioDeviceHandler of pci.rs
--     with the accesses of pci_device_cfg.rs, Virtio/Function VirtioPciFunction, which is such a
--     function;
--   Tests: concrete runs.
--
-- Conventions. A method that takes `&mut self` returns the new state. A slice or index out of range,
-- an overflow of usize or u64 and a failed assertion are the outcome `panic`. A read into a buffer returns
-- the bytes. Integers are natural numbers, with the wrap-around and the truncation of the source
-- written out; usize has 64 bits. The target is little-endian where to_ne_bytes and from_ne_bytes are
-- used on registers; the conversions of Utils/Endian are modelled for both byte orders. The model is
-- of the crate without the feature `pcie`.
--
-- Fuel: the iterator of capabilities runs on fuel of 64 items. A capability starts at a multiple of 4
-- from 0x40 to 0xFC, which makes 48 places. The loop over the pending vectors of MSI runs on fuel 33:
-- every round finds a higher one of 32 vectors. That of MSI-X runs on fuel of one more than 64 for
-- each entry of the pending bit array.
--
-- The error of a function that has changed its state or called the controller before is a value next
-- to the new state and the calls. The tables of MSI-X are those of the array implementations: lists of
-- entries, from which the bytes that the guest accesses are computed. A device is a record of
-- functions on a state of its own, and the configuration space is a part of that state.
--
-- Not modelled: Display of the errors, which is text; the crates that wrap system calls
-- (greens-sys-linux, the ioctls of greens-sel4, the command line program); and of greens-pci-virtio
-- VirtioPciFunction::new (pci.rs), which puts the configuration space and the regions together.
pub mod Base
pub mod Bits
pub mod Word
pub mod Error
pub mod Utils
pub mod Registers
pub mod Bar
pub mod Capability
pub mod Config
pub mod Msi
pub mod Msix
pub mod Effects
pub mod Interrupt
pub mod Routing
pub mod Composite
pub mod Builder
pub mod Virtio
pub mod Function
pub mod Intx
pub mod BarRegion
pub mod Device
pub mod Tests
