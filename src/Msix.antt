-- ===== src/Msix.antt =====
-- msix.rs: the MSI-X capability. The children have the tables, the message source, and the handlers
-- of writes to the configuration space and of accesses to the BARs that hold the tables.
pub mod Table
pub mod Source
pub mod Handler
pub mod Bar
pub mod Capability
use greens.Base.{
  ℕ, ◌+◌, ◌-◌, ◌*◌, ◌^◌, ◌%◌, bit_or, Bool, true, false, not, List, length, replicate, ltb, leb,
  ◌==◌, ◌||◌, if◌then◌else◌,
}
use greens.Error.{
  Result, ok, err, ◌>>=◌, ◌>>◌, guard, invalid_msi_x_table_offset, invalid_bar_index,
  invalid_msi_x_table_size, invalid_msi_x_bar_size,
}
use greens.Utils.RegisterBlock.{set_word, set_dword}
use greens.Capability.{PciCapability, PciCapabilityId}
use greens.BarRegion.{PciBarRegionInfo}
use greens.Config.{PciConfigurationSpace, allow_bus_master}
use greens.Config.Caps.{add_capability}
use greens.Msix.Table.{MsiXEntry, PbaEntry, raw_bytes, pba_raw_bytes}

abbrev pub message_control : ℕ
message_control = 0

abbrev pub message_control_table_size : ℕ
message_control_table_size = 0x7FF

abbrev pub message_control_fn_mask : ℕ
message_control_fn_mask = 2 ^ 14

abbrev pub message_control_msix_en : ℕ
message_control_msix_en = 2 ^ 15

abbrev pub table_offset : ℕ
table_offset = message_control + 2

abbrev pub pba_offset : ℕ
pba_offset = table_offset + 4

abbrev pub bir_mask : ℕ
bir_mask = 7

abbrev pub offset_mask : ℕ
offset_mask = 2 ^ 32 - 1 - bir_mask

abbrev pub msix_cap_size : ℕ
msix_cap_size = pba_offset + 4

pub record PciMsiXConfig : Type 0 where
  pub msix_info : PciBarRegionInfo
  pub pba_info : PciBarRegionInfo

-- The capability; its offsets hold the number of the BAR in their low bits.
pub record PciMsiXCapability : Type 0 where
  pub control : ℕ
  pub msix_offset : ℕ
  pub pba_offset : ℕ

-- `offset | mask != mask` negated: a multiple of eight of 32 bits.
unfoldable pub is_aligned : ℕ → Bool
is_aligned offset = bit_or offset offset_mask == offset_mask

-- `new`. A bad offset of the pending bit array is reported with the offset of the table.
unfoldable pub new :
    PciBarRegionInfo → List MsiXEntry → PciBarRegionInfo → List PbaEntry → Result PciMsiXCapability
unfolding is_aligned
new msix_info msix_table pba_info pba_table = do
  guard (is_aligned msix_info.offset) (invalid_msi_x_table_offset msix_info.offset)
  guard (ltb msix_info.bar 6) (invalid_bar_index msix_info.bar)
  guard (is_aligned pba_info.offset) (invalid_msi_x_table_offset msix_info.offset)
  guard (ltb pba_info.bar 6) (invalid_bar_index pba_info.bar)
  let num_vectors = length msix_table
  guard (not (num_vectors == 0 || ltb message_control_table_size (num_vectors - 1)))
      (invalid_msi_x_table_size num_vectors)
  guard (leb (length (raw_bytes msix_table)) msix_info.length)
      (invalid_msi_x_bar_size msix_info.length)
  guard (leb (length (pba_raw_bytes pba_table)) pba_info.length)
      (invalid_msi_x_bar_size pba_info.length)
  ok (record {
    control = (num_vectors - 1) % 2 ^ 16;
    msix_offset = bit_or (msix_info.offset % 2 ^ 32) msix_info.bar;
    pba_offset = bit_or (pba_info.offset % 2 ^ 32) pba_info.bar;
  })

-- `registers` of the capability.
unfoldable pub msix_registers : PciMsiXCapability → List ℕ → Result (List ℕ)
msix_registers cap' registers = do
  r1 ← set_word registers message_control cap'.control
  r2 ← set_dword r1 table_offset cap'.msix_offset
  set_dword r2 pba_offset cap'.pba_offset

unfoldable pub msix_writable_bits : PciMsiXCapability → List ℕ → Result (List ℕ)
msix_writable_bits cap' writable_bits =
    set_word (replicate (length writable_bits) 0) message_control
      (bit_or message_control_msix_en message_control_fn_mask)

-- The implementation of the trait.
abbrev pub msix_capability : PciMsiXCapability → PciCapability
msix_capability cap' = record {
  id = PciCapabilityId.msi_x;
  size = msix_cap_size;
  registers = msix_registers cap';
  writable_bits = msix_writable_bits cap';
}

pub record PciMsiX : Type 0 where
  pub msix_info : PciBarRegionInfo
  pub pba_info : PciBarRegionInfo
  pub msix_table : List MsiXEntry
  pub pba_table : List PbaEntry
  pub cap_offset : ℕ

-- `build` of a `PciMsiXConfig`. An error leaves the space a bus master, which the caller drops.
unfoldable pub build_msix :
    PciMsiXConfig
    → PciConfigurationSpace
    → List MsiXEntry
    → List PbaEntry
    → Result (PciConfigurationSpace × PciMsiX)
build_msix msix_config config msix_table pba_table = do
  c ← allow_bus_master config
  cap' ← new msix_config.msix_info msix_table msix_config.pba_info pba_table
  (c', cap_offset) ← add_capability c (msix_capability cap')
  ok (
    c',
    record {
      msix_info = msix_config.msix_info;
      pba_info = msix_config.pba_info;
      msix_table = msix_table;
      pba_table = pba_table;
      cap_offset = cap_offset;
    },
  )
