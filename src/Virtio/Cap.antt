-- ===== src/Virtio/Cap.antt =====
-- pci_cap.rs, and the capabilities of pci_common_cfg.rs, pci_isr_cfg.rs, pci_device_cfg.rs,
-- pci_notify_cfg.rs and pci_cfg_cap.rs, which hold one.
pub mod Laws
use mathlib.Core.Option
use greens.Base.{
  ℕ, ◌+◌, ◌%◌, ◌/◌, ◌^◌, List, length, replicate, slice, splice, Option, none, some, leb, ltb, ◌-◌,
}
use greens.Error.{Result, ok, err, panic, out_of_fuel, ◌>>=◌, ◌>>◌, assert}
use greens.Utils.Checked
use greens.Utils.RegisterBlock
use greens.Capability.{PciCapability, PciCapabilityId}

abbrev pub reg_cap_len : ℕ
reg_cap_len = 0

abbrev pub reg_cap_cfg : ℕ
reg_cap_cfg = 1

abbrev pub reg_bar : ℕ
reg_bar = 2

abbrev pub reg_id : ℕ
reg_id = 3

abbrev pub reg_offset : ℕ
reg_offset = 6

abbrev pub reg_length : ℕ
reg_length = 10

abbrev pub reg_offset_hi : ℕ
reg_offset_hi = 14

abbrev pub reg_length_hi : ℕ
reg_length_hi = 18

abbrev pub virtio_cap_size : ℕ
virtio_cap_size = reg_offset_hi

abbrev pub virtio_cap64_size : ℕ
virtio_cap64_size = reg_length_hi + 4

pub data VirtioPciCapType : Type 0 where
  common_cfg nofify_cfg isr_cfg device_cfg pci_cfg shared_memory_cfg vendor_cfg : VirtioPciCapType

-- The cast to `u8`.
unfoldable pub type_code : VirtioPciCapType → ℕ
type_code VirtioPciCapType.common_cfg = 1
type_code VirtioPciCapType.nofify_cfg = 2
type_code VirtioPciCapType.isr_cfg = 3
type_code VirtioPciCapType.device_cfg = 4
type_code VirtioPciCapType.pci_cfg = 5
type_code VirtioPciCapType.shared_memory_cfg = 8
type_code VirtioPciCapType.vendor_cfg = 9

pub record VirtioPciCap : Type 0 where
  pub cap_len : ℕ
  pub cfg_type : VirtioPciCapType
  pub bar : ℕ
  pub id : ℕ
  pub offset : ℕ
  pub length : ℕ

-- The sum of `u8` overflows in none of the uses.
unfoldable pub virtio_cap_len : ℕ → ℕ
virtio_cap_len cap_size = 2 + cap_size % 256

unfoldable pub new : Option ℕ → VirtioPciCapType → ℕ → ℕ → ℕ → ℕ → VirtioPciCap
unfolding virtio_cap_len
new cap_len cfg_type bar id offset length = record {
  cap_len = Option.get_or cap_len (virtio_cap_len virtio_cap_size);
  cfg_type = cfg_type;
  bar = bar;
  id = id;
  offset = offset;
  length = length;
}

-- `unwrap` and `expect`.
unfoldable pub unwrap {ℓ} : {A : Type ℓ} → Result A → Result A
unwrap (ok a) = ok a
unwrap (err e) = panic
unwrap panic = panic
unwrap out_of_fuel = out_of_fuel

-- `registers[i] = byte`.
unfoldable pub put : List ℕ → ℕ → ℕ → Result (List ℕ)
put registers i byte = RegisterBlock.set_byte registers i byte

unfoldable pub cap_registers : VirtioPciCap → List ℕ → Result (List ℕ)
unfolding put unwrap type_code
cap_registers cap' registers = do
  r1 ← put registers reg_cap_len cap'.cap_len
  r2 ← put r1 reg_cap_cfg (type_code cap'.cfg_type)
  r3 ← put r2 reg_bar cap'.bar
  r4 ← put r3 reg_id cap'.id
  r5 ← unwrap (Checked.set_dword r4 reg_offset cap'.offset)
  unwrap (Checked.set_dword r5 reg_length cap'.length)

-- All bits are read-only.
unfoldable pub no_writable_bits : List ℕ → Result (List ℕ)
no_writable_bits writable_bits = ok (replicate (length writable_bits) 0)

-- The implementation of the trait, which the capabilities of the common, ISR and device
-- configuration forward to.
abbrev pub virtio_capability : VirtioPciCap → PciCapability
virtio_capability cap' = record {
  id = PciCapabilityId.vendor_specific;
  size = virtio_cap_size;
  registers = cap_registers cap';
  writable_bits = no_writable_bits;
}

-- `self.cap.registers(&mut registers[0..VIRTIO_CAP_SIZE])`.
unfoldable pub base_registers : VirtioPciCap → List ℕ → Result (List ℕ)
unfolding cap_registers
base_registers cap' registers = do
  assert (leb virtio_cap_size (length registers))
  base ← cap_registers cap' (slice registers 0 virtio_cap_size)
  ok (splice registers 0 base)

pub record VirtioPciCap64 : Type 0 where
  pub cap64 : VirtioPciCap
  pub offset_hi : ℕ
  pub length_hi : ℕ

unfoldable pub new64 : VirtioPciCapType → ℕ → ℕ → ℕ → ℕ → VirtioPciCap64
unfolding new
new64 cfg_type bar id offset length = record {
  cap64 =
      new (some (virtio_cap_len virtio_cap64_size)) cfg_type bar id (offset % 2 ^ 32)
        (length % 2 ^ 32);
  offset_hi = offset / 2 ^ 32 % 2 ^ 32;
  length_hi = length / 2 ^ 32 % 2 ^ 32;
}

unfoldable pub cap64_registers : VirtioPciCap64 → List ℕ → Result (List ℕ)
unfolding base_registers unwrap
cap64_registers cap' registers = do
  r1 ← base_registers cap'.cap64 registers
  r2 ← unwrap (Checked.set_dword r1 reg_offset_hi cap'.offset_hi)
  unwrap (Checked.set_dword r2 reg_length_hi cap'.length_hi)

abbrev pub virtio_capability64 : VirtioPciCap64 → PciCapability
virtio_capability64 cap' = record {
  id = PciCapabilityId.vendor_specific;
  size = virtio_cap64_size;
  registers = cap64_registers cap';
  writable_bits = no_writable_bits;
}

unfoldable pub shared_memory_cap : ℕ → ℕ → ℕ → ℕ → VirtioPciCap64
unfolding new64
shared_memory_cap bar shm_id offset length =
    new64 VirtioPciCapType.shared_memory_cfg bar shm_id offset length

unfoldable pub common_cfg_cap : ℕ → ℕ → ℕ → VirtioPciCap
unfolding new
common_cfg_cap bar offset length = new none VirtioPciCapType.common_cfg bar 0 offset length

unfoldable pub isr_cfg_cap : ℕ → ℕ → ℕ → VirtioPciCap
unfolding new
isr_cfg_cap bar offset length = new none VirtioPciCapType.isr_cfg bar 0 offset length

unfoldable pub device_cfg_cap : ℕ → ℕ → ℕ → VirtioPciCap
unfolding new
device_cfg_cap bar offset length = new none VirtioPciCapType.device_cfg bar 0 offset length

abbrev pub reg_notify_off_multiplier : ℕ
reg_notify_off_multiplier = 14

abbrev pub virtio_notify_cap_size : ℕ
virtio_notify_cap_size = virtio_cap_size + 4

pub record VirtioPciNotifyCfgCap : Type 0 where
  pub notify_cap : VirtioPciCap
  pub notify_off_multiplier : ℕ

unfoldable pub notify_cfg_cap : ℕ → ℕ → ℕ → Option ℕ → VirtioPciNotifyCfgCap
unfolding new
notify_cfg_cap bar offset length notify_off_multiplier = record {
  notify_cap =
      new (some (virtio_cap_len virtio_notify_cap_size)) VirtioPciCapType.nofify_cfg bar 0 offset
        length;
  notify_off_multiplier = Option.get_or notify_off_multiplier 0;
}

unfoldable pub notify_registers : VirtioPciNotifyCfgCap → List ℕ → Result (List ℕ)
unfolding base_registers
notify_registers cap' registers = do
  r1 ← base_registers cap'.notify_cap registers
  RegisterBlock.set_dword r1 reg_notify_off_multiplier cap'.notify_off_multiplier

abbrev pub notify_capability : VirtioPciNotifyCfgCap → PciCapability
notify_capability cap' = record {
  id = PciCapabilityId.vendor_specific;
  size = virtio_notify_cap_size;
  registers = notify_registers cap';
  writable_bits = no_writable_bits;
}

abbrev pub reg_pci_cfg_data : ℕ
reg_pci_cfg_data = 14

abbrev pub virtio_pci_cfg_cap_size : ℕ
virtio_pci_cfg_cap_size = virtio_cap_size + 4

-- `VirtioPciCfgCap::new`; the data are four bytes of 0xFF.
unfoldable pub pci_cfg_cap : VirtioPciCap
unfolding new
pci_cfg_cap = new (some (virtio_cap_len virtio_pci_cfg_cap_size)) VirtioPciCapType.pci_cfg 0 0 0 0

-- The slice after the base is copied from the data, which has to be as long.
unfoldable pub pci_cfg_registers : List ℕ → Result (List ℕ)
unfolding base_registers pci_cfg_cap
pci_cfg_registers registers = do
  r1 ← base_registers pci_cfg_cap registers
  assert (leb (length r1) (virtio_cap_size + 4))
  RegisterBlock.set r1 virtio_cap_size (replicate 4 0xFF)

unfoldable pub pci_cfg_writable_bits : List ℕ → Result (List ℕ)
unfolding put
pci_cfg_writable_bits writable_bits = do
  b1 ← put (replicate (length writable_bits) 0) reg_bar 0xFF
  b2 ← RegisterBlock.set_dword b1 reg_length 0xFFFF_FFFF
  b3 ← RegisterBlock.set_dword b2 reg_offset 0xFFFF_FFFF
  RegisterBlock.set_dword b3 reg_pci_cfg_data 0xFFFF_FFFF

abbrev pub pci_cfg_capability : PciCapability
pci_cfg_capability = record {
  id = PciCapabilityId.vendor_specific;
  size = virtio_pci_cfg_cap_size;
  registers = pci_cfg_registers;
  writable_bits = pci_cfg_writable_bits;
}
