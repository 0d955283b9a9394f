-- ===== src/Virtio/Notify.antt =====
-- pci_notify_cfg.rs: the region that a driver notifies queues by, and the addresses that the device
-- learns of it.
pub mod Laws
use greens.Base.{
  ℕ, ◌+◌, ◌*◌, ◌%◌, ◌^◌, ltb, leb, ◌==◌, List, length, replicate, splice, Option, none, some,
  if◌then◌else◌,
}
use greens.Word.{from_le_bytes, u64_max}
use greens.Error.{Result, ok, ◌>>=◌, ◌>>◌, assert}
use greens.Bar.{PciBar}
use greens.BarRegion.{PciBarRegionInfo}
use greens.Config.{PciConfigurationSpace, read_dword}
use greens.Config.Bars.{get_bar}
use greens.Virtio.Device.{VirtioPciDevice, VirtioPciNotifyCfgInfo}
use greens.Virtio.Cap.{reg_notify_off_multiplier}

-- `phantom` has no value.
pub record VirtioPciNotifyCfg : Type 0 where
  pub cap_offset : ℕ
  pub info : PciBarRegionInfo

unfoldable pub new_notify_cfg : ℕ → ℕ → ℕ → ℕ → VirtioPciNotifyCfg
new_notify_cfg cap_offset bar offset length = record {
  cap_offset = cap_offset;
  info = record { bar = bar; offset = offset; length = length };
}

-- The low word of the data in a buffer of eight bytes, on a little-endian target; longer data are
-- out of its range.
unfoldable pub notify_data : List ℕ → Result ℕ
notify_data bytes = do
  assert (leb (length bytes) 8)
  ok (from_le_bytes (splice (replicate 8 0) 0 bytes) % 2 ^ 32)

-- `write_bar`.
unfoldable pub notify_write_bar : {D Q : Type 0} → VirtioPciDevice D Q → D → ℕ → List ℕ → Result D
unfolding notify_data
notify_write_bar device d offset bytes = do v ← notify_data bytes; ok (device.queue_notify d v)

-- `read_bar`: the buffer is left as it is.
unfoldable pub notify_read_bar : ℕ → List ℕ → List ℕ
notify_read_bar offset buffer = buffer

-- A sum of two 64-bit words.
unfoldable pub add_u64 : ℕ → ℕ → Result ℕ
add_u64 a b = do assert (leb (a + b) u64_max); ok (a + b)

unfoldable pub set_notification_info :
    {D Q : Type 0}
    → VirtioPciDevice D Q
    → D
    → VirtioPciNotifyCfg
    → PciConfigurationSpace
    → ℕ
    → Result D
unfolding add_u64
set_notification_info device d notify config bar_gpa = do
  gpa ← add_u64 bar_gpa notify.info.offset
  off ← read_dword config (notify.cap_offset + reg_notify_off_multiplier)
  ok (
      device.set_notification_info d
        (record { bar_gpa = gpa; bar_len = notify.info.length; queue_notify_off = off }))

-- The device with the address of a BAR, where it has one.
unfoldable pub inform :
    {D Q : Type 0}
    → VirtioPciDevice D Q
    → D
    → VirtioPciNotifyCfg
    → PciConfigurationSpace
    → Option ℕ
    → Result D
unfolding set_notification_info
inform device d notify config none = ok d
inform device d notify config (some bar_gpa) = set_notification_info device d notify config bar_gpa

unfoldable pub on_bar_changed :
    {D Q : Type 0}
    → VirtioPciDevice D Q
    → D
    → VirtioPciNotifyCfg
    → PciConfigurationSpace
    → PciBar
    → Result D
unfolding inform
on_bar_changed device d notify config bar =
    if bar.index == notify.info.bar then inform device d notify config bar.address else ok d

-- The address of the BAR that the configuration space has.
abbrev pub bar_address : Option PciBar → Option ℕ
bar_address none = none
bar_address (some bar) = bar.address

unfoldable pub on_space_changed :
    {D Q : Type 0} → VirtioPciDevice D Q → D → VirtioPciNotifyCfg → PciConfigurationSpace → Result D
unfolding inform
on_space_changed device d notify config = do
  bar ← get_bar config notify.info.bar
  inform device d notify config (bar_address bar)

-- The sums are of 64 bits; the product of a `u32` and a `u16` fits.
unfoldable pub notification_gpa : VirtioPciNotifyCfgInfo → ℕ → Result (Option ℕ)
unfolding add_u64
notification_gpa info notify_off_multiplier = do
  notify_gpa ← add_u64 info.bar_gpa (info.queue_notify_off * notify_off_multiplier)
  end ← add_u64 info.bar_gpa info.bar_len
  ok (if ltb notify_gpa end then some notify_gpa else none)
