-- ===== src/Virtio/CommonCfg/Write.antt =====
-- pci_common_cfg.rs: a write stores its bytes and acts on the device.
use greens.Base.{
  ℕ, ◌%◌, ◌/◌, ◌^◌, ltb, ◌==◌, true, List, length, replicate, splice, Option, none, some,
  if◌then◌else◌,
}
use greens.Error.{Result, ok, err, invalid_io_size, access_bounds, ◌>>=◌}
use greens.Utils.Checked
use greens.Utils.Endian.{Endian, EndianSwapSize, from_little_endian}
use greens.Virtio.Device.{VirtioPciDevice}
use greens.Virtio.CommonCfg.Registers.{
  Config, VirtioPciCommonCfg, try_from, config_byte, config_word, config_dword, config_qword,
  set_config_word, set_config_data_invalid,
}

unfoldable pub address_parts : ℕ → ℕ → Option ℕ × Option ℕ
address_parts addr io_size =
    (some (addr % 2 ^ 32), (if ltb 4 io_size then some ((addr / 2 ^ 32) % 2 ^ 32) else none))

-- `with_queue_mut`: the device with the queue that the stored selection names changed.
unfoldable pub with_queue_mut :
    {D Q : Type 0} → VirtioPciDevice D Q → D → VirtioPciCommonCfg → (Q → Q) → Result D
with_queue_mut {D} {Q} device d cfg f = do
  select ← config_word cfg Config.queue_sel
  ok (update select (device.queue d select))
  where
    update : ℕ → Option Q → D
    update select none = d
    update select (some q) = device.set_queue d select (f q)

-- The three setters of a queue address.
abbrev pub AddressSetter : Type 0 → Type 0
AddressSetter Q = Q → Option ℕ → Option ℕ → Q

-- A write of the low part of an address, or of the whole.
unfoldable pub set_address :
    {D Q : Type 0}
    → VirtioPciDevice D Q
    → D
    → VirtioPciCommonCfg
    → Config
    → ℕ
    → AddressSetter Q
    → Result D
unfolding address_parts with_queue_mut
set_address device d cfg config size set = do
  addr ← config_qword cfg config
  let parts = address_parts addr size
  with_queue_mut device d cfg λ q. set q parts.0 parts.1

-- A write of the high part.
unfoldable pub set_address_hi :
    {D Q : Type 0}
    → VirtioPciDevice D Q
    → D
    → VirtioPciCommonCfg
    → Config
    → AddressSetter Q
    → Result D
unfolding with_queue_mut
set_address_hi device d cfg config set = do
  high ← config_dword cfg config
  with_queue_mut device d cfg λ q. set q none (some high)

-- The registers and the device after a write.
abbrev pub Written : Type 0 → Type 0
Written D = VirtioPciCommonCfg × D

-- Only the device changes.
abbrev pub device_only : {D : Type 0} → VirtioPciCommonCfg → Result D → Result (Written D)
device_only cfg run = run >>= λ d. ok (cfg, d)

-- The arm for `QueueReset`.
unfoldable pub reset_queue :
    {D Q : Type 0} → VirtioPciDevice D Q → D → VirtioPciCommonCfg → ℕ → Result (Written D)
unfolding with_queue_mut
reset_queue device d cfg v =
    if v == 1
    then (with_queue_mut device d cfg (λ q. device.queues.reset q) >>= λ d'.
        set_config_word cfg Config.queue_reset 0 >>= λ cfg'. ok (cfg', d'))
    else ok (cfg, d)

-- The match of `process_write`.
unfoldable pub act :
    {D Q : Type 0} → VirtioPciDevice D Q → D → VirtioPciCommonCfg → ℕ → Config → Result (Written D)
unfolding reset_queue set_address set_address_hi with_queue_mut
act device d cfg size Config.drv_feature = device_only cfg do
  features ← config_dword cfg Config.drv_feature
  select ← config_dword cfg Config.drv_feature_sel
  ok (device.set_driver_features d select features)
act device d cfg size Config.cfg_msix_vector =
    device_only cfg
      do v ← config_word cfg Config.cfg_msix_vector; ok (device.set_config_msix_vector d v)
act device d cfg size Config.dev_status =
    device_only cfg do v ← config_byte cfg Config.dev_status; ok (device.ack_device_status d v)
act device d cfg size Config.queue_sel =
    device_only cfg do v ← config_word cfg Config.queue_sel; ok (device.set_queue_select d v)
act device d cfg size Config.queue_size = device_only cfg do
  v ← config_word cfg Config.queue_size
  with_queue_mut device d cfg (λ q. device.queues.set_size q v)
act device d cfg size Config.queue_msix_vector =
    device_only cfg
      do v ← config_word cfg Config.queue_msix_vector; ok (device.set_queue_msix_vector d v)
act device d cfg size Config.queue_enable = device_only cfg do
  v ← config_word cfg Config.queue_enable
  (if v == 1 then with_queue_mut device d cfg (λ q. device.queues.set_ready q true) else ok d)
act device d cfg size Config.queue_desc =
    device_only cfg
      (set_address device d cfg Config.queue_desc size device.queues.set_desc_table_address)
act device d cfg size Config.queue_desc_hi =
    device_only cfg
      (set_address_hi device d cfg Config.queue_desc_hi device.queues.set_desc_table_address)
act device d cfg size Config.queue_drv =
    device_only cfg
      (set_address device d cfg Config.queue_drv size device.queues.set_avail_ring_address)
act device d cfg size Config.queue_drv_hi =
    device_only cfg
      (set_address_hi device d cfg Config.queue_drv_hi device.queues.set_avail_ring_address)
act device d cfg size Config.queue_dev =
    device_only cfg
      (set_address device d cfg Config.queue_dev size device.queues.set_used_ring_address)
act device d cfg size Config.queue_dev_hi =
    device_only cfg
      (set_address_hi device d cfg Config.queue_dev_hi device.queues.set_used_ring_address)
act device d cfg size Config.queue_reset = do
  v ← config_word cfg Config.queue_reset
  reset_queue device d cfg v
act device d cfg size _ = ok (cfg, d)

unfoldable pub act_at :
    {D Q : Type 0}
    → VirtioPciDevice D Q
    → D
    → VirtioPciCommonCfg
    → ℕ
    → ℕ
    → Option Config
    → Result (Written D)
unfolding act
act_at device d cfg offset size none = do
  cfg' ← set_config_data_invalid cfg offset size
  ok (cfg', d)
act_at device d cfg offset size (some config) = act device d cfg size config

unfoldable pub process_write :
    {D Q : Type 0} → VirtioPciDevice D Q → D → VirtioPciCommonCfg → ℕ → ℕ → Result (Written D)
unfolding act_at try_from
process_write device d cfg offset size = act_at device d cfg offset size (try_from offset)

-- The `or_else` of `write_bar`: a write out of bounds leaves the registers as they are.
unfoldable pub or_unchanged : List ℕ → Result (List ℕ) → Result (List ℕ)
or_unchanged registers (err (access_bounds offset size)) = ok registers
or_unchanged registers run = run

-- The input buffer of eight bytes.
unfoldable pub input_bytes : List ℕ → List ℕ
input_bytes bytes = splice (replicate 8 0) 0 bytes

-- `write_bar`; an error comes before any change.
unfoldable pub write_bar :
    {D Q : Type 0} → VirtioPciDevice D Q → D → VirtioPciCommonCfg → ℕ → List ℕ → Result (Written D)
unfolding input_bytes or_unchanged process_write
write_bar device d cfg offset bytes =
    if ltb 8 (length bytes) then err (invalid_io_size (length bytes)) else do
      input ← from_little_endian Endian.little (input_bytes bytes) EndianSwapSize.qword
      registers ←
          or_unchanged cfg.registers (Checked.write cfg.registers cfg.writable_bits offset input)
      process_write device d (record cfg { registers = registers }) offset (length bytes)
