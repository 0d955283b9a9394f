-- ===== src/Virtio/CommonCfg/Read.antt =====
-- pci_common_cfg.rs: a read refreshes its register from the device and takes the bytes.
use mathlib.Core.Option
use greens.Base.{ℕ, ◌*◌, ◌%◌, ◌/◌, ◌^◌, ltb, List, Option, none, some, if◌then◌else◌}
use greens.Error.{Result, ok, panic, ◌>>=◌}
use greens.Utils.Checked
use greens.Utils.Endian.{Endian, EndianSwapSize, to_little_endian}
use greens.Virtio.Device.{VirtioPciDevice}
use greens.Virtio.CommonCfg.Registers.{
  Config, VirtioPciCommonCfg, try_from, config_dword, config_word, set_config_byte, set_config_word,
  set_config_dword, set_config_qword, set_config_data_invalid, msix_vector_unmapped,
}

unfoldable pub paged_features : ℕ → ℕ → ℕ
paged_features features selection =
    if ltb selection 2 then (features / 2 ^ (selection * 32)) % 2 ^ 32 else 0

unfoldable pub with_queue : {D Q : Type 0} → VirtioPciDevice D Q → D → (Q → ℕ) → Option ℕ
with_queue device d f = Option.map f (device.queue d (device.queue_select d))

-- The word that a Boolean converts to.
abbrev pub ready_word : {D Q : Type 0} → VirtioPciDevice D Q → Q → ℕ
ready_word device q = if device.queues.ready q then 1 else 0

-- The match of `prepare_read`, with `todo!` as a panic.
unfoldable pub refresh :
    {D Q : Type 0}
    → VirtioPciDevice D Q
    → D
    → VirtioPciCommonCfg
    → Config
    → Result VirtioPciCommonCfg
unfolding paged_features with_queue
refresh device d cfg Config.dev_feature = do
  select ← config_dword cfg Config.dev_feature_sel
  set_config_dword cfg Config.dev_feature (paged_features (device.device_features d) select)
refresh device d cfg Config.drv_feature = do
  select ← config_dword cfg Config.drv_feature_sel
  set_config_dword cfg Config.drv_feature (paged_features (device.driver_features d) select)
refresh device d cfg Config.cfg_msix_vector =
    set_config_word cfg Config.cfg_msix_vector (device.config_msix_vector d)
refresh device d cfg Config.num_queues = set_config_word cfg Config.num_queues (device.num_queues d)
refresh device d cfg Config.dev_status =
    set_config_byte cfg Config.dev_status (device.device_status d)
refresh device d cfg Config.cfg_generation =
    set_config_byte cfg Config.cfg_generation (device.config_generation d)
refresh device d cfg Config.queue_sel = set_config_word cfg Config.queue_sel (device.queue_select d)
refresh device d cfg Config.queue_size =
    set_config_word cfg Config.queue_size
      (Option.get_or (with_queue device d (λ q. device.queues.size q)) 0)
refresh device d cfg Config.queue_msix_vector =
    set_config_word cfg Config.queue_msix_vector
      (Option.get_or (device.queue_msix_vector d) msix_vector_unmapped)
refresh device d cfg Config.queue_enable =
    set_config_word cfg Config.queue_enable
      (Option.get_or (with_queue device d (λ q. ready_word device q)) 0)
refresh device d cfg Config.queue_notify_off = do
  select ← config_word cfg Config.queue_sel
  set_config_word cfg Config.queue_notify_off
      (Option.get_or (Option.map (λ _. select) (device.queue d select)) 0)
refresh device d cfg Config.queue_desc =
    set_config_qword cfg Config.queue_desc
      (Option.get_or (with_queue device d (λ q. device.queues.desc_table q)) 0)
refresh device d cfg Config.queue_desc_hi =
    set_config_qword cfg Config.queue_desc
      (Option.get_or (with_queue device d (λ q. device.queues.desc_table q)) 0)
refresh device d cfg Config.queue_drv =
    set_config_qword cfg Config.queue_drv
      (Option.get_or (with_queue device d (λ q. device.queues.avail_ring q)) 0)
refresh device d cfg Config.queue_drv_hi =
    set_config_qword cfg Config.queue_drv
      (Option.get_or (with_queue device d (λ q. device.queues.avail_ring q)) 0)
refresh device d cfg Config.queue_dev =
    set_config_qword cfg Config.queue_dev
      (Option.get_or (with_queue device d (λ q. device.queues.used_ring q)) 0)
refresh device d cfg Config.queue_dev_hi =
    set_config_qword cfg Config.queue_dev
      (Option.get_or (with_queue device d (λ q. device.queues.used_ring q)) 0)
refresh device d cfg Config.queue_notify_cfg_data = panic
refresh device d cfg Config.queue_reset = panic
refresh device d cfg Config.adm_queue_index = panic
refresh device d cfg Config.adm_queue_num = panic
refresh device d cfg Config.dev_feature_sel = ok cfg
refresh device d cfg Config.drv_feature_sel = ok cfg

unfoldable pub prepare_at :
    {D Q : Type 0}
    → VirtioPciDevice D Q
    → D
    → VirtioPciCommonCfg
    → ℕ
    → ℕ
    → Option Config
    → Result VirtioPciCommonCfg
unfolding refresh
prepare_at device d cfg offset size none = set_config_data_invalid cfg offset size
prepare_at device d cfg offset size (some config) = refresh device d cfg config

-- It returns no error.
unfoldable pub prepare_read :
    {D Q : Type 0}
    → VirtioPciDevice D Q
    → D
    → VirtioPciCommonCfg
    → ℕ
    → ℕ
    → Result VirtioPciCommonCfg
unfolding prepare_at try_from
prepare_read device d cfg offset size = prepare_at device d cfg offset size (try_from offset)

-- `read_bar` with a buffer of `size` bytes: the registers, which a failed read has refreshed too,
-- and what it returns.
unfoldable pub read_bar :
    {D Q : Type 0}
    → VirtioPciDevice D Q
    → D
    → VirtioPciCommonCfg
    → ℕ
    → ℕ
    → Result (VirtioPciCommonCfg × Result (List ℕ))
unfolding prepare_read
read_bar device d cfg offset size = do
  cfg' ← prepare_read device d cfg offset size
  ok (
    cfg',
    (Checked.read cfg'.registers offset size >>= λ bytes.
        to_little_endian Endian.little bytes EndianSwapSize.qword),
  )
