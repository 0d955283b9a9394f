-- ===== src/Tests/Virtio.antt =====
-- Runs of the theorems on virtio, with a device of one queue.
use greens.Base.{
  ℕ, suc, ◌≡◌, refl, arith, true, false, [], ◌∷◌, none, some, replicate, slice, ◌+◌, ◌*◌, ◌<◌, ◌≤◌,
  ◌-◌,
}
use greens.Word.{u64_max, to_le_bytes, from_le_bytes}
use greens.Error.{ok, Ensures}
use greens.Config.{read_dword, new, set_word, set}
use greens.Virtio.PciCfg.Laws.{Elsewhere}
use greens.Virtio.Function.{VirtioInterrupts, virtio_read_config}
use greens.Virtio.Function.Laws.{virtio_read_config-Elsewhere}
use greens.Tests.Msix.{two_vectors}
use greens.Intx.{PciInterruptLineConfig}
use greens.Tests.{enabled, fresh}
use greens.Capability.{IsCapability}
use greens.Virtio.Device.{VirtioPciDevice, VirtioQueue, VirtioPciNotifyCfgInfo}
use greens.Virtio.Cap.Laws.{VirtioCapability, as_capability, as_capability-IsCapability}
use greens.Virtio.Notify.{VirtioPciNotifyCfg, notification_gpa, set_notification_info, add_u64}
use greens.Virtio.Notify.Laws.{set_notification_info-notification_gpa}
use greens.BarRegion.{offset_within_region}
use greens.Utils.RegisterBlock
use greens.Virtio.CommonCfg.Registers.{
  Config, VirtioPciCommonCfg, config_word, reg_queue_reset, value, size,
}
use greens.Virtio.CommonCfg.Laws.{stored}
use greens.Virtio.CommonCfg.Read
use greens.Virtio.CommonCfg.Write.{write_bar}
use greens.Interrupt.{PciInterruptType}
use greens.Effects.{set_interrupt, returned}
use greens.Composite.{PciInterruptAccess, PciFunctionWithInterrupts}
use greens.Virtio.Handler.{VirtioDeviceHandler, read_bar}
use greens.Virtio.Handler.Laws.{IsLaidOut, target, read_bar_regions}
use greens.Intx.{PciInterruptLineState}
use greens.Virtio.CommonCfg.Served.{promised, feature_word, read_bar-promised}
use greens.Virtio.CommonCfg.Acts.{write_bar-queue_reset}
use greens.Virtio.CommonCfg.Clears.{write_bar-queue_select}

-- A queue that keeps its size.
abbrev queue_ops : VirtioQueue ℕ
queue_ops = record {
  size = λ q. q;
  ready = λ q. true;
  desc_table = λ q. 0x1000;
  avail_ring = λ q. 0x2000;
  used_ring = λ q. 0x3000;
  set_size = λ q n. n;
  set_ready = λ q b. q;
  set_desc_table_address = λ q low high. q;
  set_avail_ring_address = λ q low high. q;
  set_used_ring_address = λ q low high. q;
  reset = λ q. 0;
}

-- A device that keeps the size of its queue and the vector of configuration changes.
abbrev net : VirtioPciDevice (ℕ × ℕ) ℕ
net = record {
  queues = queue_ops;
  device_type = λ d. 1;
  device_features = λ d. 0x1_0000_0003;
  driver_features = λ d. 0;
  set_driver_features = λ d select features. d;
  num_queues = λ d. 1;
  device_status = λ d. 0;
  ack_device_status = λ d status. d;
  config_generation = λ d. 0;
  queue_select = λ d. 0;
  set_queue_select = λ d select. d;
  queue = λ d select. some d.0;
  set_queue = λ d select q. (q, d.1);
  config_msix_vector = λ d. d.1;
  set_config_msix_vector = λ d vector. (d.0, vector);
  queue_msix_vector = λ d. none;
  set_queue_msix_vector = λ d vector. d;
  set_msi_message = λ d vector message. d;
  read_config = λ d offset buffer. buffer;
  write_config = λ d offset bytes. d;
  read_and_clear_isr = λ d. (d, 1);
  set_notification_info = λ d info. d;
  queue_notify = λ d v. d;
}

abbrev common_cfg : VirtioPciCommonCfg
common_cfg = record {
  info = record { bar = 0; offset = 0; length = 64 };
  registers = 1 ∷ replicate 63 0;
  writable_bits = replicate 64 0xFF;
}

-- The second page of the features, which the driver has selected.
read_bar-promised_example :
    Read.read_bar net (16, 0) common_cfg 4 4
    ≡ ok (stored common_cfg Config.dev_feature 1, ok (to_le_bytes 4 1))
unfolding value size promised feature_word from_le_bytes
read_bar-promised_example = read_bar-promised net (16, 0) common_cfg Config.dev_feature 1 refl refl

write_bar-queue_reset_example :
    write_bar net (16, 0) common_cfg reg_queue_reset (1 ∷ 0 ∷ []) ≡ ok (common_cfg, (16, 0))
write_bar-queue_reset_example =
    write_bar-queue_reset net (16, 0) common_cfg (1 ∷ 0 ∷ []) refl (omega arith, (omega arith, tt))
      (omega arith) (unfold from_le_bytes in omega arith)

write_bar-queue_select_example :
    (cfg' : VirtioPciCommonCfg) × (write_bar net (16, 0) common_cfg 16 (5 ∷ 0 ∷ [])
      ≡ ok (cfg', net.set_config_msix_vector (16, 0) (from_le_bytes (slice cfg'.registers 16 2))))
    × (config_word cfg' Config.queue_sel ≡ ok 0)
write_bar-queue_select_example =
    write_bar-queue_select net (16, 0) common_cfg 5 0 refl refl refl refl (omega arith)
      (omega arith)

-- The notification region of the last quarter of a BAR, whose capability is at 0x40; the device is told.
abbrev notify_region : VirtioPciNotifyCfg
notify_region = record {
  cap_offset = 0x40;
  info = record { bar = 0; offset = 0x3000; length = 0x1000 };
}

set_notification_info-notification_gpa_example :
    (info : VirtioPciNotifyCfgInfo) × ((16, 0) ≡ net.set_notification_info (16, 0) info)
    × (read_dword enabled 0x4E ≡ ok info.queue_notify_off)
    × ((q : ℕ)
        → 0xE000_0000 + 0x3000 + 0x1000 ≤ u64_max
        → info.queue_notify_off * q < 0x1000
        → (gpa : ℕ) × (notification_gpa info q ≡ ok (some gpa)))
    × ((q n gpa : ℕ)
        → notification_gpa info q ≡ ok (some gpa)
        → 0 < n
        → info.queue_notify_off * q + n ≤ 0x1000
        → offset_within_region notify_region.info 0 (gpa - 0xE000_0000) n
          ≡ some (info.queue_notify_off * q))
unfolding set_notification_info add_u64 read_dword RegisterBlock.read_dword RegisterBlock.read
    enabled fresh new set_word set RegisterBlock.set to_le_bytes from_le_bytes
set_notification_info-notification_gpa_example =
    set_notification_info-notification_gpa net (16, 0) notify_region enabled 0xE000_0000 refl

as_capability-IsCapability_example : IsCapability (as_capability VirtioCapability.window)
as_capability-IsCapability_example = as_capability-IsCapability VirtioCapability.window

-- The device with its regions laid out, and an access to interrupts that are MSI-X.
abbrev net_handler : VirtioDeviceHandler (ℕ × ℕ)
net_handler = record {
  config = enabled;
  common_cfg = common_cfg;
  device_cfg = record { bar = 0; offset = 0x2000; length = 0x1000 };
  isr_cfg = record { bar = 0; offset = 0x1000; length = 1 };
  notify_cfg = record {
    cap_offset = 0x64;
    info = record { bar = 0; offset = 0x3000; length = 0x1000 };
  };
  device = (16, 0);
}

net_handler-IsLaidOut : IsLaidOut net_handler
net_handler-IsLaidOut = record { common = refl; device = refl; isr = refl; notify = refl }

-- An access to interrupts of which INTx is active; the state counts the signals.
abbrev intx_access : PciInterruptAccess ℕ
intx_access = record {
  active = PciInterruptType.intx;
  signal =
      λ irq s. ok ((suc s.0, s.1), set_interrupt 11 PciInterruptLineState.low ∷ [], returned tt);
}

read_bar_regions_example :
    read_bar net 0 0x1000 (0 ∷ []) intx_access (net_handler, 7)
    ≡ ok ((net_handler, 8), set_interrupt 11 PciInterruptLineState.low ∷ [], returned (1 ∷ []))
unfolding target
read_bar_regions_example =
    read_bar_regions net net_handler 7 0x1000 (0 ∷ []) intx_access net_handler-IsLaidOut

-- The function of the device, with MSI-X tables of one vector.
abbrev net_function : PciFunctionWithInterrupts (VirtioDeviceHandler (ℕ × ℕ)) VirtioInterrupts
net_function = record {
  device = net_handler;
  interrupt = record {
    intx_state = record { line_config = PciInterruptLineConfig.fixed 11; disabled = false };
    msi_state = tt;
    msix_state = two_vectors;
  };
}

virtio_read_config-Elsewhere_example :
    Ensures
      (λ r. Elsewhere (0x40 + 14) enabled r.0.0.device.config)
      (virtio_read_config net 0x40 0x4E (0 ∷ 0 ∷ 0 ∷ 0 ∷ []) (net_function, []))
virtio_read_config-Elsewhere_example =
    virtio_read_config-Elsewhere net 0x40 0x4E (0 ∷ 0 ∷ 0 ∷ 0 ∷ []) (net_function, [])
