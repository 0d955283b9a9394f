-- ===== src/Virtio/Device.antt =====
-- The virtio device that the crate is given: the trait `VirtioPciDevice` of pci.rs with the methods
-- of the crates virtio_device and virtio_queue that the code calls, which are parameters.
use greens.Base.{ℕ, Bool, List, Option}
use greens.Function.{PciMsiMessage}

-- A virtqueue with the state `Q`.
pub record VirtioQueue (Q : Type 0) : Type 0 where
  pub size : Q → ℕ
  pub ready : Q → Bool
  pub desc_table : Q → ℕ
  pub avail_ring : Q → ℕ
  pub used_ring : Q → ℕ
  pub set_size : Q → ℕ → Q
  pub set_ready : Q → Bool → Q
  pub set_desc_table_address : Q → Option ℕ → Option ℕ → Q
  pub set_avail_ring_address : Q → Option ℕ → Option ℕ → Q
  pub set_used_ring_address : Q → Option ℕ → Option ℕ → Q
  pub reset : Q → Q

pub record VirtioPciNotifyCfgInfo : Type 0 where
  pub bar_gpa : ℕ
  pub bar_len : ℕ
  pub queue_notify_off : ℕ

-- A device with the state `D`, whose queues have the state `Q`. `queue_mut` of an index is the
-- queue, where there is one, and `set_queue` puts it back.
pub record VirtioPciDevice (D Q : Type 0) : Type 0 where
  pub queues : VirtioQueue Q
  pub device_type : D → ℕ
  pub device_features : D → ℕ
  pub driver_features : D → ℕ
  pub set_driver_features : D → ℕ → ℕ → D
  pub num_queues : D → ℕ
  pub device_status : D → ℕ
  pub ack_device_status : D → ℕ → D
  pub config_generation : D → ℕ
  pub queue_select : D → ℕ
  pub set_queue_select : D → ℕ → D
  pub queue : D → ℕ → Option Q
  pub set_queue : D → ℕ → Q → D
  pub config_msix_vector : D → ℕ
  pub set_config_msix_vector : D → ℕ → D
  pub queue_msix_vector : D → Option ℕ
  pub set_queue_msix_vector : D → ℕ → D
  pub set_msi_message : D → ℕ → PciMsiMessage → D
  pub read_config : D → ℕ → List ℕ → List ℕ
  pub write_config : D → ℕ → List ℕ → D
  pub read_and_clear_isr : D → D × ℕ
  pub set_notification_info : D → VirtioPciNotifyCfgInfo → D
  pub queue_notify : D → ℕ → D
