-- ===== src/Virtio/Handler.antt =====
-- pci.rs: the device handler of a virtio function, which gives an access to the BAR to the region that
-- it targets, and tells the device of changes. The regions of the device configuration
-- (pci_device_cfg.rs) and of the interrupt status have no state of their own.
pub mod Regions
pub mod Laws
use greens.Base.{
  ℕ, ◌%◌, ◌^◌, Bool, true, false, List, [], length, Option, none, some, if◌then◌else◌,
}
use greens.Error.{Result, ok, err, panic, out_of_fuel, bind}
use greens.BarRegion.{PciBarRegionInfo, offset_within_region}
use greens.Config.{PciConfigurationSpace}
use greens.Function.{PciConfigurationUpdate, msi_message, msi_x_message, bar_update, space_changed}
use greens.Intx.{PciInterruptLineState}
use greens.Interrupt.{PciInterrupt, PciInterruptType}
use greens.Effects.{Call, Returned, returned, raised, as_returned, Run, return, zoom, ◌>>=◌, ◌>>◌}
use greens.Composite.{PciInterruptAccess, PciDeviceHandler}
use greens.Virtio.Device.{VirtioPciDevice}
use greens.Virtio.CommonCfg.Registers.{VirtioPciCommonCfg}
use greens.Virtio.CommonCfg.Read
use greens.Virtio.CommonCfg.Write
use greens.Virtio.Isr.{isr_read_bar}
use greens.Virtio.Notify.{
  VirtioPciNotifyCfg, notify_read_bar, notify_write_bar, on_bar_changed, on_space_changed,
}

pub record VirtioDeviceHandler (D : Type 0) : Type 0 where
  pub config : PciConfigurationSpace
  pub common_cfg : VirtioPciCommonCfg
  pub device_cfg : PciBarRegionInfo
  pub isr_cfg : PciBarRegionInfo
  pub notify_cfg : VirtioPciNotifyCfg
  pub device : D

-- `handle_read_bar` or `handle_write_bar` of a region, and what follows if it is unhandled.
unfoldable pub or_next {ℓ} :
    {S : Type 0} {A : Type ℓ} → PciBarRegionInfo → ℕ → ℕ → ℕ → (ℕ → Run S A) → Run S A → Run S A
or_next info bar offset size access next = elim (offset_within_region info bar offset size) [
  | none ↦ next
  | some within ↦ access within
]

abbrev pub is_intx : PciInterruptType → Bool
is_intx PciInterruptType.intx = true
is_intx _ = false

-- The handler and the state of the interrupts.
abbrev pub HandlerState : Type 0 → Type 0 → Type 0
HandlerState D I = VirtioDeviceHandler D × I

module _ {D Q : Type 0} (ops : VirtioPciDevice D Q) where
  unfoldable pub read_common : {I : Type 0} → ℕ → ℕ → Run (HandlerState D I) (List ℕ)
  read_common n within (h, i) =
      bind (Read.read_bar ops h.device h.common_cfg within n)
        λ r. bind (as_returned r.1) λ outcome. ok ((record h { common_cfg = r.0 }, i), [], outcome)

  -- `read_bar` of the device configuration.
  unfoldable pub read_device : {I : Type 0} → List ℕ → ℕ → Run (HandlerState D I) (List ℕ)
  read_device buffer within (h, i) =
      ok ((h, i), [], returned (ops.read_config h.device within buffer))

  unfoldable pub read_notify : {I : Type 0} → List ℕ → ℕ → Run (HandlerState D I) (List ℕ)
  read_notify buffer within = return (notify_read_bar within buffer)

  unfoldable pub read_isr : {I : Type 0} → ℕ → ℕ → Run (HandlerState D I) (List ℕ)
  unfolding isr_read_bar
  read_isr n within (h, i) =
      let result = isr_read_bar ops.read_and_clear_isr h.device within n in
      ok ((record h { device = result.0 }, i), [], returned result.1)

  -- `irq.signal` with the configuration space of the handler.
  abbrev pub signal_low : {I : Type 0} → PciInterruptAccess I → Run (HandlerState D I) (Unit {0})
  signal_low irq =
      zoom (λ s. (s.1, s.0.config)) (λ s t. (record s.0 { config = t.1 }, t.0))
        (irq.signal (PciInterrupt.intx_interrupt PciInterruptLineState.low))

  -- After a read of the interrupt status.
  unfoldable pub deassert :
      {I : Type 0} → PciInterruptAccess I → List ℕ → Run (HandlerState D I) (List ℕ)
  deassert irq bytes = if is_intx irq.active then (signal_low irq >> return bytes) else return bytes

  unfoldable pub read_bar :
      {I : Type 0} → ℕ → ℕ → List ℕ → PciInterruptAccess I → Run (HandlerState D I) (List ℕ)
  unfolding or_next read_common read_device read_notify read_isr deassert
  read_bar bar offset buffer irq s =
      let h = s.0 in
      let n = length buffer in
      or_next h.common_cfg.info bar offset n (read_common n)
        (or_next h.device_cfg bar offset n (read_device buffer) (
          or_next h.notify_cfg.info bar offset n (read_notify buffer) (
            or_next h.isr_cfg bar offset n (λ within. read_isr n within >>= deassert irq)
              (return buffer))))
        s

  -- The outcome of a write to the common configuration; an error comes before any change.
  unfoldable pub stored :
      {I : Type 0}
      → HandlerState D I
      → Result (VirtioPciCommonCfg × D)
      → Result (HandlerState D I × List Call × Returned (Unit {0}))
  stored (h, i) (ok t) = ok ((record h { common_cfg = t.0; device = t.1 }, i), [], returned tt)
  stored s (err e) = ok (s, [], raised e)
  stored s panic = panic
  stored s out_of_fuel = out_of_fuel

  unfoldable pub write_common : {I : Type 0} → List ℕ → ℕ → Run (HandlerState D I) (Unit {0})
  unfolding stored
  write_common bytes within (h, i) =
      stored (h, i) (Write.write_bar ops h.device h.common_cfg within bytes)

  -- `write_bar` of the device configuration.
  unfoldable pub write_device : {I : Type 0} → List ℕ → ℕ → Run (HandlerState D I) (Unit {0})
  write_device bytes within (h, i) =
      ok ((record h { device = ops.write_config h.device within bytes }, i), [], returned tt)

  unfoldable pub write_notify : {I : Type 0} → List ℕ → ℕ → Run (HandlerState D I) (Unit {0})
  write_notify bytes within (h, i) =
      bind (notify_write_bar ops h.device within bytes)
        λ d. ok ((record h { device = d }, i), [], returned tt)

  -- A write to the interrupt status, and one that no region handles, change nothing.
  unfoldable pub write_bar :
      {I : Type 0} → ℕ → ℕ → List ℕ → PciInterruptAccess I → Run (HandlerState D I) (Unit {0})
  unfolding or_next write_common write_device write_notify
  write_bar bar offset bytes irq s =
      let h = s.0 in
      let n = length bytes in
      or_next h.common_cfg.info bar offset n (write_common bytes)
        (or_next h.device_cfg bar offset n (write_device bytes) (
          or_next h.notify_cfg.info bar offset n (write_notify bytes)
            (or_next h.isr_cfg bar offset n (λ within. return tt) (return tt))))
        s

  unfoldable pub on_config_update :
      PciConfigurationUpdate → VirtioDeviceHandler D → Result (VirtioDeviceHandler D)
  on_config_update (msi_x_message vector message) h =
      ok (record h { device = ops.set_msi_message h.device (vector % 2 ^ 16) message })
  on_config_update (bar_update bar) h =
      bind (on_bar_changed ops h.device h.notify_cfg h.config bar) λ d. ok (record h { device = d })
  on_config_update space_changed h =
      bind (on_space_changed ops h.device h.notify_cfg h.config) λ d. ok (record h { device = d })
  on_config_update (msi_message message) h = ok h

  -- The handler, with the hooks that the trait has as defaults.
  abbrev pub virtio_handler : {I : Type 0} → PciDeviceHandler (VirtioDeviceHandler D) I
  virtio_handler = record {
    config = λ h. h.config;
    set_config = λ h c. record h { config = c };
    on_write_config = λ offset size h. ok (h, returned tt);
    prepare_read_config = λ offset size h. ok h;
    read_bar = read_bar;
    write_bar = write_bar;
    on_config_update = on_config_update;
  }
