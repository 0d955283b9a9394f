-- ===== src/Virtio/Function/Laws.antt =====
-- A read of the configuration space of a virtio function changes the status word and the data of the
-- configuration access window at most, also where it reaches, through the window, the BAR of the
-- function itself.
use greens.Base.{
  ℕ, ◌+◌, refl, Bool, true, false, if◌then◌else◌, List, length, Option, none, some, inl, inr,
  Option-cases,
}
use greens.Error.{
  Result, ok, Ensures, Ensures-bind, Ensures-then, on_ok, on_err, on_panic, on_out_of_fuel,
}
use greens.Config.{PciConfigurationSpace}
use greens.BarRegion.{PciBarRegionInfo, offset_within_region, handle_bar_set}
use greens.Effects.{
  Call, Returned, returned, raised, Run, return, inspect, as_returned, ◌>>=◌, ◌>>◌,
}
use greens.Intx.{PciInterruptLineState}
use greens.Interrupt.{PciInterruptType, intx_interrupt, msix_handler, read_region}
use greens.Msix.Bar.{info_iter}
use greens.Function.{PciHandlerResult, handled, unhandled}
use greens.Routing.{mmio_access, pio_access, to_bar}
use greens.Composite.{
  on_interrupt, function_active_interrupt, function_read_config, signal_if_enabled,
  interrupt_access, function_read_bar, read_unless_handled, device_read_bar,
}
use greens.Virtio.Device.{VirtioPciDevice}
use greens.Virtio.CommonCfg.Read
use greens.Virtio.Handler
use greens.Virtio.Handler.{
  HandlerState, or_next, is_intx, signal_low, deassert, virtio_handler, read_common, read_device,
  read_notify, read_isr,
}
use greens.Virtio.PciCfg.{prepare_read, pci_cfg_data_offset}
use greens.Virtio.PciCfg.Laws.{Elsewhere, IsLawful, prepare_read-Elsewhere}
use greens.Virtio.Function.{
  VirtioInterrupts, Inner, Logged, interrupts, cfg_handler, virtio_read_config, virtio_get_bar,
  virtio_read_bar, read_outcome,
}
use greens.Virtio.Function.Keeps.{
  StatusOnly, Keeps, bind-Keeps, inspect-Keeps, signal-Keeps, tables_read-Keeps,
}

-- The accesses of the device handler.
module _ {D Q : Type 0} (ops : VirtioPciDevice D Q) where
  abbrev DeviceState : Type 0
  DeviceState = HandlerState D VirtioInterrupts

  -- A region's access, where it keeps.
  or_next-Keeps {ℓ} :
      {A : Type ℓ} (info : PciBarRegionInfo) (bar offset n : ℕ) (access : ℕ → Run DeviceState A)
      (next : Run DeviceState A) (s : DeviceState)
      → ((within : ℕ) → Keeps (λ t. t.0.config) (access within) s)
      → Keeps (λ t. t.0.config) next s
      → Keeps (λ t. t.0.config) (or_next info bar offset n access next) s
  unfolding or_next
  or_next-Keeps info bar offset n access next s p q =
      elim (Option-cases (offset_within_region info bar offset n)) [
        | inl out ↦ rw (out, or_next) q
        | inr (within, here) ↦ rw (here, or_next) (p within)
      ]

  deassert-Keeps :
      (active : PciInterruptType) (bytes : List ℕ) (s : DeviceState)
      → Keeps
          (λ t. t.0.config)
          (deassert ops (interrupt_access (virtio_handler ops) interrupts active) bytes)
          s
  unfolding deassert interrupt_access
  deassert-Keeps active bytes s = if-Keeps (is_intx active)
    where
      lowered :
          Keeps
            (λ t. t.0.config)
            (signal_low ops (interrupt_access (virtio_handler ops) interrupts active))
            s
      lowered =
          Ensures-bind {P = λ r. StatusOnly s.0.config r.0.1}
            (signal_if_enabled interrupts (intx_interrupt PciInterruptLineState.low)
              (s.1, s.0.config))
            (signal-Keeps PciInterruptLineState.low (s.1, s.0.config)) λ r p. on_ok p

      if-Keeps :
          (b : Bool)
          → Keeps
              (λ t. t.0.config)
              (if b
                then (signal_low ops (interrupt_access (virtio_handler ops) interrupts active)
                    >> return bytes)
                else return bytes)
              s
      if-Keeps true =
          bind-Keeps (λ t. t.0.config)
            (signal_low ops (interrupt_access (virtio_handler ops) interrupts active))
            (λ done. return bytes) s lowered (λ a t. on_ok λ j far. refl)
      if-Keeps false = on_ok λ j far. refl

  handler_read_bar-Keeps :
      (bar offset : ℕ) (buffer : List ℕ) (active : PciInterruptType) (s : DeviceState)
      → Keeps
          (λ t. t.0.config)
          (Handler.read_bar ops bar offset buffer
            (interrupt_access (virtio_handler ops) interrupts active))
          s
  unfolding Handler.read_bar read_common read_device read_notify read_isr
  handler_read_bar-Keeps bar offset buffer active s =
      let n = length buffer in
      or_next-Keeps s.0.common_cfg.info bar offset n (read_common ops n) _ s
        (λ within.
          Ensures-then (Read.read_bar ops s.0.device s.0.common_cfg within n)
            λ r. Ensures-then (as_returned r.1) λ outcome. on_ok λ j far. refl)
        (or_next-Keeps s.0.device_cfg bar offset n (read_device ops buffer) _ s
          (λ within. on_ok λ j far. refl)
          (or_next-Keeps s.0.notify_cfg.info bar offset n (read_notify ops buffer) _ s
            (λ within. on_ok λ j far. refl)
            (or_next-Keeps s.0.isr_cfg bar offset n
              (λ within.
                read_isr ops n within
                >>= deassert ops (interrupt_access (virtio_handler ops) interrupts active))
              _ s
              (λ within.
                bind-Keeps (λ t. t.0.config) (read_isr ops n within)
                  (deassert ops (interrupt_access (virtio_handler ops) interrupts active)) s
                  (on_ok λ j far. refl) (deassert-Keeps active))
              (on_ok λ j far. refl))))

  abbrev space_of : Inner D → PciConfigurationSpace
  space_of f = f.device.config

  -- The accesses to the tables of MSI-X keep the whole space.
  tables-Keeps :
      (bar offset : ℕ) (buffer : List ℕ) (f : Inner D)
      → Keeps space_of
          (on_interrupt (virtio_handler ops) interrupts (interrupts.read_bar bar offset buffer))
          f
  unfolding interrupts msix_handler
  tables-Keeps bar offset buffer f =
      Ensures-bind {P = λ r. StatusOnly f.device.config r.0.1}
        (interrupts.read_bar bar offset buffer (f.interrupt, f.device.config))
        (Ensures-bind {P = λ r. StatusOnly f.device.config r.0.1}
          (msix_handler.read_bar bar offset buffer (f.interrupt.msix_state, f.device.config))
          (Ensures-bind {P = λ r. StatusOnly f.device.config r.0.1}
            (handle_bar_set (info_iter f.interrupt.msix_state) read_region
              (f.interrupt.msix_state, f.device.config) bar offset buffer)
            (tables_read-Keeps f.interrupt.msix_state f.device.config bar offset buffer)
            λ r p. on_ok p)
          λ r p. on_ok p)
        λ r p. on_ok p

  device_read_bar-Keeps :
      (bar offset : ℕ) (buffer : List ℕ) (f : Inner D)
      → Keeps space_of (device_read_bar (virtio_handler ops) interrupts bar offset buffer) f
  unfolding device_read_bar
  device_read_bar-Keeps bar offset buffer f =
      bind-Keeps space_of (inspect (function_active_interrupt (virtio_handler ops) interrupts)) _ f
        (inspect-Keeps space_of (function_active_interrupt (virtio_handler ops) interrupts) f)
        λ active t.
          Ensures-bind {P = λ r. StatusOnly t.device.config r.0.0.config}
            (Handler.read_bar ops bar offset buffer
              (interrupt_access (virtio_handler ops) interrupts active) (t.device, t.interrupt))
            (handler_read_bar-Keeps bar offset buffer active (t.device, t.interrupt)) λ r p. on_ok p

  read_unless_handled-Keeps :
      (bar offset : ℕ) (buffer : List ℕ) (r : PciHandlerResult (Unit {0})) (f : Inner D)
      → Keeps space_of
          (read_unless_handled (virtio_handler ops) interrupts bar offset (buffer, r))
          f
  unfolding read_unless_handled
  read_unless_handled-Keeps bar offset buffer (handled u) f = on_ok λ j far. refl
  read_unless_handled-Keeps bar offset buffer unhandled f =
      device_read_bar-Keeps bar offset buffer f

  virtio_read_bar-Keeps :
      (bar offset : ℕ) (buffer : List ℕ) (f : Inner D)
      → Keeps space_of (virtio_read_bar ops bar offset buffer) f
  unfolding virtio_read_bar function_read_bar
  virtio_read_bar-Keeps bar offset buffer f =
      bind-Keeps space_of
        (on_interrupt (virtio_handler ops) interrupts (interrupts.read_bar bar offset buffer))
        (read_unless_handled (virtio_handler ops) interrupts bar offset) f
        (tables-Keeps bar offset buffer f) (λ r t. read_unless_handled-Keeps bar offset r.0 r.1 t)

  -- A read through the window: what it leaves, failed or not.
  read_outcome-Keeps :
      (s : Logged D) (buffer : List ℕ) (run : Result (Inner D × List Call × Returned (List ℕ)))
      → Ensures (λ r. StatusOnly (space_of s.0) (space_of r.0)) run
      → Ensures (λ r. StatusOnly (space_of s.0) (space_of r.0.0)) (read_outcome s buffer run)
  unfolding read_outcome
  read_outcome-Keeps s buffer run (on_ok {a} p) = by_returned a.0 a.1 a.2 p
    where
      by_returned :
          (f : Inner D) (calls : List Call) (r : Returned (List ℕ))
          → StatusOnly (space_of s.0) (space_of f)
          → Ensures
              (λ r. StatusOnly (space_of s.0) (space_of r.0.0))
              (read_outcome s buffer (ok (f, calls, r)))
      by_returned f calls (returned bytes) p = on_ok p
      by_returned f calls (raised e) p = on_ok p
  read_outcome-Keeps s buffer run on_err = on_ok λ j far. refl
  read_outcome-Keeps s buffer run on_panic = on_panic
  read_outcome-Keeps s buffer run on_out_of_fuel = on_out_of_fuel

  to_bar-Keeps :
      (s : Logged D) (address : ℕ) (buffer : List ℕ) (found : Option (ℕ × ℕ))
      → Ensures
          (λ r. StatusOnly (space_of s.0) (space_of r.0))
          (to_bar
            (virtio_get_bar ops s.0)
            address
            (length buffer)
            (λ bar offset. virtio_read_bar ops bar offset buffer s.0)
            found)
  unfolding to_bar
  to_bar-Keeps s address buffer none = on_err
  to_bar-Keeps s address buffer (some (bar, offset)) = virtio_read_bar-Keeps bar offset buffer s.0

  cfg_handler-IsLawful : (cap' : ℕ) → IsLawful (cfg_handler ops cap')
  unfolding cfg_handler mmio_access pio_access
  cfg_handler-IsLawful cap' = record {
    config-with_config = λ s c. refl;
    read_mmio_keeps = λ s address buffer.
        read_outcome-Keeps s buffer _ (Ensures-then _ λ found. to_bar-Keeps s address buffer found);
    read_pio_keeps = λ s port buffer.
        read_outcome-Keeps s buffer _ (Ensures-then _ λ found. to_bar-Keeps s port buffer found);
  }

  -- A read of the configuration space of the function that does not panic, at any offset and of any
  -- size, changes no byte of the space but the two of the status word and the four of the data of the
  -- configuration access window; also where it reads, through the window, a BAR of the function, which
  -- may signal an interrupt.
  pub virtio_read_config-Elsewhere :
      (cap' offset : ℕ) (buffer : List ℕ) (s : Logged D)
      → Ensures
          (λ r. Elsewhere (cap' + 14) s.0.device.config r.0.0.device.config)
          (virtio_read_config ops cap' offset buffer s)
  unfolding virtio_read_config function_read_config pci_cfg_data_offset
  virtio_read_config-Elsewhere cap' offset buffer s =
      Ensures-bind {P = λ p. Elsewhere (cap' + 14) s.0.device.config p.0.0.device.config}
        (prepare_read (cfg_handler ops cap') cap' s offset (length buffer))
        (prepare_read-Elsewhere (cfg_handler ops cap') (cfg_handler-IsLawful cap') s offset
          (length buffer))
        λ p kept. on_ok kept
