-- ===== src/Virtio/Function.antt =====
-- pci.rs: `VirtioPciFunction`, a virtio device handler with its interrupts and the configuration access
-- window, which reaches the function's own BARs.
pub mod Keeps
pub mod Laws
use greens.Base.{ℕ, Bool, true, false, List, [], ◌++◌, length, Option, some, none}
use greens.Error.{Result, ok, err, panic, out_of_fuel, bind}
use greens.Bar.{PciBar}
use greens.Config.{PciConfigurationSpace}
use greens.Config.Bars
use greens.Function.{PciConfigurationUpdate}
use greens.Effects.{Call, Returned, returned, raised, Run}
use greens.Intx.{PciIntx}
use greens.Msix.{PciMsiX}
use greens.Interrupt.{
  PciInterruptContext, PciInterruptHandler, context_handler, intx_handler, no_interrupt_handler,
  msix_handler,
}
use greens.Routing.{mmio_access, pio_access}
use greens.Composite.{
  PciFunctionWithInterrupts, function_read_config, function_write_config, function_get_bar,
  function_read_bar, function_write_bar,
}
use greens.Virtio.Device.{VirtioPciDevice}
use greens.Virtio.Handler.{VirtioDeviceHandler, virtio_handler}
use greens.Virtio.PciCfg.{VirtioPciCfgHandler, prepare_read, process_write}

-- `VirtioInterruptContext`.
abbrev pub VirtioInterrupts : Type 0
VirtioInterrupts = PciInterruptContext PciIntx (Unit {0}) PciMsiX

unfoldable pub interrupts : PciInterruptHandler VirtioInterrupts
interrupts = context_handler intx_handler no_interrupt_handler msix_handler

-- The `inner` of a `VirtioPciFunction`; `pci_cfg` is the offset of the capability, an argument.
abbrev pub Inner : Type 0 → Type 0
Inner D = PciFunctionWithInterrupts (VirtioDeviceHandler D) VirtioInterrupts

-- The function and the calls of the controller that it has made.
abbrev pub Logged : Type 0 → Type 0
Logged D = Inner D × List Call

-- The outcome of a read through the window: the buffer of a failed one is not used.
unfoldable pub read_outcome :
    {D : Type 0}
    → Logged D
    → List ℕ
    → Result (Inner D × List Call × Returned (List ℕ))
    → Result (Logged D × List ℕ × Bool)
read_outcome s buffer (ok (f, calls, returned bytes)) = ok ((f, s.1 ++ calls), bytes, true)
read_outcome s buffer (ok (f, calls, raised e)) = ok ((f, s.1 ++ calls), buffer, false)
read_outcome s buffer (err e) = ok (s, buffer, false)
read_outcome s buffer panic = panic
read_outcome s buffer out_of_fuel = out_of_fuel

-- That of a write, whose result is dropped.
unfoldable pub write_outcome :
    {D : Type 0}
    → Logged D
    → Result (Inner D × List Call × Returned (Option PciConfigurationUpdate))
    → Result (Logged D)
write_outcome s (ok (f, calls, r)) = ok (f, s.1 ++ calls)
write_outcome s (err e) = ok s
write_outcome s panic = panic
write_outcome s out_of_fuel = out_of_fuel

module _ {D Q : Type 0} (ops : VirtioPciDevice D Q) where
  unfoldable pub virtio_get_bar : Inner D → ℕ → Result (Option PciBar)
  unfolding interrupts
  virtio_get_bar f index = function_get_bar (virtio_handler ops) interrupts f index

  unfoldable pub virtio_read_bar : ℕ → ℕ → List ℕ → Run (Inner D) (List ℕ)
  unfolding interrupts
  virtio_read_bar bar offset buffer =
      function_read_bar (virtio_handler ops) interrupts bar offset buffer

  unfoldable pub virtio_write_bar : ℕ → ℕ → List ℕ → Run (Inner D) (Option PciConfigurationUpdate)
  unfolding interrupts
  virtio_write_bar bar offset bytes =
      function_write_bar (virtio_handler ops) interrupts bar offset bytes

  -- The function as the one that has the capability at `cap'`: the accesses to addresses and ports
  -- are those of the trait `PciFunction`.
  unfoldable pub cfg_handler : ℕ → VirtioPciCfgHandler (Logged D)
  unfolding read_outcome write_outcome virtio_get_bar virtio_read_bar virtio_write_bar
  cfg_handler cap' = record {
    config = λ s. s.0.device.config;
    with_config = λ s c. (record s.0 { device = record s.0.device { config = c } }, s.1);
    get_bar = λ s index. virtio_get_bar s.0 index;
    read_mmio = λ s address buffer. read_outcome s buffer (
        mmio_access (virtio_get_bar s.0) address (length buffer)
          λ bar offset. virtio_read_bar bar offset buffer s.0);
    write_mmio = λ s address bytes. write_outcome s (
        mmio_access (virtio_get_bar s.0) address (length bytes)
          λ bar offset. virtio_write_bar bar offset bytes s.0);
    read_pio = λ s port buffer. read_outcome s buffer (
        pio_access (virtio_get_bar s.0) port (length buffer)
          λ bar offset. virtio_read_bar bar offset buffer s.0);
    write_pio = λ s port bytes. write_outcome s (
        pio_access (virtio_get_bar s.0) port (length bytes)
          λ bar offset. virtio_write_bar bar offset bytes s.0);
    pci_cfg_cap = cap';
  }

  -- `read_config`: the window first refreshes its data.
  unfoldable pub virtio_read_config :
      ℕ → ℕ → List ℕ → Logged D → Result (Logged D × List ℕ × Result (Unit {0}))
  unfolding cfg_handler interrupts
  virtio_read_config cap' offset buffer s =
      bind (prepare_read (cfg_handler cap') cap' s offset (length buffer)) λ p.
        bind (function_read_config (virtio_handler ops) interrupts offset buffer p.0.0)
          λ r. ok ((r.0, p.0.1), r.1, r.2)

  -- After the write of the function, unless that has failed, the window acts on it.
  unfoldable pub after_write :
      ℕ
      → ℕ
      → ℕ
      → Logged D
      → Returned (Option PciConfigurationUpdate)
      → Result (Logged D × Returned (Option PciConfigurationUpdate))
  unfolding cfg_handler
  after_write cap' offset size s (returned update) =
      bind (process_write (cfg_handler cap') cap' s offset size) λ p. ok (p.0, returned update)
  after_write cap' offset size s (raised e) = ok (s, raised e)

  unfoldable pub virtio_write_config :
      ℕ → ℕ → List ℕ → Logged D → Result (Logged D × Returned (Option PciConfigurationUpdate))
  unfolding after_write interrupts
  virtio_write_config cap' offset bytes s =
      bind (function_write_config (virtio_handler ops) interrupts offset bytes s.0)
        λ w. after_write cap' offset (length bytes) (w.0, s.1 ++ w.1) w.2
