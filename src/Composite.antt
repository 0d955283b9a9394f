-- ===== src/Composite.antt =====
-- `PciFunctionWithInterrupts` of function.rs: a device, which owns the configuration space, composed
-- with an interrupt handler and the interrupt controller.
pub mod Laws
pub mod Msix
use greens.Base.{
  ℕ, bit_and, bit_or, bit_xor, Bool, true, false, not, List, [], length, Option, none, some, ◌==◌,
  if◌then◌else◌,
}
use greens.Error.{Result, ok, err, panic, out_of_fuel, bind}
use greens.Registers.{pci_command, pci_command_io_space_mask, pci_command_mem_space_mask}
use greens.Config.{PciConfigurationSpace, read_word}
use greens.Config.Access.{read_checked, write_checked}
use greens.Config.Bars
use greens.Config.Bars.{bar_update_for_write}
use greens.Bar.{PciBar}
use greens.Function.{
  PciConfigurationUpdate, bar_update, space_changed, PciHandlerResult, handled, unhandled,
}
use greens.Effects.{
  Call, Returned, returned, raised, Run, return, raise, lift_result, inspect, zoom, ◌>>=◌, ◌>>◌,
}
use greens.Interrupt.{PciInterrupt, PciInterruptType, PciInterruptHandler, Step, event_of}

-- `PciInterruptAccess`: what a device may do with the interrupts of a handler with the state `I`
-- during an access to a BAR.
pub record PciInterruptAccess (I : Type 0) : Type 0 where
  pub active : PciInterruptType
  pub signal : PciInterrupt → Step I (Unit {0})

-- The traits `PciFunctionConfigAccessor` and `PciDeviceHandler` of a device with the state `D`. A
-- change through `config_mut` is a `set_config`. The hooks do not reach the controller.
pub record PciDeviceHandler (D I : Type 0) : Type 0 where
  pub config : D → PciConfigurationSpace
  pub set_config : D → PciConfigurationSpace → D
  pub on_write_config : ℕ → ℕ → D → Result (D × Returned (Unit {0}))
  pub prepare_read_config : ℕ → ℕ → D → Result D
  pub read_bar : ℕ → ℕ → List ℕ → PciInterruptAccess I → Run (D × I) (List ℕ)
  pub write_bar : ℕ → ℕ → List ℕ → PciInterruptAccess I → Run (D × I) (Unit {0})
  pub on_config_update : PciConfigurationUpdate → D → Result D

pub record PciFunctionWithInterrupts (D I : Type 0) : Type 0 where
  pub device : D
  pub interrupt : I

-- The bits of the command register that connect the BARs.
abbrev pub space_mask : ℕ
space_mask = bit_or pci_command_io_space_mask pci_command_mem_space_mask

-- `if self.interrupt.is_enabled(config) { signal } else { Ok(()) }`.
unfoldable pub signal_if_enabled :
    {I : Type 0} → PciInterruptHandler I → PciInterrupt → Step I (Unit {0})
signal_if_enabled handler irq = inspect (λ s. handler.is_enabled s.0 s.1) >>= λ enabled.
    if enabled then handler.signal irq else return tt

module _ {D I : Type 0} (device : PciDeviceHandler D I) (handler : PciInterruptHandler I) where
  abbrev Function : Type 0
  Function = PciFunctionWithInterrupts D I

  abbrev config_of : Function → PciConfigurationSpace
  config_of f = device.config f.device

  -- A step of the interrupt handler, on the configuration space of the device.
  abbrev pub on_interrupt {ℓ} : {A : Type ℓ} → Step I A → Run Function A
  on_interrupt =
      zoom (λ f. (f.interrupt, config_of f))
        (λ f t. record { device = device.set_config f.device t.1; interrupt = t.0 })

  -- A run of the device and the handler's state.
  abbrev pub on_both {ℓ} : {A : Type ℓ} → Run (D × I) A → Run Function A
  on_both = zoom (λ f. (f.device, f.interrupt)) (λ f t. record { device = t.0; interrupt = t.1 })

  unfoldable pub function_active_interrupt : Function → Result PciInterruptType
  function_active_interrupt f = handler.active_interrupt f.interrupt (config_of f)

  unfoldable pub signal_interrupt : PciInterrupt → Run Function (Unit {0})
  unfolding signal_if_enabled
  signal_interrupt irq = on_interrupt (signal_if_enabled handler irq)

  -- The data that a read leaves in its buffer, and what it returns.
  unfoldable pub function_read_config :
      ℕ → List ℕ → Function → Result (Function × List ℕ × Result (Unit {0}))
  function_read_config offset buffer f =
      bind (device.prepare_read_config offset (length buffer) f.device) λ d.
        let (after, outcome) = read_checked (device.config d) offset buffer in
        ok (record f { device = d }, after, outcome)

  -- `self.device.config_mut().write_checked(..)?`.
  unfoldable pub store_config :
      Function → Result PciConfigurationSpace → Result (Function × List Call × Returned (Unit {0}))
  store_config f (ok c) = ok (record f { device = device.set_config f.device c }, [], returned tt)
  store_config f (err e) = ok (f, [], raised e)
  store_config f panic = panic
  store_config f out_of_fuel = out_of_fuel

  unfoldable pub checked_write : ℕ → List ℕ → Run Function (Unit {0})
  unfolding store_config
  checked_write offset bytes f = store_config f (write_checked (config_of f) offset bytes)

  unfoldable pub write_hook : ℕ → ℕ → Run Function (Unit {0})
  write_hook offset size f =
      bind (device.on_write_config offset size f.device)
        λ r. ok (record f { device = r.0 }, [], r.1)

  -- `self.device.on_config_update(event)`, and the event is returned.
  unfoldable pub report : PciConfigurationUpdate → Run Function (Option PciConfigurationUpdate)
  report event f =
      bind (device.on_config_update event f.device)
        λ d. ok (record f { device = d }, [], returned (some event))

  -- The part of `write_config` after the BARs: the space bits before and after.
  unfoldable pub report_space : ℕ → Run Function (Option PciConfigurationUpdate)
  unfolding report
  report_space prev_command = inspect (λ f. read_word (config_of f) pci_command) >>= λ new_command.
      if bit_and (bit_xor prev_command new_command) space_mask == 0
      then return none
      else report space_changed

  unfoldable pub report_bar : ℕ → Option PciBar → Run Function (Option PciConfigurationUpdate)
  unfolding report report_space
  report_bar prev_command (some bar) = report (bar_update bar)
  report_bar prev_command none = report_space prev_command

  -- The part after the interrupts, and where they gave an event.
  unfoldable pub report_event :
      ℕ → ℕ → Option PciConfigurationUpdate → Run Function (Option PciConfigurationUpdate)
  unfolding report report_bar
  report_event offset prev_command (some event) = report event
  report_event offset prev_command none =
      inspect (λ f. bar_update_for_write (config_of f) offset) >>= report_bar prev_command

  unfoldable pub function_write_config : ℕ → List ℕ → Run Function (Option PciConfigurationUpdate)
  unfolding checked_write write_hook report_event
  function_write_config offset bytes =
      inspect (λ f. read_word (config_of f) pci_command) >>= λ prev_command.
      checked_write offset bytes
      >> write_hook offset (length bytes)
      >> on_interrupt (handler.on_write_config offset (length bytes))
      >>= λ r. report_event offset prev_command (event_of r)

  unfoldable pub function_get_bar : Function → ℕ → Result (Option PciBar)
  function_get_bar f index = Bars.get_bar (config_of f) index

  -- The access that a device is given.
  unfoldable pub interrupt_access : PciInterruptType → PciInterruptAccess I
  interrupt_access active = record { active = active; signal = signal_if_enabled handler }

  unfoldable pub device_read_bar : ℕ → ℕ → List ℕ → Run Function (List ℕ)
  unfolding interrupt_access
  device_read_bar bar offset buffer = inspect function_active_interrupt >>= λ active.
      on_both (device.read_bar bar offset buffer (interrupt_access active))

  -- A read that the interrupt handler has not handled is the device's.
  unfoldable pub read_unless_handled :
      ℕ → ℕ → List ℕ × PciHandlerResult (Unit {0}) → Run Function (List ℕ)
  unfolding device_read_bar
  read_unless_handled bar offset (buffer, handled _) = return buffer
  read_unless_handled bar offset (buffer, unhandled) = device_read_bar bar offset buffer

  unfoldable pub function_read_bar : ℕ → ℕ → List ℕ → Run Function (List ℕ)
  unfolding read_unless_handled
  function_read_bar bar offset buffer =
      on_interrupt (handler.read_bar bar offset buffer) >>= read_unless_handled bar offset

  unfoldable pub device_write_bar : ℕ → ℕ → List ℕ → Run Function (Option PciConfigurationUpdate)
  unfolding interrupt_access
  device_write_bar bar offset bytes = inspect function_active_interrupt >>= λ active.
      on_both (device.write_bar bar offset bytes (interrupt_access active)) >> return none

  unfoldable pub write_unless_handled :
      ℕ
      → ℕ
      → List ℕ
      → PciHandlerResult (Option PciConfigurationUpdate)
      → Run Function (Option PciConfigurationUpdate)
  unfolding device_write_bar report
  write_unless_handled bar offset bytes (handled (some event)) = report event
  write_unless_handled bar offset bytes (handled none) = return none
  write_unless_handled bar offset bytes unhandled = device_write_bar bar offset bytes

  unfoldable pub function_write_bar : ℕ → ℕ → List ℕ → Run Function (Option PciConfigurationUpdate)
  unfolding write_unless_handled
  function_write_bar bar offset bytes =
      on_interrupt (handler.write_bar bar offset bytes) >>= write_unless_handled bar offset bytes
