-- ===== src/Composite/Laws.antt =====
-- The composed function: the updates that a write returns are the updates that the device is told
-- of, and a write of the guest to the MSI-X table goes to the entry.
use greens.Base.{
  ℕ, ◌≡◌, refl, ◌∙◌, ap, Bool, true, false, List, [], ◌∷◌, ◌++◌, length, Option, none, some, ◌==◌,
  if◌then◌else◌, bit_and, bit_xor,
}
use greens.Error.{
  Result, ok, err, panic, out_of_fuel, bind, Ensures, on_ok, on_panic, on_out_of_fuel, Ensures-bind,
  Ensures-then,
}
use greens.Registers.{pci_command}
use greens.Config.{PciConfigurationSpace, read_word}
use greens.Config.Access.{write_checked}
use greens.Config.Bars.{bar_update_for_write}
use greens.Bar.{PciBar}
use greens.Function.{PciConfigurationUpdate, bar_update, space_changed}
use greens.Effects.{Call, Returned, returned, raised, Run, lift_result, inspect, continue, ◌>>=◌}
use greens.Interrupt.{PciInterruptHandler, Step, event_of}
use greens.Composite.{
  PciDeviceHandler, PciFunctionWithInterrupts, space_mask, on_interrupt, checked_write,
  store_config, write_hook, report, report_space, report_bar, report_event, function_write_config,
}

-- A device that also keeps the updates that it is told of, the last one first.
abbrev pub Logged : Type 0 → Type 0
Logged D = D × List PciConfigurationUpdate

abbrev pub logged : {D I : Type 0} → PciDeviceHandler D I → PciDeviceHandler (Logged D) I
logged device = record {
  config = λ d. device.config d.0;
  set_config = λ d c. (device.set_config d.0 c, d.1);
  on_write_config =
      λ offset size d. bind (device.on_write_config offset size d.0) λ r. ok ((r.0, d.1), r.1);
  prepare_read_config =
      λ offset size d. bind (device.prepare_read_config offset size d.0) λ t. ok (t, d.1);
  read_bar = λ bar offset buffer access s.
      bind (device.read_bar bar offset buffer access (s.0.0, s.1))
        λ r. ok (((r.0.0, s.0.1), r.0.1), r.1, r.2);
  write_bar = λ bar offset bytes access s.
      bind (device.write_bar bar offset bytes access (s.0.0, s.1))
        λ r. ok (((r.0.0, s.0.1), r.0.1), r.1, r.2);
  on_config_update = λ event d. bind (device.on_config_update event d.0) λ t. ok (t, event ∷ d.1);
}

-- The update that is returned, where one is.
abbrev pub told : Returned (Option PciConfigurationUpdate) → List PciConfigurationUpdate
told (returned (some event)) = event ∷ []
told (returned none) = []
told (raised e) = []

module _ {D I : Type 0} (device : PciDeviceHandler D I) (handler : PciInterruptHandler I) where
  abbrev F : Type 0
  F = PciFunctionWithInterrupts (Logged D) I

  -- A run that tells the device of nothing, and one that tells it of what it returns.
  abbrev Quiet : {A : Type 0} → Run F A → Type 0
  Quiet run = (f : F) → Ensures (λ r. r.0.device.1 ≡ f.device.1) (run f)

  abbrev Tells : Run F (Option PciConfigurationUpdate) → Type 0
  Tells run = (f : F) → Ensures (λ r. r.0.device.1 ≡ told r.2 ++ f.device.1) (run f)

  continue-Tells :
      {A : Type 0} (next : A → Run F (Option PciConfigurationUpdate)) (f : F)
      (r : F × List Call × Returned A)
      → r.0.device.1 ≡ f.device.1
      → ((a : A) → Tells (next a))
      → Ensures (λ s. s.0.device.1 ≡ told s.2 ++ f.device.1) (continue next r)
  continue-Tells next f (t, calls, raised e) q k = on_ok q
  continue-Tells next f (t, calls, returned a) q k =
      Ensures-bind (next a t) (k a t) (λ s p. on_ok (p ∙ ap (λ l. told s.2 ++ l) q))

  continue-Quiet :
      {A : Type 0} {B : Type 0} (next : A → Run F B) (f : F) (r : F × List Call × Returned A)
      → r.0.device.1 ≡ f.device.1
      → ((a : A) → Quiet (next a))
      → Ensures (λ s. s.0.device.1 ≡ f.device.1) (continue next r)
  continue-Quiet next f (t, calls, raised e) q k = on_ok q
  continue-Quiet next f (t, calls, returned a) q k =
      Ensures-bind (next a t) (k a t) (λ s p. on_ok (p ∙ q))

  bind-Tells :
      {A : Type 0} (first : Run F A) (next : A → Run F (Option PciConfigurationUpdate))
      → Quiet first
      → ((a : A) → Tells (next a))
      → Tells (first >>= next)
  bind-Tells first next q k f = Ensures-bind (first f) (q f) (λ r e. continue-Tells next f r e k)

  bind-Quiet :
      {A : Type 0} {B : Type 0} (first : Run F A) (next : A → Run F B)
      → Quiet first
      → ((a : A) → Quiet (next a))
      → Quiet (first >>= next)
  bind-Quiet first next q k f = Ensures-bind (first f) (q f) (λ r e. continue-Quiet next f r e k)

  inspect-Quiet : {A : Type 0} (look : F → Result A) → Quiet (inspect look)
  inspect-Quiet {A} look f = go (look f)
    where
      go : (r : Result A) → Ensures (λ s. s.0.device.1 ≡ f.device.1) (lift_result r f)
      go (ok a) = on_ok refl
      go (err e) = on_ok refl
      go panic = on_panic
      go out_of_fuel = on_out_of_fuel

  on_interrupt-Quiet :
      {A : Type 0} (step : Step I A) → Quiet (on_interrupt (logged device) handler step)
  on_interrupt-Quiet step f =
      Ensures-then (step (f.interrupt, device.config f.device.0)) (λ r. on_ok refl)

  stored-Quiet :
      (f : F) (r : Result PciConfigurationSpace)
      → Ensures (λ s. s.0.device.1 ≡ f.device.1) (store_config (logged device) handler f r)
  unfolding store_config
  stored-Quiet f (ok c) = on_ok refl
  stored-Quiet f (err e) = on_ok refl
  stored-Quiet f panic = on_panic
  stored-Quiet f out_of_fuel = on_out_of_fuel

  checked_write-Quiet :
      (offset : ℕ) (bytes : List ℕ) → Quiet (checked_write (logged device) handler offset bytes)
  unfolding checked_write
  checked_write-Quiet offset bytes f =
      stored-Quiet f (write_checked (device.config f.device.0) offset bytes)

  write_hook-Quiet : (offset size : ℕ) → Quiet (write_hook (logged device) handler offset size)
  unfolding write_hook
  write_hook-Quiet offset size f =
      Ensures-bind {P = λ r. r.0.1 ≡ f.device.1} _
        (Ensures-then (device.on_write_config offset size f.device.0) (λ r. on_ok refl))
        (λ r e. on_ok e)

  report-Tells : (event : PciConfigurationUpdate) → Tells (report (logged device) handler event)
  unfolding report
  report-Tells event f =
      Ensures-bind {P = λ d. d.1 ≡ event ∷ f.device.1} _
        (Ensures-then (device.on_config_update event f.device.0) (λ d. on_ok refl)) (λ d e. on_ok e)

  if-Tells :
      (b : Bool) {x y : Run F (Option PciConfigurationUpdate)}
      → Tells x
      → Tells y
      → Tells (if b then x else y)
  if-Tells true p q = p
  if-Tells false p q = q

  none-Tells : Tells (λ f. ok (f, [], returned none))
  none-Tells f = on_ok {a = (f, [], returned none)} refl

  report_space-Tells : (prev : ℕ) → Tells (report_space (logged device) handler prev)
  unfolding report_space
  report_space-Tells prev =
      bind-Tells _ _ (inspect-Quiet (λ f. read_word (device.config f.device.0) pci_command)) λ new.
        if-Tells (bit_and (bit_xor prev new) space_mask == 0) none-Tells
          (report-Tells space_changed)

  report_bar-Tells :
      (prev : ℕ) (o : Option PciBar) → Tells (report_bar (logged device) handler prev o)
  unfolding report_bar
  report_bar-Tells prev (some bar) = report-Tells (bar_update bar)
  report_bar-Tells prev none = report_space-Tells prev

  report_event-Tells :
      (offset prev : ℕ) (o : Option PciConfigurationUpdate)
      → Tells (report_event (logged device) handler offset prev o)
  unfolding report_event
  report_event-Tells offset prev (some event) = report-Tells event
  report_event-Tells offset prev none =
      bind-Tells _ _ (inspect-Quiet (λ f. bar_update_for_write (device.config f.device.0) offset))
        (report_bar-Tells prev)

  -- Of a write to the configuration space the device is told exactly the update that the write
  -- returns: one where it returns one, none where it returns none or an error, whatever the device
  -- and the interrupt handler do.
  pub function_write_config-Tells :
      (offset : ℕ) (bytes : List ℕ) (f : PciFunctionWithInterrupts (Logged D) I)
      → Ensures
          (λ r. r.0.device.1 ≡ told r.2 ++ f.device.1)
          (function_write_config (logged device) handler offset bytes f)
  unfolding function_write_config
  function_write_config-Tells offset bytes =
      bind-Tells _ _ (inspect-Quiet (λ f. read_word (device.config f.device.0) pci_command)) λ prev.
        bind-Tells _ _
          (bind-Quiet _ _
            (bind-Quiet _ _ (checked_write-Quiet offset bytes)
              (λ _. write_hook-Quiet offset (length bytes)))
            (λ _. on_interrupt-Quiet (handler.on_write_config offset (length bytes))))
          (λ r. report_event-Tells offset prev (event_of r))
