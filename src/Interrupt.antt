-- ===== src/Interrupt.antt =====
-- interrupt.rs: the handlers of the three interrupt mechanisms of a function, and the context that
-- composes them.
pub mod Context
use greens.Base.{
  ℕ, Bool, true, false, not, List, [], ◌∷◌, length, map, Option, none, some, if◌then◌else◌,
}
use greens.Error.{Result, ok, err, panic, out_of_fuel, bind, interrupt_type_mismatch}
use greens.Config.{PciConfigurationSpace}
use greens.Function.{PciMsiMessage, PciConfigurationUpdate, PciHandlerResult, handled, unhandled}
use greens.BarRegion.{Access, handle_bar_set}
use greens.Intx.{
  PciInterruptLineState, PciIntx, interrupts_disabled, signal_intx, intx_on_write_config,
}
use greens.Msi.Source.{
  PciMsiMessageSource, Generation, is_masked, generated, failed, try_generate_message, pci_msi,
  msi_is_enabled,
}
use greens.Msi.Handler
use greens.Msi.Handler.{HandlerOutcome, done, refused}
use greens.Msix.{PciMsiX}
use greens.Msix.Source.{pci_msi_x, msix_is_enabled}
use greens.Msix.Handler.{msix_on_write_config}
use greens.Msix.Bar.{MsiXBarRegion, info_iter, msix_read_bar, msix_write_bar}
use greens.Effects.{
  Call, set_interrupt, send_msi, Returned, returned, raised, Run, return, raise, inspect, zoom,
  ◌>>=◌,
}

pub data PciInterruptType : Type 0 where
  intx msi msi_x no_interrupt : PciInterruptType

pub data PciInterrupt : Type 0 where
  intx_interrupt : PciInterruptLineState → PciInterrupt
  msi_interrupt : ℕ → PciInterrupt

-- A run of a handler with the state `S`, on the configuration space too.
abbrev pub Step {ℓ} : Type 0 → Type ℓ → Type ℓ
Step S A = Run (S × PciConfigurationSpace) A

-- The traits `InterruptSignaler`, `InterruptConfigHandler` and `InterruptBarHandler` of a handler
-- with the state `S`. A read returns the data that it leaves in the buffer that it is given.
pub record PciInterruptHandler (S : Type 0) : Type 0 where
  pub is_enabled : S → PciConfigurationSpace → Result Bool
  pub active_interrupt : S → PciConfigurationSpace → Result PciInterruptType
  pub signal : PciInterrupt → Step S (Unit {0})
  pub on_write_config : ℕ → ℕ → Step S (PciHandlerResult (Option PciConfigurationUpdate))
  pub read_bar : ℕ → ℕ → List ℕ → Step S (List ℕ × PciHandlerResult (Unit {0}))
  pub write_bar : ℕ → ℕ → List ℕ → Step S (PciHandlerResult (Option PciConfigurationUpdate))

-- The defaults of the traits, which `NoInterrupt` keeps.
abbrev pub default_handler : (S : Type 0) → PciInterruptHandler S
default_handler S = record {
  is_enabled = λ s c. ok false;
  active_interrupt = λ s c. ok PciInterruptType.no_interrupt;
  signal = λ interrupt. return tt;
  on_write_config = λ offset size. return unhandled;
  read_bar = λ bar offset buffer. return (buffer, unhandled);
  write_bar = λ bar offset bytes. return unhandled;
}

abbrev pub no_interrupt_handler : PciInterruptHandler (Unit {0})
no_interrupt_handler = default_handler (Unit {0})

-- `handle_msi_generation`: only a generated message is sent.
unfoldable pub handle_msi_generation :
    {S : Type 0} → S × Generation → Result (S × List Call × Returned (Unit {0}))
handle_msi_generation (s, generated message) = ok (s, send_msi message ∷ [], returned tt)
handle_msi_generation (s, is_masked) = ok (s, [], returned tt)
handle_msi_generation (s, failed e) = ok (s, [], raised e)

unfoldable pub handle_msi : {S : Type 0} → PciMsiMessageSource S → PciInterrupt → Step S (Unit {0})
unfolding handle_msi_generation
handle_msi source (msi_interrupt vector) (s, c) =
    bind (try_generate_message source s c vector) handle_msi_generation
handle_msi source (intx_interrupt level) s = raise interrupt_type_mismatch s

unfoldable pub intx_calls : List (ℕ × PciInterruptLineState) → List Call
intx_calls calls = map (λ call. set_interrupt call.0 call.1) calls

unfoldable pub handle_intx : PciInterrupt → Step PciIntx (Unit {0})
unfolding intx_calls
handle_intx (intx_interrupt level) (intx', c) =
    bind (signal_intx c intx' level) λ r. ok ((intx', r.0), intx_calls r.1, returned tt)
handle_intx (msi_interrupt vector) s = raise interrupt_type_mismatch s

unfoldable pub intx_handler : PciInterruptHandler PciIntx
unfolding handle_intx
intx_handler = record (default_handler PciIntx) {
  is_enabled = λ intx' c. bind (interrupts_disabled c) λ disabled. ok (not disabled);
  active_interrupt = λ intx' c. bind (interrupts_disabled c) λ disabled.
      ok (if not disabled then PciInterruptType.intx else PciInterruptType.no_interrupt);
  signal = handle_intx;
  on_write_config = λ offset size (intx', c).
      bind (intx_on_write_config c intx' offset size)
        λ r. ok ((r.0, c), intx_calls r.1, returned (handled none));
}

-- What the handler of msi.rs returns.
unfoldable pub msi_outcome :
    HandlerOutcome → Returned (PciHandlerResult (Option PciConfigurationUpdate))
msi_outcome (done r) = returned r
msi_outcome (refused e) = raised e

-- The state is the offset of the capability. `active_interrupt` is the default.
unfoldable pub msi_handler : PciInterruptHandler ℕ
unfolding handle_msi msi_outcome
msi_handler = record (default_handler ℕ) {
  is_enabled = msi_is_enabled;
  signal = handle_msi pci_msi;
  on_write_config = λ offset size (msi', c).
      bind (Handler.on_write_config msi' c offset size)
        λ r. ok ((msi', r.0), map send_msi r.1, msi_outcome r.2);
}

-- The `map` of the result of `on_write_config` of msix.rs.
unfoldable pub without_update :
    PciHandlerResult (Unit {0}) → PciHandlerResult (Option PciConfigurationUpdate)
without_update (handled r) = handled none
without_update unhandled = unhandled

-- The accesses to the regions of the tables.
unfoldable pub read_region : MsiXBarRegion → Access (PciMsiX × PciConfigurationSpace) (Unit {0})
read_region region (msix, c) within buffer =
    bind (msix_read_bar msix region within (length buffer)) λ bytes. ok ((msix, c), bytes, tt)

unfoldable pub write_region :
    MsiXBarRegion
    → Access
        (PciMsiX × PciConfigurationSpace)
        (List PciMsiMessage × Returned (Option PciConfigurationUpdate))
write_region region (msix, c) within bytes =
    bind (msix_write_bar msix c region within bytes) λ w. ok (w.0, bytes, (w.1, w.2))

-- The outcome of a write of a region, as a step: the messages are sent.
unfoldable pub written :
    (PciMsiX × PciConfigurationSpace)
      × List ℕ
      × PciHandlerResult (List PciMsiMessage × Returned (Option PciConfigurationUpdate))
    → Result (
        (PciMsiX × PciConfigurationSpace)
        × List Call
        × Returned (PciHandlerResult (Option PciConfigurationUpdate)))
written (t, bytes, unhandled) = ok (t, [], returned unhandled)
written (t, bytes, handled (messages, returned update)) =
    ok (t, map send_msi messages, returned (handled update))
written (t, bytes, handled (messages, raised e)) = ok (t, map send_msi messages, raised e)

unfoldable pub msix_handler : PciInterruptHandler PciMsiX
unfolding handle_msi without_update read_region write_region written
msix_handler = record {
  is_enabled = msix_is_enabled;
  active_interrupt = λ msix c.
      bind (msix_is_enabled msix c)
        λ enabled. ok (if enabled then PciInterruptType.msi_x else PciInterruptType.no_interrupt);
  signal = handle_msi pci_msi_x;
  on_write_config = λ offset size (msix, c).
      bind (msix_on_write_config msix c offset size)
        λ r. ok (r.0, map send_msi r.1, returned (without_update r.2));
  read_bar = λ bar offset buffer (msix, c).
      bind (handle_bar_set (info_iter msix) read_region (msix, c) bar offset buffer)
        λ r. ok (r.0, [], returned (r.1, r.2));
  write_bar = λ bar offset bytes (msix, c).
      bind (handle_bar_set (info_iter msix) write_region (msix, c) bar offset bytes) written;
}

-- `PciInterruptContext`, with the states of its handlers.
pub record PciInterruptContext (Ix Ms Mx : Type 0) : Type 0 where
  pub intx_state : Ix
  pub msi_state : Ms
  pub msix_state : Mx

module _ {Ix Ms Mx : Type 0} where
  -- Steps of one of the handlers.
  abbrev pub on_intx {ℓ} : {A : Type ℓ} → Step Ix A → Step (PciInterruptContext Ix Ms Mx) A
  on_intx = zoom (λ s. (s.0.intx_state, s.1)) (λ s t. (record s.0 { intx_state = t.0 }, t.1))

  abbrev pub on_msi {ℓ} : {A : Type ℓ} → Step Ms A → Step (PciInterruptContext Ix Ms Mx) A
  on_msi = zoom (λ s. (s.0.msi_state, s.1)) (λ s t. (record s.0 { msi_state = t.0 }, t.1))

  abbrev pub on_msix {ℓ} : {A : Type ℓ} → Step Mx A → Step (PciInterruptContext Ix Ms Mx) A
  on_msix = zoom (λ s. (s.0.msix_state, s.1)) (λ s t. (record s.0 { msix_state = t.0 }, t.1))

-- The update of a write that was handled with one.
abbrev pub event_of :
    PciHandlerResult (Option PciConfigurationUpdate) → Option PciConfigurationUpdate
event_of (handled event) = event
event_of unhandled = none

module _ {Ix Ms Mx : Type 0} (ix : PciInterruptHandler Ix) (ms : PciInterruptHandler Ms)
    (mx : PciInterruptHandler Mx) where
  unfoldable pub context_is_enabled :
      PciInterruptContext Ix Ms Mx → PciConfigurationSpace → Result Bool
  context_is_enabled s c = bind (mx.is_enabled s.msix_state c) λ msix_enabled.
      if msix_enabled
      then ok true
      else bind (ms.is_enabled s.msi_state c)
          λ msi_enabled. if msi_enabled then ok true else ix.is_enabled s.intx_state c

  unfoldable pub context_active_interrupt :
      PciInterruptContext Ix Ms Mx → PciConfigurationSpace → Result PciInterruptType
  context_active_interrupt s c = bind (mx.is_enabled s.msix_state c) λ msix_enabled.
      if msix_enabled
      then ok PciInterruptType.msi_x
      else bind (ms.is_enabled s.msi_state c) λ msi_enabled.
        if msi_enabled
        then ok PciInterruptType.msi
        else bind (ix.is_enabled s.intx_state c) λ intx_enabled.
          ok (if intx_enabled then PciInterruptType.intx else PciInterruptType.no_interrupt)

  -- The handler of an interrupt type signals.
  unfoldable pub signal_by :
      PciInterrupt → PciInterruptType → Step (PciInterruptContext Ix Ms Mx) (Unit {0})
  signal_by interrupt PciInterruptType.intx = on_intx (ix.signal interrupt)
  signal_by interrupt PciInterruptType.msi = on_msi (ms.signal interrupt)
  signal_by interrupt PciInterruptType.msi_x = on_msix (mx.signal interrupt)
  signal_by interrupt PciInterruptType.no_interrupt = return tt

  unfoldable pub context_signal : PciInterrupt → Step (PciInterruptContext Ix Ms Mx) (Unit {0})
  unfolding context_active_interrupt signal_by
  context_signal interrupt = inspect (λ s. context_active_interrupt s.0 s.1) >>= signal_by interrupt

  -- The MSI-X handler is called only where the MSI handler has not returned an update.
  unfoldable pub after_msi :
      ℕ
      → ℕ
      → Option PciConfigurationUpdate
      → Step (PciInterruptContext Ix Ms Mx) (PciHandlerResult (Option PciConfigurationUpdate))
  after_msi offset size (some event) = return (handled (some event))
  after_msi offset size none =
      on_msix (mx.on_write_config offset size) >>= λ r. return (handled (event_of r))

  unfoldable pub context_on_write_config :
      ℕ → ℕ → Step (PciInterruptContext Ix Ms Mx) (PciHandlerResult (Option PciConfigurationUpdate))
  unfolding after_msi
  context_on_write_config offset size = on_intx (ix.on_write_config offset size) >>= λ _.
      on_msi (ms.on_write_config offset size) >>= λ r. after_msi offset size (event_of r)

  -- The composed handler. Accesses to BARs go to the MSI-X handler.
  abbrev pub context_handler : PciInterruptHandler (PciInterruptContext Ix Ms Mx)
  context_handler = record {
    is_enabled = context_is_enabled;
    active_interrupt = context_active_interrupt;
    signal = context_signal;
    on_write_config = context_on_write_config;
    read_bar = λ bar offset buffer. on_msix (mx.read_bar bar offset buffer);
    write_bar = λ bar offset bytes. on_msix (mx.write_bar bar offset bytes);
  }
