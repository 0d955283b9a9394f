-- ===== src/Virtio/Function/Keeps.antt =====
-- Runs that change the status word of the configuration space at most: those of the interrupts of a
-- virtio function, for a level of the line, and the reads of the tables of MSI-X.
use greens.Base.{
  ℕ, ◌≤◌, ◌<◌, ◌≡◌, refl, ◌∙◌, Bool, true, false, not, ◌&&◌, if◌then◌else◌, ◌⊎◌, List, length,
  get_or, inl, inr, Option-cases,
}
use greens.Base.Slices.{get_or-splice_before, get_or-splice_after}
use greens.Word.{to_le_bytes, length-to_le_bytes}
use greens.Error.{
  Result, ok, err, panic, out_of_fuel, Ensures, Ensures-bind, Ensures-then, Ensures_lem, if-Ensures,
  on_ok, on_panic, on_out_of_fuel,
}
use greens.Registers.{pci_status}
use greens.Utils.RegisterBlock
use greens.Utils.RegisterBlock.Laws.{set_keeps}
use greens.Config.{PciConfigurationSpace, read_word, set_word, set}
use greens.BarRegion.{handle_bar_set, find_region}
use greens.Effects.{
  Call, Returned, returned, raised, Run, return, continue, inspect, lift_result, ◌>>=◌,
}
use greens.Intx.{
  PciIntx, PciInterruptLineState, signal_intx, update_interrupt_status, status_at,
  interrupts_disabled, interrupt_line,
}
use greens.Interrupt.{
  PciInterruptType, intx_interrupt, handle_intx, intx_handler, no_interrupt_handler, msix_handler,
  read_region, handle_msi, context_signal, context_active_interrupt, signal_by,
}
use greens.Msix.{PciMsiX}
use greens.Msix.Bar.{info_iter, msix_read_bar}
use greens.Composite.{signal_if_enabled}
use greens.Virtio.PciCfg.Laws.{Outside}
use greens.Virtio.Function.{VirtioInterrupts, interrupts}

-- Every byte but the status word is the same.
abbrev pub StatusOnly : PciConfigurationSpace → PciConfigurationSpace → Type 0
StatusOnly c d = Outside 6 2 c d

set_status-StatusOnly :
    (c : PciConfigurationSpace) (v : ℕ) → Ensures (StatusOnly c) (set_word c pci_status v)
unfolding set_word set
set_status-StatusOnly c v =
    Ensures-bind {P = λ arr. (j : ℕ) → (j < 6) ⊎ (8 ≤ j) → get_or arr j 0 ≡ get_or c.registers j 0}
      (RegisterBlock.set c.registers pci_status (to_le_bytes 2 v))
      (Ensures_lem (RegisterBlock.set c.registers pci_status (to_le_bytes 2 v)) λ arr e j far.
        let (same, fits, stored) = set_keeps c.registers pci_status (to_le_bytes 2 v) e in
        rw stored (elim far [
          | inl before ↦ get_or-splice_before 0 c.registers 6 (to_le_bytes 2 v) j before
          | inr after ↦
              get_or-splice_after 0 c.registers 6 (to_le_bytes 2 v) j (rw length-to_le_bytes after)
        ]))
      λ arr p. on_ok p

signal_intx-StatusOnly :
    (c : PciConfigurationSpace) (intx : PciIntx) (level : PciInterruptLineState)
    → Ensures (λ r. StatusOnly c r.0) (signal_intx c intx level)
unfolding signal_intx update_interrupt_status
signal_intx-StatusOnly c intx level =
    Ensures-bind {P = λ r. StatusOnly c r.0} (update_interrupt_status c level)
      (Ensures-then (read_word c pci_status) λ current.
        Ensures-bind {P = StatusOnly c} (set_word c pci_status (status_at current level))
          (set_status-StatusOnly c (status_at current level)) λ d p. on_ok p)
      λ r p. Ensures-then (interrupts_disabled r.0) λ disabled.
        if-Ensures (not disabled && r.1)
          (Ensures-then (interrupt_line r.0 intx.line_config) λ line. on_ok p) (on_ok p)

-- A run that changes the status word at most of the configuration space that a state has.
module _ {S : Type 0} (config : S → PciConfigurationSpace) where
  abbrev pub Keeps {ℓ} : {A : Type ℓ} → Run S A → S → Type ℓ
  Keeps run s = Ensures (λ r. StatusOnly (config s) (config r.0)) (run s)

  return-Keeps {ℓ} : {A : Type ℓ} (a : A) (s : S) → Keeps (return a) s
  return-Keeps a s = on_ok λ j far. refl

  continue-Keeps {κ ℓ} :
      {A : Type ℓ} {B : Type κ} (next : A → Run S B) (s t : S) (calls : List Call) (r : Returned A)
      → StatusOnly (config s) (config t)
      → ((a : A) → Keeps (next a) t)
      → Ensures (λ u. StatusOnly (config s) (config u.0)) (continue next (t, calls, r))
  continue-Keeps next s t calls (raised e) p k = on_ok p
  continue-Keeps next s t calls (returned a) p k =
      Ensures-bind {P = λ u. StatusOnly (config t) (config u.0)} (next a t) (k a)
        λ u q. on_ok λ j far. q j far ∙ p j far

  pub bind-Keeps {κ ℓ} :
      {A : Type ℓ} {B : Type κ} (first : Run S A) (next : A → Run S B) (s : S)
      → Keeps first s
      → ((a : A) (t : S) → Keeps (next a) t)
      → Keeps (first >>= next) s
  bind-Keeps first next s p k =
      Ensures-bind {P = λ r. StatusOnly (config s) (config r.0)} (first s) p
        λ r q. continue-Keeps next s r.0 r.1 r.2 q (λ a. k a r.0)

  lift-Keeps {ℓ} : {A : Type ℓ} (r : Result A) (s : S) → Keeps (lift_result r) s
  lift-Keeps (ok a) s = on_ok λ j far. refl
  lift-Keeps (err e) s = on_ok λ j far. refl
  lift-Keeps panic s = on_panic
  lift-Keeps out_of_fuel s = on_out_of_fuel

  pub inspect-Keeps {ℓ} : {A : Type ℓ} (f : S → Result A) (s : S) → Keeps (inspect f) s
  inspect-Keeps f s = lift-Keeps (f s) s

-- The interrupts of the function, with its configuration space: a level of the line.
abbrev InterruptState : Type 0
InterruptState = VirtioInterrupts × PciConfigurationSpace

signal_by-Keeps :
    (level : PciInterruptLineState) (active : PciInterruptType) (s : InterruptState)
    → Ensures
        (λ r. StatusOnly s.1 r.0.1)
        (signal_by intx_handler no_interrupt_handler msix_handler (intx_interrupt level) active s)
unfolding signal_by intx_handler msix_handler handle_intx handle_msi
signal_by-Keeps level PciInterruptType.intx (s, c) =
    Ensures-bind {P = λ r. StatusOnly c r.0.1}
      (handle_intx (intx_interrupt level) (s.intx_state, c))
      (Ensures-bind {P = λ r. StatusOnly c r.0} (signal_intx c s.intx_state level)
        (signal_intx-StatusOnly c s.intx_state level) λ r p. on_ok p)
      λ r p. on_ok p
signal_by-Keeps level PciInterruptType.msi s = on_ok λ j far. refl
signal_by-Keeps level PciInterruptType.msi_x s = on_ok λ j far. refl
signal_by-Keeps level PciInterruptType.no_interrupt s = on_ok λ j far. refl

-- What a device signals during an access.
pub signal-Keeps :
    (level : PciInterruptLineState) (s : InterruptState)
    → Ensures (λ r. StatusOnly s.1 r.0.1) (signal_if_enabled interrupts (intx_interrupt level) s)
unfolding signal_if_enabled interrupts context_signal
signal-Keeps level s =
    bind-Keeps (λ t. t.1) (inspect (λ t. interrupts.is_enabled t.0 t.1)) _ s
      (inspect-Keeps (λ t. t.1) (λ t. interrupts.is_enabled t.0 t.1) s)
      λ enabled t. if-Keeps enabled t
  where
    signalled :
        (t : InterruptState)
        → Ensures
            (λ r. StatusOnly t.1 r.0.1)
            (context_signal intx_handler no_interrupt_handler msix_handler (intx_interrupt level) t)
    signalled t =
        bind-Keeps (λ u. u.1)
          (inspect
            (λ u. context_active_interrupt intx_handler no_interrupt_handler msix_handler u.0 u.1))
          (signal_by intx_handler no_interrupt_handler msix_handler (intx_interrupt level)) t
          (inspect-Keeps (λ u. u.1)
            (λ u. context_active_interrupt intx_handler no_interrupt_handler msix_handler u.0 u.1)
            t)
          (signal_by-Keeps level)

    if-Keeps :
        (enabled : Bool) (t : InterruptState)
        → Ensures
            (λ r. StatusOnly t.1 r.0.1)
            ((if enabled then interrupts.signal (intx_interrupt level) else return tt) t)
    if-Keeps true t = signalled t
    if-Keeps false t = on_ok λ j far. refl

pub tables_read-Keeps :
    (msix : PciMsiX) (c : PciConfigurationSpace) (bar offset : ℕ) (buffer : List ℕ)
    → Ensures
        (λ r. StatusOnly c r.0.1)
        (handle_bar_set (info_iter msix) read_region (msix, c) bar offset buffer)
unfolding handle_bar_set read_region
tables_read-Keeps msix c bar offset buffer =
    elim (Option-cases (find_region (info_iter msix) bar offset (length buffer))) [
      | inl out ↦ rw (out, handle_bar_set) (on_ok λ j far. refl)
      | inr ((id, within), here) ↦
          rw (here, handle_bar_set)
            (Ensures-bind {P = λ r. StatusOnly c r.0.1} (read_region id (msix, c) within buffer)
              (Ensures-then (msix_read_bar msix id within (length buffer))
                λ bytes. on_ok λ j far. refl)
              λ r p. on_ok p)
    ]
