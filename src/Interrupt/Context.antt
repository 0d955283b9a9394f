-- ===== src/Interrupt/Context.antt =====
-- The interrupt context: which handler signals, and what is sent.
use greens.Base.{
  ℕ, ◌/◌, ◌<◌, ◌≡◌, refl, sym, ap, Bool, true, false, ◌||◌, List, [], ◌∷◌, some, length, get_elem?,
  ◌==◌, if◌then◌else◌,
}
use greens.Error.{Result, ok, err, panic, out_of_fuel, bind}
use greens.Config.{PciConfigurationSpace, is_bus_master}
use greens.Effects.{send_msi, returned}
use greens.Intx.{PciIntx}
use greens.Function.{PciMsiMessage}
use greens.Msi.Source.{Generation, generated}
use greens.Msix.{PciMsiX}
use greens.Msix.Table.{MsiXEntry, PbaEntry, is_pending, entry_is_masked}
use greens.Msix.Source.{is_fn_masked, msix_is_enabled, entry_message}
use greens.Msix.Source.Laws.{try_generate_message-MsiX}
use greens.Interrupt.{
  msi_interrupt, PciInterruptType, PciInterruptHandler, PciInterruptContext, handle_msi,
  handle_msi_generation, msix_handler, context_is_enabled, context_active_interrupt, signal_by,
  context_signal,
}

-- There is an interrupt mechanism to signal with.
abbrev pub is_active : PciInterruptType → Bool
is_active PciInterruptType.no_interrupt = false
is_active _ = true

-- A test, and the steps that depend on it, on both sides.
first_of :
    (test : Result Bool) (yes' : PciInterruptType) (rest : Result Bool)
    (other : Result PciInterruptType)
    → is_active yes' ≡ true
    → rest ≡ bind other (λ t. ok (is_active t))
    → (bind test λ b. if b then ok true else rest)
      ≡ bind (bind test λ b. if b then ok yes' else other) (λ t. ok (is_active t))
first_of (ok true) yes' rest other h e = ap ok (sym h)
first_of (ok false) yes' rest other h e = e
first_of (err x) yes' rest other h e = refl
first_of panic yes' rest other h e = refl
first_of out_of_fuel yes' rest other h e = refl

last_of :
    (test : Result Bool)
    → test
      ≡ bind
          (bind test λ b. ok (if b then PciInterruptType.intx else PciInterruptType.no_interrupt))
          (λ t. ok (is_active t))
last_of (ok true) = refl
last_of (ok false) = refl
last_of (err x) = refl
last_of panic = refl
last_of out_of_fuel = refl

module _ {Ix Ms Mx : Type 0} (ix : PciInterruptHandler Ix) (ms : PciInterruptHandler Ms)
    (mx : PciInterruptHandler Mx) where
  -- A context of any three handlers is enabled exactly when it has an active interrupt.
  pub context_is_enabled-active :
      (s : PciInterruptContext Ix Ms Mx) (c : PciConfigurationSpace)
      → context_is_enabled ix ms mx s c
        ≡ bind (context_active_interrupt ix ms mx s c) (λ t. ok (is_active t))
  unfolding context_is_enabled context_active_interrupt
  context_is_enabled-active s c =
      first_of (mx.is_enabled s.msix_state c) PciInterruptType.msi_x _ _ refl (
        first_of (ms.is_enabled s.msi_state c) PciInterruptType.msi _ _ refl
          (last_of (ix.is_enabled s.intx_state c)))

abbrev pub Devices : Type 0
Devices = PciInterruptContext PciIntx ℕ PciMsiX

sends :
    {S : Type 0} {s : S} (masked : Bool) (message : PciMsiMessage)
    → handle_msi_generation (s, if masked then Generation.is_masked else generated message)
      ≡ ok (s, if masked then [] else send_msi message ∷ [], returned tt)
unfolding handle_msi_generation
sends true message = refl
sends false message = refl

module _ {Ix Ms : Type 0} (ix : PciInterruptHandler Ix) (ms : PciInterruptHandler Ms)
    (s : PciInterruptContext Ix Ms PciMsiX) (c : PciConfigurationSpace) where
  active-MsiX :
      msix_is_enabled s.msix_state c ≡ ok true
      → context_active_interrupt ix ms msix_handler s c ≡ ok PciInterruptType.msi_x
  unfolding context_active_interrupt msix_handler
  active-MsiX on = rw on refl

  -- A message of a context whose MSI-X is enabled is of MSI-X, whatever the other mechanisms are:
  -- for a bus master and a vector that both tables cover, the message of the entry is sent, and
  -- nothing else; of a masked vector it is not, and the vector is pending.
  pub context_signal-MsiX :
      (vector : ℕ) (entry : MsiXEntry) (fn_masked : Bool)
      → is_bus_master c ≡ ok true
      → msix_is_enabled s.msix_state c ≡ ok true
      → is_fn_masked s.msix_state c ≡ ok fn_masked
      → get_elem? s.msix_state.msix_table vector ≡ some entry
      → vector / 64 < length s.msix_state.pba_table
      → let masked = fn_masked || entry_is_masked entry in
        (pba : List PbaEntry) × (context_signal ix ms msix_handler (msi_interrupt vector) (s, c)
          ≡ ok (
            (record s { msix_state = record s.msix_state { pba_table = pba } }, c),
            if masked then [] else send_msi (entry_message entry) ∷ [],
            returned tt,
          ))
        × ((other : ℕ)
            → is_pending pba other
              ≡ (if other == vector then masked else is_pending s.msix_state.pba_table other))
  unfolding context_signal signal_by msix_handler handle_msi handle_msi_generation
  context_signal-MsiX vector entry fn_masked master on word there covered =
      let (pba, run, view) =
        try_generate_message-MsiX s.msix_state c vector entry fn_masked master on word there
          covered in
      (
        pba,
        rw (active-MsiX on, run, sends (fn_masked || entry_is_masked entry) (entry_message entry))
            refl,
        view,
      )
