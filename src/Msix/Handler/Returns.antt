-- ===== src/Msix/Handler/Returns.antt =====
-- The evaluation of the pending interrupts of an MSI-X function returns, where the configuration space
-- holds the command register and the control word: no step of it fails or panics.
use greens.Base.{
  ℕ, zero, suc, ◌+◌, ◌*◌, ◌/◌, ◌<◌, ◌≤◌, ◌≡◌, refl, arith, Bool, not, Option, none, some, length,
  get_elem?, inl, inr, Option-cases,
}
use greens.Error.{Error, Result, ok, err, Returns, returns, Returns-bind, if-Returns, Ensures-ok}
use greens.Registers.{pci_command}
use greens.Utils.RegisterBlock.Laws.{read_word-ok}
use greens.Config.{PciConfigurationSpace, read_word, is_bus_master}
use greens.Msi.Source.{Generation, or_failed, generate, try_generate_message}
use greens.Msix.Table.{MsiXEntry, pending_bit_for, set_pending_bit}
use greens.Msix.Source.{
  is_fn_masked, is_masked_with, msix_is_masked, msix_is_enabled, msix_set_pending_bit,
  msix_get_message_for, pci_msi_x,
}
use greens.Msix.Source.Laws.{try_generate_message-Kept}
use greens.Msix.Handler.{
  find_pending_vector, evaluate_found, evaluate_from, evaluate_pending_interrupts,
}
use greens.Msix.Handler.Ends.{found_ahead}
use greens.Msix.{PciMsiX}

-- The registers that a capability at `cap_offset` needs.
abbrev pub HoldsControl : PciConfigurationSpace → ℕ → Type 0
HoldsControl c cap_offset = (6 ≤ length c.registers) × (cap_offset + 2 ≤ length c.registers)

read_word-Returns :
    (c : PciConfigurationSpace) (offset : ℕ)
    → offset + 2 ≤ length c.registers
    → Returns (read_word c offset)
unfolding read_word
read_word-Returns c offset h = rw (read_word-ok c.registers offset h) returns

-- An outcome that is a value or an error.
data Decides {A : Type 0} : Result A → Type 0 where
  decides_ok : {a : A} → Decides (ok a)
  decides_err : {e : Error} → Decides (err e)

or_failed-Returns :
    {S A : Type 0} (s : S) (m : Result A) {next : A → Result (S × Generation)}
    → Decides m
    → ((a : A) → Returns (next a))
    → Returns (or_failed s m next)
unfolding or_failed
or_failed-Returns s m (decides_ok {a}) k = k a
or_failed-Returns s m decides_err k = returns

set_bit-Decides :
    (msix : PciMsiX) (c : PciConfigurationSpace) (vector : ℕ) (pending : Bool)
    → Decides (msix_set_pending_bit msix c vector pending)
unfolding msix_set_pending_bit set_pending_bit pending_bit_for
set_bit-Decides msix c vector pending =
    elim (Option-cases (get_elem? msix.pba_table (vector / 64))) [
      | inl absent ↦ rw (absent, set_pending_bit) decides_err
      | inr (pba, there) ↦ rw (there, set_pending_bit) decides_ok
    ]

message-Decides :
    (msix : PciMsiX) (c : PciConfigurationSpace) (vector : ℕ)
    → Decides (msix_get_message_for msix c vector)
unfolding msix_get_message_for
message-Decides msix c vector = elim (Option-cases (get_elem? msix.msix_table vector)) [
  | inl absent ↦ rw (absent, msix_get_message_for) decides_err
  | inr (entry, there) ↦ rw (there, msix_get_message_for) decides_ok
]

module _ (msix : PciMsiX) (c : PciConfigurationSpace) (holds : HoldsControl c msix.cap_offset)
    (vector : ℕ) where
  masked_with-Returns : (o : Option MsiXEntry) → Returns (is_masked_with msix c o)
  unfolding is_masked_with is_fn_masked
  masked_with-Returns none = returns
  masked_with-Returns (some entry) =
      Returns-bind _
        (Returns-bind _ (read_word-Returns c (msix.cap_offset + 0) (omega (arith, holds.1)))
          (λ a e. returns))
        (λ b f. returns)

  generate-Returns : Returns (generate pci_msi_x msix c vector)
  unfolding generate msix_is_masked
  generate-Returns =
      Returns-bind (msix_is_masked msix c vector)
        (masked_with-Returns (get_elem? msix.msix_table vector))
        λ masked e.
          or_failed-Returns (msix, c) (msix_set_pending_bit msix c vector masked)
            (set_bit-Decides msix c vector masked)
            λ t. if-Returns masked returns (
              or_failed-Returns t (msix_get_message_for t.0 t.1 vector)
                (message-Decides t.0 t.1 vector) (λ m. returns))

  try_generate_message-Returns : Returns (try_generate_message pci_msi_x msix c vector)
  unfolding try_generate_message is_bus_master msix_is_enabled
  try_generate_message-Returns =
      Returns-bind (is_bus_master c)
        (Returns-bind (read_word c pci_command)
          (read_word-Returns c pci_command (omega (arith, holds.0))) (λ a e. returns))
        λ master e. if-Returns (not master) returns (
          Returns-bind (msix_is_enabled msix c)
            (Returns-bind _ (read_word-Returns c (msix.cap_offset + 0) (omega (arith, holds.1)))
              (λ a f. returns))
            (λ enabled' f. if-Returns (not enabled') returns generate-Returns))

module _ (fuel : ℕ) (msix : PciMsiX) (c : PciConfigurationSpace) (start : ℕ)
    (holds : HoldsControl c msix.cap_offset)
    (rest : (t : PciMsiX) (d : PciConfigurationSpace) (later : ℕ)
      → HoldsControl d t.cap_offset
      → length t.pba_table ≡ length msix.pba_table
      → later ≤ 64 * length msix.pba_table
      → start < later
      → Returns (evaluate_from fuel t d later)) where
  found-Returns :
      (found : Option ℕ)
      → find_pending_vector msix.pba_table start ≡ found
      → Returns (evaluate_found (evaluate_from fuel) msix c found)
  unfolding evaluate_found
  found-Returns none e = returns
  found-Returns (some v) e =
      let ahead = found_ahead msix.pba_table start v e in
      Returns-bind (try_generate_message pci_msi_x msix c v)
        (try_generate_message-Returns msix c holds v)
        λ r done.
          let kept = Ensures-ok (try_generate_message-Kept msix c v) done in
          Returns-bind (evaluate_from fuel r.0.0 r.0.1 (v + 1))
            (rest r.0.0 r.0.1 (v + 1) (rw (kept.config_kept, kept.cap_offset_kept) holds)
              kept.pba_size_kept (omega (arith, ahead)) (omega (arith, ahead)))
            (λ u f. returns)

evaluate_from-Returns :
    (fuel : ℕ) (msix : PciMsiX) (c : PciConfigurationSpace) (start : ℕ)
    → HoldsControl c msix.cap_offset
    → start ≤ 64 * length msix.pba_table
    → 64 * length msix.pba_table + 1 ≤ start + fuel
    → Returns (evaluate_from fuel msix c start)
unfolding evaluate_from
evaluate_from-Returns zero msix c start holds small enough = absurd (omega arith)
evaluate_from-Returns (suc fuel) msix c start holds small enough =
    found-Returns fuel msix c start holds
      (λ t d later still same p q.
        evaluate_from-Returns fuel t d later still (omega (arith, same)) (omega (arith, same)))
      (find_pending_vector msix.pba_table start) refl

pub evaluate-Returns :
    (msix : PciMsiX) (c : PciConfigurationSpace)
    → HoldsControl c msix.cap_offset
    → Returns (evaluate_pending_interrupts msix c)
unfolding evaluate_pending_interrupts
evaluate-Returns msix c holds =
    evaluate_from-Returns (64 * length msix.pba_table + 1) msix c 0 holds (omega arith)
      (omega arith)
