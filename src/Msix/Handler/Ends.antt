-- ===== src/Msix/Handler/Ends.antt =====
-- The evaluation of the pending interrupts of an MSI-X function: it ends, changes the pending bits
-- at most, and sends nothing while the function is masked.
use mathlib.Core.Path.{subst}
use greens.Base.{
  ℕ, zero, suc, ◌+◌, ◌*◌, ◌/◌, ◌<◌, ◌≤◌, ◌≡◌, refl, ◌∙◌, ap₂, arith, Bool, true, not, List, [],
  ◌++◌, Option, none, some, length, get_elem?, inl, inr, Option-cases, get_elem?-lt,
}
use greens.Error.{
  ok, Ends, Ends-bind, ends_ok, ends_err, if-Ends, Ensures, on_ok, on_out_of_fuel, Ensures-ok,
  Ensures-bind, Ensures_lem,
}
use greens.Registers.{pci_command}
use greens.Config.{PciConfigurationSpace, read_word, is_bus_master}
use greens.Msi.Source.{generate, try_generate_message}
use greens.Msi.Handler.{sent}
use greens.Msi.Handler.Ends.{read_word-Ends}
use greens.Msi.Handler.Source.{or_failed-Ends}
use greens.Msix.Table.{
  PbaEntry, MsiXEntry, is_pending, entry_is_pending, pending_bit_for, set_pending_bit,
}
use greens.Msix.Source.{
  is_fn_masked, is_masked_with, msix_is_masked, msix_is_enabled, msix_set_pending_bit,
  msix_get_message_for, pci_msi_x,
}
use greens.Msix.Source.Laws.{
  Kept, Kept-refl, Kept-trans, try_generate_message-Kept, try_generate_message-silent,
}
use greens.Msix.Handler.{
  find_pending_vector, evaluate_found, evaluate_from, evaluate_pending_interrupts,
}
use greens.Msix.Handler.Search.{find_pending_vector-IsFound, IsFound}
use greens.Msix.{PciMsiX, message_control}

control-Ends :
    (msix : PciMsiX) (c : PciConfigurationSpace)
    → Ends (read_word c (msix.cap_offset + message_control))
control-Ends msix c = read_word-Ends c (msix.cap_offset + message_control)

masked_with-Ends :
    (msix : PciMsiX) (c : PciConfigurationSpace) (o : Option MsiXEntry)
    → Ends (is_masked_with msix c o)
unfolding is_masked_with is_fn_masked
masked_with-Ends msix c none = ends_ok
masked_with-Ends msix c (some entry) =
    Ends-bind _ (Ends-bind _ (control-Ends msix c) (λ a e. ends_ok)) (λ b f. ends_ok)

set_bit-Ends :
    (table : List PbaEntry) (vector : ℕ) (pending : Bool)
    → Ends (set_pending_bit table vector pending)
unfolding set_pending_bit pending_bit_for
set_bit-Ends table vector pending = elim (Option-cases (get_elem? table (vector / 64))) [
  | inl absent ↦ rw (absent, set_pending_bit) ends_err
  | inr (pba, there) ↦ rw (there, set_pending_bit) ends_ok
]

message-Ends :
    (msix : PciMsiX) (c : PciConfigurationSpace) (vector : ℕ)
    → Ends (msix_get_message_for msix c vector)
unfolding msix_get_message_for
message-Ends msix c vector = elim (Option-cases (get_elem? msix.msix_table vector)) [
  | inl absent ↦ rw (absent, msix_get_message_for) ends_err
  | inr (entry, there) ↦ rw (there, msix_get_message_for) ends_ok
]

generate-Ends :
    (msix : PciMsiX) (c : PciConfigurationSpace) (vector : ℕ)
    → Ends (generate pci_msi_x msix c vector)
unfolding generate msix_is_masked msix_set_pending_bit
generate-Ends msix c vector =
    Ends-bind (msix_is_masked msix c vector)
      (masked_with-Ends msix c (get_elem? msix.msix_table vector))
      λ masked e.
        or_failed-Ends (msix, c) (msix_set_pending_bit msix c vector masked)
          (Ends-bind _ (set_bit-Ends msix.pba_table vector masked) (λ a f. ends_ok))
          λ t. if-Ends masked ends_ok (
            or_failed-Ends t (msix_get_message_for t.0 t.1 vector) (message-Ends t.0 t.1 vector)
              (λ m. ends_ok))

try_generate_message-Ends :
    (msix : PciMsiX) (c : PciConfigurationSpace) (vector : ℕ)
    → Ends (try_generate_message pci_msi_x msix c vector)
unfolding try_generate_message is_bus_master msix_is_enabled
try_generate_message-Ends msix c vector =
    Ends-bind (is_bus_master c)
      (Ends-bind (read_word c pci_command) (read_word-Ends c pci_command) (λ a e. ends_ok))
      λ master e. if-Ends (not master) ends_ok (
        Ends-bind (msix_is_enabled msix c) (Ends-bind _ (control-Ends msix c) (λ a f. ends_ok))
          (λ enabled' f. if-Ends (not enabled') ends_ok (generate-Ends msix c vector)))

-- A vector that is found is one of the table, from `start` on.
pending-lt : (table : List PbaEntry) (v : ℕ) → is_pending table v ≡ true → v < 64 * length table
unfolding is_pending pending_bit_for entry_is_pending
pending-lt table v e = elim (Option-cases (get_elem? table (v / 64))) [
  | inl absent ↦ absurd (ground (arith, absent))
  | inr (pba, there) ↦ omega (arith, get_elem?-lt table (v / 64) there)
]

pub found_ahead :
    (table : List PbaEntry) (start v : ℕ)
    → find_pending_vector table start ≡ some v
    → (start ≤ v) × (v < 64 * length table)
found_ahead table start v e =
    let found = subst (IsFound table start) e (find_pending_vector-IsFound table start) in
    (found.0.0, pending-lt table v found.1)

module _ (fuel : ℕ) (msix : PciMsiX) (c : PciConfigurationSpace) (start : ℕ)
    (rest : (t : PciMsiX) (d : PciConfigurationSpace) (later : ℕ)
      → length t.pba_table ≡ length msix.pba_table
      → later ≤ 64 * length msix.pba_table
      → start < later
      → Ends (evaluate_from fuel t d later)) where
  found-Ends :
      (found : Option ℕ)
      → find_pending_vector msix.pba_table start ≡ found
      → Ends (evaluate_found (evaluate_from fuel) msix c found)
  unfolding evaluate_found
  found-Ends none e = ends_ok
  found-Ends (some v) e =
      let ahead = found_ahead msix.pba_table start v e in
      Ends-bind (try_generate_message pci_msi_x msix c v) (try_generate_message-Ends msix c v)
        λ r done.
          let kept = Ensures-ok (try_generate_message-Kept msix c v) done in
          Ends-bind (evaluate_from fuel r.0.0 r.0.1 (v + 1))
            (rest r.0.0 r.0.1 (v + 1) kept.pba_size_kept (omega (arith, ahead))
              (omega (arith, ahead)))
            (λ u f. ends_ok)

evaluate_from-Ends :
    (fuel : ℕ) (msix : PciMsiX) (c : PciConfigurationSpace) (start : ℕ)
    → start ≤ 64 * length msix.pba_table
    → 64 * length msix.pba_table + 1 ≤ start + fuel
    → Ends (evaluate_from fuel msix c start)
unfolding evaluate_from
evaluate_from-Ends zero msix c start small enough = absurd (omega arith)
evaluate_from-Ends (suc fuel) msix c start small enough =
    found-Ends fuel msix c start
      (λ t d later size p q.
        evaluate_from-Ends fuel t d later (omega (arith, size)) (omega (arith, size)))
      (find_pending_vector msix.pba_table start) refl

-- The evaluation of the pending interrupts of an MSI-X function ends, whatever its tables and its
-- configuration space hold: each round finds a higher vector, of the 64 of each entry.
pub evaluate_pending_interrupts-MsiX_Ends :
    (msix : PciMsiX) (c : PciConfigurationSpace) → Ends (evaluate_pending_interrupts msix c)
unfolding evaluate_pending_interrupts
evaluate_pending_interrupts-MsiX_Ends msix c =
    evaluate_from-Ends (64 * length msix.pba_table + 1) msix c 0 (omega arith) (omega arith)

-- What holds of the state and the messages after every round.
module _ (fuel : ℕ)
    (rest : (t : PciMsiX) (d : PciConfigurationSpace) (later : ℕ)
      → Ensures (λ r. Kept t d r.0) (evaluate_from fuel t d later)) where
  found-Kept :
      (msix : PciMsiX) (c : PciConfigurationSpace) (found : Option ℕ)
      → Ensures (λ r. Kept msix c r.0) (evaluate_found (evaluate_from fuel) msix c found)
  unfolding evaluate_found
  found-Kept msix c none = on_ok (Kept-refl msix c)
  found-Kept msix c (some v) =
      Ensures-bind (try_generate_message pci_msi_x msix c v) (try_generate_message-Kept msix c v)
        λ r kept.
          Ensures-bind (evaluate_from fuel r.0.0 r.0.1 (v + 1)) (rest r.0.0 r.0.1 (v + 1))
            λ u kept'. on_ok (Kept-trans msix c r.0 u.0 kept kept')

evaluate_from-Kept :
    (fuel : ℕ) (msix : PciMsiX) (c : PciConfigurationSpace) (start : ℕ)
    → Ensures (λ r. Kept msix c r.0) (evaluate_from fuel msix c start)
unfolding evaluate_from
evaluate_from-Kept zero msix c start = on_out_of_fuel
evaluate_from-Kept (suc fuel) msix c start =
    found-Kept fuel (evaluate_from-Kept fuel) msix c (find_pending_vector msix.pba_table start)

-- An evaluation changes the pending bits at most.
pub evaluate-Kept :
    (msix : PciMsiX) (c : PciConfigurationSpace)
    → Ensures (λ r. Kept msix c r.0) (evaluate_pending_interrupts msix c)
unfolding evaluate_pending_interrupts
evaluate-Kept msix c = evaluate_from-Kept (64 * length msix.pba_table + 1) msix c 0

is_fn_masked-Kept :
    (msix : PciMsiX) (c : PciConfigurationSpace) (t : PciMsiX × PciConfigurationSpace)
    → Kept msix c t
    → is_fn_masked t.0 t.1 ≡ is_fn_masked msix c
unfolding is_fn_masked
is_fn_masked-Kept msix c t kept = rw (kept.config_kept, kept.cap_offset_kept) refl

module _ (fuel : ℕ)
    (rest : (t : PciMsiX) (d : PciConfigurationSpace) (later : ℕ)
      → is_fn_masked t d ≡ ok true
      → Ensures (λ r. r.1 ≡ []) (evaluate_from fuel t d later)) where
  found-silent :
      (msix : PciMsiX) (c : PciConfigurationSpace) (found : Option ℕ)
      → is_fn_masked msix c ≡ ok true
      → Ensures (λ r. r.1 ≡ []) (evaluate_found (evaluate_from fuel) msix c found)
  unfolding evaluate_found
  found-silent msix c none word = on_ok refl
  found-silent msix c (some v) word =
      let kept = try_generate_message-Kept msix c v in
      let silent = try_generate_message-silent msix c v word in
      Ensures-bind {P = λ r. Kept msix c r.0 × (sent r.1 ≡ [])}
        (try_generate_message pci_msi_x msix c v)
        (Ensures_lem (try_generate_message pci_msi_x msix c v)
          (λ r e. (Ensures-ok kept e, Ensures-ok silent e)))
        λ r both.
          Ensures-bind (evaluate_from fuel r.0.0 r.0.1 (v + 1))
            (rest r.0.0 r.0.1 (v + 1) (is_fn_masked-Kept msix c r.0 both.0 ∙ word))
            λ u none_sent. on_ok (ap₂ ◌++◌ both.1 none_sent)

evaluate_from-silent :
    (fuel : ℕ) (msix : PciMsiX) (c : PciConfigurationSpace) (start : ℕ)
    → is_fn_masked msix c ≡ ok true
    → Ensures (λ r. r.1 ≡ []) (evaluate_from fuel msix c start)
unfolding evaluate_from
evaluate_from-silent zero msix c start word = on_out_of_fuel
evaluate_from-silent (suc fuel) msix c start word =
    found-silent fuel (evaluate_from-silent fuel) msix c (find_pending_vector msix.pba_table start)
      word

pub evaluate-silent :
    (msix : PciMsiX) (c : PciConfigurationSpace)
    → is_fn_masked msix c ≡ ok true
    → Ensures (λ r. r.1 ≡ []) (evaluate_pending_interrupts msix c)
unfolding evaluate_pending_interrupts
evaluate-silent msix c word = evaluate_from-silent (64 * length msix.pba_table + 1) msix c 0 word
