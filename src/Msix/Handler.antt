-- ===== src/Msix/Handler.antt =====
-- The evaluation of the pending interrupts of msix.rs and the handler of configuration writes.
pub mod Search
pub mod Ends
pub mod Returns
use greens.Base.{
  ℕ, zero, suc, ◌+◌, ◌*◌, ◌-◌, ◌^◌, bit_and, Bool, true, false, not, ◌&&◌, List, [], ◌∷◌, ◌++◌,
  Option, none, some, length, drop, ltb, if◌then◌else◌,
}
use greens.Bits.{complement}
use greens.Word.{usize_max}
use greens.Error.{Result, ok, out_of_fuel, ◌>>=◌}
use greens.Utils.Range.{range_overlaps}
use greens.Config.{PciConfigurationSpace, read_word}
use greens.Function.{PciMsiMessage, PciHandlerResult, handled, unhandled}
use greens.Msi.Source.{PciMsiMessageSource, try_generate_message}
use greens.Msi.Handler.{trailing_zeros, sent}
use greens.Msix.Table.{PbaEntry, pending_bit_for}
use greens.Msix.Source.{control_offset, word_is_fn_masked, pci_msi_x}
use greens.Msix.{PciMsiX}

-- The lowest of the pending bits from `bit` on; 64 where there is none. The shift is of less than
-- 64, so that the mask is of the bits below.
unfoldable pub first_pending : PbaEntry → ℕ → ℕ
unfolding trailing_zeros
first_pending pba bit = trailing_zeros 64 (bit_and pba.pending_bits (complement 64 (2 ^ bit - 1)))

-- The loop over the enumerated entries, after `skip`: those from index `i` on. The bits below `bit` are skipped in every entry.
unfoldable pub find_from : List PbaEntry → ℕ → ℕ → Option ℕ
unfolding first_pending
find_from [] i bit = none
find_from (pba ∷ entries) i bit =
    let rest = find_from entries (i + 1) bit in
    if ltb (first_pending pba bit) 64 then some (i * 64 + first_pending pba bit) else rest

unfoldable pub find_pending_vector : List PbaEntry → ℕ → Option ℕ
unfolding find_from pending_bit_for
find_pending_vector pba_table since =
    let (entry, bit) = pending_bit_for since in find_from (drop pba_table entry) entry bit

-- A step of the loop in `evaluate_pending_interrupts`, for the vector that was found.
module _
    (rest : PciMsiX
      → PciConfigurationSpace
      → ℕ
      → Result ((PciMsiX × PciConfigurationSpace) × List PciMsiMessage)) where
  unfoldable pub evaluate_found :
      PciMsiX
      → PciConfigurationSpace
      → Option ℕ
      → Result ((PciMsiX × PciConfigurationSpace) × List PciMsiMessage)
  evaluate_found msix config none = ok ((msix, config), [])
  evaluate_found msix config (some vector) = do
    (t, outcome) ← try_generate_message pci_msi_x msix config vector
    (u, messages) ← rest t.0 t.1 (vector + 1)
    ok (u, sent outcome ++ messages)

-- The loop: the state afterwards and the messages sent to the controller, in order.
unfoldable pub evaluate_from :
    ℕ
    → PciMsiX
    → PciConfigurationSpace
    → ℕ
    → Result ((PciMsiX × PciConfigurationSpace) × List PciMsiMessage)
unfolding evaluate_found find_pending_vector
evaluate_from zero msix config start = out_of_fuel
evaluate_from (suc fuel) msix config start =
    evaluate_found (evaluate_from fuel) msix config (find_pending_vector msix.pba_table start)

-- Each round finds a higher vector, of the 64 of each entry.
unfoldable pub evaluate_pending_interrupts :
    PciMsiX
    → PciConfigurationSpace
    → Result ((PciMsiX × PciConfigurationSpace) × List PciMsiMessage)
unfolding evaluate_from
evaluate_pending_interrupts msix config =
    evaluate_from (64 * length msix.pba_table + 1) msix config 0

-- The control word is read only where the write touches it.
unfoldable pub unmasks : PciMsiX → PciConfigurationSpace → ℕ → ℕ → Result Bool
unmasks msix config offset size =
    if range_overlaps usize_max offset size (control_offset msix) 2
    then (do control ← read_word config (control_offset msix); ok (not (word_is_fn_masked control)))
    else ok false

-- `on_write_config`: the state afterwards, the messages sent, and what it returns.
unfoldable pub msix_on_write_config :
    PciMsiX
    → PciConfigurationSpace
    → ℕ
    → ℕ
    → Result ((PciMsiX × PciConfigurationSpace) × List PciMsiMessage × PciHandlerResult (Unit {0}))
unfolding unmasks evaluate_pending_interrupts
msix_on_write_config msix config offset size = do
  evaluate ← unmasks msix config offset size
  if evaluate
      then (do
        (t, messages) ← evaluate_pending_interrupts msix config
        ok (t, messages, handled tt))
      else ok ((msix, config), [], unhandled)
