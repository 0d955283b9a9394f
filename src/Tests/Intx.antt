-- ===== src/Tests/Intx.antt =====
-- A run of the theorem on INTx: a function with the fixed line 5 raises it in a new space.
use greens.Base.{◌≡◌, refl, true, false, [], ◌∷◌}
use greens.Word.{to_le_bytes, from_le_bytes}
use greens.Error.{ok}
use greens.Utils.RegisterBlock
use greens.Config.{PciConfigurationSpace, new, set_word, set, read_word}
use greens.Intx.{
  PciIntx, PciInterruptLineConfig, PciInterruptLineState, interrupts_disabled, interrupt_pending,
  interrupt_line, signal_intx,
}
use greens.Intx.Laws.{signal_intx_lem}
use greens.Tests.{fresh, fresh-IsShaped}

abbrev intx : PciIntx
intx = record { line_config = PciInterruptLineConfig.fixed 5; disabled = true }

signal_intx_example :
    (c' : PciConfigurationSpace) × (signal_intx fresh intx PciInterruptLineState.high
      ≡ ok (c', (5, PciInterruptLineState.high) ∷ []))
    × (interrupt_pending c' ≡ ok true)
    × (interrupts_disabled c' ≡ ok false)
unfolding fresh new set_word set RegisterBlock.set to_le_bytes interrupts_disabled interrupt_pending
    interrupt_line read_word RegisterBlock.read_word RegisterBlock.read from_le_bytes
signal_intx_example =
    signal_intx_lem fresh intx PciInterruptLineState.high 5 false false fresh-IsShaped refl refl
      refl
