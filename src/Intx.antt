-- ===== src/Intx.antt =====
-- intx.rs: the interrupt line of a function. A call of `set_interrupt` of the interrupt controller is
-- an element of the list that a step returns: a line and its level.
pub mod Laws
use greens.Base.{
  ℕ, bit_and, bit_or, Bool, true, false, not, ◌&&◌, ◌||◌, List, [], ◌∷◌, ◌==◌, if◌then◌else◌,
}
use greens.Bits.{complement}
use greens.Word.{usize_max}
use greens.Error.{Result, ok, ◌>>=◌}
use greens.Registers.{
  pci_command, pci_command_interrupt_disable_mask, pci_interrupt_line, pci_interrupt_pin,
  pci_status, pci_status_interrupt_status_mask,
}
use greens.Utils.Range.{range_overlaps}
use greens.Config.{
  PciConfigurationSpace, read_byte, read_word, set_byte, set_word, add_writable_word,
  set_writable_byte,
}

pub data PciInterruptLineState : Type 0 where
  low high : PciInterruptLineState

unfoldable pub line_state_from : Bool → PciInterruptLineState
line_state_from true = PciInterruptLineState.high
line_state_from false = PciInterruptLineState.low

pub data PciIntxPin : Type 0 where
  int_a int_b int_c int_d : PciIntxPin

unfoldable pub pin_code : PciIntxPin → ℕ
pin_code PciIntxPin.int_a = 1
pin_code PciIntxPin.int_b = 2
pin_code PciIntxPin.int_c = 3
pin_code PciIntxPin.int_d = 4

pub data PciInterruptLineConfig : Type 0 where
  register : PciInterruptLineConfig
  fixed : ℕ → PciInterruptLineConfig

pub record PciIntxConfig : Type 0 where
  pub pin : PciIntxPin
  pub line_config : PciInterruptLineConfig

pub record PciIntx : Type 0 where
  pub line_config : PciInterruptLineConfig
  pub disabled : Bool

unfoldable pub init_intx : PciConfigurationSpace → PciIntxPin → Result PciConfigurationSpace
init_intx config pin = do
  c1 ← set_byte config pci_interrupt_pin (pin_code pin)
  c2 ← add_writable_word c1 pci_command pci_command_interrupt_disable_mask
  set_writable_byte c2 pci_interrupt_line 0xFF

-- `build` of a `PciIntxConfig`.
unfoldable pub build_intx :
    PciIntxConfig → PciConfigurationSpace → Result (PciConfigurationSpace × PciIntx)
unfolding init_intx
build_intx intx_config config = do
  c ← init_intx config intx_config.pin
  ok (c, record { line_config = intx_config.line_config; disabled = true })

unfoldable pub interrupts_disabled : PciConfigurationSpace → Result Bool
interrupts_disabled config = do
  command ← read_word config pci_command
  ok (not (bit_and command pci_command_interrupt_disable_mask == 0))

unfoldable pub interrupt_pending : PciConfigurationSpace → Result Bool
interrupt_pending config = do
  status ← read_word config pci_status
  ok (not (bit_and status pci_status_interrupt_status_mask == 0))

unfoldable pub interrupt_line : PciConfigurationSpace → PciInterruptLineConfig → Result ℕ
interrupt_line config (PciInterruptLineConfig.fixed l) = ok l
interrupt_line config PciInterruptLineConfig.register = read_byte config pci_interrupt_line

-- The status word with the interrupt bit of a level.
unfoldable pub status_at : ℕ → PciInterruptLineState → ℕ
status_at current PciInterruptLineState.low =
    bit_and current (complement 16 pci_status_interrupt_status_mask)
status_at current PciInterruptLineState.high = bit_or current pci_status_interrupt_status_mask

unfoldable pub update_interrupt_status :
    PciConfigurationSpace → PciInterruptLineState → Result (PciConfigurationSpace × Bool)
unfolding status_at
update_interrupt_status config level = do
  current ← read_word config pci_status
  c ← set_word config pci_status (status_at current level)
  ok (c, not (current == status_at current level))

abbrev pub Calls : Type 0
Calls = List (ℕ × PciInterruptLineState)

unfoldable pub signal_intx :
    PciConfigurationSpace → PciIntx → PciInterruptLineState → Result (PciConfigurationSpace × Calls)
unfolding update_interrupt_status interrupts_disabled interrupt_line
signal_intx config intx level = do
  (c, changed) ← update_interrupt_status config level
  disabled ← interrupts_disabled c
  if not disabled && changed
      then (do line ← interrupt_line c intx.line_config; ok (c, (line, level) ∷ []))
      else ok (c, [])

-- The pending bit is read only where the disable bit differs from its cached value.
unfoldable pub intx_on_write_config :
    PciConfigurationSpace → PciIntx → ℕ → ℕ → Result (PciIntx × Calls)
unfolding interrupts_disabled interrupt_pending interrupt_line line_state_from
intx_on_write_config config intx offset size =
    if not (range_overlaps usize_max pci_command 2 offset size) then ok (intx, []) else (do
      disabled ← interrupts_disabled config
      if (disabled && intx.disabled) || (not disabled && not intx.disabled)
          then ok (intx, [])
          else (do
            pending ← interrupt_pending config
            if not pending then ok (intx, []) else (do
              line ← interrupt_line config intx.line_config
              ok (
                record intx { disabled = disabled },
                (line, line_state_from (not disabled)) ∷ [],
              ))))
