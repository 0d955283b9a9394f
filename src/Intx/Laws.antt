-- ===== src/Intx/Laws.antt =====
-- `signal_intx`: the status bit follows the level, and the controller hears of changes only.
use greens.Base.{
  ℕ, ◌^◌, ◌<◌, ◌≡◌, ◌≢◌, refl, ◌∙◌, ap, arith, Bool, true, false, not, ◌&&◌, [], ◌∷◌, slice, splice,
  ◌==◌, if◌then◌else◌, inl, inr, length-slice,
}
use greens.Base.Slices.{All-slice}
use greens.Bits.{
  testbit, has_bit, testbit-set_bit, testbit-clear_bit, testbit_ext, testbit-le, bit_or-lt,
  bit_and-lt, bit_and-pow_test,
}
use greens.Word.{to_le_bytes, from_le_bytes, from_le_bytes-lt, IsByte}
use native.Mathlib.Decide.{ℕ_discrete}
use greens.Error.{ok, ◌>>=◌}
use greens.Registers.{pci_status, pci_command, pci_interrupt_line}
use greens.Utils.RegisterBlock
use greens.Utils.RegisterBlock.Laws.{
  set-ok, read-set, read_word-ok, read_word-set, read_word-set_other,
}
use greens.Config.{PciConfigurationSpace, read_word, read_byte, set_word, set}
use greens.Config.Shape.{IsShaped}
use greens.Intx.{
  PciInterruptLineState, PciInterruptLineConfig, PciIntx, status_at, update_interrupt_status,
  interrupts_disabled, interrupt_pending, interrupt_line, signal_intx, Calls,
}

-- The level of a line as a Boolean.
abbrev pub is_high : PciInterruptLineState → Bool
is_high PciInterruptLineState.low = false
is_high PciInterruptLineState.high = true

status_at-lt :
    (current : ℕ) (level : PciInterruptLineState)
    → current < 2 ^ 16
    → status_at current level < 2 ^ 16
unfolding status_at
status_at-lt current PciInterruptLineState.low h = bit_and-lt 16 current _ h
status_at-lt current PciInterruptLineState.high h = bit_or-lt 16 current 8 h (omega arith)

-- The bits of the new status word: bit 3 is the level, the others stay.
pub status_at-bits :
    (current i : ℕ) (level : PciInterruptLineState)
    → i < 16
    → testbit (status_at current level) i
      ≡ (if i == 3 then (if is_high level then 1 else 0) else testbit current i)
unfolding status_at
status_at-bits current i PciInterruptLineState.low h =
    testbit-clear_bit 16 3 current i (omega arith) h
status_at-bits current i PciInterruptLineState.high h = testbit-set_bit 3 current i

-- The word changes exactly when its bit 3 is not the level.
pub status_at-changed :
    (current : ℕ) (level : PciInterruptLineState)
    → current < 2 ^ 16
    → (current == status_at current level) ≡ (testbit current 3 == (if is_high level then 1 else 0))
status_at-changed current level h =
    let bit = status_at-bits current 3 level (omega arith) in
    elim (ℕ_discrete (testbit current 3) (if is_high level then 1 else 0)) [
      | yes same ↦
          let whole : current ≡ status_at current level =
            testbit_ext 16 current (status_at current level) h (status_at-lt current level h)
              (λ i p. ground (
                arith,
                status_at-bits current i level p,
                ap (λ k. testbit current k) refl,
                same,
              )) in
          ground (arith, whole, same)
      | no other ↦
          let differs : current ≢ status_at current level =
            λ e. other (ap (λ k. testbit k 3) e ∙ bit) in
          ground (arith, differs, other)
    ]

-- The space with the status word of a level.
abbrev with_status : PciConfigurationSpace → ℕ → PciConfigurationSpace
with_status c v = record c { registers = splice c.registers pci_status (to_le_bytes 2 v) }

module _ (c : PciConfigurationSpace) (s : IsShaped c) (v : ℕ) where
  stored :
      RegisterBlock.set c.registers pci_status (to_le_bytes 2 v) ≡ ok (with_status c v).registers
  unfolding to_le_bytes
  stored = set-ok c.registers pci_status (to_le_bytes 2 v) (omega (arith, s.registers_length))

  set_status-ok : set_word c pci_status v ≡ ok (with_status c v)
  unfolding set_word set
  set_status-ok = rw stored refl

  command_kept : read_word (with_status c v) pci_command ≡ read_word c pci_command
  unfolding read_word to_le_bytes
  command_kept =
      read_word-set_other c.registers pci_status (to_le_bytes 2 v) pci_command stored
        (inr (omega arith))

  status_read : v < 2 ^ 16 → read_word (with_status c v) pci_status ≡ ok v
  unfolding read_word
  status_read h = read_word-set c.registers pci_status v h stored

  disabled_kept : interrupts_disabled (with_status c v) ≡ interrupts_disabled c
  unfolding interrupts_disabled
  disabled_kept = rw command_kept refl

  line_kept :
      (line_config : PciInterruptLineConfig)
      → interrupt_line (with_status c v) line_config ≡ interrupt_line c line_config
  unfolding interrupt_line read_byte RegisterBlock.read_byte to_le_bytes
  line_kept (PciInterruptLineConfig.fixed l) = refl
  line_kept PciInterruptLineConfig.register =
      rw
        ((read-set c.registers pci_status (to_le_bytes 2 v) pci_interrupt_line 1 stored
          (inl (omega arith))).1)
        refl

-- The level differs from a pending bit.
abbrev pub differs : Bool → PciInterruptLineState → Bool
differs pending PciInterruptLineState.low = pending
differs pending PciInterruptLineState.high = not pending

status_word : PciConfigurationSpace → ℕ
status_word c = from_le_bytes (slice c.registers pci_status 2)

status_word-ok :
    (c : PciConfigurationSpace)
    → IsShaped c
    → (read_word c pci_status ≡ ok (status_word c)) × (status_word c < 2 ^ 16)
unfolding status_word read_word
status_word-ok c s = (
  read_word-ok c.registers pci_status (omega (arith, s.registers_length)),
  rw (length-slice c.registers pci_status 2 (omega (arith, s.registers_length))) at (
      from_le_bytes-lt (slice c.registers pci_status 2)
        (All-slice IsByte c.registers pci_status 2 s.registers_bytes)),
)

pending-bit :
    (c : PciConfigurationSpace) (current : ℕ)
    → read_word c pci_status ≡ ok current
    → interrupt_pending c ≡ ok (has_bit current 3)
unfolding interrupt_pending
pending-bit c current word = rw (word, bit_and-pow_test 3 current) refl

update-eq :
    (c : PciConfigurationSpace) (level : PciInterruptLineState) (current : ℕ)
    → IsShaped c
    → read_word c pci_status ≡ ok current
    → current < 2 ^ 16
    → update_interrupt_status c level
      ≡ ok (with_status c (status_at current level), differs (has_bit current 3) level)
unfolding update_interrupt_status
update-eq c level current s word h =
    rw (word, set_status-ok c s (status_at current level), status_at-changed current level h)
      (ap (λ b. ok (with_status c (status_at current level), b))
        (ground (arith, testbit-le current 3)))

-- `signal_intx` of a level sets the pending bit of the status word to the level and leaves the
-- disable bit alone. The interrupt controller is called once, for the function's line and the level,
-- when the interrupt is not disabled and was not already at the level, and otherwise not at all.
pub signal_intx_lem :
    (c : PciConfigurationSpace) (intx : PciIntx) (level : PciInterruptLineState) (line : ℕ)
    (disabled pending : Bool)
    → IsShaped c
    → interrupts_disabled c ≡ ok disabled
    → interrupt_pending c ≡ ok pending
    → interrupt_line c intx.line_config ≡ ok line
    → (c' : PciConfigurationSpace) × (signal_intx c intx level
        ≡ ok (c', if not disabled && differs pending level then (line, level) ∷ [] else []))
      × (interrupt_pending c' ≡ ok (is_high level))
      × (interrupts_disabled c' ≡ ok disabled)
unfolding signal_intx
signal_intx_lem c intx level line disabled pending s d p l =
    let (word, small) = status_word-ok c s in
    let current = status_word c in
    let new = status_at current level in
    let new_small = status_at-lt current level small in
    let was : has_bit current 3 ≡ pending = cc (pending-bit c current word) in
    let kept = disabled_kept c s new ∙ d in
    let now : interrupt_pending (with_status c new) ≡ ok (has_bit new 3) =
      pending-bit (with_status c new) new (status_read c s new new_small) in
    let level_bit : has_bit new 3 ≡ is_high level =
      ground (arith, status_at-bits current 3 level (omega arith)) in
    let here = line_kept c s new intx.line_config ∙ l in
    let updated : update_interrupt_status c level ≡ ok (with_status c new, differs pending level) =
      rw was at (update-eq c level current s word small) in
    (
      with_status c new,
      rw (updated, kept) (decide (not disabled && differs pending level) (with_status c new) here),
      now ∙ ap ok level_bit,
      kept,
    )
  where
    decide :
        (b : Bool) (c' : PciConfigurationSpace)
        → interrupt_line c' intx.line_config ≡ ok line
        → (if b
            then (interrupt_line c' intx.line_config >>= λ l'.
                let r : PciConfigurationSpace × Calls = (c', (l', level) ∷ []) in ok r)
            else ok (c', []))
          ≡ ok (c', if b then (line, level) ∷ [] else [])
    decide true c' e = rw e refl
    decide false c' e = refl
