-- ===== src/Msi/Handler.antt =====
-- The handler of configuration writes of msi.rs, and the loop over the pending vectors.
pub mod Loop
pub mod Ends
pub mod Source
use greens.Base.{
  ℕ, zero, suc, ◌+◌, ◌-◌, ◌/◌, ◌%◌, ◌^◌, bit_and, Bool, true, false, not, ◌||◌, List, [], ◌∷◌, ◌++◌,
  Option, none, some, ltb, leb, ◌==◌, if◌then◌else◌,
}
use greens.Bits.{complement}
use greens.Word.{usize_max, u32_max}
use greens.Error.{Error, Result, ok, err, panic, out_of_fuel, ◌>>=◌}
use greens.Utils.Range.{range_overlaps}
use greens.Config.{PciConfigurationSpace, read_word, read_dword, write_word}
use greens.Function.{
  PciMsiMessage, PciConfigurationUpdate, msi_message, PciHandlerResult, handled, unhandled,
}
use greens.Msi.{
  message_control_multiple_msg_en, message_control_msi_en, message_control_vector_masking,
  message_address, encode, from_enable, capable_vectors, num_capable_vectors, is_64bit, cap_size,
  message_data_offset, mask_bits_offset, pending_bits_offset,
}
use greens.Msi.Source.{
  PciMsiMessageSource, Generation, is_masked, generated, failed, try_generate_message, pci_msi,
  msi_get_message_for,
}

-- `x.trailing_zeros()` of an unsigned type of `w` bits.
unfoldable pub trailing_zeros : ℕ → ℕ → ℕ
trailing_zeros zero x = 0
trailing_zeros (suc w) x = let rest = trailing_zeros w (x / 2) in if x % 2 == 1 then 0 else suc rest

-- The vectors below `since`: the shift of 1 gives 0 from 32 on, and the subtraction then all ones.
unfoldable pub below_mask : ℕ → ℕ
below_mask since = if ltb (since % 2 ^ 32) 32 then 2 ^ (since % 2 ^ 32) - 1 else u32_max

-- The lowest pending vector from `since` on, where the capability has pending bits.
unfoldable pub pending_from : PciConfigurationSpace → ℕ → ℕ → ℕ → Option ℕ → Result (Option ℕ)
unfolding trailing_zeros below_mask
pending_from c msi since control none = ok none
pending_from c msi since control (some offset) = do
  bits ← read_dword c (msi + offset)
  let vector = trailing_zeros 32 (bit_and bits (complement 32 (below_mask since)))
  ok (if ltb vector (num_capable_vectors control) then some vector else none)

unfoldable pub next_pending_vector : PciConfigurationSpace → ℕ → ℕ → Result (Option ℕ)
unfolding pending_from
next_pending_vector c msi since = do
  control ← read_word c msi
  pending_from c msi since control (pending_bits_offset control)

-- A message that was generated is sent; any other outcome is dropped.
unfoldable pub sent : Generation → List PciMsiMessage
sent (generated message) = message ∷ []
sent is_masked = []
sent (failed e) = []

module _ {S : Type 0} (source : PciMsiMessageSource S) (msi : ℕ) where
  -- The loop: the state afterwards and the messages sent to the controller, in order.
  unfoldable pub evaluate_from :
      ℕ → S → PciConfigurationSpace → ℕ → Result ((S × PciConfigurationSpace) × List PciMsiMessage)
  evaluate_from zero s c start = out_of_fuel
  evaluate_from (suc fuel) s c start = do
    found ← next_pending_vector c msi start
    elim found [
      | none ↦ ok ((s, c), [])
      | some vector ↦ do
        (t, outcome) ← try_generate_message source s c vector
        (u, messages) ← evaluate_from fuel t.0 t.1 (vector + 1)
        ok (u, sent outcome ++ messages)
    ]

  -- There are 32 vectors: the loop body runs 32 times at most.
  unfoldable pub evaluate_pending_interrupts :
      S → PciConfigurationSpace → Result ((S × PciConfigurationSpace) × List PciMsiMessage)
  evaluate_pending_interrupts s c = evaluate_from 33 s c 0

unfoldable pub should_handle_access : ℕ → PciConfigurationSpace → ℕ → ℕ → Result Bool
should_handle_access msi c offset size = do
  control ← read_word c msi
  ok (range_overlaps usize_max offset size msi (cap_size control))

-- What `on_write_config` returns; an error may come after the state has changed.
pub data HandlerOutcome : Type 0 where
  done : PciHandlerResult (Option PciConfigurationUpdate) → HandlerOutcome
  refused : Error → HandlerOutcome

-- A Multiple Message Enable field that is illegal or above the capable vectors.
unfoldable pub exceeds_capable : ℕ → Bool
exceeds_capable control = elim (from_enable control) [
  | none ↦ true
  | some vectors_en ↦ ltb (encode (capable_vectors control)) (encode vectors_en)
]

-- The part for the control register: the state, the control word, and whether to evaluate the
-- pending interrupts.
unfoldable pub write_control :
    ℕ → PciConfigurationSpace → ℕ → Result (PciConfigurationSpace × ℕ × Bool)
unfolding exceeds_capable
write_control msi c control = do
  let mask = message_control_msi_en + message_control_vector_masking
  if exceeds_capable control
      then (do
        let control' = bit_and control (complement 16 message_control_multiple_msg_en)
        c' ← write_word c msi control'
        ok (c', control', bit_and control' mask == mask))
      else ok (c, control, bit_and control mask == mask)

-- The write touches the mask bits.
unfoldable pub touches_mask : ℕ → ℕ → ℕ → ℕ → Bool
touches_mask msi control offset size = elim (mask_bits_offset control) [
  | none ↦ false
  | some masking_offset ↦ range_overlaps usize_max offset size (msi + masking_offset) 4
]

-- The write touches the address or the data of the message.
unfoldable pub touches_message : ℕ → ℕ → ℕ → ℕ → Bool
touches_message msi control offset size =
    range_overlaps usize_max offset size (msi + message_address) (if is_64bit control then 8 else 4)
    || range_overlaps usize_max offset size (msi + message_data_offset control) 2

-- The last part: the message of vector 0 is reported when its address or data was written.
unfoldable pub report_message : ℕ → PciConfigurationSpace → ℕ → ℕ → ℕ → Result HandlerOutcome
unfolding touches_message
report_message msi c control offset size =
    if touches_message msi control offset size
    then elim (msi_get_message_for msi c 0) [
      | ok (_, message) ↦ ok (done (handled (some (msi_message message))))
      | err e ↦ ok (refused e)
      | panic ↦ panic
      | out_of_fuel ↦ out_of_fuel
    ]
    else ok (done (handled none))

-- The state afterwards, the messages sent, and the outcome.
unfoldable pub on_write_config :
    ℕ
    → PciConfigurationSpace
    → ℕ
    → ℕ
    → Result (PciConfigurationSpace × List PciMsiMessage × HandlerOutcome)
unfolding should_handle_access write_control touches_mask report_message
on_write_config msi c offset size = do
  ours ← should_handle_access msi c offset size
  if not ours then ok (c, [], done unhandled) else (do
    control ← read_word c msi
    (c1, control1, evaluate) ←
        (if range_overlaps usize_max offset size msi 2
          then write_control msi c control
          else ok (c, control, false))
    (c2, messages) ←
        (if evaluate || touches_mask msi control1 offset size
          then (do
            (t, messages) ← evaluate_pending_interrupts pci_msi msi msi c1
            ok (t.1, messages))
          else ok (c1, []))
    outcome ← report_message msi c2 control1 offset size
    ok (c2, messages, outcome))

unfoldable pub prepare_read_config :
    ℕ → PciConfigurationSpace → ℕ → ℕ → Result (PciHandlerResult (Option PciConfigurationUpdate))
unfolding should_handle_access
prepare_read_config msi c offset size = do
  ours ← should_handle_access msi c offset size
  ok (if ours then handled none else unhandled)
