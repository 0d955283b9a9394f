-- ===== src/Msi/Handler/Source.antt =====
-- The message source `PciMsi` ends, and with it the loop over the pending vectors.
use greens.Base.{ℕ, ◌+◌, Bool, true, false, Option, none, some, not, ◌%◌, ltb}
use greens.Error.{
  Result, ok, err, ◌>>=◌, ◌>>◌, Ends, Ends-bind, ends_ok, ends_err, ends_panic, assert-Ends,
  guard-Ends, if-Ends, not_supported, invalid_msi_vector, vector_not_masked,
}
use greens.Config.{PciConfigurationSpace, read_word, read_dword, is_bus_master}
use greens.Msi.{
  pending_bits_offset, mask_bits_offset, message_data_offset, message_address,
  message_address_upper, is_64bit,
}
use greens.Registers.{pci_command}
use greens.Function.{PciMsiMessage}
use greens.Msi.Source.{
  Generation, or_failed, generate, try_generate_message, bit32, vector_bit, msi_is_enabled,
  msi_is_masked, write_pending_bit, check_masked, msi_set_pending_bit, msi_is_valid_vector,
  get_message_data_for, message_address_of, msi_get_message_for, pci_msi,
}
use greens.Msi.Handler.{evaluate_pending_interrupts}
use greens.Msi.Handler.Ends.{read_word-Ends, read_dword-Ends, write_dword-Ends, evaluate-Ends}

-- Every step of the source `PciMsi` ends.
bit32-Ends : (vector : ℕ) → Ends (bit32 vector)
unfolding bit32
bit32-Ends vector = assert-Ends (ltb vector 32) ends_ok

vector_bit-Ends :
    (c : PciConfigurationSpace) (msi : ℕ) (o : Option ℕ) (vector : ℕ)
    → Ends (vector_bit c msi o vector)
unfolding vector_bit
vector_bit-Ends c msi none vector = ends_ok
vector_bit-Ends c msi (some offset) vector =
    Ends-bind _ (read_dword-Ends c (msi + offset))
      λ a e. Ends-bind _ (bit32-Ends vector) λ b f. ends_ok

msi_is_masked-Ends :
    (msi : ℕ) (c : PciConfigurationSpace) (vector : ℕ) → Ends (msi_is_masked msi c vector)
unfolding msi_is_masked
msi_is_masked-Ends msi c vector =
    Ends-bind _ (read_word-Ends c msi)
      (λ control e. vector_bit-Ends c msi (mask_bits_offset control) vector)

check_masked-Ends :
    (msi : ℕ) (c : PciConfigurationSpace) (vector : ℕ) (pending : Bool)
    → Ends (check_masked msi c vector pending)
unfolding check_masked
check_masked-Ends msi c vector false = ends_ok
check_masked-Ends msi c vector true =
    Ends-bind _ (msi_is_masked-Ends msi c vector) (λ m e. guard-Ends m (vector_not_masked vector))

write_pending_bit-Ends :
    (c : PciConfigurationSpace) (offset vector : ℕ) (pending : Bool)
    → Ends (write_pending_bit c offset vector pending)
unfolding write_pending_bit
write_pending_bit-Ends c offset vector pending =
    Ends-bind _ (read_dword-Ends c offset)
      λ bits e. Ends-bind _ (bit32-Ends vector) λ mask f. write_dword-Ends c offset _

set_pending_at-Ends :
    (msi : ℕ) (c : PciConfigurationSpace) (vector : ℕ) (pending : Bool) (o : Option ℕ)
    → Ends (elim o as (λ _. Result (ℕ × PciConfigurationSpace)) [
      | none ↦ err not_supported
      | some offset ↦ do
        check_masked msi c vector pending
        c' ← write_pending_bit c (msi + offset) vector pending
        ok (msi, c')
    ])
set_pending_at-Ends msi c vector pending none = ends_err
set_pending_at-Ends msi c vector pending (some offset) =
    Ends-bind (check_masked msi c vector pending) (check_masked-Ends msi c vector pending) λ u e.
      Ends-bind (write_pending_bit c (msi + offset) vector pending)
        (write_pending_bit-Ends c (msi + offset) vector pending) (λ c' f. ends_ok)

msi_set_pending_bit-Ends :
    (msi : ℕ) (c : PciConfigurationSpace) (vector : ℕ) (pending : Bool)
    → Ends (msi_set_pending_bit msi c vector pending)
unfolding msi_set_pending_bit
msi_set_pending_bit-Ends msi c vector pending =
    Ends-bind (read_word c msi) (read_word-Ends c msi)
      (λ control e. set_pending_at-Ends msi c vector pending (pending_bits_offset control))

msi_is_valid_vector-Ends :
    (msi : ℕ) (c : PciConfigurationSpace) (vector : ℕ) → Ends (msi_is_valid_vector msi c vector)
unfolding msi_is_valid_vector
msi_is_valid_vector-Ends msi c vector =
    Ends-bind (read_word c msi) (read_word-Ends c msi) (λ control e. ends_ok)

get_message_data_for-Ends :
    (msi : ℕ) (c : PciConfigurationSpace) (vector : ℕ) → Ends (get_message_data_for msi c vector)
unfolding get_message_data_for
get_message_data_for-Ends msi c vector =
    Ends-bind (msi_is_valid_vector msi c vector) (msi_is_valid_vector-Ends msi c vector) λ valid e.
      if-Ends (not valid) ends_ok (
        Ends-bind (read_word c msi) (read_word-Ends c msi) λ control f.
          Ends-bind (read_word c (msi + message_data_offset control))
            (read_word-Ends c (msi + message_data_offset control)) (λ d g. ends_ok))

message_address_of-Ends :
    (msi : ℕ) (c : PciConfigurationSpace) (control : ℕ) → Ends (message_address_of msi c control)
unfolding message_address_of
message_address_of-Ends msi c control =
    Ends-bind (read_dword c (msi + message_address)) (read_dword-Ends c (msi + message_address))
      λ low e.
        if-Ends (is_64bit control)
          (Ends-bind (read_dword c (msi + message_address_upper))
            (read_dword-Ends c (msi + message_address_upper)) (λ high f. ends_ok))
          ends_ok

message_at-Ends :
    (msi address vector : ℕ) (o : Option ℕ)
    → Ends (elim o as (λ _. Result (ℕ × PciMsiMessage)) [
      | none ↦ err (invalid_msi_vector (vector % 256))
      | some message_data ↦ ok (msi, record { address = address; message_data = message_data })
    ])
message_at-Ends msi address vector none = ends_err
message_at-Ends msi address vector (some d) = ends_ok

msi_get_message_for-Ends :
    (msi : ℕ) (c : PciConfigurationSpace) (vector : ℕ) → Ends (msi_get_message_for msi c vector)
unfolding msi_get_message_for
msi_get_message_for-Ends msi c vector =
    Ends-bind (read_word c msi) (read_word-Ends c msi) λ control e.
      Ends-bind (message_address_of msi c control) (message_address_of-Ends msi c control)
        λ address f.
          Ends-bind (get_message_data_for msi c vector) (get_message_data_for-Ends msi c vector)
            (λ found g. message_at-Ends msi address vector found)

pub or_failed-Ends {ℓ} :
    {S : Type 0} {A : Type ℓ} (s : S) (m : Result A) {next : A → Result (S × Generation)}
    → Ends m
    → ((a : A) → Ends (next a))
    → Ends (or_failed s m next)
unfolding or_failed
or_failed-Ends s m (ends_ok {a}) k = k a
or_failed-Ends s m ends_err k = ends_ok
or_failed-Ends s m ends_panic k = ends_panic

generate-Ends :
    (msi : ℕ) (c : PciConfigurationSpace) (vector : ℕ) → Ends (generate pci_msi msi c vector)
unfolding generate
generate-Ends msi c vector =
    Ends-bind (msi_is_masked msi c vector) (msi_is_masked-Ends msi c vector) λ masked' e.
      or_failed-Ends (msi, c) (msi_set_pending_bit msi c vector masked')
        (msi_set_pending_bit-Ends msi c vector masked')
        (λ t. if-Ends masked' ends_ok (
          or_failed-Ends t (msi_get_message_for t.0 t.1 vector)
            (msi_get_message_for-Ends t.0 t.1 vector) (λ m. ends_ok)))

try_generate_message-Ends :
    (msi : ℕ) (c : PciConfigurationSpace) (vector : ℕ)
    → Ends (try_generate_message pci_msi msi c vector)
unfolding try_generate_message is_bus_master msi_is_enabled
try_generate_message-Ends msi c vector =
    Ends-bind (is_bus_master c)
      (Ends-bind (read_word c pci_command) (read_word-Ends c pci_command) (λ a e. ends_ok))
      λ master e. if-Ends (not master) ends_ok (
        Ends-bind (msi_is_enabled msi c)
          (Ends-bind (read_word c msi) (read_word-Ends c msi) (λ a f. ends_ok))
          (λ enabled' f. if-Ends (not enabled') ends_ok (generate-Ends msi c vector)))

-- The evaluation of the pending interrupts of an MSI capability always ends, whatever the space
-- holds: with a result, or with the panic of a register out of range.
pub evaluate_pending_interrupts-Ends :
    (msi : ℕ) (c : PciConfigurationSpace) → Ends (evaluate_pending_interrupts pci_msi msi msi c)
evaluate_pending_interrupts-Ends msi c =
    evaluate-Ends pci_msi msi (λ s c' vector. try_generate_message-Ends s c' vector) msi c
