-- ===== src/Msi/Source/Laws.antt =====
-- What `try_generate_message` does for a capability without per-vector masking.
use greens.Base.{ℕ, ◌≡◌, refl, arith, Bool, true, false, none}
use greens.Error.{ok, err, not_supported}
use greens.Config.{PciConfigurationSpace, read_word, is_bus_master}
use greens.Msi.{is_enabled, per_vector_masking_enabled, mask_bits_offset, pending_bits_offset}
use greens.Msi.Source.{
  failed, or_failed, generate, try_generate_message, vector_bit, msi_is_enabled, msi_is_masked,
  msi_set_pending_bit, pci_msi,
}

no_mask_bits :
    (control : ℕ)
    → per_vector_masking_enabled control ≡ false
    → (mask_bits_offset control ≡ none) × (pending_bits_offset control ≡ none)
unfolding mask_bits_offset pending_bits_offset
no_mask_bits control h = (rw h refl, rw h refl)

not_masked :
    (msi : ℕ) (c : PciConfigurationSpace) (vector control : ℕ)
    → read_word c msi ≡ ok control
    → per_vector_masking_enabled control ≡ false
    → msi_is_masked msi c vector ≡ ok false
unfolding msi_is_masked vector_bit
not_masked msi c vector control word h = rw (word, (no_mask_bits control h).0) refl

pending_not_supported :
    (msi : ℕ) (c : PciConfigurationSpace) (vector control : ℕ) (pending : Bool)
    → read_word c msi ≡ ok control
    → pending_bits_offset control ≡ none
    → msi_set_pending_bit msi c vector pending ≡ err not_supported
unfolding msi_set_pending_bit
pending_not_supported msi c vector control pending word h = ground (arith, word, h)

-- For an enabled MSI capability without per-vector masking, of a bus master, `try_generate_message`
-- is the error `NotSupported` for every vector, and changes nothing: no message is ever generated.
pub try_generate_message-not_supported :
    (msi : ℕ) (c : PciConfigurationSpace) (vector control : ℕ)
    → read_word c msi ≡ ok control
    → is_bus_master c ≡ ok true
    → is_enabled control ≡ true
    → per_vector_masking_enabled control ≡ false
    → try_generate_message pci_msi msi c vector ≡ ok ((msi, c), failed not_supported)
unfolding try_generate_message generate or_failed msi_is_enabled
try_generate_message-not_supported msi c vector control word master on plain =
    let masked = not_masked msi c vector control word plain in
    let refused =
      pending_not_supported msi c vector control false word (no_mask_bits control plain).1 in
    rw (master, word, on, masked, refused) refl
