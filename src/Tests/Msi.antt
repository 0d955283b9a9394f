-- ===== src/Tests/Msi.antt =====
-- Runs of the theorems on MSI, with a capability at 0x40 that has per-vector masking, 32-bit
-- addresses and eight vectors, of which 1 and 3 are pending.
use greens.Base.{◌≡◌, ◌↔◌, refl, arith, [], ◌∷◌, replicate, splice, some}
use greens.Word.{from_le_bytes}
use greens.Error.{ok, Ends, not_supported}
use greens.Utils.RegisterBlock
use greens.Config.{PciConfigurationSpace, read_word, read_dword, is_bus_master}
use greens.Capability.{IsCapability}
use greens.Msi.Fits.{msi_capability-IsCapability}
use greens.Msi.{
  PciMsiCapability, MsiAddressWidth, MsiPerVectorMasking, MsiMultipleMessage, msi_capability,
  pending_bits_offset, num_capable_vectors, capable_vectors, max_vectors, encode, from_capable,
  decode, try_from,
}
use greens.Msi.{is_enabled, per_vector_masking_enabled}
use greens.Msi.Source.{pci_msi, try_generate_message, failed}
use greens.Msi.Source.Laws.{try_generate_message-not_supported}
use greens.Msi.Handler.{next_pending_vector, evaluate_pending_interrupts}
use greens.Msi.Handler.Loop.{next_pending_vector_iff, IsLowest}
use greens.Msi.Handler.Source.{evaluate_pending_interrupts-Ends}

abbrev msi_space : PciConfigurationSpace
msi_space = record {
  registers = splice (splice (replicate 256 0) 0x40 (0x07 ∷ 0x01 ∷ [])) 0x4E (0x0A ∷ []);
  writable_bits = replicate 256 0xFF;
  bars = [];
  last_cap_size = 18;
}

next_pending_vector_example :
    (next_pending_vector msi_space 0x40 2 ≡ ok (some 3)) ↔ IsLowest 0x0A 8 2 3
unfolding read_word read_dword RegisterBlock.read_word RegisterBlock.read_dword RegisterBlock.read
    from_le_bytes pending_bits_offset num_capable_vectors capable_vectors max_vectors encode
    from_capable decode try_from
next_pending_vector_example =
    next_pending_vector_iff msi_space 0x40 2 0x0107 14 0x0A 3 refl refl refl (omega arith)

evaluate_pending_interrupts-Ends_example :
    Ends (evaluate_pending_interrupts pci_msi 0x40 0x40 msi_space)
evaluate_pending_interrupts-Ends_example = evaluate_pending_interrupts-Ends 0x40 msi_space

abbrev wide_msi : PciMsiCapability
wide_msi = record {
  address_width = MsiAddressWidth.address_64bit;
  per_vector_masking = MsiPerVectorMasking.enabled;
  vectors = MsiMultipleMessage.eight;
}

msi_capability-IsCapability_example : IsCapability (msi_capability wide_msi)
msi_capability-IsCapability_example = msi_capability-IsCapability wide_msi

-- A bus master whose MSI capability at 0x40 is enabled and has no per-vector masking.
abbrev plain_space : PciConfigurationSpace
plain_space = record {
  registers = splice (splice (replicate 256 0) 0x04 (0x04 ∷ [])) 0x40 (0x07 ∷ []);
  writable_bits = replicate 256 0xFF;
  bars = [];
  last_cap_size = 8;
}

try_generate_message-not_supported_example :
    try_generate_message pci_msi 0x40 plain_space 1 ≡ ok ((0x40, plain_space), failed not_supported)
unfolding read_word RegisterBlock.read_word RegisterBlock.read from_le_bytes is_bus_master
    is_enabled per_vector_masking_enabled
try_generate_message-not_supported_example =
    try_generate_message-not_supported 0x40 plain_space 1 0x0007 refl refl refl refl
