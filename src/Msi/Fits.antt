-- ===== src/Msi/Fits.antt =====
-- The MSI capability fits the size that it declares.
use greens.Base.{
  ℕ, ◌+◌, ◌≤◌, refl, ◌∙◌, arith, Bool, true, false, List, length, replicate, Option, none, some,
  if◌then◌else◌, length-replicate, bit_or,
}
use greens.Base.Slices.{All-replicate}
use greens.Word.{IsByte}
use greens.Utils.RegisterBlock.{set_word, set_dword}
use greens.Utils.RegisterBlock.Fits.{Sized, Sets, set-Sets}
use greens.Capability.{IsCapability}
use greens.Msi.{
  PciMsiCapability, to_message_control, is_64bit, per_vector_masking_enabled, cap_size,
  message_data_offset, mask_bits_offset, pending_bits_offset, set_ones_at, msi_registers,
  msi_writable_bits, msi_capability, message_control, message_address, message_address_upper,
}

-- The offset is of a dword in the slice.
abbrev Holds : ℕ → Option ℕ → Type 0
Holds n none = Unit
Holds n (some offset) = offset + 4 ≤ n

set_ones_at-Sets :
    (n : ℕ) (arr : List ℕ) (o : Option ℕ) (mask : ℕ)
    → Sized n arr
    → Holds n o
    → Sets n (set_ones_at arr o mask)
unfolding set_ones_at set_dword
set_ones_at-Sets n arr none mask s h = (arr, refl, s.0, s.1)
set_ones_at-Sets n arr (some offset) mask s h = set-Sets n arr offset 4 mask s h

layout :
    (control : ℕ)
    → (8 ≤ cap_size control)
      × (message_data_offset control + 2 ≤ cap_size control)
      × Holds (cap_size control) (if is_64bit control then some message_address_upper else none)
      × Holds (cap_size control) (mask_bits_offset control)
      × Holds (cap_size control) (pending_bits_offset control)
unfolding cap_size message_data_offset mask_bits_offset pending_bits_offset
layout control = go (is_64bit control) (per_vector_masking_enabled control)
  where
    go :
        (wide masking : Bool)
        → (8 ≤ 8 + (if masking then 10 else 0) + (if wide then 4 else 0))
          × ((if wide then 10 else 6) + 2
              ≤ 8 + (if masking then 10 else 0) + (if wide then 4 else 0))
          × Holds
              (8 + (if masking then 10 else 0) + (if wide then 4 else 0))
              (if wide then some 6 else none)
          × Holds
              (8 + (if masking then 10 else 0) + (if wide then 4 else 0))
              (if masking then some (if wide then 14 else 10) else none)
          × Holds
              (8 + (if masking then 10 else 0) + (if wide then 4 else 0))
              (if masking then some (if wide then 18 else 14) else none)
    go true true = (omega arith, omega arith, omega arith, omega arith, omega arith)
    go true false = (omega arith, omega arith, omega arith, tt, tt)
    go false true = (omega arith, omega arith, tt, omega arith, omega arith)
    go false false = (omega arith, omega arith, tt, tt, tt)

msi_registers-Sets :
    (msi : PciMsiCapability) (bytes : List ℕ)
    → Sized (cap_size (to_message_control msi)) bytes
    → Sets (cap_size (to_message_control msi)) (msi_registers msi bytes)
unfolding msi_registers set_word
msi_registers-Sets msi bytes s =
    let n = cap_size (to_message_control msi) in
    set-Sets n (replicate (length bytes) 0) message_control 2 (to_message_control msi)
      (length-replicate (length bytes) 0 ∙ s.0, All-replicate IsByte (length bytes) 0 (omega arith))
      (omega (arith, (layout (to_message_control msi)).0))

msi_writable_bits-Sets :
    (msi : PciMsiCapability) (bits : List ℕ)
    → Sized (cap_size (to_message_control msi)) bits
    → Sets (cap_size (to_message_control msi)) (msi_writable_bits msi bits)
unfolding msi_writable_bits set_word set_dword
msi_writable_bits-Sets msi bits s =
    let control = to_message_control msi in
    let n = cap_size control in
    let (least, data_fits, upper_fits, mask_fits, pending_fits) = layout control in
    let (b1, run1, len1, bytes1) =
      set-Sets n bits message_control 2 (bit_or 112 1) s (omega (arith, least)) in
    let (b2, run2, len2, bytes2) =
      set-Sets n b1 message_address 4 0xFFFF_FFFC (len1, bytes1) (omega (arith, least)) in
    let (b3, run3, len3, bytes3) =
      set_ones_at-Sets n b2 (if is_64bit control then some message_address_upper else none)
        0xFFFF_FFFF (len2, bytes2) upper_fits in
    let (b4, run4, len4, bytes4) =
      set-Sets n b3 (message_data_offset control) 2 0xFFFF (len3, bytes3) data_fits in
    let (b5, run5, len5, bytes5) =
      set_ones_at-Sets n b4 (mask_bits_offset control) 0xFFFF_FFFF (len4, bytes4) mask_fits in
    let (b6, run6, len6, bytes6) =
      set_ones_at-Sets n b5 (pending_bits_offset control) 0xFFFF_FFFF (len5, bytes5) pending_fits in
    (b6, rw (run1, run2, run3, run4, run5) run6, len6, bytes6)

-- Every MSI capability fills a slice of the size that it declares, with its registers and with its
-- writable bits, without a panic and with as many bytes: `add_capability` can add it.
pub msi_capability-IsCapability : (msi : PciMsiCapability) → IsCapability (msi_capability msi)
msi_capability-IsCapability msi = record {
  fills_registers = record { filled = λ bytes n b. msi_registers-Sets msi bytes (n, b) };
  fills_writable_bits = record { filled = λ bits n b. msi_writable_bits-Sets msi bits (n, b) };
}
