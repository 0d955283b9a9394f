-- ===== src/Msi.antt =====
-- The MSI capability of msi.rs: its control word, the layout that the word determines, and the
-- registers and writable bits of the capability. The children have the message source and the
-- handler of configuration writes.
pub mod Source
pub mod Handler
pub mod Fits
use greens.Base.{
  ℕ, zero, suc, ◌+◌, ◌*◌, ◌/◌, ◌%◌, ◌^◌, bit_and, bit_or, Bool, true, false, List, length, Option,
  none, some, map, replicate, ltb, ◌==◌, if◌then◌else◌,
}
use mathlib.Core.Option
use greens.Error.{Result, ok, err, ◌>>=◌, invalid_multiple_message_value}
use greens.Utils.RegisterBlock.{set_word, set_dword}
use greens.Capability.{PciCapability, PciCapabilityId}

abbrev pub message_control : ℕ
message_control = 0

abbrev pub message_control_vector_masking : ℕ
message_control_vector_masking = 2 ^ 8

abbrev pub message_control_64bit : ℕ
message_control_64bit = 2 ^ 7

abbrev pub message_control_multiple_msg_en_shift : ℕ
message_control_multiple_msg_en_shift = 4

abbrev pub message_control_multiple_msg_en : ℕ
message_control_multiple_msg_en = 7 * 2 ^ 4

abbrev pub message_control_multiple_msg_cap_shift : ℕ
message_control_multiple_msg_cap_shift = 1

abbrev pub message_control_msi_en : ℕ
message_control_msi_en = 1

abbrev pub message_address : ℕ
message_address = 2

abbrev pub message_address_mask : ℕ
message_address_mask = 0xFFFF_FFFC

abbrev pub message_address_upper : ℕ
message_address_upper = message_address + 4

abbrev pub message_address_upper_mask : ℕ
message_address_upper_mask = 0xFFFF_FFFF

abbrev pub message_data_32bit : ℕ
message_data_32bit = message_address + 4

abbrev pub message_data_64bit : ℕ
message_data_64bit = message_address_upper + 4

abbrev pub message_data_mask : ℕ
message_data_mask = 0xFFFF

abbrev pub mask_bits_32bit : ℕ
mask_bits_32bit = message_data_32bit + 4

abbrev pub mask_bits_64bit : ℕ
mask_bits_64bit = message_data_64bit + 4

abbrev pub mask_bits_mask : ℕ
mask_bits_mask = 0xFFFF_FFFF

abbrev pub pending_bits_32bit : ℕ
pending_bits_32bit = mask_bits_32bit + 4

abbrev pub pending_bits_64bit : ℕ
pending_bits_64bit = mask_bits_64bit + 4

abbrev pub pending_bits_mask : ℕ
pending_bits_mask = 0xFFFF_FFFF

pub data MsiMultipleMessage : Type 0 where
  one two four eight sixteen thirty_two : MsiMultipleMessage

-- `encode`, and the casts to `u16`.
unfoldable pub encode : MsiMultipleMessage → ℕ
encode MsiMultipleMessage.one = 0
encode MsiMultipleMessage.two = 1
encode MsiMultipleMessage.four = 2
encode MsiMultipleMessage.eight = 3
encode MsiMultipleMessage.sixteen = 4
encode MsiMultipleMessage.thirty_two = 5

-- The transmute of `try_from`: the constructor with the value, which is 5 at most.
abbrev pub transmute : ℕ → MsiMultipleMessage
transmute zero = MsiMultipleMessage.one
transmute (suc zero) = MsiMultipleMessage.two
transmute (suc (suc zero)) = MsiMultipleMessage.four
transmute (suc (suc (suc zero))) = MsiMultipleMessage.eight
transmute (suc (suc (suc (suc zero)))) = MsiMultipleMessage.sixteen
transmute (suc (suc (suc (suc (suc value))))) = MsiMultipleMessage.thirty_two

unfoldable pub try_from : ℕ → Result MsiMultipleMessage
try_from value =
    if ltb 5 value then err (invalid_multiple_message_value value) else ok (transmute value)

unfoldable pub decode : ℕ → Option MsiMultipleMessage
unfolding try_from
decode val = elim (try_from (bit_and val 7)) [ ok m ↦ some m | _ ↦ none ]

unfoldable pub to_capable : MsiMultipleMessage → ℕ
to_capable m = encode m * 2 ^ message_control_multiple_msg_cap_shift

unfoldable pub from_capable : ℕ → Option MsiMultipleMessage
from_capable control = decode (control / 2 ^ message_control_multiple_msg_cap_shift)

unfoldable pub to_enable : MsiMultipleMessage → ℕ
to_enable m = encode m * 2 ^ message_control_multiple_msg_en_shift

unfoldable pub from_enable : ℕ → Option MsiMultipleMessage
from_enable control = decode (control / 2 ^ message_control_multiple_msg_en_shift)

unfoldable pub max_vectors : MsiMultipleMessage → ℕ
unfolding encode
max_vectors m = 2 ^ encode m

pub data MsiAddressWidth : Type 0 where
  address_32bit address_64bit : MsiAddressWidth

pub data MsiPerVectorMasking : Type 0 where
  disabled enabled : MsiPerVectorMasking

-- The casts to `u16`.
abbrev pub width_bits : MsiAddressWidth → ℕ
width_bits MsiAddressWidth.address_32bit = 0
width_bits MsiAddressWidth.address_64bit = message_control_64bit

abbrev pub masking_bits : MsiPerVectorMasking → ℕ
masking_bits MsiPerVectorMasking.disabled = 0
masking_bits MsiPerVectorMasking.enabled = message_control_vector_masking

pub record PciMsiCapability : Type 0 where
  pub address_width : MsiAddressWidth
  pub per_vector_masking : MsiPerVectorMasking
  pub vectors : MsiMultipleMessage

unfoldable pub to_message_control : PciMsiCapability → ℕ
to_message_control cap' =
    bit_or (bit_or (width_bits cap'.address_width) (to_capable cap'.vectors))
      (masking_bits cap'.per_vector_masking)

unfoldable pub is_enabled : ℕ → Bool
is_enabled control = bit_and control message_control_msi_en == message_control_msi_en

unfoldable pub is_64bit : ℕ → Bool
is_64bit control = bit_and control message_control_64bit == message_control_64bit

unfoldable pub per_vector_masking_enabled : ℕ → Bool
per_vector_masking_enabled control =
    bit_and control message_control_vector_masking == message_control_vector_masking

unfoldable pub cap_size : ℕ → ℕ
unfolding is_64bit per_vector_masking_enabled
cap_size control =
    8 + (if per_vector_masking_enabled control then 10 else 0) + (if is_64bit control then 4 else 0)

unfoldable pub message_data_offset : ℕ → ℕ
unfolding is_64bit
message_data_offset control = if is_64bit control then message_data_64bit else message_data_32bit

unfoldable pub mask_bits_offset : ℕ → Option ℕ
unfolding is_64bit per_vector_masking_enabled
mask_bits_offset control =
    if per_vector_masking_enabled control
    then some (if is_64bit control then mask_bits_64bit else mask_bits_32bit)
    else none

unfoldable pub pending_bits_offset : ℕ → Option ℕ
unfolding is_64bit per_vector_masking_enabled
pending_bits_offset control =
    if per_vector_masking_enabled control
    then some (if is_64bit control then pending_bits_64bit else pending_bits_32bit)
    else none

unfoldable pub capable_vectors : ℕ → MsiMultipleMessage
capable_vectors control = Option.get_or (from_capable control) MsiMultipleMessage.one

unfoldable pub num_capable_vectors : ℕ → ℕ
num_capable_vectors control = max_vectors (capable_vectors control)

unfoldable pub enabled_vectors : ℕ → MsiMultipleMessage
enabled_vectors control = Option.get_or (from_enable control) MsiMultipleMessage.one

-- `registers` of the capability: the bytes that fill the slice.
unfoldable pub msi_registers : PciMsiCapability → List ℕ → Result (List ℕ)
msi_registers cap' registers =
    set_word (replicate (length registers) 0) message_control (to_message_control cap')

-- A dword of ones where the register exists.
unfoldable pub set_ones_at : List ℕ → Option ℕ → ℕ → Result (List ℕ)
set_ones_at bits none mask = ok bits
set_ones_at bits (some offset) mask = set_dword bits offset mask

unfoldable pub msi_writable_bits : PciMsiCapability → List ℕ → Result (List ℕ)
unfolding set_ones_at
msi_writable_bits cap' writable_bits = do
  let control = to_message_control cap'
  bits1 ←
      set_word writable_bits message_control
        (bit_or message_control_multiple_msg_en message_control_msi_en)
  bits2 ← set_dword bits1 message_address message_address_mask
  bits3 ←
      set_ones_at bits2 (if is_64bit control then some message_address_upper else none)
        message_address_upper_mask
  bits4 ← set_word bits3 (message_data_offset control) message_data_mask
  bits5 ← set_ones_at bits4 (mask_bits_offset control) mask_bits_mask
  set_ones_at bits5 (pending_bits_offset control) pending_bits_mask

-- The implementation of the trait.
abbrev pub msi_capability : PciMsiCapability → PciCapability
msi_capability cap' = record {
  id = PciCapabilityId.msi;
  size = cap_size (to_message_control cap');
  registers = msi_registers cap';
  writable_bits = msi_writable_bits cap';
}
