-- ===== src/Msix/Table.antt =====
-- The tables of msix.rs, for arrays: the entries of the MSI-X table and of the pending bit array,
-- and the bytes that an access of the guest reads and writes. `at` is `get_elem?`.
pub mod Laws
pub mod Pending
use greens.Base.{
  ℕ, zero, suc, ◌+◌, ◌-◌, ◌*◌, ◌/◌, ◌%◌, ◌^◌, bit_and, bit_or, Bool, true, false, List, [], ◌∷◌,
  ◌++◌, Option, none, some, length, get_elem?, set, slice, drop, ◌==◌, if◌then◌else◌,
}
use greens.Bits.{complement}
use greens.Word.{to_le_bytes, from_le_bytes}
use greens.Error.{Result, ok, err, ◌>>=◌, ◌>>◌, invalid_msi_x_vector}
use greens.Utils.RegisterBlock
use greens.Utils.RegisterBlock.{validate_bounds}

abbrev pub msg_addr_lo_mask : ℕ
msg_addr_lo_mask = 2 ^ 32 - 1 - 3

abbrev pub vector_control_mask : ℕ
vector_control_mask = 1

pub record MsiXEntry : Type 0 where
  pub msg_addr : ℕ
  pub msg_addr_hi : ℕ
  pub msg_data : ℕ
  pub vector_control : ℕ

-- The method `msg_addr`: the 64-bit address.
unfoldable pub entry_address : MsiXEntry → ℕ
entry_address entry = bit_or (bit_and entry.msg_addr msg_addr_lo_mask) (entry.msg_addr_hi * 2 ^ 32)

unfoldable pub entry_is_masked : MsiXEntry → Bool
entry_is_masked entry = bit_and entry.vector_control vector_control_mask == 1

-- `default`: a masked entry.
abbrev pub default_entry : MsiXEntry
default_entry = record {
  msg_addr = 0;
  msg_addr_hi = 0;
  msg_data = 0;
  vector_control = vector_control_mask;
}

pub record PbaEntry : Type 0 where
  pub pending_bits : ℕ

-- The packed layout of an entry, and the entry that 16 bytes hold.
unfoldable pub entry_bytes : MsiXEntry → List ℕ
entry_bytes entry =
    to_le_bytes 4 entry.msg_addr
    ++ to_le_bytes 4 entry.msg_addr_hi
    ++ to_le_bytes 4 entry.msg_data
    ++ to_le_bytes 4 entry.vector_control

unfoldable pub entry_from : List ℕ → MsiXEntry
entry_from bytes = record {
  msg_addr = from_le_bytes (slice bytes 0 4);
  msg_addr_hi = from_le_bytes (slice bytes 4 4);
  msg_data = from_le_bytes (slice bytes 8 4);
  vector_control = from_le_bytes (slice bytes 12 4);
}

-- `raw_bytes` of the MSI-X table and of the pending bit array.
unfoldable pub raw_bytes : List MsiXEntry → List ℕ
unfolding entry_bytes
raw_bytes [] = []
raw_bytes (entry ∷ entries) = entry_bytes entry ++ raw_bytes entries

unfoldable pub pba_raw_bytes : List PbaEntry → List ℕ
pba_raw_bytes [] = []
pba_raw_bytes (entry ∷ entries) = to_le_bytes 8 entry.pending_bits ++ pba_raw_bytes entries

-- The table of `n` entries that the bytes hold: what a change through `raw_bytes_mut` leaves.
unfoldable pub entries_from : ℕ → List ℕ → List MsiXEntry
unfolding entry_from
entries_from zero bytes = []
entries_from (suc n) bytes = entry_from (slice bytes 0 16) ∷ entries_from n (drop bytes 16)

-- `read_register_checked` of a table with these bytes, into a buffer of `n` bytes.
unfoldable pub read_register_checked : List ℕ → ℕ → ℕ → Result (List ℕ)
read_register_checked bytes offset n = do
  validate_bounds bytes offset n
  RegisterBlock.read bytes offset n

unfoldable pub set_register_checked : List MsiXEntry → ℕ → List ℕ → Result (List MsiXEntry)
set_register_checked table offset new = do
  validate_bounds (raw_bytes table) offset (length new)
  bytes ← RegisterBlock.set (raw_bytes table) offset new
  ok (entries_from (length table) bytes)

-- The entry of the pending bit array for a vector, and the bit in it.
unfoldable pub pending_bit_for : ℕ → ℕ × ℕ
pending_bit_for vector = (vector / 64, vector % 64)

unfoldable pub entry_is_pending : Option PbaEntry → ℕ → Bool
entry_is_pending none shift = false
entry_is_pending (some pba) shift = bit_and pba.pending_bits (2 ^ shift) == 2 ^ shift

unfoldable pub is_pending : List PbaEntry → ℕ → Bool
unfolding pending_bit_for entry_is_pending
is_pending pba_table vector =
    let (index, shift) = pending_bit_for vector in
    entry_is_pending (get_elem? pba_table index) shift

-- The entry with the bit set or cleared.
unfoldable pub with_bit : PbaEntry → ℕ → Bool → PbaEntry
with_bit pba shift pending = record {
  pending_bits =
      (if pending
        then bit_or pba.pending_bits (2 ^ shift)
        else bit_and pba.pending_bits (complement 64 (2 ^ shift)));
}

unfoldable pub set_pending_bit : List PbaEntry → ℕ → Bool → Result (List PbaEntry)
unfolding pending_bit_for with_bit
set_pending_bit pba_table vector pending =
    let (index, shift) = pending_bit_for vector in
    elim (get_elem? pba_table index) [
      | none ↦ err (invalid_msi_x_vector vector)
      | some pba ↦ ok (set pba_table index (with_bit pba shift pending))
    ]
