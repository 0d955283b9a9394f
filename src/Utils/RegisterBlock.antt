-- ===== src/Utils/RegisterBlock.antt =====
-- Register blocks of utils/register_block.rs: reads, sets and masked writes of a byte array.
-- `read`, `set` and `write` slice the array, so an access out of range panics.
pub mod Laws
pub mod Writes
pub mod Fits
use greens.Base.{
  ℕ, zero, suc, ◌+◌, ◌≤◌, bit_and, bit_or, List, [], ◌∷◌, length, leb, slice, splice, get_or,
  if◌then◌else◌, ◌≡◌,
}
use greens.Bits.{complement}
use greens.Word.{usize_max, to_le_bytes, from_le_bytes}
use greens.Error.{Error, access_bounds, Result, ok, err, ◌>>=◌, ◌>>◌, assert}

-- `update_register::<u8>`.
unfoldable pub update_register : ℕ → ℕ → ℕ → ℕ
update_register current new writable_bits =
    bit_or (bit_and current (complement 8 writable_bits)) (bit_and new writable_bits)

-- The zipped loop of `write` over the three slices.
unfoldable pub update_registers : List ℕ → List ℕ → List ℕ → List ℕ
unfolding update_register
update_registers [] new bits = []
update_registers (c ∷ cs) [] bits = c ∷ cs
update_registers (c ∷ cs) (n ∷ ns) [] = c ∷ cs
update_registers (c ∷ cs) (n ∷ ns) (w ∷ ws) = update_register c n w ∷ update_registers cs ns ws

unfoldable pub set : List ℕ → ℕ → List ℕ → Result (List ℕ)
set arr offset data' = do
  assert (leb (offset + length data') (length arr))
  ok (splice arr offset data')

-- The bytes that fill a buffer of `n` bytes.
unfoldable pub read : List ℕ → ℕ → ℕ → Result (List ℕ)
read arr offset n = do assert (leb (offset + n) (length arr)); ok (slice arr offset n)

unfoldable pub write : List ℕ → List ℕ → ℕ → List ℕ → Result (List ℕ)
write arr writable_bits offset data' = do
  assert (leb (offset + length data') (length arr))
  assert (leb (offset + length data') (length writable_bits))
  ok (
      splice arr offset (
        update_registers (slice arr offset (length data')) data'
          (slice writable_bits offset (length data'))))

unfoldable pub set_byte : List ℕ → ℕ → ℕ → Result (List ℕ)
set_byte arr offset v = set arr offset (to_le_bytes 1 v)

unfoldable pub set_word : List ℕ → ℕ → ℕ → Result (List ℕ)
set_word arr offset v = set arr offset (to_le_bytes 2 v)

unfoldable pub set_dword : List ℕ → ℕ → ℕ → Result (List ℕ)
set_dword arr offset v = set arr offset (to_le_bytes 4 v)

unfoldable pub set_qword : List ℕ → ℕ → ℕ → Result (List ℕ)
set_qword arr offset v = set arr offset (to_le_bytes 8 v)

unfoldable pub read_byte : List ℕ → ℕ → Result ℕ
read_byte arr offset = do bytes ← read arr offset 1; ok (get_or bytes 0 0)

unfoldable pub read_word : List ℕ → ℕ → Result ℕ
read_word arr offset = do bytes ← read arr offset 2; ok (from_le_bytes bytes)

unfoldable pub read_dword : List ℕ → ℕ → Result ℕ
read_dword arr offset = do bytes ← read arr offset 4; ok (from_le_bytes bytes)

unfoldable pub read_qword : List ℕ → ℕ → Result ℕ
read_qword arr offset = do bytes ← read arr offset 8; ok (from_le_bytes bytes)

unfoldable pub write_byte : List ℕ → List ℕ → ℕ → ℕ → Result (List ℕ)
write_byte arr bits offset v = write arr bits offset (to_le_bytes 1 v)

unfoldable pub write_word : List ℕ → List ℕ → ℕ → ℕ → Result (List ℕ)
write_word arr bits offset v = write arr bits offset (to_le_bytes 2 v)

unfoldable pub write_dword : List ℕ → List ℕ → ℕ → ℕ → Result (List ℕ)
write_dword arr bits offset v = write arr bits offset (to_le_bytes 4 v)

unfoldable pub write_qword : List ℕ → List ℕ → ℕ → ℕ → Result (List ℕ)
write_qword arr bits offset v = write arr bits offset (to_le_bytes 8 v)

-- The sum is of `usize`: an overflow panics.
unfoldable pub validate_bounds : List ℕ → ℕ → ℕ → Result (Unit {0})
validate_bounds registers offset size = do
  assert (leb (offset + size) usize_max)
  if leb (offset + size) (length registers) then ok tt else err (access_bounds offset size)
