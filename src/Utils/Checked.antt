-- ===== src/Utils/Checked.antt =====
-- The checked accesses of utils/mod.rs: an access out of range is an error.
pub mod Laws
use greens.Base.{ℕ, List, length, splice, slice, get_or}
use greens.Word.{to_le_bytes, from_le_bytes}
use greens.Error.{Result, ok, ◌>>=◌, ◌>>◌}
use greens.Utils.RegisterBlock
use greens.Utils.RegisterBlock.{validate_bounds}

unfoldable pub validate_access : List ℕ → ℕ → List ℕ → Result (Unit {0})
unfolding validate_bounds
validate_access arr offset bytes = validate_bounds arr offset (length bytes)

-- After the check the slice is taken, which has its own bounds check.
unfoldable pub set : List ℕ → ℕ → List ℕ → Result (List ℕ)
unfolding validate_access RegisterBlock.set
set arr offset bytes = do validate_access arr offset bytes; RegisterBlock.set arr offset bytes

-- The bytes that fill a buffer of `n` bytes.
unfoldable pub read : List ℕ → ℕ → ℕ → Result (List ℕ)
unfolding validate_bounds RegisterBlock.read
read arr offset n = do validate_bounds arr offset n; RegisterBlock.read arr offset n

unfoldable pub write : List ℕ → List ℕ → ℕ → List ℕ → Result (List ℕ)
unfolding validate_access RegisterBlock.write
write arr writable_bits offset bytes = do
  validate_access arr offset bytes
  validate_access writable_bits offset bytes
  RegisterBlock.write arr writable_bits offset bytes

unfoldable pub set_byte : List ℕ → ℕ → ℕ → Result (List ℕ)
set_byte arr offset v = set arr offset (to_le_bytes 1 v)

unfoldable pub set_word : List ℕ → ℕ → ℕ → Result (List ℕ)
set_word arr offset v = set arr offset (to_le_bytes 2 v)

unfoldable pub set_dword : List ℕ → ℕ → ℕ → Result (List ℕ)
set_dword arr offset v = set arr offset (to_le_bytes 4 v)

unfoldable pub read_byte : List ℕ → ℕ → Result ℕ
read_byte arr offset = do bytes ← read arr offset 1; ok (get_or bytes 0 0)

unfoldable pub read_word : List ℕ → ℕ → Result ℕ
read_word arr offset = do bytes ← read arr offset 2; ok (from_le_bytes bytes)

unfoldable pub read_dword : List ℕ → ℕ → Result ℕ
read_dword arr offset = do bytes ← read arr offset 4; ok (from_le_bytes bytes)

unfoldable pub write_byte : List ℕ → List ℕ → ℕ → ℕ → Result (List ℕ)
write_byte arr bits offset v = write arr bits offset (to_le_bytes 1 v)

unfoldable pub write_word : List ℕ → List ℕ → ℕ → ℕ → Result (List ℕ)
write_word arr bits offset v = write arr bits offset (to_le_bytes 2 v)

unfoldable pub write_dword : List ℕ → List ℕ → ℕ → ℕ → Result (List ℕ)
write_dword arr bits offset v = write arr bits offset (to_le_bytes 4 v)
