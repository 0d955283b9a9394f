-- ===== src/Utils/Endian.antt =====
-- `from_little_endian` and `to_little_endian` of utils/mod.rs, for a target of either byte order.
pub mod Laws
use mathlib.Core.List.{reverse}
use greens.Base.{ℕ, List, length, ltb, ◌==◌, ◌||◌, Bool, if◌then◌else◌}
use greens.Word.{to_le_bytes, from_le_bytes}
use greens.Error.{Result, ok, err, invalid_io_size}

-- The byte order of the target.
pub data Endian : Type 0 where
  little big : Endian

pub data EndianSwapSize : Type 0 where
  word dword qword : EndianSwapSize

-- The discriminants of the enum.
abbrev pub swap_size : EndianSwapSize → ℕ
swap_size EndianSwapSize.word = 2
swap_size EndianSwapSize.dword = 4
swap_size EndianSwapSize.qword = 8

-- `to_ne_bytes` and `from_ne_bytes` of the unsigned type of `n` bytes.
unfoldable pub to_ne_bytes : Endian → ℕ → ℕ → List ℕ
to_ne_bytes Endian.little n v = to_le_bytes n v
to_ne_bytes Endian.big n v = reverse (to_le_bytes n v)

unfoldable pub from_ne_bytes : Endian → List ℕ → ℕ
from_ne_bytes Endian.little bytes = from_le_bytes bytes
from_ne_bytes Endian.big bytes = from_le_bytes (reverse bytes)

-- The lengths that both functions convert; 1 is left as it is.
abbrev has_width : ℕ → Bool
has_width n = n == 2 || n == 4 || n == 8

unfoldable pub from_little_endian : Endian → List ℕ → EndianSwapSize → Result (List ℕ)
from_little_endian target bytes max_size =
    if ltb (swap_size max_size) (length bytes)
    then err (invalid_io_size (length bytes))
    else if length bytes == 1
    then ok bytes
    else if has_width (length bytes)
    then ok (to_ne_bytes target (length bytes) (from_le_bytes bytes))
    else err (invalid_io_size (length bytes))

unfoldable pub to_little_endian : Endian → List ℕ → EndianSwapSize → Result (List ℕ)
to_little_endian target bytes max_size =
    if ltb (swap_size max_size) (length bytes)
    then err (invalid_io_size (length bytes))
    else if length bytes == 1
    then ok bytes
    else if has_width (length bytes)
    then ok (to_le_bytes (length bytes) (from_ne_bytes target bytes))
    else err (invalid_io_size (length bytes))
