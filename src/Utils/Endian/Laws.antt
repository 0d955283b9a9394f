-- ===== src/Utils/Endian/Laws.antt =====
-- Conversion from and to little-endian are inverse, and fail on the same lengths.
use mathlib.Core.List.{reverse, reverse-reverse, reverse-append}
use greens.Base.{
  ℕ, ◌≤◌, ◌≡◌, refl, ap, ◌∙◌, ◌⊎◌, arith, List, [], ◌∷◌, length, length-append, ◌==◌, if◌then◌else◌,
}
use greens.Word.{IsBytes, to_le_bytes-from_le_bytes}
use greens.Error.{ok, err, invalid_io_size}
use greens.Utils.Endian.{
  Endian, EndianSwapSize, swap_size, to_ne_bytes, from_ne_bytes, from_little_endian,
  to_little_endian,
}

-- The lengths of data that a conversion up to `max_size` accepts.
abbrev pub HasWidth : ℕ → EndianSwapSize → Type 0
HasWidth n max_size = ((n ≡ 1) ⊎ (n ≡ 2) ⊎ (n ≡ 4) ⊎ (n ≡ 8)) × (n ≤ swap_size max_size)

length-reverse : (bs : List ℕ) → length (reverse bs) ≡ length bs
length-reverse [] = refl
length-reverse (b ∷ bs) =
    ap length (reverse-append (b ∷ []) bs)
    ∙ omega (arith, length-append (reverse bs) (b ∷ []), length-reverse bs)

-- What the target holds for little-endian data.
native_form : Endian → List ℕ → List ℕ
native_form Endian.little bytes = bytes
native_form Endian.big bytes = if length bytes == 1 then bytes else reverse bytes

length-native_form :
    (target : Endian) (bytes : List ℕ) → length (native_form target bytes) ≡ length bytes
unfolding native_form
length-native_form Endian.little bytes = refl
length-native_form Endian.big bytes = ground (arith, length-reverse bytes)

from-native_form :
    (target : Endian) (max_size : EndianSwapSize) (bytes : List ℕ)
    → IsBytes bytes
    → HasWidth (length bytes) max_size
    → from_little_endian target bytes max_size ≡ ok (native_form target bytes)
unfolding from_little_endian native_form to_ne_bytes
from-native_form Endian.little max_size bytes b w =
    ground (arith, to_le_bytes-from_le_bytes bytes b)
from-native_form Endian.big max_size bytes b w =
    rw (to_le_bytes-from_le_bytes bytes b) (ground arith)

to-native_form :
    (target : Endian) (max_size : EndianSwapSize) (bytes : List ℕ)
    → IsBytes bytes
    → HasWidth (length bytes) max_size
    → to_little_endian target (native_form target bytes) max_size ≡ ok bytes
unfolding to_little_endian native_form from_ne_bytes
to-native_form Endian.little max_size bytes b w = ground (arith, to_le_bytes-from_le_bytes bytes b)
to-native_form Endian.big max_size bytes b w =
    ground (arith, to_le_bytes-from_le_bytes bytes b, length-reverse bytes, reverse-reverse bytes)

-- On either target, converting little-endian data to the target's order and back gives the data.
pub to_little_endian-from_little_endian :
    (target : Endian) (max_size : EndianSwapSize) (bytes : List ℕ)
    → IsBytes bytes
    → HasWidth (length bytes) max_size
    → (native : List ℕ) × (from_little_endian target bytes max_size ≡ ok native)
      × (length native ≡ length bytes)
      × (to_little_endian target native max_size ≡ ok bytes)
to_little_endian-from_little_endian target max_size bytes b w = (
  native_form target bytes,
  from-native_form target max_size bytes b w,
  length-native_form target bytes,
  to-native_form target max_size bytes b w,
)

-- Both conversions refuse every other length, with the length in the error.
pub little_endian_refuses :
    (target : Endian) (max_size : EndianSwapSize) (bytes : List ℕ)
    → ¬ HasWidth (length bytes) max_size
    → (from_little_endian target bytes max_size ≡ err (invalid_io_size (length bytes)))
      × (to_little_endian target bytes max_size ≡ err (invalid_io_size (length bytes)))
unfolding from_little_endian to_little_endian
little_endian_refuses target max_size bytes h = ground arith
