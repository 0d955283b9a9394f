-- ===== src/Utils/RegisterBlock/Fits.antt =====
-- Sets that fit: a block of known size stays a block of bytes of that size.
use greens.Base.{ℕ, ◌+◌, ◌≤◌, ◌≡◌, ◌∙◌, List, length, splice, length-splice}
use greens.Base.Slices.{All-splice}
use greens.Word.{IsByte, IsBytes, to_le_bytes, to_le_bytes-IsBytes, length-to_le_bytes}
use greens.Error.{Result, ok}
use greens.Utils.RegisterBlock.{set}
use greens.Utils.RegisterBlock.Laws.{set-ok}

-- A slice of `n` bytes.
abbrev pub Sized : ℕ → List ℕ → Type 0
Sized n arr = (length arr ≡ n) × IsBytes arr

-- A set that fits.
abbrev pub Sets : ℕ → Result (List ℕ) → Type 0
Sets n run = (arr : List ℕ) × (run ≡ ok arr) × (length arr ≡ n) × IsBytes arr

pub set-Sets :
    (n : ℕ) (arr : List ℕ) (offset k v : ℕ)
    → Sized n arr
    → offset + k ≤ n
    → Sets n (set arr offset (to_le_bytes k v))
set-Sets n arr offset k v s h = (
  splice arr offset (to_le_bytes k v),
  set-ok arr offset (to_le_bytes k v) (rw (length-to_le_bytes, s.0) h),
  length-splice arr offset (to_le_bytes k v) ∙ s.0,
  All-splice IsByte arr offset (to_le_bytes k v) s.1 (to_le_bytes-IsBytes k v),
)
