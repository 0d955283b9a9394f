-- ===== src/Utils/Checked/Laws.antt =====
-- The checked accesses agree with the plain ones in range, and are errors, never panics, out of it.
use greens.Base.{ℕ, ◌+◌, ◌≤◌, ◌<◌, ◌≡◌, arith, List, length}
use greens.Word.{usize_max}
use greens.Error.{err, panic, access_bounds}
use greens.Utils.RegisterBlock
use greens.Utils.RegisterBlock.{validate_bounds}
use greens.Utils.Checked.{set, read, write}

-- A checked access that fits in the block is the plain access.
pub checked_access_inside :
    (arr bits : List ℕ) (offset : ℕ) (bytes : List ℕ)
    → offset + length bytes ≤ usize_max
    → length bits ≡ length arr
    → offset + length bytes ≤ length arr
    → (set arr offset bytes ≡ RegisterBlock.set arr offset bytes)
      × (read arr offset (length bytes) ≡ RegisterBlock.read arr offset (length bytes))
      × (write arr bits offset bytes ≡ RegisterBlock.write arr bits offset bytes)
unfolding set read write
checked_access_inside arr bits offset bytes h same p = ground arith

-- A checked access that reaches past the block, without an overflow of its end, is the error that
-- names its offset and size, where the plain access panics.
pub checked_access_outside :
    (arr bits : List ℕ) (offset : ℕ) (bytes : List ℕ)
    → offset + length bytes ≤ usize_max
    → length arr < offset + length bytes
    → (set arr offset bytes ≡ err (access_bounds offset (length bytes)))
      × (read arr offset (length bytes) ≡ err (access_bounds offset (length bytes)))
      × (write arr bits offset bytes ≡ err (access_bounds offset (length bytes)))
      × (RegisterBlock.set arr offset bytes ≡ panic)
      × (RegisterBlock.read arr offset (length bytes) ≡ panic)
      × (RegisterBlock.write arr bits offset bytes ≡ panic)
unfolding set read write
checked_access_outside arr bits offset bytes h p = ground arith
