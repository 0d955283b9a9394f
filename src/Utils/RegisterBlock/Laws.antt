-- ===== src/Utils/RegisterBlock/Laws.antt =====
-- Reads after sets: what was set is read back, and nothing else changes.
use greens.Base.{
  ℕ, ◌+◌, ◌%◌, ◌^◌, ◌≤◌, ◌<◌, ◌≡◌, ◌⊎◌, inl, inr, refl, ap, arith, List, length, slice, splice,
  le→leb, length-splice, slice-splice_self, slice-splice_before, slice-splice_after,
}
use greens.Word.{to_le_bytes, from_le_bytes, length-to_le_bytes, from_le_bytes-to_le_bytes}
use greens.Error.{ok, ◌>>=◌}
use greens.Utils.RegisterBlock.{
  set, read, set_byte, set_word, set_dword, set_qword, read_byte, read_word, read_dword, read_qword,
}

-- Two ranges with no position in common.
abbrev pub Disjoint : ℕ → ℕ → ℕ → ℕ → Type 0
Disjoint a n b k = (a + n ≤ b) ⊎ (b + k ≤ a)

pub set-ok :
    (arr : List ℕ) (offset : ℕ) (bytes : List ℕ)
    → offset + length bytes ≤ length arr
    → set arr offset bytes ≡ ok (splice arr offset bytes)
unfolding set
set-ok arr offset bytes h = rw (le→leb _ _ h)

pub read-ok :
    (arr : List ℕ) (offset n : ℕ)
    → offset + n ≤ length arr
    → read arr offset n ≡ ok (slice arr offset n)
unfolding read
read-ok arr offset n h = rw (le→leb _ _ h)

pub read_word-ok :
    (arr : List ℕ) (offset : ℕ)
    → offset + 2 ≤ length arr
    → read_word arr offset ≡ ok (from_le_bytes (slice arr offset 2))
unfolding read_word
read_word-ok arr offset h = rw (read-ok arr offset 2 h)

pub read_dword-ok :
    (arr : List ℕ) (offset : ℕ)
    → offset + 4 ≤ length arr
    → read_dword arr offset ≡ ok (from_le_bytes (slice arr offset 4))
unfolding read_dword
read_dword-ok arr offset h = rw (read-ok arr offset 4 h)

-- A successful set keeps the length of the block and the bytes in it.
pub set_keeps :
    (arr : List ℕ) (offset : ℕ) (bytes : List ℕ) {arr' : List ℕ}
    → set arr offset bytes ≡ ok arr'
    → (length arr' ≡ length arr)
      × (offset + length bytes ≤ length arr)
      × (arr' ≡ splice arr offset bytes)
unfolding set
set_keeps arr offset bytes {arr'} e = ground (arith, length-splice arr offset bytes)

-- What a successful set has stored a read of the same range returns, and a read of a range that
-- does not meet it returns what it did before.
pub read-set :
    (arr : List ℕ) (offset : ℕ) (bytes : List ℕ) {arr' : List ℕ} (at n : ℕ)
    → set arr offset bytes ≡ ok arr'
    → Disjoint offset (length bytes) at n
    → (read arr' offset (length bytes) ≡ ok bytes) × (read arr' at n ≡ read arr at n)
unfolding set read
read-set arr offset bytes {arr'} at n e d =
    let fits : offset + length bytes ≤ length arr = ground arith in
    let stored : splice arr offset bytes ≡ arr' = ground arith in
    let other : slice (splice arr offset bytes) at n ≡ slice arr at n = elim d [
      | inl h ↦ slice-splice_after arr offset bytes at n h
      | inr h ↦ slice-splice_before arr offset bytes at n h
    ] in
    rw (← stored) (
      rw (length-splice, le→leb _ _ fits, slice-splice_self arr offset bytes fits) refl,
      rw (length-splice, other) refl,
    )

-- The `n` bytes of a value, set and read back.
read-set_value :
    (arr : List ℕ) (offset n v : ℕ) {arr' : List ℕ}
    → set arr offset (to_le_bytes n v) ≡ ok arr'
    → read arr' offset n ≡ ok (to_le_bytes n v)
read-set_value arr offset n v {arr'} e =
    rw length-to_le_bytes at ((read-set arr offset (to_le_bytes n v) 0 0 e (inr (omega arith))).0)

-- What a set of `n` bytes of a value stores where they fit.
pub stored_value :
    (arr : List ℕ) (offset n v : ℕ)
    → offset + n ≤ length arr
    → (set arr offset (to_le_bytes n v) ≡ ok (splice arr offset (to_le_bytes n v)))
      × (read (splice arr offset (to_le_bytes n v)) offset n ≡ ok (to_le_bytes n v))
stored_value arr offset n v h =
    let stored = set-ok arr offset (to_le_bytes n v) (rw length-to_le_bytes h) in
    (stored, read-set_value arr offset n v stored)

-- At an offset where eight bytes fit, the read of each width returns the value of the width that
-- its set has stored.
pub read-set_widths :
    (arr : List ℕ) (offset v : ℕ)
    → offset + 8 ≤ length arr
    → ((set_byte arr offset (v % 2 ^ 8) >>= λ a. read_byte a offset) ≡ ok (v % 2 ^ 8))
      × ((set_word arr offset (v % 2 ^ 16) >>= λ a. read_word a offset) ≡ ok (v % 2 ^ 16))
      × ((set_dword arr offset (v % 2 ^ 32) >>= λ a. read_dword a offset) ≡ ok (v % 2 ^ 32))
      × ((set_qword arr offset (v % 2 ^ 64) >>= λ a. read_qword a offset) ≡ ok (v % 2 ^ 64))
unfolding set_byte set_word set_dword set_qword read_byte read_word read_dword read_qword
read-set_widths arr offset v h = (
  rw
      (
        (stored_value arr offset 1 (v % 2 ^ 8) (omega arith)).0,
        (stored_value arr offset 1 (v % 2 ^ 8) (omega arith)).1,
      )
      (ap ok (unfold to_le_bytes in omega arith)),
  rw
      (
        (stored_value arr offset 2 (v % 2 ^ 16) (omega arith)).0,
        (stored_value arr offset 2 (v % 2 ^ 16) (omega arith)).1,
        from_le_bytes-to_le_bytes 2 (v % 2 ^ 16) (omega arith),
      )
      refl,
  rw
      (
        (stored_value arr offset 4 (v % 2 ^ 32) (omega arith)).0,
        (stored_value arr offset 4 (v % 2 ^ 32) (omega arith)).1,
        from_le_bytes-to_le_bytes 4 (v % 2 ^ 32) (omega arith),
      )
      refl,
  rw
      (
        (stored_value arr offset 8 (v % 2 ^ 64) (omega arith)).0,
        (stored_value arr offset 8 (v % 2 ^ 64) (omega arith)).1,
        from_le_bytes-to_le_bytes 8 (v % 2 ^ 64) (omega arith),
      )
      refl,
)

-- The dword of a set of four bytes, and a dword that a set does not meet.
pub read_dword-set :
    (arr : List ℕ) (offset v : ℕ) {arr' : List ℕ}
    → v < 2 ^ 32
    → set arr offset (to_le_bytes 4 v) ≡ ok arr'
    → read_dword arr' offset ≡ ok v
unfolding read_dword
read_dword-set arr offset v h e =
    rw (read-set_value arr offset 4 v e, from_le_bytes-to_le_bytes 4 v h) refl

pub read_dword-set_other :
    (arr : List ℕ) (offset : ℕ) (bytes : List ℕ) (at : ℕ) {arr' : List ℕ}
    → set arr offset bytes ≡ ok arr'
    → Disjoint offset (length bytes) at 4
    → read_dword arr' at ≡ read_dword arr at
unfolding read_dword
read_dword-set_other arr offset bytes at e d = rw ((read-set arr offset bytes at 4 e d).1) refl

pub read_word-set :
    (arr : List ℕ) (offset v : ℕ) {arr' : List ℕ}
    → v < 2 ^ 16
    → set arr offset (to_le_bytes 2 v) ≡ ok arr'
    → read_word arr' offset ≡ ok v
unfolding read_word
read_word-set arr offset v h e =
    rw (read-set_value arr offset 2 v e, from_le_bytes-to_le_bytes 2 v h) refl

pub read_word-set_other :
    (arr : List ℕ) (offset : ℕ) (bytes : List ℕ) (at : ℕ) {arr' : List ℕ}
    → set arr offset bytes ≡ ok arr'
    → Disjoint offset (length bytes) at 2
    → read_word arr' at ≡ read_word arr at
unfolding read_word
read_word-set_other arr offset bytes at e d = rw ((read-set arr offset bytes at 2 e d).1) refl
