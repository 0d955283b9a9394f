-- ===== src/Config/Access/Laws.antt =====
-- The checked accesses of the configuration space on every branch.
use greens.Base.{
  ℕ, ◌+◌, ◌-◌, ◌%◌, ◌^◌, ◌≤◌, ◌<◌, ◌≡◌, ◌≢◌, ◌⊎◌, inl, inr, refl, ◌∙◌, arith, List, length, slice,
  replicate, get_or, leb, ltb, le→leb, ◌&&◌, ◌||◌, ◌==◌, not, Option, none, some, if◌then◌else◌,
}
use greens.Bits.{testbit, has_bit}
use greens.Word.{usize_max}
use greens.Error.{Error, access_bounds, ok, err, invalid_io_size, invalid_access_alignment}
use greens.Utils.RegisterBlock.{validate_bounds}
use greens.Utils.RegisterBlock.Laws.{read-ok}
use greens.Utils.RegisterBlock.Writes.{write-ok, write-bits}
use greens.Config.{PciConfigurationSpace}
use greens.Config.Access.{validate_access, validate_write_access, read_checked, write_checked}
use greens.Config.Shape.{IsShaped}

-- The sizes of an access to the configuration space.
abbrev pub IsIoSize : ℕ → Type 0
IsIoSize n = (n ≡ 1) ⊎ (n ≡ 2) ⊎ (n ≡ 4)

-- What `validate_access` decides, for an offset far from overflow.
abbrev Validates : PciConfigurationSpace → ℕ → ℕ → Type 0
Validates c offset n =
    (¬ IsIoSize n → validate_access c offset n ≡ err (invalid_io_size n))
    × (IsIoSize n
        → offset % n ≢ 0
        → validate_access c offset n ≡ err (invalid_access_alignment offset n))
    × (IsIoSize n
        → offset % n ≡ 0
        → 256 ≤ offset
        → validate_access c offset n ≡ err (access_bounds offset n))
    × (IsIoSize n → offset % n ≡ 0 → offset < 256 → validate_access c offset n ≡ ok tt)

validate_access_lem :
    (c : PciConfigurationSpace) (offset n : ℕ) → IsShaped c → offset < 2 ^ 63 → Validates c offset n
unfolding validate_access validate_bounds
validate_access_lem c offset n s h = (
  λ p. ground arith,
  elim [
    | inl p ↦ rw p (ground arith)
    | inr (inl p) ↦ rw p (ground arith)
    | inr (inr p) ↦ rw p (ground arith)
  ],
  elim [
    | inl p ↦ rw p (ground arith)
    | inr (inl p) ↦ rw p (ground arith)
    | inr (inr p) ↦ rw p (ground arith)
  ],
  elim [
    | inl p ↦ rw p (ground arith)
    | inr (inl p) ↦ rw p (ground arith)
    | inr (inr p) ↦ rw p (ground arith)
  ],
)

-- An aligned access that begins in the space ends in it.
io_fits : (offset n : ℕ) → IsIoSize n → offset % n ≡ 0 → offset < 256 → offset + n ≤ 256
io_fits offset n (inl p) = rw p (ground arith)
io_fits offset n (inr (inl p)) = rw p (ground arith)
io_fits offset n (inr (inr p)) = rw p (ground arith)

-- Each branch of a checked read.
read_checked_branches :
    (c : PciConfigurationSpace) (offset : ℕ) (buffer : List ℕ)
    → IsShaped c
    → offset < 2 ^ 63
    → let n = length buffer in
      (¬ IsIoSize n → read_checked c offset buffer ≡ (buffer, err (invalid_io_size n)))
      × (IsIoSize n
          → offset % n ≢ 0
          → read_checked c offset buffer ≡ (buffer, err (invalid_access_alignment offset n)))
      × (IsIoSize n
          → offset % n ≡ 0
          → 256 ≤ offset
          → read_checked c offset buffer ≡ (replicate n 0xFF, err (access_bounds offset n)))
      × (IsIoSize n
          → offset % n ≡ 0
          → offset < 256
          → read_checked c offset buffer ≡ (slice c.registers offset n, ok tt))
unfolding read_checked
read_checked_branches c offset buffer s h =
    let v = validate_access_lem c offset (length buffer) s h in
    (
      λ p. rw (v.0 p, read_checked) refl,
      λ p q. rw (v.1 p q, read_checked) refl,
      λ p q r. rw (v.2 p q r, read_checked) refl,
      λ p q r.
          rw
            (
              v.3 p q r,
              read_checked,
              read-ok c.registers offset (length buffer)
                  (rw s.registers_length (io_fits offset (length buffer) p q r)),
            )
            refl,
    )

-- The error with which an access to the configuration space is refused.
abbrev pub refusal : ℕ → ℕ → Option Error
refusal offset n =
    if not (n == 1 || n == 2 || n == 4)
    then some (invalid_io_size n)
    else if not (offset % n == 0)
    then some (invalid_access_alignment offset n)
    else if leb 256 offset
    then some (access_bounds offset n)
    else none

-- A checked read, at an offset below 2 ^ 63, is refused for a size other than 1, 2 or 4 or an
-- offset that is not a multiple of the size, and then leaves the buffer alone; it is refused past
-- the 256 bytes of the space, and then fills the buffer with ones; any other read fills the buffer
-- with the registers. The errors come in this order.
pub read_checked_lem :
    (c : PciConfigurationSpace) (offset : ℕ) (buffer : List ℕ)
    → IsShaped c
    → offset < 2 ^ 63
    → read_checked c offset buffer ≡ elim (refusal offset (length buffer)) [
      | none ↦ (slice c.registers offset (length buffer), ok tt)
      | some e ↦ (
        if leb 256 offset
              && offset % length buffer == 0
              && (length buffer == 1 || length buffer == 2 || length buffer == 4)
            then replicate (length buffer) 0xFF
            else buffer,
        err e,
      )
    ]
read_checked_lem c offset buffer s h = ground (arith, read_checked_branches c offset buffer s h)

-- Bit `i` of byte `j` after a masked write of `bytes` at `offset`.
abbrev pub written_bit : PciConfigurationSpace → ℕ → List ℕ → ℕ → ℕ → ℕ
written_bit c offset bytes j i =
    if leb offset j && ltb j (offset + length bytes) && has_bit (get_or c.writable_bits j 0) i
    then testbit (get_or bytes (j - offset) 0) i
    else testbit (get_or c.registers j 0) i

validate_write_access-ok :
    (c : PciConfigurationSpace) (offset n : ℕ)
    → IsShaped c
    → offset < 2 ^ 63
    → offset + n ≤ 256
    → validate_access c offset n ≡ ok tt
    → validate_write_access c offset n ≡ ok tt
unfolding validate_write_access validate_bounds
validate_write_access-ok c offset n s h fits v =
    rw (v, s.writable_length, le→leb _ _ fits, le→leb (offset + n) usize_max (omega arith)) refl

validate_access-refused :
    (c : PciConfigurationSpace) (offset n : ℕ) (e : Error)
    → IsShaped c
    → offset < 2 ^ 63
    → refusal offset n ≡ some e
    → validate_access c offset n ≡ err e
validate_access-refused c offset n e s h r = ground (arith, validate_access_lem c offset n s h)

-- A checked write, at an offset below 2 ^ 63, returns the error of an access that is refused: for
-- its size, its alignment, or its offset past the space, in this order.
pub write_checked_refuses :
    (c : PciConfigurationSpace) (offset : ℕ) (bytes : List ℕ) (e : Error)
    → IsShaped c
    → offset < 2 ^ 63
    → refusal offset (length bytes) ≡ some e
    → write_checked c offset bytes ≡ err e
unfolding write_checked validate_write_access
write_checked_refuses c offset bytes e s h r =
    rw (validate_access-refused c offset (length bytes) e s h r) refl

-- A checked write of a valid size, aligned and in the space, changes exactly the writable bits of
-- the bytes that it covers, and nothing else of the state.
pub write_checked_lem :
    (c : PciConfigurationSpace) (offset : ℕ) (bytes : List ℕ) (j i : ℕ)
    → IsShaped c
    → refusal offset (length bytes) ≡ none
    → i < 8
    → (registers : List ℕ) × (write_checked c offset bytes
        ≡ ok (record c { registers = registers }))
      × (length registers ≡ 256)
      × (testbit (get_or registers j 0) i ≡ written_bit c offset bytes j i)
unfolding write_checked
write_checked_lem c offset bytes j i s r p =
    let q : IsIoSize (length bytes) = ground arith in
    let aligned : offset % length bytes ≡ 0 = ground arith in
    let inside : offset < 256 = ground arith in
    let h : offset < 2 ^ 63 = omega arith in
    let v = validate_access_lem c offset (length bytes) s h in
    let fits = io_fits offset (length bytes) q aligned inside in
    let done =
      write-ok c.registers c.writable_bits offset bytes (rw s.registers_length fits)
        (rw s.writable_length fits) in
    let bits = write-bits c.registers c.writable_bits offset bytes j i done s.writable_bytes p in
    (
      _,
      rw (validate_write_access-ok c offset (length bytes) s h fits (v.3 q aligned inside), done)
          refl,
      bits.0 ∙ s.registers_length,
      bits.1,
    )
