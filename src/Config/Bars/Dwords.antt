-- ===== src/Config/Bars/Dwords.antt =====
-- The size of a 32-bit memory or I/O BAR, and dword writes to its register.
use native.Mathlib.Nat.{pow-le-pow_right}
use greens.Base.{ℕ, ◌+◌, ◌^◌, ◌≤◌, ◌<◌, ◌≡◌, refl, arith, false, if◌then◌else◌}
use greens.Bits.{testbit, has_bit}
use greens.Word.{to_le_bytes, length-to_le_bytes, to_le_bytes-IsBytes, from_le_bytes-to_le_bytes}
use greens.Error.{ok}
use greens.Bar.{PciBar, PciBarType, is_64bit}
use native.Mathlib.Decide.{dec_lt}
use greens.Bar.Validate.{validate_bar_size, max_size}
use greens.Utils.RegisterBlock.Writes.{write-ok, written}
use greens.Config.{PciConfigurationSpace, write_dword, write}
use greens.Config.Shape.{IsShaped, write-eq, write-IsShaped}
use greens.Config.Words.{value_at, testbit-value_at-write}
use greens.Config.Bars.Masks.{validate_bar_size-ok}

-- The exponent of the size of a 32-bit memory or I/O BAR is below 32.
pub narrow_exponent :
    (bar : PciBar) (k : ℕ)
    → validate_bar_size bar ≡ ok tt
    → is_64bit bar.region_type ≡ false
    → bar.size ≡ 2 ^ k
    → k < 32
narrow_exponent bar k e narrow size = elim (dec_lt k 32) [
  | yes h ↦ h
  | no h ↦ absurd (
      omega (
        arith,
        rw size at (validate_bar_size-ok bar e).2,
        limit bar.region_type narrow,
        pow-le-pow_right {n = 2} (omega arith) {i = 32} {j = k} (omega arith),
      ))
]
  where
    limit : (t : PciBarType) → is_64bit t ≡ false → max_size t ≤ 2 ^ 31
    limit PciBarType.io h = omega arith
    limit (PciBarType.memory_32bit p) h = omega arith
    limit (PciBarType.memory_64bit p) h = cc

-- The dword that a write of four bytes leaves, bit by bit.
pub write_dword-bits :
    (c : PciConfigurationSpace) (offset v i : ℕ) {c' : PciConfigurationSpace}
    → IsShaped c
    → v < 2 ^ 32
    → i < 32
    → write_dword c offset v ≡ ok c'
    → testbit (value_at c'.registers offset 4) i ≡ (
        if has_bit (value_at c.writable_bits offset 4) i
        then testbit v i
        else testbit (value_at c.registers offset 4) i)
unfolding write_dword
write_dword-bits c offset v i {c'} s h p e =
    let s' = write-IsShaped c offset (to_le_bytes 4 v) (to_le_bytes-IsBytes 4 v) s e in
    let r = write-eq c offset (to_le_bytes 4 v) e in
    let all =
      testbit-value_at-write c.registers c.writable_bits offset (to_le_bytes 4 v) i
        s.registers_bytes s.writable_bytes (to_le_bytes-IsBytes 4 v) s'.registers_bytes
        (rw length-to_le_bytes p) r.0 in
    rw (length-to_le_bytes, from_le_bytes-to_le_bytes 4 v h) at all

-- A dword write inside the space succeeds.
pub write_dword-ok :
    (c : PciConfigurationSpace) (offset v : ℕ)
    → IsShaped c
    → offset + 4 ≤ 256
    → (c' : PciConfigurationSpace) × (write_dword c offset v ≡ ok c')
unfolding write_dword write
write_dword-ok c offset v s fits =
    let done =
      write-ok c.registers c.writable_bits offset (to_le_bytes 4 v)
        (rw (s.registers_length, length-to_le_bytes) fits)
        (rw (s.writable_length, length-to_le_bytes) fits) in
    (
      record c { registers = written c.registers c.writable_bits offset (to_le_bytes 4 v) },
      rw (s.registers_length, s.writable_length, done) refl,
    )
