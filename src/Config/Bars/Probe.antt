-- ===== src/Config/Bars/Probe.antt =====
-- The size that a driver reads from a 32-bit memory or I/O BAR.
use mathlib.Core.Option
use native.Mathlib.Nat.{pow-le-pow_right, div-add-mod, mul_comm, mod_self}
use greens.Base.{
  ℕ, ◌+◌, ◌-◌, ◌*◌, ◌/◌, ◌%◌, ◌^◌, ◌≤◌, ◌<◌, ◌≡◌, ◌∙◌, sym, ap, arith, List, none, some, length,
  slice, get_elem?, false, bit_and, bit_or, get_elem?-lt, Option-cases, inl, inr, length-slice,
}
use greens.Base.Slices.{All-slice}
use greens.Bits.{testbit, complement, testbit_ext, bit_or-lt, bit_and-lt, testbit-zero, two-pow-pos}
use greens.Word.{IsByte, IsBytes, to_le_bytes-IsBytes, from_le_bytes-lt}
use greens.Error.{ok}
use greens.Bar.{PciBar, PciBarType, PciBarPrefetchable, bits, is_64bit}
use greens.Bar.Validate.{validate_bar_region}
use greens.Utils.RegisterBlock.Laws.{read_dword-ok}
use greens.Config.{PciConfigurationSpace, read_dword, write_dword}
use greens.Config.Shape.{IsShaped, write-IsShaped}
use greens.Config.Words.{value_at}
use greens.Config.Bars.{bar_register, add_bar, base_mask}
use greens.Config.Bars.Steps.{Added, add_bar-Added, add_region-eq, finish_bar-eq}
use greens.Config.Bars.Keeps.{add_bar-IsShaped}
use greens.Config.Bars.RoundTrip.{lower_read}
use greens.Config.Bars.Masks.{
  size_exponent, validate_bar_region-ok, masked_low, masked_self, multiple-16,
}
use greens.Config.Bars.Sizing.{probed_bit, testbit-multiple, set-value_at}
use greens.Config.Bars.Dwords.{narrow_exponent, write_dword-bits, write_dword-ok}

-- The writable bits of the register of a 32-bit memory or I/O BAR.
bar_writable :
    (c : PciConfigurationSpace) (bar : PciBar) {c' : PciConfigurationSpace} (k : ℕ)
    → Added c bar c'
    → k < 32
    → bar.size ≡ 2 ^ k
    → value_at c'.writable_bits (bar_register bar.index) 4
      ≡ bit_and (complement 32 (2 ^ k - 1)) (base_mask bar.region_type)
bar_writable c bar {c'} k a small size =
    let f = finish_bar-eq a.middle.0 bar _ a.middle.1 a.finish in
    let mask = (add_region-eq c bar _ a.region).0 in
    let bound = pow-le-pow_right {n = 2} (omega arith) {i = k} {j = 32} (omega arith) in
    let low : complement 64 (bar.size - 1) % 2 ^ 32 ≡ complement 32 (2 ^ k - 1) =
      rw size (omega (arith, bound, two-pow-pos k)) in
    set-value_at _ _ _
      (bit_and-lt 32 (complement 32 (2 ^ k - 1)) (base_mask bar.region_type)
        (omega (arith, two-pow-pos k)))
      (rw (low, mask) at f.1)

-- The address of an added BAR, or 0, is a multiple of its size.
bar_multiple :
    (bar : PciBar) (k i : ℕ)
    → validate_bar_region bar ≡ ok tt
    → is_64bit bar.region_type ≡ false
    → bar.size ≡ 2 ^ k
    → i < k
    → testbit (Option.get_or bar.address 0 % 2 ^ 32) i ≡ 0
bar_multiple bar k i e narrow size h = elim (Option-cases bar.address) [
  | inl empty ↦ rw empty (testbit-zero i)
  | inr (address, there) ↦
      let v = validate_bar_region-ok bar address e there in
      let fits : address % 2 ^ 32 ≡ address = omega (arith, v.3 narrow) in
      let whole : address ≡ address / 2 ^ k * 2 ^ k =
        omega (
          arith,
          div-add-mod address (2 ^ k),
          rw size at v.1,
          mul_comm (2 ^ k) (address / 2 ^ k),
        ) in
      rw (there, fits) (ap (λ x. testbit x i) whole ∙ testbit-multiple k (address / 2 ^ k) i h)
]

pub bits-lt : (t : PciBarType) → bits t < 16
unfolding bits
bits-lt PciBarType.io = omega arith
bits-lt (PciBarType.memory_32bit PciBarPrefetchable.not_prefetchable) = omega arith
bits-lt (PciBarType.memory_32bit PciBarPrefetchable.prefetchable) = omega arith
bits-lt (PciBarType.memory_64bit PciBarPrefetchable.not_prefetchable) = omega arith
bits-lt (PciBarType.memory_64bit PciBarPrefetchable.prefetchable) = omega arith

bar_register_fits :
    (c : PciConfigurationSpace) (bar : PciBar)
    → IsShaped c
    → get_elem? c.bars bar.index ≡ some none
    → bar_register bar.index + 4 ≤ 256
bar_register_fits c bar s free = omega (arith, get_elem?-lt c.bars bar.index free, s.bars_length)

read_dword_lem :
    (c : PciConfigurationSpace) (offset : ℕ)
    → IsShaped c
    → offset + 4 ≤ 256
    → read_dword c offset ≡ ok (value_at c.registers offset 4)
unfolding read_dword
read_dword_lem c offset s fits = read_dword-ok c.registers offset (rw s.registers_length fits)

value_at-lt :
    (arr : List ℕ) (offset : ℕ)
    → IsBytes arr
    → offset + 4 ≤ length arr
    → value_at arr offset 4 < 2 ^ 32
value_at-lt arr offset b fits =
    rw (length-slice arr offset 4 fits) at
      (from_le_bytes-lt (slice arr offset 4) (All-slice IsByte arr offset 4 b))

-- The lower register of an added BAR holds its address beside the type's bits.
bar_value :
    (c : PciConfigurationSpace) (bar : PciBar) {c' : PciConfigurationSpace}
    → IsShaped c
    → Added c bar c'
    → IsShaped c'
    → value_at c'.registers (bar_register bar.index) 4
      ≡ bit_or
          (bit_and (Option.get_or bar.address 0 % 2 ^ 32) (base_mask bar.region_type))
          (bits bar.region_type)
bar_value c bar {c'} s a s' =
    let t = bar.region_type in
    let address = Option.get_or bar.address 0 % 2 ^ 32 in
    let v_lt =
      bit_or-lt 32 (bit_and address (base_mask t)) (bits t)
        (bit_and-lt 32 address (base_mask t) (omega arith)) (omega (arith, bits-lt t)) in
    cc (
      lower_read c bar a v_lt,
      read_dword_lem c' (bar_register bar.index) s' (bar_register_fits c bar s a.free),
    )

bar_written :
    (c : PciConfigurationSpace) (offset : ℕ) {c' : PciConfigurationSpace}
    → IsShaped c
    → write_dword c offset 0xFFFF_FFFF ≡ ok c'
    → IsShaped c'
unfolding write_dword
bar_written c offset s e = write-IsShaped c offset _ (to_le_bytes-IsBytes 4 0xFFFF_FFFF) s e

-- The register of an added 32-bit memory or I/O BAR after all ones were written to it.
bar_probed :
    (c : PciConfigurationSpace) (bar : PciBar) {c' c'' : PciConfigurationSpace} (k : ℕ)
    → IsShaped c
    → Added c bar c'
    → IsShaped c'
    → is_64bit bar.region_type ≡ false
    → 4 ≤ k
    → k < 32
    → bar.size ≡ 2 ^ k
    → write_dword c' (bar_register bar.index) 0xFFFF_FFFF ≡ ok c''
    → value_at c''.registers (bar_register bar.index) 4
      ≡ bit_or (complement 32 (2 ^ k - 1)) (bits bar.region_type)
bar_probed c bar {c'} {c''} k s a s' narrow large small size e =
    let t = bar.region_type in
    let address = Option.get_or bar.address 0 % 2 ^ 32 in
    let fits = bar_register_fits c bar s a.free in
    let s'' = bar_written c' (bar_register bar.index) s' e in
    testbit_ext 32 _ _
      (value_at-lt c''.registers _ s''.registers_bytes (rw s''.registers_length fits))
      (bit_or-lt 32 _ (bits t) (omega (arith, two-pow-pos k)) (omega (arith, bits-lt t)))
      λ i p.
        write_dword-bits c' _ 0xFFFF_FFFF i s' (omega arith) p e
        ∙ rw (bar_writable c bar k a small size, bar_value c bar s a s')
            (probed_bit k large small t address i p (bar_multiple bar k i a.placed narrow size))

-- The size in what a probe reads back.
probed_size :
    (k : ℕ)
    → 4 ≤ k
    → k < 32
    → (t : PciBarType)
    → complement 32 (bit_and (bit_or (complement 32 (2 ^ k - 1)) (bits t)) (base_mask t)) + 1
      ≡ 2 ^ k
probed_size k large small t =
    let bound = pow-le-pow_right {n = 2} (omega arith) {i = k} {j = 32} (omega arith) in
    let size16 = multiple-16 k (2 ^ k) large (mod_self (2 ^ k)) in
    let ones16 : complement 32 (2 ^ k - 1) % 16 ≡ 0 = omega (arith, size16, bound, two-pow-pos k) in
    let m = masked_low t (complement 32 (2 ^ k - 1)) (omega (arith, two-pow-pos k)) ones16 in
    let self = masked_self t (complement 32 (2 ^ k - 1)) (omega (arith, two-pow-pos k)) ones16 in
    rw (rw self at m.0) (omega (arith, bound, two-pow-pos k))

-- A driver that writes all ones to the register of an added 32-bit memory or I/O BAR succeeds, and
-- reads back a value whose complement, without the type's bits, is one less than the BAR's size.
pub add_bar-probe_size :
    (c : PciConfigurationSpace) (bar : PciBar) {c' : PciConfigurationSpace}
    → IsShaped c
    → add_bar c bar ≡ ok c'
    → is_64bit bar.region_type ≡ false
    → (c'' : PciConfigurationSpace) × (x : ℕ) × (write_dword c' (bar_register bar.index) 0xFFFF_FFFF
        ≡ ok c'')
      × (read_dword c'' (bar_register bar.index) ≡ ok x)
      × (complement 32 (bit_and x (base_mask bar.region_type)) + 1 ≡ bar.size)
add_bar-probe_size c bar {c'} s e narrow =
    let a = add_bar-Added c bar e in
    let s' = add_bar-IsShaped c bar s e in
    let (k, large, below, size) = size_exponent bar a.sized in
    let small = narrow_exponent bar k a.sized narrow size in
    let fits = bar_register_fits c bar s a.free in
    let (c'', done) = write_dword-ok c' (bar_register bar.index) 0xFFFF_FFFF s' fits in
    let s'' = bar_written c' (bar_register bar.index) s' done in
    (
      c'',
      value_at c''.registers (bar_register bar.index) 4,
      done,
      read_dword_lem c'' (bar_register bar.index) s'' fits,
      rw (bar_probed c bar k s a s' narrow large small size done)
          (probed_size k large small bar.region_type ∙ sym size),
    )
