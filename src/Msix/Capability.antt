-- ===== src/Msix/Capability.antt =====
-- The MSI-X capability that `new` accepts: what its registers tell the guest.
use native.Mathlib.Nat.{pow-suc}
use greens.Base.{
  ℕ, zero, suc, ◌+◌, ◌-◌, ◌*◌, ◌/◌, ◌%◌, ◌^◌, ◌<◌, ◌≤◌, ◌≡◌, refl, ap, ◌∙◌, inr, splice,
  length-splice, arith, Bool, true, false, not, ◌||◌, List, length, bit_and, bit_or, ltb, leb, ◌==◌,
  ==_iff, ltb→lt, leb→le,
}
use greens.Bits.{bit_or_step, bit_and-low_mask, bit_or-high_low}
use greens.Error.{Result, ok, ◌>>◌, guard, Error}
use greens.BarRegion.{PciBarRegionInfo}
use greens.Msix.Table.{MsiXEntry, PbaEntry, raw_bytes, pba_raw_bytes}
use greens.Msix.Table.Laws.{length-raw_bytes}
use greens.Msix.{PciMsiXCapability, is_aligned, offset_mask, bir_mask, new, msix_registers}
use greens.Utils.RegisterBlock.{read, set_word, set_dword, read_word, read_dword}
use greens.Utils.RegisterBlock.Laws.{Disjoint, read-set, stored_value}
use greens.Word.{to_le_bytes, length-to_le_bytes, from_le_bytes-to_le_bytes}

-- `x | y` is at least `x`.
bit_or-ge : (w x y : ℕ) → x < 2 ^ w → x ≤ bit_or x y
bit_or-ge zero x y h = omega arith
bit_or-ge (suc w) x y h =
    omega (arith, bit_or_step x y, bit_or-ge w (x / 2) (y / 2) (omega (arith, pow-suc 2 w)))

below_pow : (x : ℕ) → x < 2 ^ x
below_pow zero = omega arith
below_pow (suc x) = omega (arith, below_pow x, pow-suc 2 x)

-- An aligned offset is a multiple of eight of 32 bits.
is_aligned_lem : (offset : ℕ) → is_aligned offset ≡ true → (offset % 8 ≡ 0) × (offset < 2 ^ 32)
unfolding is_aligned
is_aligned_lem offset e =
    let same : bit_or offset offset_mask ≡ offset_mask = (==_iff _ _).0 e in
    let s0 = bit_or_step offset offset_mask in
    let s1 = bit_or_step (offset / 2) (offset_mask / 2) in
    let s2 = bit_or_step (offset / 2 / 2) (offset_mask / 2 / 2) in
    (
      omega (arith, same, s0, s1, s2),
      omega (arith, same, bit_or-ge offset offset offset_mask (below_pow offset)),
    )

guard-true :
    {B : Type 0} (b : Bool) (e : Error) (rest : Result B) {r : B}
    → (guard b e >> rest) ≡ ok r
    → (b ≡ true) × (rest ≡ ok r)
guard-true true e rest h = (refl, h)
guard-true false e rest h = absurd (cc)

ok_injective : {A : Type 0} {x y : A} → ok x ≡ ok y → x ≡ y
ok_injective e = cc

-- The number of vectors passes its check.
unmatched : (n : ℕ) → not (n == 0 || ltb 0x7FF (n - 1)) ≡ true → (1 ≤ n) × (n ≤ 0x800)
unmatched n e = (ground arith, ground arith)

-- The offset and the number of the BAR of a register.
register_parts :
    (offset bar : ℕ)
    → is_aligned offset ≡ true
    → bar < 6
    → (bit_and (bit_or (offset % 2 ^ 32) bar) bir_mask ≡ bar)
      × (bit_or (offset % 2 ^ 32) bar - bar ≡ offset)
      × (bit_or (offset % 2 ^ 32) bar < 2 ^ 32)
register_parts offset bar e h =
    let (whole, small) = is_aligned_lem offset e in
    let joined : bit_or (offset / 8 * 2 ^ 3) bar ≡ offset / 8 * 2 ^ 3 + bar =
      bit_or-high_low 3 (offset / 8) bar (omega arith) in
    let same : offset % 2 ^ 32 ≡ offset / 8 * 2 ^ 3 = omega arith in
    (
      rw (same, joined) (omega (arith, bit_and-low_mask 3 (offset / 8 * 2 ^ 3 + bar))),
      rw (same, joined) (omega arith),
      rw (same, joined) (omega arith),
    )

-- What the fields of the capability that `new` accepts hold.
new_fields :
    (msix_info : PciBarRegionInfo) (table : List MsiXEntry) (pba_info : PciBarRegionInfo)
    (pba : List PbaEntry) (cap' : PciMsiXCapability)
    → new msix_info table pba_info pba ≡ ok cap'
    → (cap'.control + 1 ≡ length table)
      × (length table ≤ 0x800)
      × (16 * length table ≤ msix_info.length)
      × (length (pba_raw_bytes pba) ≤ pba_info.length)
      × (bit_and cap'.msix_offset bir_mask ≡ msix_info.bar)
      × (cap'.msix_offset - msix_info.bar ≡ msix_info.offset)
      × (bit_and cap'.pba_offset bir_mask ≡ pba_info.bar)
      × (cap'.pba_offset - pba_info.bar ≡ pba_info.offset)
      × (cap'.msix_offset < 2 ^ 32)
      × (cap'.pba_offset < 2 ^ 32)
unfolding new
new_fields i table p pba cap' run =
    let (a1, r1) = guard-true (is_aligned i.offset) _ _ run in
    let (a2, r2) = guard-true (ltb i.bar 6) _ _ r1 in
    let (a3, r3) = guard-true (is_aligned p.offset) _ _ r2 in
    let (a4, r4) = guard-true (ltb p.bar 6) _ _ r3 in
    let (a5, r5) = guard-true _ _ _ r4 in
    let (a6, r6) = guard-true (leb (length (raw_bytes table)) i.length) _ _ r5 in
    let (a7, r7b) = guard-true (leb (length (pba_raw_bytes pba)) p.length) _ _ r6 in
    let done = ok_injective r7b in
    let counted = unmatched (length table) a5 in
    let few : (length table - 1) % 2 ^ 16 ≡ length table - 1 = omega (arith, counted) in
    let msix_parts = register_parts i.offset i.bar a1 (ltb→lt _ _ a2) in
    let pba_parts = register_parts p.offset p.bar a3 (ltb→lt _ _ a4) in
    let control = ap (λ x. x.control) done in
    let msix_register = ap (λ x. x.msix_offset) done in
    let pba_register = ap (λ x. x.pba_offset) done in
    (
      omega (arith, control, few, counted),
      omega (arith, counted),
      omega (arith, leb→le _ _ a6, length-raw_bytes table),
      leb→le _ _ a7,
      rw (← msix_register) msix_parts.0,
      rw (← msix_register) msix_parts.1,
      rw (← pba_register) pba_parts.0,
      rw (← pba_register) pba_parts.1,
      rw (← msix_register) msix_parts.2,
      rw (← pba_register) pba_parts.2,
    )

-- A range that a stored value does not meet is read as before.
read-apart :
    (arr : List ℕ) (offset n v at k : ℕ)
    → offset + n ≤ length arr
    → Disjoint offset n at k
    → read (splice arr offset (to_le_bytes n v)) at k ≡ read arr at k
read-apart arr offset n v at k h d =
    (read-set arr offset (to_le_bytes n v) at k (stored_value arr offset n v h).0
      (rw length-to_le_bytes d)).1

-- The registers that a capability writes into a slice of its size.
registers_lem :
    (cap' : PciMsiXCapability) (arr : List ℕ)
    → length arr ≡ 10
    → cap'.control < 2 ^ 16
    → cap'.msix_offset < 2 ^ 32
    → cap'.pba_offset < 2 ^ 32
    → (registers : List ℕ) × (msix_registers cap' arr ≡ ok registers)
      × (read_word registers 0 ≡ ok cap'.control)
      × (read_dword registers 2 ≡ ok cap'.msix_offset)
      × (read_dword registers 6 ≡ ok cap'.pba_offset)
unfolding msix_registers set_word set_dword read_word read_dword
registers_lem cap' arr l c t p =
    let a1 = splice arr 0 (to_le_bytes 2 cap'.control) in
    let a2 = splice a1 2 (to_le_bytes 4 cap'.msix_offset) in
    let a3 = splice a2 6 (to_le_bytes 4 cap'.pba_offset) in
    let l1 : length a1 ≡ 10 = length-splice arr 0 (to_le_bytes 2 cap'.control) ∙ l in
    let l2 : length a2 ≡ 10 = length-splice a1 2 (to_le_bytes 4 cap'.msix_offset) ∙ l1 in
    let s1 = stored_value arr 0 2 cap'.control (omega (arith, l)) in
    let s2 = stored_value a1 2 4 cap'.msix_offset (omega (arith, l1)) in
    let s3 = stored_value a2 6 4 cap'.pba_offset (omega (arith, l2)) in
    let control : read a3 0 2 ≡ ok (to_le_bytes 2 cap'.control) =
      read-apart a2 6 4 cap'.pba_offset 0 2 (omega (arith, l2)) (inr (omega arith))
      ∙ read-apart a1 2 4 cap'.msix_offset 0 2 (omega (arith, l1)) (inr (omega arith))
      ∙ s1.1 in
    let table : read a3 2 4 ≡ ok (to_le_bytes 4 cap'.msix_offset) =
      read-apart a2 6 4 cap'.pba_offset 2 4 (omega (arith, l2)) (inr (omega arith)) ∙ s2.1 in
    (
      a3,
      rw (s1.0, s2.0, s3.0) refl,
      rw (control, from_le_bytes-to_le_bytes 2 cap'.control c) refl,
      rw (table, from_le_bytes-to_le_bytes 4 cap'.msix_offset t) refl,
      rw (s3.1, from_le_bytes-to_le_bytes 4 cap'.pba_offset p) refl,
    )

-- The capability that `new` accepts: the tables lie in their regions, and the registers that it puts in
-- a slice of its size have the number of vectors less one at 0, and for each table the number of its
-- BAR, in the low three bits, and its offset, in the others: for the MSI-X table at 2 and for the
-- pending bit array at 6.
pub new_lem :
    (msix_info : PciBarRegionInfo) (table : List MsiXEntry) (pba_info : PciBarRegionInfo)
    (pba : List PbaEntry) (cap' : PciMsiXCapability) (arr : List ℕ)
    → new msix_info table pba_info pba ≡ ok cap'
    → length arr ≡ 10
    → (length table ≤ 0x800)
      × (16 * length table ≤ msix_info.length)
      × (length (pba_raw_bytes pba) ≤ pba_info.length)
      × ((registers : List ℕ) × (table_register : ℕ) × (pba_register : ℕ) × (msix_registers cap' arr
            ≡ ok registers)
          × (read_word registers 0 ≡ ok (length table - 1))
          × (read_dword registers 2 ≡ ok table_register)
          × (bit_and table_register 7 ≡ msix_info.bar)
          × (table_register - msix_info.bar ≡ msix_info.offset)
          × (read_dword registers 6 ≡ ok pba_register)
          × (bit_and pba_register 7 ≡ pba_info.bar)
          × (pba_register - pba_info.bar ≡ pba_info.offset))
new_lem i table p pba cap' arr run l =
    let (count, few, room, pba_room, bar, offset, pba_bar, pba_start, small, pba_small) =
      new_fields i table p pba cap' run in
    let (registers, filled, control, first, second) =
      registers_lem cap' arr l (omega (arith, count, few)) small pba_small in
    let vectors : cap'.control ≡ length table - 1 = omega (arith, count) in
    (
      few,
      room,
      pba_room,
      (
        registers,
        cap'.msix_offset,
        cap'.pba_offset,
        filled,
        control ∙ ap ok vectors,
        first,
        bar,
        offset,
        second,
        pba_bar,
        pba_start,
      ),
    )
