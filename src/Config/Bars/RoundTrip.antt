-- ===== src/Config/Bars/RoundTrip.antt =====
-- `get_bar` after `add_bar`.
use mathlib.Core.Option
use greens.Base
use greens.Base.{
  ℕ, zero, suc, ◌+◌, ◌-◌, ◌*◌, ◌/◌, ◌%◌, ◌^◌, ◌≤◌, ◌<◌, ◌≡◌, ◌≢◌, ◌⊎◌, inl, inr, refl, ◌∙◌, sym, ap,
  arith, List, Option, none, some, length, get_elem?, Bool, true, false, not, ◌||◌, ◌==◌,
  if◌then◌else◌, bit_and, bit_or, get_elem?-set_self, get_elem?-lt, Bool-cases, ==_iff,
}
use greens.Bits.{complement, bit_or-low_high}
use greens.Word.{length-to_le_bytes}
use greens.Error.{ok}
use greens.Bar.{PciBar, PciBarType, bits, is_64bit}
use greens.Bar.Validate.{validate_bar_size, validate_bar_region}
use greens.Utils.RegisterBlock.Laws.{read_dword-set, read_dword-set_other, Disjoint}
use greens.Config.{PciConfigurationSpace, read_dword}
use greens.Config.Bars.{
  bar_register, add_bar, base_mask, add_upper, programmed, space_enabled, get_bar,
}
use greens.Config.Bars.Steps.{Added, add_bar-Added, add_region-eq, finish_bar-eq}
use greens.Config.Bars.Masks.{validate_bar_region-ok, size_exponent, multiple-16, masked_low}

-- The lower register after `add_bar`, and the upper one of a 64-bit BAR.
pub lower_read :
    (c : PciConfigurationSpace) (bar : PciBar) {c' : PciConfigurationSpace}
    → Added c bar c'
    → let address = Option.get_or bar.address 0 in
      let value =
        bit_or (bit_and (address % 2 ^ 32) (base_mask bar.region_type)) (bits bar.region_type) in
      value < 2 ^ 32 → read_dword c' (bar_register bar.index) ≡ ok value
unfolding read_dword
lower_read c bar {c'} a h =
    let f = finish_bar-eq a.middle.0 bar _ a.middle.1 a.finish in
    let mask = (add_region-eq c bar _ a.region).0 in read_dword-set _ _ _ h (rw mask at f.0)

upper_read :
    (c : PciConfigurationSpace) (bar : PciBar) {c' : PciConfigurationSpace}
    → Added c bar c'
    → is_64bit bar.region_type ≡ true
    → read_dword c' (bar_register bar.index + 4)
      ≡ ok (Option.get_or bar.address 0 / 2 ^ 32 % 2 ^ 32)
unfolding read_dword
upper_read c bar {c'} a wide =
    let f = finish_bar-eq a.middle.0 bar _ a.middle.1 a.finish in
    let r = add_region-eq c bar _ a.region in
    let next : bar_register (bar.index + 1) ≡ bar_register bar.index + 4 = omega arith in
    let apart : Disjoint (bar_register bar.index) 4 (bar_register bar.index + 4) 4 =
      inl (omega arith) in
    read_dword-set_other _ _ _ _ f.0 (rw length-to_le_bytes apart)
    ∙ read_dword-set _ _ _ (omega arith) (rw next at (r.4 wide).1)

-- An address that was validated, as the value of the two halves.
pub address_halves :
    (bar : PciBar) (address : ℕ)
    → validate_bar_size bar ≡ ok tt
    → validate_bar_region bar ≡ ok tt
    → bar.address ≡ some address
    → (address % 2 ^ 32 % 16 ≡ 0)
      × (address < 2 ^ 64)
      × (is_64bit bar.region_type ≡ false → address % 2 ^ 32 ≡ address)
address_halves bar address s r a =
    let v = validate_bar_region-ok bar address r a in
    let k = size_exponent bar s in
    let m = multiple-16 k.0 address k.1 (rw k.3 at v.1) in
    (omega (arith, m), omega arith, λ narrow. omega (arith, v.3 narrow))

-- The address that the registers of an added BAR give back.
add_upper-address :
    (c : PciConfigurationSpace) (bar : PciBar) (address : ℕ) {c' : PciConfigurationSpace}
    → Added c bar c'
    → bar.address ≡ some address
    → add_upper c' bar (bar_register bar.index) (address % 2 ^ 32) ≡ ok address
add_upper-address c bar address {c'} a e = split bar.region_type refl
  where
    h :
        (address % 2 ^ 32 % 16 ≡ 0)
        × (address < 2 ^ 64)
        × (is_64bit bar.region_type ≡ false → address % 2 ^ 32 ≡ address)
    h = address_halves bar address a.sized a.placed e

    split :
        (t : PciBarType)
        → bar.region_type ≡ t
        → add_upper c' bar (bar_register bar.index) (address % 2 ^ 32) ≡ ok address
    split PciBarType.io k = unfold add_upper in rw (k, h.2 (ap is_64bit k)) refl
    split (PciBarType.memory_32bit p) k = unfold add_upper in rw (k, h.2 (ap is_64bit k)) refl
    split (PciBarType.memory_64bit p) k =
        let upper = rw e at (upper_read c bar a (ap is_64bit k)) in
        let whole =
          bit_or-low_high 32 (address / 2 ^ 32 % 2 ^ 32) (address % 2 ^ 32) (omega arith) in
        unfold add_upper in rw (k, upper) (ap ok (omega (arith, whole, h.1)))

-- The slot of an added BAR.
pub Added-slot :
    (c : PciConfigurationSpace) (bar : PciBar) {c' : PciConfigurationSpace}
    → Added c bar c'
    → get_elem? c'.bars bar.index ≡ some (some bar)
Added-slot c bar {c'} a =
    let f = finish_bar-eq a.middle.0 bar _ a.middle.1 a.finish in
    let r = add_region-eq c bar _ a.region in
    let bars : c'.bars ≡ Base.set c.bars bar.index (some bar) = rw r.1 at f.2 in
    rw bars (get_elem?-set_self c.bars bar.index (some bar) (get_elem?-lt c.bars bar.index a.free))

-- The pattern in the registers that `get_bar` takes for a size probe.
abbrev pub probe_pattern : PciBar → ℕ
probe_pattern bar = bit_and (complement 64 (bar.size - 1)) (base_mask bar.region_type)

programmed-Added :
    (c : PciConfigurationSpace) (bar : PciBar) (address : ℕ) {c' : PciConfigurationSpace}
    → Added c bar c'
    → bar.address ≡ some address
    → programmed c' bar.index bar ≡ ok (if address == probe_pattern bar then none else some bar)
unfolding programmed
programmed-Added c bar address {c'} a there =
    let h = address_halves bar address a.sized a.placed there in
    let m = masked_low bar.region_type (address % 2 ^ 32) (omega arith) h.0 in
    let v = validate_bar_region-ok bar address a.placed there in
    let low = rw there at (lower_read c bar a (rw there m.1)) in
    rw (low, m.0, add_upper-address c bar address a there) (ground (arith, v.0))

-- `get_bar` returns the BAR that `add_bar` has added with an address, once its space is enabled,
-- unless the address is the pattern that `get_bar` takes for a size probe.
pub add_bar-get_bar :
    (c : PciConfigurationSpace) (bar : PciBar) (address : ℕ) {c' : PciConfigurationSpace}
    → add_bar c bar ≡ ok c'
    → bar.address ≡ some address
    → space_enabled c' bar ≡ ok true
    → get_bar c' bar.index ≡ ok (if address == probe_pattern bar then none else some bar)
unfolding get_bar
add_bar-get_bar c bar address {c'} e there on =
    let a = add_bar-Added c bar e in
    rw (Added-slot c bar a, get_bar, on, programmed-Added c bar address a there) refl
