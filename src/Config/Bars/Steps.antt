-- ===== src/Config/Bars/Steps.antt =====
-- What each step of `add_bar` that succeeds does to the state.
use mathlib.Core.Option
use greens.Base
use greens.Base.{
  ℕ, ◌+◌, ◌-◌, ◌*◌, ◌/◌, ◌%◌, ◌^◌, ◌≤◌, ◌<◌, ◌≡◌, ◌≢◌, refl, ◌∙◌, arith, List, Option, none, some,
  length, splice, get_elem?, bit_and, bit_or, Bool, true, false, not,
}
use greens.Bits.{complement}
use greens.Word.{to_le_bytes}
use greens.Error.{ok, guard, >>=-eq-ok, bar_in_use}
use greens.Bar.{PciBar, bits, is_64bit}
use greens.Bar.Validate.{validate_bar_size, validate_bar_region}
use greens.Utils.RegisterBlock
use greens.Config.{
  PciConfigurationSpace, set_dword, set, set_writable_dword, set_writable_bits, add_writable_word,
  add_writable_bits,
}
use greens.Config.Bars.{
  slot_at, is_used, used_by_previous, bar_register, add_region, finish_bar, add_bar, base_mask,
  validate_header_support,
}

-- The registers and writable bits that `finish_bar` leaves.
pub finish_bar-eq :
    (c : PciConfigurationSpace) (bar : PciBar) (address mask : ℕ) {c' : PciConfigurationSpace}
    → finish_bar c bar address mask ≡ ok c'
    → (RegisterBlock.set c.registers
          (bar_register bar.index)
          (to_le_bytes 4 (bit_or (bit_and (address % 2 ^ 32) mask) (bits bar.region_type)))
        ≡ ok c'.registers)
      × (RegisterBlock.set c.writable_bits
            (bar_register bar.index)
            (to_le_bytes 4 (bit_and (complement 64 (bar.size - 1) % 2 ^ 32) mask))
          ≡ ok c'.writable_bits)
      × (c'.bars ≡ Base.set c.bars bar.index (some bar))
      × (c'.last_cap_size ≡ c.last_cap_size)
unfolding finish_bar set_dword set set_writable_dword set_writable_bits RegisterBlock.set
finish_bar-eq c bar address mask {c'} e = ground arith

-- The match on the region type: only a 64-bit BAR sets a register, that of the next slot, which is
-- free.
pub add_region-eq :
    (c : PciConfigurationSpace) (bar : PciBar) (address : ℕ) {c1 : PciConfigurationSpace} {mask : ℕ}
    → add_region c bar address ≡ ok (c1, mask)
    → (mask ≡ base_mask bar.region_type)
      × (c1.bars ≡ c.bars)
      × (c1.last_cap_size ≡ c.last_cap_size)
      × (is_64bit bar.region_type ≡ false → c1.registers ≡ c.registers)
      × (is_64bit bar.region_type ≡ true
          → (get_elem? c.bars (bar.index + 1) ≡ some none)
            × (RegisterBlock.set c.registers
                  (bar_register (bar.index + 1))
                  (to_le_bytes 4 (address / 2 ^ 32 % 2 ^ 32))
                ≡ ok c1.registers))
unfolding add_region set_dword set set_writable_dword set_writable_bits add_writable_word
    add_writable_bits RegisterBlock.set
add_region-eq c bar address e = ground arith

-- What `add_bar` has checked when it succeeds, and the two steps that it then made.
pub record Added (c : PciConfigurationSpace) (bar : PciBar) (c' : PciConfigurationSpace)
    : Type 0 where
  pub supported : validate_header_support c bar.index ≡ ok tt
  pub sized : validate_bar_size bar ≡ ok tt
  pub placed : validate_bar_region bar ≡ ok tt
  pub free : get_elem? c.bars bar.index ≡ some none
  pub not_upper : used_by_previous c bar.index ≡ ok false
  pub middle : PciConfigurationSpace × ℕ
  pub region : add_region c bar (Option.get_or bar.address 0) ≡ ok middle
  pub finish : finish_bar middle.0 bar (Option.get_or bar.address 0) middle.1 ≡ ok c'

slot_free :
    (c : PciConfigurationSpace) (slot index : ℕ) {bar : Option PciBar}
    → slot_at c slot index ≡ ok bar
    → guard (not (is_used bar)) (bar_in_use index) ≡ ok tt
    → get_elem? c.bars slot ≡ some none
slot_free c slot index {bar} e g = ground arith

pub add_bar-Added :
    (c : PciConfigurationSpace) (bar : PciBar) {c' : PciConfigurationSpace}
    → add_bar c bar ≡ ok c'
    → Added c bar c'
unfolding add_bar
add_bar-Added c bar e =
    let a = >>=-eq-ok (validate_header_support c bar.index) _ e in
    let b = >>=-eq-ok (validate_bar_size bar) _ a.2 in
    let d = >>=-eq-ok (validate_bar_region bar) _ b.2 in
    let f = >>=-eq-ok (slot_at c bar.index bar.index) _ d.2 in
    let g = >>=-eq-ok (guard (not (is_used f.0)) (bar_in_use bar.index)) _ f.2 in
    let h = >>=-eq-ok (used_by_previous c bar.index) _ g.2 in
    let i = >>=-eq-ok (guard (not h.0) (bar_in_use bar.index)) _ h.2 in
    let j = >>=-eq-ok (add_region c bar (Option.get_or bar.address 0)) _ i.2 in
    record {
      supported = a.1;
      sized = b.1;
      placed = d.1;
      free = slot_free c bar.index bar.index f.1 g.1;
      not_upper = ground (arith, h.1, i.1);
      middle = j.0;
      region = j.1;
      finish = j.2;
    }
