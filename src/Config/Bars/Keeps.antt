-- ===== src/Config/Bars/Keeps.antt =====
-- `add_bar` keeps the shape of the configuration space.
use greens.Base.{ℕ, ◌+◌, ◌-◌, ◌/◌, ◌%◌, ◌^◌, ◌≡◌, ◌∙◌, refl, length-set, not, some, bit_and, bit_or}
use greens.Bits.{complement}
use greens.Word.{to_le_bytes-IsBytes}
use greens.Error.{
  ok, guard, Ensures, Ensures-bind, Ensures_lem, Ensures-then, Ensures-ok, on_ok, ◌>>=◌, bar_in_use,
}
use greens.Registers.{pci_command, pci_bar_io_base_address_mask, pci_bar_mem_32_base_address_mask}
use greens.Bar.{PciBar, PciBarType, bits}
use greens.Config.{PciConfigurationSpace, set_dword, set_writable_dword, add_writable_word}
use greens.Config.Shape.{
  IsShaped, set-IsShaped, set_writable_bits-IsShaped, add_writable_bits-IsShaped,
}
use greens.Config.Bars.{set_upper, add_region, finish_bar, add_bar, bar_register, slot_at, is_used}
use greens.Config.Bars.Steps.{add_bar-Added}

module _ {c : PciConfigurationSpace} (offset v : ℕ) (s : IsShaped c) where
  pub set_dword-Ensures : Ensures IsShaped (set_dword c offset v)
  unfolding set_dword
  set_dword-Ensures =
      Ensures_lem (set_dword c offset v)
        (λ a e. set-IsShaped c offset _ (to_le_bytes-IsBytes 4 v) s e)

  pub set_writable_dword-Ensures : Ensures IsShaped (set_writable_dword c offset v)
  unfolding set_writable_dword
  set_writable_dword-Ensures =
      Ensures_lem (set_writable_dword c offset v)
        (λ a e. set_writable_bits-IsShaped c offset _ (to_le_bytes-IsBytes 4 v) s e)

  pub add_writable_word-Ensures : Ensures IsShaped (add_writable_word c offset v)
  unfolding add_writable_word
  add_writable_word-Ensures =
      Ensures_lem (add_writable_word c offset v)
        (λ a e. add_writable_bits-IsShaped c offset _ (to_le_bytes-IsBytes 2 v) s e)

module _ (c : PciConfigurationSpace) (bar : PciBar) (address : ℕ) (s : IsShaped c) where
  set_upper-Ensures : Ensures IsShaped (set_upper c bar address)
  unfolding set_upper
  set_upper-Ensures = Ensures-then (slot_at c (bar.index + 1) bar.index) λ next.
      Ensures-then (guard (not (is_used next)) (bar_in_use bar.index)) λ _.
        Ensures-bind
          (set_writable_dword c (bar_register (bar.index + 1))
            (complement 64 ((bar.size - 1) / 2 ^ 32) % 2 ^ 32))
          (set_writable_dword-Ensures _ _ s) λ c1 s1. set_dword-Ensures _ _ s1

  add_region-Ensures : Ensures (λ r. IsShaped r.0) (add_region c bar address)
  unfolding add_region
  add_region-Ensures = split bar.region_type refl
    where
      enable :
          (c1 : PciConfigurationSpace) (mask base : ℕ)
          → IsShaped c1
          → Ensures
              (λ (r : PciConfigurationSpace × ℕ). IsShaped r.0)
              (add_writable_word c1 pci_command mask >>= λ c2. ok (c2, base))
      enable c1 mask base s1 =
          Ensures-bind (add_writable_word c1 pci_command mask)
            (add_writable_word-Ensures pci_command mask s1) λ c2 s2. on_ok s2

      split :
          (t : PciBarType)
          → bar.region_type ≡ t
          → Ensures (λ r. IsShaped r.0) (add_region c bar address)
      split PciBarType.io k = rw (k, add_region) (enable c 1 pci_bar_io_base_address_mask s)
      split (PciBarType.memory_32bit p) k =
          rw (k, add_region) (enable c 2 pci_bar_mem_32_base_address_mask s)
      split (PciBarType.memory_64bit p) k =
          rw (k, add_region)
            (Ensures-bind (set_upper c bar address) set_upper-Ensures
              λ c1 s1. enable c1 2 pci_bar_mem_32_base_address_mask s1)

  finish_bar-Ensures : (mask : ℕ) → Ensures IsShaped (finish_bar c bar address mask)
  unfolding finish_bar
  finish_bar-Ensures mask =
      Ensures-bind
        (set_writable_dword c (bar_register bar.index)
          (bit_and (complement 64 (bar.size - 1) % 2 ^ 32) mask))
        (set_writable_dword-Ensures _ _ s)
        λ c1 s1.
          Ensures-bind
            (set_dword c1 (bar_register bar.index)
              (bit_or (bit_and (address % 2 ^ 32) mask) (bits bar.region_type)))
            (set_dword-Ensures _ _ s1)
            λ c2 s2. on_ok record {
              registers_length = s2.registers_length;
              writable_length = s2.writable_length;
              registers_bytes = s2.registers_bytes;
              writable_bytes = s2.writable_bytes;
              bars_length = length-set c2.bars bar.index (some bar) ∙ s2.bars_length;
            }

-- `add_bar` that succeeds keeps the shape: the lengths of the arrays and of the slots, and bytes in
-- the arrays.
pub add_bar-IsShaped :
    (c : PciConfigurationSpace) (bar : PciBar) {c' : PciConfigurationSpace}
    → IsShaped c
    → add_bar c bar ≡ ok c'
    → IsShaped c'
add_bar-IsShaped c bar s e =
    let a = add_bar-Added c bar e in
    Ensures-ok
      (finish_bar-Ensures _ bar _ (Ensures-ok (add_region-Ensures c bar _ s) a.region) a.middle.1)
      a.finish
