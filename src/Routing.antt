-- ===== src/Routing.antt =====
-- function.rs: an access to an address of the memory or the port space goes to the BAR that holds
-- it. The trait `PciFunction` has the search as its default; `get_bar` and the accesses to a BAR
-- are the function's own.
pub mod Laws
use greens.Base.{
  ℕ, zero, suc, ◌+◌, ◌-◌, ◌%◌, ◌^◌, Bool, true, false, not, ◌&&◌, List, length, Option, none, some,
  if◌then◌else◌,
}
use greens.Word.{u64_max}
use greens.Error.{Result, ok, err, ◌>>=◌, bar_not_found}
use greens.Registers.{num_bar_regs}
use greens.Utils.Range.{range_contains}
use greens.Bar.{PciBar, is_mem}

abbrev same : Bool → Bool → Bool
same true b = b
same false b = not b

-- The address of a BAR of the kind, where it is programmed and holds the access.
unfoldable pub matching_address : Option PciBar → ℕ → ℕ → Bool → Option ℕ
matching_address none address size mem = none
matching_address (some bar) address size mem =
    if not (same mem (is_mem bar)) then none else elim bar.address [
      | none ↦ none
      | some bar_address ↦
          if range_contains u64_max bar_address bar.size address size
          then some bar_address
          else none
    ]

module _ (get_bar : ℕ → Result (Option PciBar)) where
  unfoldable pub get_matching_bar_address : ℕ → ℕ → ℕ → Bool → Result (Option ℕ)
  unfolding matching_address
  get_matching_bar_address index address size mem = do
    bar ← get_bar index
    ok (matching_address bar address size mem)

  -- The step of the loop for the BAR of an index; `rest` is what follows it.
  unfoldable pub found_or : ℕ → ℕ → Result (Option (ℕ × ℕ)) → Option ℕ → Result (Option (ℕ × ℕ))
  found_or index address rest (some bar_address) = ok (some (index, address - bar_address))
  found_or index address rest none = rest

  -- The loop over `n` indices from `index` on. Each is a `PciBarIndex`.
  unfoldable pub find_from : ℕ → ℕ → ℕ → ℕ → Bool → Result (Option (ℕ × ℕ))
  unfolding get_matching_bar_address found_or
  find_from zero index address size mem = ok none
  find_from (suc n) index address size mem = do
    let rest = find_from n (index + 1) address size mem
    bar_address ← get_matching_bar_address index address size mem
    found_or index address rest bar_address

  unfoldable pub find_bar_and_offset : ℕ → ℕ → Bool → Result (Option (ℕ × ℕ))
  unfolding find_from
  find_bar_and_offset address size mem = find_from num_bar_regs 0 address size mem

  unfoldable pub find_mmio_region : ℕ → ℕ → Result (Option (ℕ × ℕ))
  unfolding find_bar_and_offset
  find_mmio_region address size = find_bar_and_offset address size true

  -- The offset as a `u16`.
  unfoldable pub as_port_offset : Option (ℕ × ℕ) → Option (ℕ × ℕ)
  as_port_offset none = none
  as_port_offset (some (index, offset)) = some (index, offset % 2 ^ 16)

  unfoldable pub find_pio_region : ℕ → ℕ → Result (Option (ℕ × ℕ))
  unfolding find_bar_and_offset as_port_offset
  find_pio_region address size = do
    found ← find_bar_and_offset address size false
    ok (as_port_offset found)

  -- `ok_or(..)?` and then the access to the BAR.
  unfoldable pub to_bar {ℓ} : {A : Type ℓ} → ℕ → ℕ → (ℕ → ℕ → Result A) → Option (ℕ × ℕ) → Result A
  to_bar address size access none = err (bar_not_found address size)
  to_bar address size access (some (bar, offset)) = access bar offset

  -- `read_mmio` and `write_mmio`, for the access that they make with the data.
  unfoldable pub mmio_access {ℓ} : {A : Type ℓ} → ℕ → ℕ → (ℕ → ℕ → Result A) → Result A
  unfolding find_mmio_region to_bar
  mmio_access address size access = do
    found ← find_mmio_region address size
    to_bar address size access found

  -- `read_pio` and `write_pio`; the length of the data is cut to a `u16` for the search.
  unfoldable pub pio_access {ℓ} : {A : Type ℓ} → ℕ → ℕ → (ℕ → ℕ → Result A) → Result A
  unfolding find_pio_region to_bar
  pio_access port size access = do
    found ← find_pio_region port (size % 2 ^ 16)
    to_bar port size access found
