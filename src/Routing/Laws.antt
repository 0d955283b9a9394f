-- ===== src/Routing/Laws.antt =====
-- An access to the memory or the port space goes to the first BAR that holds it.
use mathlib.Core.Path.{subst}
use native.Mathlib.Decide.{ℕ_discrete}
use greens.Base.{
  ℕ, zero, suc, ◌+◌, ◌-◌, ◌%◌, ◌^◌, ◌<◌, ◌≤◌, ◌≡◌, ◌⊎◌, refl, sym, ◌∙◌, ap, arith, Bool, true,
  false, Option, none, some, inl, inr, Option-cases,
}
use greens.Word.{u64_max}
use greens.Error.{Result, ok, err, panic, out_of_fuel, ◌>>=◌, bar_not_found}
use greens.Registers.{num_bar_regs}
use greens.Utils.Range.{range_contains, checked_add}
use greens.Bar.{PciBar, is_mem}
use greens.Routing.{
  same, matching_address, get_matching_bar_address, found_or, find_from, find_bar_and_offset,
  find_mmio_region, to_bar, mmio_access, as_port_offset, find_pio_region, pio_access,
}

-- A BAR of the kind is programmed with `base`, and holds the access, which is not empty.
pub record Holds (mem : Bool) (address size : ℕ) (bar : PciBar) (base : ℕ) : Type 0 where
  pub kind : is_mem bar ≡ mem
  pub programmed : bar.address ≡ some base
  pub not_empty : 0 < size
  pub from_base : base ≤ address
  pub to_end : address + size ≤ base + bar.size
  pub is_u64 : base + bar.size ≤ u64_max

range_contains_lem :
    (base length address size : ℕ)
    → range_contains u64_max base length address size ≡ true
    → (0 < size) × (base ≤ address) × (address + size ≤ base + length) × (base + length ≤ u64_max)
unfolding range_contains checked_add
range_contains_lem base length address size h = ground arith

range_contains-holds :
    (base length address size : ℕ)
    → 0 < size
    → base ≤ address
    → address + size ≤ base + length
    → base + length ≤ u64_max
    → range_contains u64_max base length address size ≡ true
unfolding range_contains checked_add
range_contains-holds base length address size p q r s = ground arith

same_lem : (a b : Bool) → same a b ≡ true → b ≡ a
same_lem true b h = h
same_lem false true h = absurd (cc)
same_lem false false h = refl

same_refl : (a : Bool) → same a a ≡ true
same_refl true = refl
same_refl false = refl

module _ (mem : Bool) (address size : ℕ) where
  matching_address-Holds :
      (bar : PciBar) (base : ℕ)
      → matching_address (some bar) address size mem ≡ some base
      → Holds mem address size bar base
  unfolding matching_address
  matching_address-Holds bar base e =
      let parts : (same mem (is_mem bar) ≡ true)
          × (bar.address ≡ some base)
          × (range_contains u64_max base bar.size address size ≡ true) =
        (ground arith, ground arith, ground arith) in
      let (not_empty, low, high, wide) = range_contains_lem base bar.size address size parts.2 in
      record {
        kind = same_lem mem (is_mem bar) parts.0;
        programmed = parts.1;
        not_empty = not_empty;
        from_base = low;
        to_end = high;
        is_u64 = wide;
      }

  Holds-matching_address :
      (bar : PciBar) (base : ℕ)
      → Holds mem address size bar base
      → matching_address (some bar) address size mem ≡ some base
  unfolding matching_address
  Holds-matching_address bar base h =
      let contains =
        range_contains-holds base bar.size address size h.not_empty h.from_base h.to_end h.is_u64 in
      rw (h.kind, same_refl mem, h.programmed, contains) refl

-- The slot has no BAR that holds the access.
abbrev pub IsFree : Bool → ℕ → ℕ → Option PciBar → Type 0
IsFree mem address size none = Unit
IsFree mem address size (some bar) = (base : ℕ) → ¬ Holds mem address size bar base

-- Where an access goes: to the first BAR that holds it, at the offset from its base, or nowhere.
pub data Routed {ℓ} {A : Type ℓ} (bars : ℕ → Option PciBar) (mem : Bool) (address size : ℕ)
    (access : ℕ → ℕ → Result A) : Result A → Type ℓ where
  routed :
      (index : ℕ) (bar : PciBar) (base : ℕ)
      → index < num_bar_regs
      → bars index ≡ some bar
      → Holds mem address size bar base
      → ((j : ℕ) → j < index → IsFree mem address size (bars j))
      → Routed bars mem address size access (access index (address - base))
  nowhere :
      ((j : ℕ) → j < num_bar_regs → IsFree mem address size (bars j))
      → Routed bars mem address size access (err (bar_not_found address size))

matching-cases :
    (mem : Bool) (address size : ℕ) (o : Option PciBar)
    → (matching_address o address size mem ≡ none × IsFree mem address size o)
      ⊎ ((bar : PciBar) × (base : ℕ) × (o ≡ some bar)
          × Holds mem address size bar base
          × (matching_address o address size mem ≡ some base))
unfolding matching_address
matching-cases mem address size none = inl (refl, tt)
matching-cases mem address size (some bar) =
    elim (Option-cases (matching_address (some bar) address size mem)) [
      | inl free ↦ inl (
        free,
        λ base h.
            absurd (none_some (sym free ∙ Holds-matching_address mem address size bar base h)),
      )
      | inr (base, found) ↦
          inr (bar, base, refl, matching_address-Holds mem address size bar base found, found)
    ]
  where
    none_some : {a : ℕ} → none ≡ some a → ⊥
    none_some e = cc

module _ {ℓ} {A : Type ℓ} (get_bar : ℕ → Result (Option PciBar)) (bars : ℕ → Option PciBar)
    (mem : Bool) (address size : ℕ) (access : ℕ → ℕ → Result A)
    (reads : (i : ℕ) → i < num_bar_regs → get_bar i ≡ ok (bars i)) where
  -- The loop from an index on, where no BAR before it holds the access.
  find_from-Routed :
      (n index : ℕ)
      → n + index ≡ num_bar_regs
      → ((j : ℕ) → j < index → IsFree mem address size (bars j))
      → Routed bars mem address size access
          (find_from get_bar n index address size mem >>= to_bar get_bar address size access)
  unfolding find_from get_matching_bar_address found_or to_bar
  find_from-Routed zero index e free = nowhere (λ j p. free j (omega arith))
  find_from-Routed (suc n) index e free = elim (matching-cases mem address size (bars index)) [
    | inl (missed, here) ↦
        rw (reads index (omega arith), missed)
          (find_from-Routed n (index + 1) (omega (arith, e)) (λ j p. elim (ℕ_discrete j index) [
            | yes level ↦ subst (λ k. IsFree mem address size (bars k)) (sym level) here
            | no apart ↦ free j (omega arith)
          ]))
    | inr (bar, base, there, holds, found) ↦
        rw (reads index (omega arith), found) (routed index bar base (omega arith) there holds free)
  ]

-- An access to memory goes to the first memory BAR that holds it, at the offset of its address from
-- the BAR's; where no BAR does, it is the error BarNotFound. `get_bar` succeeds for the six indices.
pub mmio_access-Routed {ℓ} :
    {A : Type ℓ} (get_bar : ℕ → Result (Option PciBar)) (bars : ℕ → Option PciBar)
    (address size : ℕ) (access : ℕ → ℕ → Result A)
    → ((i : ℕ) → i < num_bar_regs → get_bar i ≡ ok (bars i))
    → Routed bars true address size access (mmio_access get_bar address size access)
unfolding mmio_access find_mmio_region find_bar_and_offset
mmio_access-Routed get_bar bars address size access reads =
    find_from-Routed get_bar bars true address size access reads 6 0 (omega arith)
      (λ j p. absurd (omega arith))

-- The offset of a search fits a `u16` where the port does.
cut_offset :
    (get_bar : ℕ → Result (Option PciBar)) (n index port size : ℕ)
    → port < 2 ^ 16
    → (find_from get_bar n index port size false >>= λ found. ok (as_port_offset get_bar found))
      ≡ find_from get_bar n index port size false
unfolding find_from found_or get_matching_bar_address as_port_offset
cut_offset get_bar zero index port size h = refl
cut_offset get_bar (suc n) index port size h =
    go (cut_offset get_bar n (index + 1) port size h) (get_bar index)
  where
    Rest : Type 0
    Rest =
        (find_from get_bar n (index + 1) port size false >>= λ found.
        ok (as_port_offset get_bar found))
        ≡ find_from get_bar n (index + 1) port size false

    found :
        Rest
        → (o : Option ℕ)
        → (found_or get_bar index port (find_from get_bar n (index + 1) port size false) o
            >>= λ found. ok (as_port_offset get_bar found))
          ≡ found_or get_bar index port (find_from get_bar n (index + 1) port size false) o
    found rest none = rest
    found rest (some base) =
        ap (λ x. ok (some (index, x))) {x = (port - base) % 2 ^ 16} {y = port - base} (omega arith)

    go :
        Rest
        → (r : Result (Option PciBar))
        → (r
            >>= (λ bar. ok (matching_address bar port size false))
            >>= found_or get_bar index port (find_from get_bar n (index + 1) port size false)
            >>= λ found. ok (as_port_offset get_bar found))
          ≡ (r
              >>= (λ bar. ok (matching_address bar port size false))
              >>= found_or get_bar index port (find_from get_bar n (index + 1) port size false))
    go rest panic = refl
    go rest out_of_fuel = refl
    go rest (err e) = refl
    go rest (ok bar) = found rest (matching_address bar port size false)

-- The same for ports, where the port and the length of the data are of a `u16`.
pub pio_access-Routed {ℓ} :
    {A : Type ℓ} (get_bar : ℕ → Result (Option PciBar)) (bars : ℕ → Option PciBar) (port size : ℕ)
    (access : ℕ → ℕ → Result A)
    → ((i : ℕ) → i < num_bar_regs → get_bar i ≡ ok (bars i))
    → port < 2 ^ 16
    → size < 2 ^ 16
    → Routed bars false port size access (pio_access get_bar port size access)
unfolding pio_access find_pio_region find_bar_and_offset
pio_access-Routed get_bar bars port size access reads h k =
    let whole : size % 2 ^ 16 ≡ size = omega arith in
    rw (whole, cut_offset get_bar 6 0 port size h)
      (find_from-Routed get_bar bars false port size access reads 6 0 (omega arith)
        (λ j p. absurd (omega arith)))
