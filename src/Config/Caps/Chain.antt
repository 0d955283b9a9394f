-- ===== src/Config/Caps/Chain.antt =====
-- The linked list of capabilities in the bytes of the space.
use greens.Base.{
  ℕ, ◌+◌, ◌*◌, ◌%◌, ◌≤◌, ◌<◌, ◌≡◌, ◌≢◌, ◌∙◌, arith, List, [], ◌∷◌, ◌++◌, length, get_or,
}

-- A capability: its start and its identifier.
abbrev pub Entry : Type 0
Entry = ℕ × ℕ

-- The byte at `pointer` begins a list of capabilities: each starts at a multiple of 4 in the device
-- area, after the pointer to it and below `bound`, with its identifier and the pointer to the next.
abbrev pub Linked : List ℕ → ℕ → ℕ → List Entry → Type 0
Linked regs bound pointer [] = get_or regs pointer 0 ≡ 0
Linked regs bound pointer ((start, id) ∷ entries) =
    (get_or regs pointer 0 ≡ start)
    × (64 ≤ start)
    × (start % 4 ≡ 0)
    × (pointer < start)
    × (start + 2 ≤ bound)
    × (get_or regs start 0 ≡ id)
    × Linked regs bound (start + 1) entries

-- The place of the pointer that ends the list.
abbrev pub end_pointer : ℕ → List Entry → ℕ
end_pointer pointer [] = pointer
end_pointer pointer ((start, id) ∷ entries) = end_pointer (start + 1) entries

pub end_pointer-le :
    (regs : List ℕ) (bound pointer : ℕ) (entries : List Entry)
    → Linked regs bound pointer entries
    → pointer ≤ end_pointer pointer entries
end_pointer-le regs bound pointer [] l = omega arith
end_pointer-le regs bound pointer ((start, id) ∷ entries) l =
    omega (arith, l, end_pointer-le regs bound (start + 1) entries l.6)

-- Below 256 there is room for 50 capabilities at most.
pub length-Linked :
    (regs : List ℕ) (bound pointer : ℕ) (entries : List Entry)
    → bound ≤ 255
    → pointer % 4 ≤ 1
    → pointer ≤ 253
    → Linked regs bound pointer entries
    → 4 * length entries + pointer ≤ 254
length-Linked regs bound pointer [] b m p l = omega arith
length-Linked regs bound pointer ((start, id) ∷ entries) b m p l =
    let rest =
      length-Linked regs bound (start + 1) entries b (omega (arith, l.2)) (omega (arith, l.2, l.4))
        l.6 in
    omega (arith, l.2, l.3, rest)

-- A new capability at the end of the list, in registers that otherwise agree from 52 on and below
-- the bound.
pub Linked-snoc :
    (regs regs' : List ℕ) (bound bound' pointer start id : ℕ) (entries : List Entry)
    → Linked regs bound pointer entries
    → 52 ≤ pointer
    → pointer < bound
    → ((j : ℕ)
        → 52 ≤ j
        → j < bound
        → j ≢ end_pointer pointer entries
        → get_or regs' j 0 ≡ get_or regs j 0)
    → get_or regs' (end_pointer pointer entries) 0 ≡ start
    → (bound ≤ start) × (64 ≤ start) × (start % 4 ≡ 0) × (start + 2 ≤ bound') × (bound ≤ bound')
    → (get_or regs' start 0 ≡ id) × (get_or regs' (start + 1) 0 ≡ 0)
    → Linked regs' bound' pointer (entries ++ (start, id) ∷ [])
Linked-snoc regs regs' bound bound' pointer start id [] l low below same link at new =
    (link, at.1, at.2, omega arith, at.3, new.0, new.1)
Linked-snoc regs regs' bound bound' pointer start id ((s, i) ∷ entries) l low below same link at
      new =
    let past = end_pointer-le regs bound (s + 1) entries l.6 in
    (
      same pointer low below (λ e. omega (arith, l.3)) ∙ l.0,
      l.1,
      l.2,
      l.3,
      omega (arith, l.4),
      same s (omega (arith, l.1)) (omega (arith, l.4)) (λ e. omega arith) ∙ l.5,
      Linked-snoc regs regs' bound bound' (s + 1) start id entries l.6 (omega (arith, l.1))
          (omega (arith, l.4)) same link at new,
    )
