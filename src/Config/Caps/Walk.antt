-- ===== src/Config/Caps/Walk.antt =====
-- What the iterator lists on a linked list of capabilities, and that its fuel is enough.
use greens.Base.{
  ℕ, zero, suc, ◌+◌, ◌*◌, ◌/◌, ◌≤◌, ◌<◌, ◌≡◌, ◌≢◌, refl, ◌∙◌, ap, arith, List, [], ◌∷◌, length,
  get_or, none, some, map, ltb, if◌then◌else◌,
}
use greens.Base.Slices.{get_or-slice, All-get_or}
use greens.Bits.{bit_and-align}
use greens.Word.{IsByte}
use greens.Error.{ok}
use greens.Utils.RegisterBlock
use greens.Utils.RegisterBlock.Laws.{read-ok}
use greens.Config.{PciConfigurationSpace, read_byte}
use greens.Config.Shape.{IsShaped}
use greens.Config.Caps.{Item, next_cap, header_at, next, items_from, capability_iter}
use greens.Config.Caps.Chain.{Entry, Linked, length-Linked}

pub read_byte-ok :
    (c : PciConfigurationSpace) (offset : ℕ)
    → IsShaped c
    → offset < 256
    → read_byte c offset ≡ ok (get_or c.registers offset 0)
unfolding read_byte RegisterBlock.read_byte
read_byte-ok c offset s h =
    rw
      (
        read-ok c.registers offset 1 (omega (arith, s.registers_length)),
        get_or-slice 0 c.registers offset 1 0 (omega arith),
      )
      (ap (λ k. ok (get_or c.registers k 0)) (omega arith))

next_cap-ok :
    (c : PciConfigurationSpace) (pointer : ℕ)
    → IsShaped c
    → pointer < 256
    → next_cap c pointer
      ≡ ok (
          if ltb (get_or c.registers pointer 0 / 4 * 4) 64
          then 0
          else get_or c.registers pointer 0 / 4 * 4)
unfolding next_cap
next_cap-ok c pointer s h =
    let byte = All-get_or IsByte 0 c.registers pointer s.registers_bytes (omega arith) in
    rw (read_byte-ok c pointer s h, (bit_and-align (get_or c.registers pointer 0)).0 byte) refl

-- The item of a capability that starts at `start`.
abbrev pub item_at : List ℕ → ℕ → Item
item_at regs start =
    (record { cap_id = get_or regs start 0; next_pointer = get_or regs (start + 1) 0 }, start + 2)

header_at-ok :
    (c : PciConfigurationSpace) (start : ℕ)
    → IsShaped c
    → start < 255
    → header_at c start ≡ ok (item_at c.registers start).0
unfolding header_at
header_at-ok c start s h =
    rw (read_byte-ok c (start + 0) s (omega arith), read_byte-ok c (start + 1) s (omega arith))
      (ap
        (λ k. ok (record {
          cap_id = get_or c.registers k 0;
          next_pointer = get_or c.registers (start + 1) 0;
        }))
        (omega arith))

-- The items of a list.
abbrev pub items_of : List ℕ → List Entry → List Item
items_of regs entries = map (λ e. item_at regs e.0) entries

-- The pointer of a capability is not the one before it.
Linked-forward :
    (regs : List ℕ) (bound start id pointer : ℕ) (entries : List Entry)
    → 52 ≤ pointer
    → Linked regs bound pointer ((start, id) ∷ entries)
    → get_or regs (start + 1) 0 + 1 ≢ pointer
Linked-forward regs bound start id pointer [] low l e = omega (arith, l.1, l.3, l.6)
Linked-forward regs bound start id pointer (entry ∷ entries) low l e =
    omega (arith, l.3, l.6.0, l.6.3)

pub next-end :
    (c : PciConfigurationSpace) (pointer : ℕ)
    → IsShaped c
    → pointer < 256
    → get_or c.registers pointer 0 ≡ 0
    → next c pointer ≡ ok (none, pointer)
unfolding next
next-end c pointer s h e = rw (next_cap-ok c pointer s h, e) refl

pub next-Linked :
    (c : PciConfigurationSpace) (bound pointer start id : ℕ) (entries : List Entry)
    → IsShaped c
    → bound ≤ 255
    → 52 ≤ pointer
    → Linked c.registers bound pointer ((start, id) ∷ entries)
    → next c pointer ≡ ok (some (item_at c.registers start), start + 1)
unfolding next
next-Linked c bound pointer start id entries s b low l =
    let forward = Linked-forward c.registers bound start id pointer entries low l in
    let here : next_cap c pointer ≡ ok start =
      next_cap-ok c pointer s (omega (arith, l.3, l.4)) ∙ ground (arith, l.0, l.1, l.2) in
    rw (here, header_at-ok c start s (omega (arith, l.4))) (ground (arith, forward, l.1))

pub items_from-Linked :
    (c : PciConfigurationSpace) (bound pointer fuel : ℕ) (entries : List Entry)
    → IsShaped c
    → bound ≤ 255
    → (52 ≤ pointer) × (pointer < 256)
    → length entries < fuel
    → Linked c.registers bound pointer entries
    → items_from fuel c pointer ≡ ok (items_of c.registers entries)
unfolding items_from
items_from-Linked c bound pointer zero entries s b p f l = absurd (omega arith)
items_from-Linked c bound pointer (suc fuel) [] s b p f l = rw (next-end c pointer s p.1 l) refl
items_from-Linked c bound pointer (suc fuel) ((start, id) ∷ entries) s b p f l =
    rw
      (
        next-Linked c bound pointer start id entries s b p.0 l,
        items_from-Linked c bound (start + 1) fuel entries s b (omega (arith, l.1, l.4))
            (omega arith) l.6,
      )
      refl

-- In a space whose bytes hold a linked list of capabilities below 255, the iterator ends within its
-- fuel and lists every capability of the list in order.
pub capability_iter-Linked :
    (c : PciConfigurationSpace) (bound : ℕ) (entries : List Entry)
    → IsShaped c
    → bound ≤ 255
    → Linked c.registers bound 52 entries
    → capability_iter c ≡ ok (items_of c.registers entries)
unfolding capability_iter
capability_iter-Linked c bound entries s b l =
    let short = length-Linked c.registers bound 52 entries b (omega arith) (omega arith) l in
    items_from-Linked c bound 52 64 entries s b (omega arith) (omega arith) l
