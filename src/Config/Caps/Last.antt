-- ===== src/Config/Caps/Last.antt =====
-- The end of the list of capabilities: where `add_capability` puts the next one, and the pointer to it.
use greens.Base.{
  ℕ, ◌+◌, ◌-◌, ◌*◌, ◌/◌, ◌%◌, ◌≤◌, ◌<◌, ◌≡◌, ◌≢◌, refl, ◌∙◌, ap, arith, List, [], ◌∷◌, ◌++◌, get_or,
  some,
}
use greens.Bits.{bit_and-align}
use greens.Error.{ok}
use greens.Registers.{pci_cap_pointer}
use greens.Config.{PciConfigurationSpace}
use greens.Config.Shape.{IsShaped}
use greens.Config.Caps.{last, align, find_offsets, link, cap_next_pointer_offset}
use greens.Config.Caps.Chain.{Entry, Linked, end_pointer, end_pointer-le}
use greens.Config.Caps.Walk.{items_of, item_at}
use greens.Config.Caps.Bytes.{set_byte-ByteSet, set_status}

-- The end of the capabilities in the device area.
abbrev pub used_end : PciConfigurationSpace → List Entry → ℕ
used_end c [] = 64
used_end c (e ∷ entries) = end_pointer 52 (e ∷ entries) + 1 + c.last_cap_size

abbrev pub last_start : List Entry → ℕ
last_start [] = 0
last_start (e ∷ entries) = end_pointer 52 (e ∷ entries) - 1

-- The capabilities of the space are these, from the pointer in its header on.
pub record HasCaps (c : PciConfigurationSpace) (entries : List Entry) : Type 0 where
  pub linked : Linked c.registers (used_end c entries) 52 entries
  pub fits : used_end c entries ≤ 255

-- Where the next capability starts.
abbrev pub next_start : PciConfigurationSpace → List Entry → ℕ
next_start c entries = (used_end c entries + 3) / 4 * 4

pub last-items_of :
    (regs : List ℕ) (start id : ℕ) (entries : List Entry)
    → last (items_of regs ((start, id) ∷ entries))
      ≡ some (item_at regs (end_pointer (start + 1) entries - 1))
last-items_of regs start id [] = ap (λ k. some (item_at regs k)) (omega arith)
last-items_of regs start id ((s, i) ∷ entries) = rw (last-items_of regs s i entries) refl

pub find_offsets-HasCaps :
    (c : PciConfigurationSpace) (entries : List Entry)
    → HasCaps c entries
    → find_offsets c (last (items_of c.registers entries))
      ≡ (used_end c entries, last_start entries)
unfolding find_offsets
find_offsets-HasCaps c [] h = refl
find_offsets-HasCaps c ((start, id) ∷ entries) h =
    let past = end_pointer-le c.registers _ (start + 1) entries h.linked.6 in
    rw (last-items_of c.registers start id entries) (ground (arith, past))

pub align-lem : (n : ℕ) → n ≤ 255 → align n ≡ (n + 3) / 4 * 4
unfolding align
align-lem n h = (bit_and-align (n + 3)).1 (omega arith)

-- What the bytes of the list hold once the last pointer leads to `start`.
pub record LinkSet (c : PciConfigurationSpace) (entries : List Entry) (start : ℕ)
    (c' : PciConfigurationSpace) : Type 0 where
  pub shaped : IsShaped c'
  pub there : get_or c'.registers (end_pointer 52 entries) 0 ≡ start
  pub others :
      (j : ℕ)
      → 52 ≤ j
      → j ≢ end_pointer 52 entries
      → get_or c'.registers j 0 ≡ get_or c.registers j 0
  pub size : c'.last_cap_size ≡ c.last_cap_size

link-first :
    (c : PciConfigurationSpace)
    → IsShaped c
    → (c' : PciConfigurationSpace) × (link c 64 0 ≡ ok c') × LinkSet c [] 64 c'
unfolding link
link-first c s =
    let (c1, done, stored) = set_byte-ByteSet c pci_cap_pointer 64 s (omega arith) (omega arith) in
    let (c2, done2, shaped, kept, size) = set_status c1 stored.shaped in
    (
      c2,
      rw done done2,
      record {
        shaped = shaped;
        there = kept 52 (omega arith) ∙ stored.there;
        others = λ j p ne. kept j (omega arith) ∙ stored.others j ne;
        size = size ∙ stored.size;
      },
    )

link-later :
    (c : PciConfigurationSpace) (e : Entry) (entries : List Entry) (start : ℕ)
    → IsShaped c
    → start < 256
    → (1 < end_pointer 52 (e ∷ entries)) × (end_pointer 52 (e ∷ entries) < 256)
    → (c' : PciConfigurationSpace) × (link c start (last_start (e ∷ entries)) ≡ ok c')
      × LinkSet c (e ∷ entries) start c'
unfolding link
link-later c e entries start s b h =
    let at = end_pointer 52 (e ∷ entries) in
    let (c1, done, stored) = set_byte-ByteSet c at start s h.1 b in
    let back : cap_next_pointer_offset (last_start (e ∷ entries)) ≡ at = omega arith in
    let whole : start % 256 ≡ start = omega arith in
    (
      c1,
      rw (back, whole) (ground (arith, done)),
      record {
        shaped = stored.shaped;
        there = stored.there;
        others = λ j p ne. stored.others j ne;
        size = stored.size;
      },
    )

pub link-LinkSet :
    (c : PciConfigurationSpace) (entries : List Entry) (start : ℕ)
    → IsShaped c
    → start < 256
    → (52 ≤ end_pointer 52 entries) × (end_pointer 52 entries < 256)
    → (entries ≡ [] → start ≡ 64)
    → (c' : PciConfigurationSpace) × (link c start (last_start entries) ≡ ok c')
      × LinkSet c entries start c'
link-LinkSet c [] start s b e first = rw (first refl) (link-first c s)
link-LinkSet c (entry ∷ entries) start s b e first =
    link-later c entry entries start s b (omega arith)

end_pointer-snoc :
    (pointer start id : ℕ) (entries : List Entry)
    → end_pointer pointer (entries ++ (start, id) ∷ []) ≡ start + 1
end_pointer-snoc pointer start id [] = refl
end_pointer-snoc pointer start id ((s, i) ∷ entries) = end_pointer-snoc (s + 1) start id entries

pub used_end-snoc :
    (c : PciConfigurationSpace) (start id : ℕ) (entries : List Entry)
    → used_end c (entries ++ (start, id) ∷ []) ≡ start + 2 + c.last_cap_size
used_end-snoc c start id [] = omega arith
used_end-snoc c start id ((s, i) ∷ entries) =
    omega (arith, end_pointer-snoc (s + 1) start id entries)

-- The end of the list is below the end of the capabilities.
pub end_pointer-lt :
    (c : PciConfigurationSpace) (entries : List Entry) → end_pointer 52 entries < used_end c entries
end_pointer-lt c [] = omega arith
end_pointer-lt c (e ∷ entries) = omega arith

pub used_end-ge :
    (c : PciConfigurationSpace) (entries : List Entry) → HasCaps c entries → 64 ≤ used_end c entries
used_end-ge c [] h = omega arith
used_end-ge c ((s, i) ∷ entries) h =
    omega (arith, h.linked.1, end_pointer-le c.registers _ (s + 1) entries h.linked.6)
