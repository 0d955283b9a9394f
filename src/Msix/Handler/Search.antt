-- ===== src/Msix/Handler/Search.antt =====
-- What `find_pending_vector` of msix.rs finds.
use native.Mathlib.Decide.{dec_lt}
use greens.Base.{
  ℕ, zero, suc, ◌+◌, ◌*◌, ◌/◌, ◌%◌, ◌-◌, ◌^◌, ◌<◌, ◌≤◌, ◌≡◌, refl, sym, ◌∙◌, ap, arith, Bool, true,
  false, List, [], ◌∷◌, Option, none, some, get_elem?, drop, bit_and, ltb, lt→ltb, le→ltb_false,
  if◌then◌else◌,
}
use greens.Bits.{
  testbit, complement, testbit-bit_and, testbit-complement, testbit-low_mask, testbit-le,
  two-pow-lt,
}
use greens.Msi.Handler.{trailing_zeros}
use greens.Msi.Handler.Loop.{trailing_zeros-clear, trailing_zeros-set}
use greens.Msix.Table.{PbaEntry, is_pending, entry_is_pending, pending_bit_for}
use greens.Msix.Table.Pending.{entry_is_pending_lem}
use greens.Msix.Handler.{first_pending, find_from, find_pending_vector}

-- The bits from `bit` on.
testbit-from :
    (bits bit i : ℕ)
    → bit < 64
    → i < 64
    → testbit (bit_and bits (complement 64 (2 ^ bit - 1))) i
      ≡ (if ltb i bit then 0 else testbit bits i)
testbit-from bits bit i h p = ground (
  arith,
  testbit-bit_and i bits (complement 64 (2 ^ bit - 1)),
  testbit-complement i 64 (2 ^ bit - 1) (omega (arith, two-pow-lt 64 bit h)) p,
  testbit-low_mask bit i,
  testbit-le bits i,
)

first_pending-clear :
    (pba : PbaEntry) (bit j : ℕ)
    → bit < 64
    → bit ≤ j
    → j < 64
    → j < first_pending pba bit
    → entry_is_pending (some pba) j ≡ false
unfolding first_pending
first_pending-clear pba bit j h p k q =
    let x = bit_and pba.pending_bits (complement 64 (2 ^ bit - 1)) in
    rw entry_is_pending_lem
      (ground (arith, trailing_zeros-clear 64 x j q, testbit-from pba.pending_bits bit j h k))

first_pending-set :
    (pba : PbaEntry) (bit : ℕ)
    → bit < 64
    → first_pending pba bit < 64
    → (bit ≤ first_pending pba bit) × (entry_is_pending (some pba) (first_pending pba bit) ≡ true)
unfolding first_pending
first_pending-set pba bit h q =
    let x = bit_and pba.pending_bits (complement 64 (2 ^ bit - 1)) in
    let k = trailing_zeros 64 x in
    let here = trailing_zeros-set 64 x k refl q in
    let from = testbit-from pba.pending_bits bit k h q in
    (ground arith, rw entry_is_pending_lem (ground arith))

-- The entries from index `i` on have the vector pending.
abbrev pending_at : List PbaEntry → ℕ → ℕ → Bool
pending_at entries i v = entry_is_pending (get_elem? entries (v / 64 - i)) (v % 64)

-- The lowest pending vector of the entries whose bit is `bit` or a higher one, or none.
abbrev Lowest : List PbaEntry → ℕ → ℕ → Option ℕ → Type 0
Lowest entries i bit none = (j : ℕ) → i ≤ j / 64 → bit ≤ j % 64 → pending_at entries i j ≡ false
Lowest entries i bit (some v) =
    (i ≤ v / 64)
    × (bit ≤ v % 64)
    × (pending_at entries i v ≡ true)
    × ((j : ℕ) → i ≤ j / 64 → bit ≤ j % 64 → j < v → pending_at entries i j ≡ false)

entry_is_pending-none : (shift : ℕ) → entry_is_pending none shift ≡ false
unfolding entry_is_pending
entry_is_pending-none shift = refl

pending_at-head :
    (pba : PbaEntry) (entries : List PbaEntry) (i v : ℕ)
    → v / 64 ≡ i
    → pending_at (pba ∷ entries) i v ≡ entry_is_pending (some pba) (v % 64)
pending_at-head pba entries i v e =
    ap (λ k. entry_is_pending (get_elem? (pba ∷ entries) k) (v % 64)) {x = v / 64 - i} {y = 0}
      (omega arith)

pending_at-tail :
    (pba : PbaEntry) (entries : List PbaEntry) (i v : ℕ)
    → i + 1 ≤ v / 64
    → pending_at (pba ∷ entries) i v ≡ pending_at entries (i + 1) v
pending_at-tail pba entries i v h =
    ap (λ k. entry_is_pending (get_elem? (pba ∷ entries) k) (v % 64)) {x = v / 64 - i}
      {y = suc (v / 64 - (i + 1))} (omega arith)

module _ (pba : PbaEntry) (entries : List PbaEntry) (i bit : ℕ) (h : bit < 64) where
  here :
      first_pending pba bit < 64
      → Lowest (pba ∷ entries) i bit (some (i * 64 + first_pending pba bit))
  here q =
      let k = first_pending pba bit in
      let (above, set) = first_pending-set pba bit h q in
      (
        omega arith,
        omega arith,
        pending_at-head pba entries i (i * 64 + k) (omega arith)
            ∙ ap (entry_is_pending (some pba)) {x = (i * 64 + k) % 64} {y = k} (omega arith)
            ∙ set,
        λ j p r s.
            pending_at-head pba entries i j (omega arith)
            ∙ first_pending-clear pba bit (j % 64) h r (omega arith) (omega arith),
      )

  skipped :
      64 ≤ first_pending pba bit
      → (j : ℕ) → i ≤ j / 64
      → bit ≤ j % 64
      → ((i + 1 ≤ j / 64) → pending_at entries (i + 1) j ≡ false)
      → pending_at (pba ∷ entries) i j ≡ false
  skipped q j p r rest = elim (dec_lt i (j / 64)) [
    | yes later ↦ pending_at-tail pba entries i j (omega arith) ∙ rest (omega arith)
    | no level ↦
        pending_at-head pba entries i j (omega arith)
        ∙ first_pending-clear pba bit (j % 64) h r (omega arith) (omega arith)
  ]

  there :
      64 ≤ first_pending pba bit
      → (o : Option ℕ) → Lowest entries (i + 1) bit o
      → Lowest (pba ∷ entries) i bit o
  there q none low = λ j p r. skipped q j p r (λ later. low j later r)
  there q (some v) (above, bits, set, clear) = (
    omega arith,
    bits,
    pending_at-tail pba entries i v above ∙ set,
    λ j p r s. skipped q j p r (λ later. clear j later r s),
  )

find_from-Lowest :
    (entries : List PbaEntry) (i bit : ℕ)
    → bit < 64
    → Lowest entries i bit (find_from entries i bit)
unfolding find_from
find_from-Lowest [] i bit h = λ j p r. entry_is_pending-none (j % 64)
find_from-Lowest (pba ∷ entries) i bit h = elim (dec_lt (first_pending pba bit) 64) [
  | yes found ↦ rw (lt→ltb _ _ found) (here pba entries i bit h found)
  | no none_here ↦ rw (le→ltb_false (first_pending pba bit) 64 (omega arith)) (
      there pba entries i bit h (omega arith) (find_from entries (i + 1) bit)
        (find_from-Lowest entries (i + 1) bit h))
]

get_elem?-drop {ℓ} :
    {A : Type ℓ} (xs : List A) (n i : ℕ) → n ≤ i → get_elem? (drop xs n) (i - n) ≡ get_elem? xs i
get_elem?-drop xs zero i h = ap (get_elem? xs) {x = i - 0} {y = i} (omega arith)
get_elem?-drop [] (suc n) i h = refl
get_elem?-drop (x ∷ xs) (suc n) zero h = absurd (omega arith)
get_elem?-drop (x ∷ xs) (suc n) (suc i) h =
    ap (get_elem? (drop xs n)) {x = suc i - suc n} {y = i - n} (omega arith)
    ∙ get_elem?-drop xs n i (omega arith)

-- The vectors that a search from `since` sees: of those from `since` on, the ones whose bit in
-- their entry is not below the bit of `since`.
abbrev pub Seen : ℕ → ℕ → Type 0
Seen since j = (since ≤ j) × (since % 64 ≤ j % 64)

-- The result of a search: the lowest pending vector that it sees.
abbrev pub IsFound : List PbaEntry → ℕ → Option ℕ → Type 0
IsFound table since none = (j : ℕ) → Seen since j → is_pending table j ≡ false
IsFound table since (some v) =
    Seen since v
    × (is_pending table v ≡ true)
    × ((j : ℕ) → Seen since j → j < v → is_pending table j ≡ false)

pending_at-drop :
    (table : List PbaEntry) (n v : ℕ)
    → n ≤ v / 64
    → pending_at (drop table n) n v ≡ is_pending table v
unfolding is_pending pending_bit_for
pending_at-drop table n v h =
    ap (λ o. entry_is_pending o (v % 64)) (get_elem?-drop table n (v / 64) h)

Lowest-IsFound :
    (table : List PbaEntry) (since : ℕ) (o : Option ℕ)
    → Lowest (drop table (since / 64)) (since / 64) (since % 64) o
    → IsFound table since o
Lowest-IsFound table since none low =
    λ j (p, q). sym (pending_at-drop table (since / 64) j (omega arith)) ∙ low j (omega arith) q
Lowest-IsFound table since (some v) (above, bits, set, clear) = (
  (omega arith, bits),
  sym (pending_at-drop table (since / 64) v above) ∙ set,
  λ j (p, q) r.
      sym (pending_at-drop table (since / 64) j (omega arith)) ∙ clear j (omega arith) q r,
)

-- `find_pending_vector` finds the lowest pending vector that is at or above `since` and whose
-- position in its entry of 64 bits is not below the position of `since` in its own: a pending vector
-- of a later entry at a lower position is passed over. It finds none only where there is no such.
pub find_pending_vector-IsFound :
    (table : List PbaEntry) (since : ℕ) → IsFound table since (find_pending_vector table since)
unfolding find_pending_vector pending_bit_for
find_pending_vector-IsFound table since =
    Lowest-IsFound table since (find_from (drop table (since / 64)) (since / 64) (since % 64))
      (find_from-Lowest (drop table (since / 64)) (since / 64) (since % 64) (omega arith))
