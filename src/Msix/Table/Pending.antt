-- ===== src/Msix/Table/Pending.antt =====
-- The bits of the pending bit array: the array implements the set of the pending vectors.
use native.Mathlib.Decide.{ℕ_discrete}
use greens.Base.{
  ℕ, zero, suc, ◌/◌, ◌%◌, ◌<◌, ◌≡◌, refl, sym, ◌∙◌, arith, Bool, true, false, List, [], ◌∷◌, some,
  length, get_elem?, set, ◌==◌, if◌then◌else◌, get_elem?-set_self, get_elem?-set_ne, length-set,
}
use greens.Bits.{has_bit, bit_and-pow, testbit-le, two-pow-pos, testbit-set_bit, testbit-clear_bit}
use greens.Error.{Result, ok, ◌>>=◌}
use greens.Msix.Table.{
  PbaEntry, pending_bit_for, entry_is_pending, is_pending, with_bit, set_pending_bit,
}

pub entry_is_pending_lem :
    (pba : PbaEntry) (shift : ℕ)
    → entry_is_pending (some pba) shift ≡ has_bit pba.pending_bits shift
unfolding entry_is_pending
entry_is_pending_lem pba shift = ground (
  arith,
  bit_and-pow shift pba.pending_bits,
  testbit-le pba.pending_bits shift,
  two-pow-pos shift,
)

entry_is_pending-with_bit :
    (pba : PbaEntry) (shift other : ℕ) (pending : Bool)
    → shift < 64
    → other < 64
    → entry_is_pending (some (with_bit pba shift pending)) other
      ≡ (if other == shift then pending else entry_is_pending (some pba) other)
unfolding with_bit
entry_is_pending-with_bit pba shift other true h k = ground (
  arith,
  entry_is_pending_lem (with_bit pba shift true) other,
  entry_is_pending_lem pba other,
  testbit-set_bit shift pba.pending_bits other,
)
entry_is_pending-with_bit pba shift other false h k = ground (
  arith,
  entry_is_pending_lem (with_bit pba shift false) other,
  entry_is_pending_lem pba other,
  testbit-clear_bit 64 shift pba.pending_bits other h k,
)

get_elem?-in {ℓ} :
    {A : Type ℓ} (xs : List A) (i : ℕ) → i < length xs → (a : A) × (get_elem? xs i ≡ some a)
get_elem?-in [] i h = absurd (omega arith)
get_elem?-in (x ∷ xs) zero h = (x, refl)
get_elem?-in (x ∷ xs) (suc i) h = get_elem?-in xs i (omega arith)

-- After the write, a vector of the same entry and one of another.
is_pending-set :
    (table : List PbaEntry) (vector other : ℕ) (pending : Bool) (pba : PbaEntry)
    → get_elem? table (vector / 64) ≡ some pba
    → vector / 64 < length table
    → is_pending (set table (vector / 64) (with_bit pba (vector % 64) pending)) other
      ≡ (if other == vector then pending else is_pending table other)
unfolding is_pending pending_bit_for
is_pending-set table vector other pending pba there inside =
    elim (ℕ_discrete (other / 64) (vector / 64)) [
      | yes same ↦
          rw
            (
              same,
              get_elem?-set_self table (vector / 64) (with_bit pba (vector % 64) pending) inside,
              entry_is_pending-with_bit pba (vector % 64) (other % 64) pending (omega arith)
                  (omega arith),
              there,
            )
            (ground arith)
      | no apart ↦
          rw
            (get_elem?-set_ne table (vector / 64) (other / 64) (with_bit pba (vector % 64) pending)
              (λ e. apart (sym e)))
            (ground arith)
    ]

-- `set_pending_bit` for a vector of the array.
pub set_pending_bit_lem :
    (table : List PbaEntry) (vector : ℕ) (pending : Bool)
    → vector / 64 < length table
    → (table' : List PbaEntry) × (set_pending_bit table vector pending ≡ ok table')
      × (length table' ≡ length table)
      × ((other : ℕ)
          → is_pending table' other ≡ (if other == vector then pending else is_pending table other))
unfolding set_pending_bit pending_bit_for
set_pending_bit_lem table vector pending inside =
    let (pba, there) = get_elem?-in table (vector / 64) inside in
    (
      set table (vector / 64) (with_bit pba (vector % 64) pending),
      rw (there, set_pending_bit) refl,
      length-set table (vector / 64) (with_bit pba (vector % 64) pending),
      λ other. is_pending-set table vector other pending pba there inside,
    )

-- A sequence of calls of `set_pending_bit`.
unfoldable pub set_all : List (ℕ × Bool) → List PbaEntry → Result (List PbaEntry)
set_all [] table = ok table
set_all ((vector, pending) ∷ calls) table = do
  table' ← set_pending_bit table vector pending
  set_all calls table'

-- The abstract view: which vectors are pending. The same calls on it.
abbrev pub replay : List (ℕ × Bool) → (ℕ → Bool) → ℕ → Bool
replay [] view = view
replay ((vector, pending) ∷ calls) view =
    replay calls (λ other. if other == vector then pending else view other)

-- The array has an entry for the vector of every call.
abbrev pub AllCovered : List (ℕ × Bool) → ℕ → Type 0
AllCovered [] n = Unit
AllCovered ((vector, pending) ∷ calls) n = (vector / 64 < n) × AllCovered calls n

replay-ext :
    (calls : List (ℕ × Bool)) (f g : ℕ → Bool)
    → ((v : ℕ) → f v ≡ g v)
    → (v : ℕ) → replay calls f v ≡ replay calls g v
replay-ext [] f g e v = e v
replay-ext ((vector, pending) ∷ calls) f g e v =
    replay-ext calls (λ other. if other == vector then pending else f other)
      (λ other. if other == vector then pending else g other) (λ other. rw (e other) refl) v

-- The pending bit array implements a set of vectors: a sequence of calls of `set_pending_bit`, each
-- for a vector that the array has an entry for, succeeds, and `is_pending` then answers for every
-- vector as the set does on which the same calls were made.
pub set_all_refines :
    (calls : List (ℕ × Bool)) (table : List PbaEntry)
    → AllCovered calls (length table)
    → (table' : List PbaEntry) × (set_all calls table ≡ ok table')
      × ((vector : ℕ) → is_pending table' vector ≡ replay calls (is_pending table) vector)
unfolding set_all
set_all_refines [] table h = (table, refl, λ vector. refl)
set_all_refines ((v, pending) ∷ calls) table h =
    let (table1, done, size, view) = set_pending_bit_lem table v pending h.0 in
    let (table2, run, answers) = set_all_refines calls table1 (rw size h.1) in
    (
      table2,
      rw done run,
      λ vector.
          answers vector
          ∙ replay-ext calls (is_pending table1)
              (λ other. if other == v then pending else is_pending table other) view vector,
    )
