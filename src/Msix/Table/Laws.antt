-- ===== src/Msix/Table/Laws.antt =====
-- The bytes of the MSI-X table: the entries are read from the bytes that they are stored in, and
-- an aligned dword that the guest writes is a field of an entry.
use mathlib.Core.Path.{subst}
use greens.Base.{
  ℕ, zero, suc, ◌+◌, ◌*◌, ◌^◌, ◌<◌, ◌≤◌, ◌≡◌, refl, ◌∙◌, ap, ap₂, arith, List, [], ◌∷◌, ◌++◌, some,
  length, slice, splice, drop, set, get_elem?, All, length-append, length-set, get_elem?-lt, le→leb,
}
use greens.Word.{usize_max, to_le_bytes, from_le_bytes, length-to_le_bytes}
use greens.Error.{ok}
use greens.Utils.RegisterBlock.{validate_bounds}
use greens.Utils.RegisterBlock.Laws.{set-ok}
use greens.Msix.Table.{
  MsiXEntry, entry_bytes, entry_from, raw_bytes, entries_from, set_register_checked,
}

-- The fields are of the type `u32`.
pub record IsEntry (entry : MsiXEntry) : Type 0 where
  pub msg_addr_fits : entry.msg_addr < 2 ^ 32
  pub msg_addr_hi_fits : entry.msg_addr_hi < 2 ^ 32
  pub msg_data_fits : entry.msg_data < 2 ^ 32
  pub vector_control_fits : entry.vector_control < 2 ^ 32

dword_lem : (v : ℕ) → v < 2 ^ 32 → from_le_bytes (to_le_bytes 4 v) ≡ v
unfolding to_le_bytes from_le_bytes
dword_lem v h = omega arith

pub length-entry_bytes : (entry : MsiXEntry) → length (entry_bytes entry) ≡ 16
unfolding entry_bytes to_le_bytes
length-entry_bytes entry = refl

entry_from-entry_bytes :
    (entry : MsiXEntry) → IsEntry entry → entry_from (entry_bytes entry) ≡ entry
unfolding entry_from entry_bytes to_le_bytes
entry_from-entry_bytes entry h i = record {
  msg_addr = dword_lem entry.msg_addr h.msg_addr_fits i;
  msg_addr_hi = dword_lem entry.msg_addr_hi h.msg_addr_hi_fits i;
  msg_data = dword_lem entry.msg_data h.msg_data_fits i;
  vector_control = dword_lem entry.vector_control h.vector_control_fits i;
}

slice-nil : (xs : List ℕ) → slice xs 0 0 ≡ []
slice-nil [] = refl
slice-nil (x ∷ xs) = refl

slice-entry_bytes :
    (entry : MsiXEntry) (rest : List ℕ) → slice (entry_bytes entry ++ rest) 0 16 ≡ entry_bytes entry
unfolding entry_bytes to_le_bytes
slice-entry_bytes entry rest = ap (λ t. entry_bytes entry ++ t) (slice-nil rest)

drop-entry_bytes : (entry : MsiXEntry) (rest : List ℕ) → drop (entry_bytes entry ++ rest) 16 ≡ rest
unfolding entry_bytes to_le_bytes
drop-entry_bytes entry rest = refl

pub entries_from-raw_bytes :
    (table : List MsiXEntry)
    → All IsEntry table
    → entries_from (length table) (raw_bytes table) ≡ table
unfolding entries_from raw_bytes
entries_from-raw_bytes [] h = refl
entries_from-raw_bytes (entry ∷ entries) h =
    ap₂ ◌∷◌
      (ap entry_from (slice-entry_bytes entry (raw_bytes entries))
        ∙ entry_from-entry_bytes entry h.0)
      (ap (entries_from (length entries)) (drop-entry_bytes entry (raw_bytes entries))
        ∙ entries_from-raw_bytes entries h.1)

pub length-raw_bytes : (table : List MsiXEntry) → length (raw_bytes table) ≡ 16 * length table
unfolding raw_bytes
length-raw_bytes [] = refl
length-raw_bytes (entry ∷ entries) = omega (
  arith,
  length-append (entry_bytes entry) (raw_bytes entries),
  length-entry_bytes entry,
  length-raw_bytes entries,
)

-- The four fields, in the order of the layout.
pub data EntryField : Type 0 where
  addr_field addr_hi_field data_field control_field : EntryField

abbrev pub field_index : EntryField → ℕ
field_index EntryField.addr_field = 0
field_index EntryField.addr_hi_field = 1
field_index EntryField.data_field = 2
field_index EntryField.control_field = 3

pub field_index-lt : (field : EntryField) → field_index field < 4
field_index-lt EntryField.addr_field = omega arith
field_index-lt EntryField.addr_hi_field = omega arith
field_index-lt EntryField.data_field = omega arith
field_index-lt EntryField.control_field = omega arith

abbrev pub with_field : MsiXEntry → EntryField → ℕ → MsiXEntry
with_field entry EntryField.addr_field v = record entry { msg_addr = v }
with_field entry EntryField.addr_hi_field v = record entry { msg_addr_hi = v }
with_field entry EntryField.data_field v = record entry { msg_data = v }
with_field entry EntryField.control_field v = record entry { vector_control = v }

splice-nil : (xs : List ℕ) → splice xs 0 [] ≡ xs
splice-nil [] = refl
splice-nil (x ∷ xs) = refl

splice-append_second :
    (xs ys zs : List ℕ) (k i : ℕ)
    → length xs ≡ k
    → splice (xs ++ ys) (k + i) zs ≡ xs ++ splice ys i zs
splice-append_second [] ys zs zero i e = ap (λ j. splice ys j zs) {x = 0 + i} {y = i} (omega arith)
splice-append_second [] ys zs (suc k) i e = absurd (omega (arith, e))
splice-append_second (x ∷ xs) ys zs zero i e = absurd (omega (arith, e))
splice-append_second (x ∷ xs) ys zs (suc k) i e =
    ap (λ j. splice (x ∷ xs ++ ys) j zs) {x = suc k + i} {y = suc (k + i)} (omega arith)
    ∙ ap (λ t. x ∷ t) (splice-append_second xs ys zs k i (omega (arith, e)))

-- A dword written over a field of the first entry.
splice-field :
    (entry : MsiXEntry) (rest : List ℕ) (field : EntryField) (v : ℕ)
    → splice (entry_bytes entry ++ rest) (4 * field_index field) (to_le_bytes 4 v)
      ≡ entry_bytes (with_field entry field v) ++ rest
unfolding entry_bytes to_le_bytes
splice-field entry rest EntryField.addr_field v = refl
splice-field entry rest EntryField.addr_hi_field v = refl
splice-field entry rest EntryField.data_field v = refl
splice-field entry rest EntryField.control_field v =
    ap (λ t. entry_bytes (with_field entry EntryField.control_field v) ++ t) (splice-nil rest)

pub splice-raw_bytes :
    (table : List MsiXEntry) (vector : ℕ) (field : EntryField) (v : ℕ) (entry : MsiXEntry)
    → get_elem? table vector ≡ some entry
    → splice (raw_bytes table) (16 * vector + 4 * field_index field) (to_le_bytes 4 v)
      ≡ raw_bytes (set table vector (with_field entry field v))
unfolding raw_bytes
splice-raw_bytes [] vector field v entry there = absurd (cc)
splice-raw_bytes (e ∷ entries) zero field v entry there =
    let same : e ≡ entry = cc in
    rw same (
      ap (λ j. splice (entry_bytes entry ++ raw_bytes entries) j (to_le_bytes 4 v))
        {x = 16 * 0 + 4 * field_index field} {y = 4 * field_index field} (omega arith)
      ∙ splice-field entry (raw_bytes entries) field v)
splice-raw_bytes (e ∷ entries) (suc vector) field v entry there =
    ap (λ j. splice (entry_bytes e ++ raw_bytes entries) j (to_le_bytes 4 v))
      {x = 16 * suc vector + 4 * field_index field} {y = 16 + (16 * vector + 4 * field_index field)}
      (omega arith)
    ∙ splice-append_second (entry_bytes e) (raw_bytes entries) (to_le_bytes 4 v) 16
        (16 * vector + 4 * field_index field) (length-entry_bytes e)
    ∙ ap (λ t. entry_bytes e ++ t) (splice-raw_bytes entries vector field v entry there)

with_field-IsEntry :
    (entry : MsiXEntry) (field : EntryField) (v : ℕ)
    → v < 2 ^ 32
    → IsEntry entry
    → IsEntry (with_field entry field v)
with_field-IsEntry entry EntryField.addr_field v small h = record {
  msg_addr_fits = small;
  msg_addr_hi_fits = h.msg_addr_hi_fits;
  msg_data_fits = h.msg_data_fits;
  vector_control_fits = h.vector_control_fits;
}
with_field-IsEntry entry EntryField.addr_hi_field v small h = record {
  msg_addr_fits = h.msg_addr_fits;
  msg_addr_hi_fits = small;
  msg_data_fits = h.msg_data_fits;
  vector_control_fits = h.vector_control_fits;
}
with_field-IsEntry entry EntryField.data_field v small h = record {
  msg_addr_fits = h.msg_addr_fits;
  msg_addr_hi_fits = h.msg_addr_hi_fits;
  msg_data_fits = small;
  vector_control_fits = h.vector_control_fits;
}
with_field-IsEntry entry EntryField.control_field v small h = record {
  msg_addr_fits = h.msg_addr_fits;
  msg_addr_hi_fits = h.msg_addr_hi_fits;
  msg_data_fits = h.msg_data_fits;
  vector_control_fits = small;
}

All-set {ℓ κ} :
    {A : Type ℓ} (P : A → Type κ) (xs : List A) (i : ℕ) (v : A)
    → All P xs
    → P v
    → All P (set xs i v)
All-set P [] i v h p = tt
All-set P (x ∷ xs) zero v h p = (p, h.1)
All-set P (x ∷ xs) (suc i) v h p = (h.0, All-set P xs i v h.1 p)

All-get_elem? {ℓ κ} :
    {A : Type ℓ} (P : A → Type κ) (xs : List A) (i : ℕ) (v : A)
    → All P xs
    → get_elem? xs i ≡ some v
    → P v
All-get_elem? P [] i v h e = absurd (cc)
All-get_elem? P (x ∷ xs) zero v h e = let same : x ≡ v = cc in subst P same h.0
All-get_elem? P (x ∷ xs) (suc i) v h e = All-get_elem? P xs i v h.1 e

-- An aligned dword that is written to the MSI-X table, whose size is a `usize`, is accepted and
-- becomes that field of the entry that holds it; every other field and entry stays as it was.
pub set_register_checked-field :
    (table : List MsiXEntry) (vector : ℕ) (field : EntryField) (v : ℕ) (entry : MsiXEntry)
    → All IsEntry table
    → 16 * length table ≤ usize_max
    → get_elem? table vector ≡ some entry
    → v < 2 ^ 32
    → set_register_checked table (16 * vector + 4 * field_index field) (to_le_bytes 4 v)
      ≡ ok (set table vector (with_field entry field v))
unfolding set_register_checked validate_bounds
set_register_checked-field table vector field v entry h fits there small =
    let inside = get_elem?-lt table vector there in
    let last = field_index-lt field in
    let offset = 16 * vector + 4 * field_index field in
    let size = length-to_le_bytes 4 v in
    let room : offset + 4 ≤ length (raw_bytes table) =
      omega (arith, length-raw_bytes table, inside, last) in
    let changed = set table vector (with_field entry field v) in
    let valid =
      All-set IsEntry table vector (with_field entry field v) h (
        with_field-IsEntry entry field v small
          (All-get_elem? IsEntry table vector entry h there)) in
    rw
      (
        size,
        le→leb (offset + 4) usize_max (omega (arith, length-raw_bytes table)),
        le→leb (offset + 4) (length (raw_bytes table)) room,
        set-ok (raw_bytes table) offset (to_le_bytes 4 v) (rw size room),
        splice-raw_bytes table vector field v entry there,
        ← length-set table vector (with_field entry field v),
        entries_from-raw_bytes changed valid,
      )
      refl
