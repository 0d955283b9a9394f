-- ===== src/Msix/Bar/Laws.antt =====
-- Accesses of the guest to the MSI-X table: what they store, report and send.
use greens.Base.{
  ℕ, zero, suc, ◌+◌, ◌*◌, ◌^◌, ◌<◌, ◌≤◌, ◌≡◌, refl, sym, ◌∙◌, ap, arith, true, false, List, [], ◌∷◌,
  Option, none, some, length, set, slice, splice, replicate, get_elem?, leb, inl, inr, ◌⊎◌,
  Bool-cases, le→leb, leb→le, All, get_elem?-lt, get_elem?-set_self, length-splice,
  slice-splice_self, if◌then◌else◌,
}
use greens.Word.{usize_max, u64_max, to_le_bytes, length-to_le_bytes}
use greens.Error.{
  Result, ok, err, panic, Error, access_bounds, Returns-ok, out_of_fuel, Ensures, on_ok, on_panic,
  on_out_of_fuel, Ensures-bind, Ensures-then, Ensures-ok, Ensures_lem, >>=-eq-ok,
}
use greens.Utils.Range.{range_overlaps, checked_add}
use greens.Utils.RegisterBlock
use greens.Utils.RegisterBlock.{validate_bounds}
use greens.Utils.RegisterBlock.Laws.{read-ok, set_keeps}
use greens.Config.{PciConfigurationSpace}
use greens.Effects.{returned}
use greens.Function.{PciConfigurationUpdate, PciMsiMessage, msi_x_message}
use greens.Msix.Table.{
  MsiXEntry, entries_from, raw_bytes, pba_raw_bytes, read_register_checked, set_register_checked,
}
use greens.Msix.Table.Laws.{
  IsEntry, EntryField, field_index, field_index-lt, with_field, set_register_checked-field,
  splice-raw_bytes, length-raw_bytes,
}
use greens.Msix.Source.{is_fn_masked, entry_message, msix_get_message_for}
use greens.Msix.Source.Laws.{message-present}
use greens.Msix.Handler.{evaluate_pending_interrupts}
use greens.Msix.Handler.Ends.{evaluate-Kept, evaluate-silent}
use greens.Msix.Handler.Returns.{HoldsControl, evaluate-Returns}
use greens.Msix.Bar.{
  MsiXBarRegion, targets_vector_control, targets_message_info, targets_message_address,
  targets_message_data, offset_to_vector, or_zeros, msix_read_bar, report, after_set, write_table,
  msix_write_bar,
}
use greens.Msix.{PciMsiX}

length-entries_from : (n : ℕ) (bytes : List ℕ) → length (entries_from n bytes) ≡ n
unfolding entries_from
length-entries_from zero bytes = refl
length-entries_from (suc n) bytes = ap suc (length-entries_from n _)

-- A write that is accepted lies in the table, which keeps its size.
set_register_checked-size :
    (table : List MsiXEntry) (offset : ℕ) (new : List ℕ) {table' : List MsiXEntry}
    → set_register_checked table offset new ≡ ok table'
    → (length table' ≡ length table) × (offset + length new ≤ 16 * length table)
unfolding set_register_checked
set_register_checked-size table offset new {table'} e =
    let (valid, checked, next) =
      >>=-eq-ok (validate_bounds (raw_bytes table) offset (length new)) _ e in
    let (bytes, stored, kept) = >>=-eq-ok (RegisterBlock.set (raw_bytes table) offset new) _ next in
    let same : entries_from (length table) bytes ≡ table' = cc in
    (
      ap length (sym same) ∙ length-entries_from (length table) bytes,
      omega (arith, set_keeps (raw_bytes table) offset new stored, length-raw_bytes table),
    )

-- What a write that is in the table touches is an entry of it.
touched :
    (offset size n : ℕ)
    → targets_message_info offset size ≡ true
    → offset + size ≤ 16 * n
    → offset_to_vector offset < n
unfolding targets_message_info targets_message_address targets_message_data offset_to_vector
    range_overlaps checked_add
touched offset size n e h = ground arith

get_elem?-in {ℓ} :
    {A : Type ℓ} (xs : List A) (i : ℕ) → i < length xs → (a : A) × (get_elem? xs i ≡ some a)
get_elem?-in [] i h = absurd (omega arith)
get_elem?-in (x ∷ xs) zero h = (x, refl)
get_elem?-in (x ∷ xs) (suc i) h = get_elem?-in xs i (omega arith)

report-ok :
    (msix : PciMsiX) (c : PciConfigurationSpace) (offset size : ℕ)
    → offset + size ≤ 16 * length msix.msix_table
    → (update : Option PciConfigurationUpdate) × (report msix c offset size ≡ ok update)
unfolding report msix_get_message_for
report-ok msix c offset size h = elim (Bool-cases (targets_message_info offset size)) [
  | inl touches ↦
      let inside = touched offset size (length msix.msix_table) touches h in
      let (entry, there) = get_elem?-in msix.msix_table (offset_to_vector offset) inside in
      (
        some (msi_x_message (offset_to_vector offset) (entry_message entry)),
        rw (touches, there, msix_get_message_for) refl,
      )
  | inr apart ↦ (none, rw apart refl)
]

module _ (msix : PciMsiX) (c : PciConfigurationSpace) (offset size : ℕ) where
  after_set-returned :
      HoldsControl c msix.cap_offset
      → offset + size ≤ 16 * length msix.msix_table
      → (t : PciMsiX × PciConfigurationSpace) × (messages : List PciMsiMessage) × (update : Option
          PciConfigurationUpdate)
        × (after_set msix c offset size ≡ ok (t, messages, returned update))
  unfolding after_set
  after_set-returned holds h = elim (Bool-cases (targets_vector_control offset size)) [
    | inl unmasks ↦
        let (r, run) = Returns-ok (evaluate-Returns msix c holds) in
        let kept = Ensures-ok (evaluate-Kept msix c) run in
        let (update, e) = report-ok r.0.0 r.0.1 offset size (rw kept.table_kept h) in
        (r.0, r.1, update, rw (unmasks, run, e) refl)
    | inr apart ↦
        let (update, e) = report-ok msix c offset size h in
        ((msix, c), [], update, rw (apart, e) refl)
  ]

  after_set-silent :
      is_fn_masked msix c ≡ ok true → Ensures (λ w. w.1 ≡ []) (after_set msix c offset size)
  unfolding after_set
  after_set-silent word = elim (Bool-cases (targets_vector_control offset size)) [
    | inl unmasks ↦ rw unmasks (
        Ensures-bind (evaluate_pending_interrupts msix c) (evaluate-silent msix c word)
          (λ r silent. Ensures-then _ (λ outcome. on_ok silent)))
    | inr apart ↦ rw apart (Ensures-then _ (λ outcome. on_ok refl))
  ]

module _ (msix : PciMsiX) (c : PciConfigurationSpace) (offset size : ℕ) where
  write_table-silent :
      (stored : Result (List MsiXEntry))
      → is_fn_masked msix c ≡ ok true
      → Ensures (λ w. w.1 ≡ []) (write_table msix c offset size stored)
  unfolding write_table is_fn_masked
  write_table-silent (ok table) word =
      after_set-silent (record msix { msix_table = table }) c offset size word
  write_table-silent (err e) word = on_ok refl
  write_table-silent panic word = on_panic
  write_table-silent out_of_fuel word = on_out_of_fuel

set_register_checked-outcome :
    (table : List MsiXEntry) (offset : ℕ) (new : List ℕ)
    → offset + length new ≤ usize_max
    → ((table' : List MsiXEntry) × (set_register_checked table offset new ≡ ok table'))
      ⊎ ((e : Error) × (set_register_checked table offset new ≡ err e))
unfolding set_register_checked RegisterBlock.set validate_bounds
set_register_checked-outcome table offset new h =
    elim (Bool-cases (leb (offset + length new) (length (raw_bytes table)))) [
      | inl inside ↦ inl (
        entries_from (length table) (splice (raw_bytes table) offset new),
        rw (le→leb (offset + length new) usize_max h, inside) refl,
      )
      | inr outside ↦ inr (
        access_bounds offset (length new),
        rw (le→leb (offset + length new) usize_max h, outside) refl,
      )
    ]

-- A write of the guest to either table returns, whatever it writes, and what it returns is not an
-- error: where the bytes are stored, the entry whose message it reports is one of the table. The end
-- of the write is a `usize`, and the configuration space holds the command register and the
-- control word of the capability.
pub msix_write_bar-NoError :
    (msix : PciMsiX) (c : PciConfigurationSpace) (region : MsiXBarRegion) (offset : ℕ)
    (new : List ℕ)
    → HoldsControl c msix.cap_offset
    → offset + length new ≤ usize_max
    → (t : PciMsiX × PciConfigurationSpace) × (messages : List PciMsiMessage) × (update : Option
        PciConfigurationUpdate)
      × (msix_write_bar msix c region offset new ≡ ok (t, messages, returned update))
unfolding msix_write_bar write_table
msix_write_bar-NoError msix c MsiXBarRegion.msix_region offset new holds h =
    elim (set_register_checked-outcome msix.msix_table offset new h) [
      | inl (table, stored) ↦
          let room : offset + length new ≤ 16 * length table =
            omega (arith, set_register_checked-size msix.msix_table offset new stored) in
          rw stored (
            after_set-returned (record msix { msix_table = table }) c offset (length new) holds
              room)
      | inr (e, refused) ↦ rw refused ((msix, c), [], none, refl)
    ]
msix_write_bar-NoError msix c MsiXBarRegion.pba_region offset new holds h =
    ((msix, c), [], none, refl)

-- While the Function Mask bit of the control word is set, no access of the guest to the BARs makes
-- the function send a message.
pub msix_write_bar-silent :
    (msix : PciMsiX) (c : PciConfigurationSpace) (region : MsiXBarRegion) (offset : ℕ)
    (new : List ℕ)
    → is_fn_masked msix c ≡ ok true
    → Ensures (λ w. w.1 ≡ []) (msix_write_bar msix c region offset new)
unfolding msix_write_bar
msix_write_bar-silent msix c MsiXBarRegion.msix_region offset new word =
    write_table-silent msix c offset (length new) (set_register_checked msix.msix_table offset new)
      word
msix_write_bar-silent msix c MsiXBarRegion.pba_region offset new word = on_ok refl

-- A field of the message: any but the vector control.
abbrev pub IsMessageField : EntryField → Type 0
IsMessageField EntryField.control_field = ⊥
IsMessageField _ = Unit

message_targets :
    (vector : ℕ) (field : EntryField)
    → IsMessageField field
    → 16 * vector + 4 * field_index field ≤ u64_max
    → (targets_vector_control (16 * vector + 4 * field_index field) 4 ≡ false)
      × (targets_message_info (16 * vector + 4 * field_index field) 4 ≡ true)
      × (offset_to_vector (16 * vector + 4 * field_index field) ≡ vector)
unfolding targets_vector_control targets_message_info targets_message_address targets_message_data
    offset_to_vector range_overlaps checked_add
message_targets vector EntryField.addr_field m h = (ground arith, ground arith, ground arith)
message_targets vector EntryField.addr_hi_field m h = (ground arith, ground arith, ground arith)
message_targets vector EntryField.data_field m h = (ground arith, ground arith, ground arith)
message_targets vector EntryField.control_field m h = absurd m

-- A dword that the guest writes over the address or the data of an entry becomes that field, no
-- message is sent, and the new message of that vector is reported to the device.
pub msix_write_bar-message :
    (msix : PciMsiX) (c : PciConfigurationSpace) (vector : ℕ) (field : EntryField) (v : ℕ)
    (entry : MsiXEntry)
    → All IsEntry msix.msix_table
    → 16 * length msix.msix_table ≤ usize_max
    → get_elem? msix.msix_table vector ≡ some entry
    → v < 2 ^ 32
    → IsMessageField field
    → msix_write_bar msix c MsiXBarRegion.msix_region
        (16 * vector + 4 * field_index field)
        (to_le_bytes 4 v)
      ≡ ok (
        (record msix { msix_table = set msix.msix_table vector (with_field entry field v) }, c),
        [],
        returned (some (msi_x_message vector (entry_message (with_field entry field v)))),
      )
unfolding msix_write_bar write_table after_set report
msix_write_bar-message msix c vector field v entry h fits there small m =
    let stored =
      set_register_checked-field msix.msix_table vector field v entry h fits there small in
    let inside = get_elem?-lt msix.msix_table vector there in
    let (apart, touches, same) =
      message_targets vector field m (omega (arith, inside, field_index-lt field)) in
    let new = with_field entry field v in
    let message =
      message-present (record msix { msix_table = set msix.msix_table vector new }) c vector new
        (get_elem?-set_self msix.msix_table vector new inside) in
    rw (stored, length-to_le_bytes, apart, touches, same, message) refl

field_read :
    (msix : PciMsiX) (vector : ℕ) (field : EntryField) (v : ℕ) (entry : MsiXEntry)
    → 16 * length msix.msix_table ≤ usize_max
    → get_elem? msix.msix_table vector ≡ some entry
    → msix_read_bar
        (record msix { msix_table = set msix.msix_table vector (with_field entry field v) })
        MsiXBarRegion.msix_region
        (16 * vector + 4 * field_index field)
        4
      ≡ ok (to_le_bytes 4 v)
unfolding msix_read_bar or_zeros read_register_checked validate_bounds
field_read msix vector field v entry fits there =
    let table = msix.msix_table in
    let offset = 16 * vector + 4 * field_index field in
    let inside = get_elem?-lt table vector there in
    let last = field_index-lt field in
    let room : offset + 4 ≤ length (raw_bytes table) =
      omega (arith, length-raw_bytes table, inside, last) in
    let size = length-splice (raw_bytes table) offset (to_le_bytes 4 v) in
    let back =
      rw length-to_le_bytes at (
        slice-splice_self (raw_bytes table) offset (to_le_bytes 4 v)
          (rw length-to_le_bytes room)) in
    rw
      (
        ← splice-raw_bytes table vector field v entry there,
        size,
        le→leb (offset + 4) usize_max (omega (arith, length-raw_bytes table)),
        le→leb (offset + 4) (length (raw_bytes table)) room,
        read-ok (splice (raw_bytes table) offset (to_le_bytes 4 v)) offset 4 (rw size room),
        back,
      )
      refl

after_set-table :
    (msix : PciMsiX) (c : PciConfigurationSpace) (offset size : ℕ)
    → Ensures (λ w. w.0.0.msix_table ≡ msix.msix_table) (after_set msix c offset size)
unfolding after_set
after_set-table msix c offset size = elim (Bool-cases (targets_vector_control offset size)) [
  | inl unmasks ↦ rw unmasks (
      Ensures-bind (evaluate_pending_interrupts msix c) (evaluate-Kept msix c)
        (λ r kept. Ensures-then _ (λ outcome. on_ok kept.table_kept)))
  | inr apart ↦ rw apart (Ensures-then _ (λ outcome. on_ok refl))
]

read_of_table :
    (msix msix' : PciMsiX) (offset n : ℕ)
    → msix'.msix_table ≡ msix.msix_table
    → msix_read_bar msix' MsiXBarRegion.msix_region offset n
      ≡ msix_read_bar msix MsiXBarRegion.msix_region offset n
unfolding msix_read_bar
read_of_table msix msix' offset n e = rw e refl

-- An aligned dword that the guest writes to the table, of any field of any entry, is what it then
-- reads there, also where the write unmasks the entry and pending messages are sent.
pub msix_read_bar-msix_write_bar :
    (msix : PciMsiX) (c : PciConfigurationSpace) (vector : ℕ) (field : EntryField) (v : ℕ)
    (entry : MsiXEntry)
    → All IsEntry msix.msix_table
    → 16 * length msix.msix_table ≤ usize_max
    → get_elem? msix.msix_table vector ≡ some entry
    → v < 2 ^ 32
    → Ensures
        (λ w.
          msix_read_bar w.0.0 MsiXBarRegion.msix_region (16 * vector + 4 * field_index field) 4
          ≡ ok (to_le_bytes 4 v))
        (msix_write_bar msix c MsiXBarRegion.msix_region
          (16 * vector + 4 * field_index field)
          (to_le_bytes 4 v))
unfolding msix_write_bar write_table
msix_read_bar-msix_write_bar msix c vector field v entry h fits there small =
    let offset = 16 * vector + 4 * field_index field in
    let stored =
      set_register_checked-field msix.msix_table vector field v entry h fits there small in
    let written : PciMsiX = record msix {
      msix_table = set msix.msix_table vector (with_field entry field v);
    } in
    let kept = after_set-table written c offset (length (to_le_bytes 4 v)) in
    rw stored (
      Ensures_lem (after_set written c offset (length (to_le_bytes 4 v))) λ w e.
        read_of_table written w.0.0 offset 4 (Ensures-ok kept e)
        ∙ field_read msix vector field v entry fits there)

-- The bytes that a region shows.
abbrev pub region_bytes : PciMsiX → MsiXBarRegion → List ℕ
region_bytes msix MsiXBarRegion.msix_region = raw_bytes msix.msix_table
region_bytes msix MsiXBarRegion.pba_region = pba_raw_bytes msix.pba_table

read_or_zeros :
    (raw : List ℕ) (offset n : ℕ)
    → or_zeros (read_register_checked raw offset n) n ≡ (
        if leb (offset + n) usize_max
        then ok (if leb (offset + n) (length raw) then slice raw offset n else replicate n 0)
        else panic)
unfolding or_zeros read_register_checked validate_bounds
read_or_zeros raw offset n = elim (Bool-cases (leb (offset + n) usize_max)) [
  | inr past ↦ rw past refl
  | inl h ↦ elim (Bool-cases (leb (offset + n) (length raw))) [
    | inl inside ↦ rw (h, inside, read-ok raw offset n (leb→le _ _ inside)) refl
    | inr outside ↦ rw (h, outside) refl
  ]
]

-- A read of either table never returns an error: it returns the bytes of the range where the range
-- lies in the table, and zeros, as many as were asked for, where any part of it does not. It panics
-- where the end of the range is no `usize`, and only there.
pub msix_read_bar_lem :
    (msix : PciMsiX) (region : MsiXBarRegion) (offset n : ℕ)
    → msix_read_bar msix region offset n ≡ (
        if leb (offset + n) usize_max
        then ok (
            if leb (offset + n) (length (region_bytes msix region))
            then slice (region_bytes msix region) offset n
            else replicate n 0)
        else panic)
unfolding msix_read_bar
msix_read_bar_lem msix MsiXBarRegion.msix_region offset n =
    read_or_zeros (raw_bytes msix.msix_table) offset n
msix_read_bar_lem msix MsiXBarRegion.pba_region offset n =
    read_or_zeros (pba_raw_bytes msix.pba_table) offset n
