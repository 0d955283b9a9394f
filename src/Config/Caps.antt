-- ===== src/Config/Caps.antt =====
-- The capability list of configuration_space.rs: its iterator, `add_capability` and
-- `update_capability`.
pub mod Chain
pub mod Walk
pub mod Bytes
pub mod Last
pub mod Add
pub mod Update
use greens.Base.{
  ℕ, zero, suc, ◌+◌, ◌-◌, ◌%◌, bit_and, bit_or, Bool, true, false, List, [], ◌∷◌, Option, none,
  some, length, slice, splice, ltb, leb, ◌==◌, ◌&&◌, if◌then◌else◌,
}
use greens.Bits.{complement}
use greens.Word.{usize_max, to_le_bytes}
use greens.Error.{
  Result, ok, err, out_of_fuel, ◌>>=◌, ◌>>◌, guard, assert, configuration_space_bounds,
  device_area_bounds, capability_not_found,
}
use greens.Registers.{
  pci_configuration_space_size, pci_device_specific_start, pci_device_specific_end, pci_cap_pointer,
  pci_cap_pointer_rsvd_mask, pci_cap_header_id, pci_cap_header_next, pci_cap_data_start, pci_status,
  pci_status_cap_list_mask,
}
use greens.Capability.{PciCapability, id_code}
use greens.Config.{PciConfigurationSpace, read_byte, read_word, set_byte, set_word}

pub record PciCapHeader : Type 0 where
  pub cap_id : ℕ
  pub next_pointer : ℕ

abbrev pub cap_next_pointer_offset : ℕ → ℕ
cap_next_pointer_offset cap_start = cap_start + pci_cap_header_next

abbrev pub cap_data_offset : ℕ → ℕ
cap_data_offset cap_start = cap_start + pci_cap_data_start

abbrev pub cap_start_from_data_start : ℕ → ℕ
cap_start_from_data_start data_start = data_start - pci_cap_data_start

-- The start of the next capability, or 0.
unfoldable pub next_cap : PciConfigurationSpace → ℕ → Result ℕ
next_cap config pointer = do
  byte ← read_byte config pointer
  let next = bit_and byte (complement 8 pci_cap_pointer_rsvd_mask)
  ok (if ltb next pci_device_specific_start then 0 else next)

unfoldable pub header_at : PciConfigurationSpace → ℕ → Result PciCapHeader
header_at config start = do
  cap_id ← read_byte config (start + pci_cap_header_id)
  next_pointer ← read_byte config (start + pci_cap_header_next)
  ok (record { cap_id = cap_id; next_pointer = next_pointer })

-- An item of the iterator: a header and the offset of the capability's data.
abbrev pub Item : Type 0
Item = PciCapHeader × ℕ

-- `next`: the item, and the `next_pointer` of the iterator afterwards.
unfoldable pub next : PciConfigurationSpace → ℕ → Result (Option Item × ℕ)
unfolding next_cap header_at
next config pointer = do
  start ← next_cap config pointer
  if start == 0 then ok (none, pointer) else (do
    header ← header_at config start
    ok (
        if cap_next_pointer_offset header.next_pointer == pointer
        then (none, pointer)
        else (some (header, cap_data_offset start), cap_next_pointer_offset start)))

-- The items from a pointer on. There are 48 places for a capability, so a run that ends has fewer
-- than 64 items.
unfoldable pub items_from : ℕ → PciConfigurationSpace → ℕ → Result (List Item)
items_from zero config pointer = out_of_fuel
items_from (suc fuel) config pointer = do
  (item, pointer') ← next config pointer
  elim item [ none ↦ ok [] | some i ↦ do rest ← items_from fuel config pointer'; ok (i ∷ rest) ]

abbrev pub walk_fuel : ℕ
walk_fuel = 64

unfoldable pub capability_iter : PciConfigurationSpace → Result (List Item)
capability_iter config = items_from walk_fuel config pci_cap_pointer

-- `Iterator::last`.
abbrev pub last : List Item → Option Item
last [] = none
last (i ∷ items) = elim (last items) [ none ↦ some i | some j ↦ some j ]

unfoldable pub cap_end_offset : PciCapability → ℕ → Result ℕ
cap_end_offset cap cap_start = do
  guard (leb (cap_start + cap.size) usize_max)
      (configuration_space_bounds pci_configuration_space_size)
  guard (leb (cap_start + cap.size) pci_device_specific_end)
      (device_area_bounds (cap_start + cap.size) pci_device_specific_end)
  ok (cap_start + cap.size)

-- The slices are of `cap_start..cap_end`.
unfoldable pub set_capability_data :
    PciConfigurationSpace → PciCapability → ℕ → Result PciConfigurationSpace
unfolding cap_end_offset
set_capability_data c cap cap_start = do
  cap_end ← cap_end_offset cap cap_start
  assert (leb cap_end (length c.registers))
  registers ← cap.registers (slice c.registers cap_start (cap_end - cap_start))
  assert (leb cap_end (length c.writable_bits))
  bits ← cap.writable_bits (slice c.writable_bits cap_start (cap_end - cap_start))
  ok (record c {
    registers = splice c.registers cap_start registers;
    writable_bits = splice c.writable_bits cap_start bits;
  })

-- `(cap_start + 3) & !3`.
unfoldable pub align : ℕ → ℕ
align cap_start = bit_and (cap_start + 3) (complement 64 3)

-- Where a new capability would start, before alignment, and the last one's start (0 for none).
unfoldable pub find_offsets : PciConfigurationSpace → Option Item → ℕ × ℕ
find_offsets c none = (pci_device_specific_start, 0)
find_offsets c (some (header, offset)) =
    (offset + c.last_cap_size, cap_start_from_data_start offset)

-- The list pointers: of the header of the space for the first capability, else of the last one.
unfoldable pub link : PciConfigurationSpace → ℕ → ℕ → Result PciConfigurationSpace
link c cap_start last_start =
    if last_start == 0
    then (do
      c1 ← set_byte c pci_cap_pointer (pci_device_specific_start % 256)
      status ← read_word c1 pci_status
      set_word c1 pci_status (bit_or status pci_status_cap_list_mask))
    else set_byte c (cap_next_pointer_offset last_start) (cap_start % 256)

-- The data, the header and the list pointer of a capability that starts at `cap_start`.
unfoldable pub place :
    PciConfigurationSpace → PciCapability → ℕ → ℕ → Result (PciConfigurationSpace × ℕ)
unfolding link
place c cap cap_start last_start = do
  c1 ← set_capability_data c cap (cap_data_offset cap_start)
  c2 ← set_byte c1 (cap_start + pci_cap_header_id) (id_code cap.id)
  c3 ← set_byte c2 (cap_next_pointer_offset cap_start) 0
  c4 ← link (record c3 { last_cap_size = cap.size }) cap_start last_start
  ok (c4, cap_data_offset cap_start)

-- The only error is that of the data, which is set first: an error leaves the state unchanged.
unfoldable pub add_capability :
    PciConfigurationSpace → PciCapability → Result (PciConfigurationSpace × ℕ)
unfolding find_offsets
add_capability c cap = do
  items ← capability_iter c
  let (cap_start, last_start) = find_offsets c (last items)
  place c cap (align cap_start) last_start

-- `find` of the iterator, which stops at the first capability that fits.
unfoldable pub find_from : ℕ → PciConfigurationSpace → ℕ → ℕ → ℕ → Result (Option Item)
find_from zero config pointer id offset = out_of_fuel
find_from (suc fuel) config pointer id offset = do
  (item, pointer') ← next config pointer
  elim item [
    | none ↦ ok none
    | some i ↦ elim (i.0.cap_id == id && offset == i.1) [
      | true ↦ ok (some i)
      | false ↦ find_from fuel config pointer' id offset
    ]
  ]

unfoldable pub update_capability :
    PciConfigurationSpace → PciCapability → ℕ → Result PciConfigurationSpace
update_capability c cap cap_start = do
  found ← find_from walk_fuel c pci_cap_pointer (id_code cap.id) cap_start
  elim found [
    | none ↦ err (capability_not_found (id_code cap.id))
    | some i ↦ set_capability_data c cap cap_start
  ]
