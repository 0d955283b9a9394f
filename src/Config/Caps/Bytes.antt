-- ===== src/Config/Caps/Bytes.antt =====
-- The steps of `add_capability` byte by byte.
use greens.Base.{
  ℕ, ◌+◌, ◌-◌, ◌≤◌, ◌<◌, ◌≡◌, ◌≢◌, ◌⊎◌, inl, inr, refl, ◌∙◌, ap, arith, List, length, get_or, slice,
  splice, le→leb, bit_or, get_or-splice_in, length-slice, length-splice, lt→leb_false,
}
use greens.Base.Slices.{get_or-splice_before, get_or-splice_after, All-splice, All-slice}
use greens.Word.{IsByte, to_le_bytes, from_le_bytes, to_le_bytes-IsBytes, usize_max}
use greens.Error.{ok, err, ◌>>=◌, device_area_bounds}
use greens.Registers.{pci_status, pci_status_cap_list_mask}
use greens.Utils.RegisterBlock.Laws.{set-ok, read_word-ok}
use greens.Capability.{PciCapability, IsCapability}
use greens.Config.{PciConfigurationSpace, set, set_byte, set_word, read_word}
use greens.Config.Shape.{IsShaped, set-IsShaped}
use greens.Config.Caps.{set_capability_data, cap_end_offset}

-- `c'` is `c` with the byte at `offset` set to `v`.
pub record ByteSet (c : PciConfigurationSpace) (offset v : ℕ) (c' : PciConfigurationSpace)
    : Type 0 where
  pub shaped : IsShaped c'
  pub there : get_or c'.registers offset 0 ≡ v
  pub others : (j : ℕ) → j ≢ offset → get_or c'.registers j 0 ≡ get_or c.registers j 0
  pub writable : c'.writable_bits ≡ c.writable_bits
  pub bars : c'.bars ≡ c.bars
  pub size : c'.last_cap_size ≡ c.last_cap_size

pub set-splice :
    (c : PciConfigurationSpace) (offset : ℕ) (bytes : List ℕ)
    → IsShaped c
    → offset + length bytes ≤ 256
    → set c offset bytes ≡ ok (record c { registers = splice c.registers offset bytes })
unfolding set
set-splice c offset bytes s h = rw (set-ok c.registers offset bytes (rw s.registers_length h)) refl

pub set_byte-ByteSet :
    (c : PciConfigurationSpace) (offset v : ℕ)
    → IsShaped c
    → offset < 256
    → v < 256
    → (c' : PciConfigurationSpace) × (set_byte c offset v ≡ ok c') × ByteSet c offset v c'
unfolding set_byte to_le_bytes
set_byte-ByteSet c offset v s h b =
    let bytes = to_le_bytes 1 v in
    let stored = set-splice c offset bytes s (omega arith) in
    (
      record c { registers = splice c.registers offset bytes },
      stored,
      record {
        shaped = set-IsShaped c offset bytes (to_le_bytes-IsBytes 1 v) s stored;
        there =
            get_or-splice_in 0 c.registers offset bytes offset (omega arith) (omega arith)
              (omega (arith, s.registers_length))
            ∙ first_byte;
        others = λ j ne. other j bytes refl ne;
        writable = refl;
        bars = refl;
        size = refl;
      },
    )
  where
    first_byte : get_or (to_le_bytes 1 v) (offset - offset) 0 ≡ v
    first_byte = let at_start : offset - offset ≡ 0 = omega arith in rw at_start (omega arith)

    sides : (j : ℕ) → j ≢ offset → (j < offset) ⊎ (offset + 1 ≤ j)
    sides j ne = ground arith

    other :
        (j : ℕ) (bytes : List ℕ)
        → length bytes ≡ 1
        → j ≢ offset
        → get_or (splice c.registers offset bytes) j 0 ≡ get_or c.registers j 0
    other j bytes one ne = elim (sides j ne) [
      | inl p ↦ get_or-splice_before 0 c.registers offset bytes j p
      | inr p ↦ get_or-splice_after 0 c.registers offset bytes j (omega arith)
    ]

-- The bit of the status register: nothing from byte 8 on changes.
pub set_status :
    (c : PciConfigurationSpace)
    → IsShaped c
    → (c' : PciConfigurationSpace) × ((read_word c pci_status >>= λ status.
          set_word c pci_status (bit_or status pci_status_cap_list_mask))
        ≡ ok c')
      × IsShaped c'
      × ((j : ℕ) → 8 ≤ j → get_or c'.registers j 0 ≡ get_or c.registers j 0)
      × (c'.last_cap_size ≡ c.last_cap_size)
unfolding read_word set_word to_le_bytes
set_status c s =
    let status = read_word-ok c.registers pci_status (omega (arith, s.registers_length)) in
    let bytes =
      to_le_bytes 2
        (bit_or (from_le_bytes (slice c.registers pci_status 2)) pci_status_cap_list_mask) in
    let stored = set-splice c pci_status bytes s (omega arith) in
    (
      record c { registers = splice c.registers pci_status bytes },
      rw status stored,
      set-IsShaped c pci_status bytes (to_le_bytes-IsBytes 2 _) s stored,
      λ j h. get_or-splice_after 0 c.registers pci_status bytes j (omega arith),
      refl,
    )

-- What the capability's data leaves.
pub record DataSet (c : PciConfigurationSpace) (cap : PciCapability) (at : ℕ)
    (c' : PciConfigurationSpace) : Type 0 where
  pub shaped : IsShaped c'
  pub content : List ℕ
  pub filled : cap.registers (slice c.registers at cap.size) ≡ ok content
  pub there : (j : ℕ) → j < cap.size → get_or c'.registers (at + j) 0 ≡ get_or content j 0
  pub before : (j : ℕ) → j < at → get_or c'.registers j 0 ≡ get_or c.registers j 0
  pub size : c'.last_cap_size ≡ c.last_cap_size

set_capability_data-ok :
    (c : PciConfigurationSpace) (cap : PciCapability) (at : ℕ) (data' bits' : List ℕ)
    → IsShaped c
    → at + cap.size ≤ 255
    → cap.registers (slice c.registers at cap.size) ≡ ok data'
    → cap.writable_bits (slice c.writable_bits at cap.size) ≡ ok bits'
    → set_capability_data c cap at
      ≡ ok (record c {
        registers = splice c.registers at data';
        writable_bits = splice c.writable_bits at bits';
      })
unfolding set_capability_data cap_end_offset
set_capability_data-ok c cap at data' bits' s h fills fills_bits =
    let n : at + cap.size - at ≡ cap.size = omega arith in
    rw
      (
        le→leb (at + cap.size) usize_max (omega arith),
        le→leb (at + cap.size) 255 h,
        s.registers_length,
        s.writable_length,
        le→leb (at + cap.size) 256 (omega arith),
        n,
        fills,
        fills_bits,
      )
      refl

-- Data that does not fit in the device area is refused.
pub set_capability_data-full :
    (c : PciConfigurationSpace) (cap : PciCapability) (at : ℕ)
    → at + cap.size ≤ usize_max
    → 255 < at + cap.size
    → set_capability_data c cap at ≡ err (device_area_bounds (at + cap.size) 255)
unfolding set_capability_data cap_end_offset
set_capability_data-full c cap at h p =
    rw (le→leb (at + cap.size) usize_max h, lt→leb_false (at + cap.size) 255 p) refl

pub set_capability_data-fits :
    (c : PciConfigurationSpace) (cap : PciCapability) (at : ℕ)
    → IsShaped c
    → IsCapability cap
    → at + cap.size ≤ 255
    → (c' : PciConfigurationSpace) × (set_capability_data c cap at ≡ ok c') × DataSet c cap at c'
set_capability_data-fits c cap at s ic h =
    let old = slice c.registers at cap.size in
    let old_bits = slice c.writable_bits at cap.size in
    let (data', fills, len, bytes) =
      ic.fills_registers.filled old
        (length-slice c.registers at cap.size (rw s.registers_length (omega arith)))
        (All-slice IsByte c.registers at cap.size s.registers_bytes) in
    let (bits', fills_bits, len_bits, bytes_bits) =
      ic.fills_writable_bits.filled old_bits
        (length-slice c.writable_bits at cap.size (rw s.writable_length (omega arith)))
        (All-slice IsByte c.writable_bits at cap.size s.writable_bytes) in
    (
      record c {
        registers = splice c.registers at data';
        writable_bits = splice c.writable_bits at bits';
      },
      set_capability_data-ok c cap at data' bits' s h fills fills_bits,
      record {
        shaped = record {
          registers_length = length-splice c.registers at data' ∙ s.registers_length;
          writable_length = length-splice c.writable_bits at bits' ∙ s.writable_length;
          registers_bytes = All-splice IsByte c.registers at data' s.registers_bytes bytes;
          writable_bytes = All-splice IsByte c.writable_bits at bits' s.writable_bytes bytes_bits;
          bars_length = s.bars_length;
        };
        content = data';
        filled = fills;
        there = λ j p.
            get_or-splice_in 0 c.registers at data' (at + j) (omega arith) (omega arith)
              (omega (arith, s.registers_length))
            ∙ ap (λ k. get_or data' k 0) (omega arith);
        before = λ j p. get_or-splice_before 0 c.registers at data' j p;
        size = refl;
      },
    )
