-- ===== src/Builder/Laws.antt =====
-- The guest reads from a built configuration space what its builder was given.
use greens.Base.{ℕ, ◌+◌, ◌*◌, ◌/◌, ◌%◌, ◌^◌, ◌<◌, ◌≡◌, refl, ap, arith, bit_or}
use greens.Bits.{bit_or-low_high}
use greens.Word.{to_le_bytes, from_le_bytes}
use greens.Error.{Result, ok, ◌>>=◌}
use greens.Utils.RegisterBlock
use greens.Registers.{
  pci_vendor_id, pci_device_id, pci_revision_id, pci_class_code_base, pci_class_code_sub,
  pci_class_code_pi, pci_subsystem_vendor_id, pci_subsystem_id, pci_header_type,
  pci_header_type_multifunction,
}
use greens.Config.{
  PciConfigurationSpace, read_word, read_byte, set_byte, set_word, set, set_writable_byte,
  set_writable_bits, new,
}
use greens.Builder.{
  new_builder, with_id, with_class, with_subsystem_id, with_header_type, with_multifunction, build,
  set_multifunction,
}

-- The builder's calls in the order in which functions make them.
abbrev pub built : ℕ → ℕ → ℕ → ℕ → ℕ → ℕ → ℕ → ℕ → ℕ → Result PciConfigurationSpace
built vendor device rev base sub interface subsystem_vendor subsystem header = do
  b0 ← new_builder
  b1 ← with_id b0 vendor device rev
  b2 ← with_class b1 base sub interface
  b3 ← with_subsystem_id b2 subsystem_vendor subsystem
  b4 ← with_header_type b3 header
  build (with_multifunction b4)

word_lem : (v : ℕ) → v < 2 ^ 16 → ok (v % 256 + 256 * (v / 256 % 256 + 0)) ≡ ok v
word_lem v h = ap ok (omega arith)

byte_lem : (v : ℕ) → v < 2 ^ 8 → ok (v % 256) ≡ ok v
byte_lem v h = ap ok (omega arith)

header_lem : (v : ℕ) → v < 2 ^ 7 → ok (bit_or (v % 256) 0x80 % 256) ≡ ok (v + 0x80)
header_lem v h =
    let whole : v % 256 ≡ v = omega arith in
    ap ok (rw whole (omega (arith, bit_or-low_high 7 1 v h)))

-- A configuration space that is built with all the identification registers given, in the range of
-- their types, and as one of several functions, reads as what was given; the header type, which is
-- below 0x80, has the multifunction bit set.
pub build_reads :
    (vendor device rev base sub interface subsystem_vendor subsystem header : ℕ)
    → vendor < 2 ^ 16
    → device < 2 ^ 16
    → rev < 2 ^ 8
    → base < 2 ^ 8
    → sub < 2 ^ 8
    → interface < 2 ^ 8
    → subsystem_vendor < 2 ^ 16
    → subsystem < 2 ^ 16
    → header < 2 ^ 7
    → (c : PciConfigurationSpace) × (built vendor device rev base sub interface subsystem_vendor
          subsystem header
        ≡ ok c)
      × (read_word c pci_vendor_id ≡ ok vendor)
      × (read_word c pci_device_id ≡ ok device)
      × (read_byte c pci_revision_id ≡ ok rev)
      × (read_byte c pci_class_code_base ≡ ok base)
      × (read_byte c pci_class_code_sub ≡ ok sub)
      × (read_byte c pci_class_code_pi ≡ ok interface)
      × (read_word c pci_subsystem_vendor_id ≡ ok subsystem_vendor)
      × (read_word c pci_subsystem_id ≡ ok subsystem)
      × (read_byte c pci_header_type ≡ ok (header + pci_header_type_multifunction))
unfolding with_id with_class with_subsystem_id with_header_type with_multifunction build
    set_multifunction new_builder new set_byte set_word set set_writable_byte set_writable_bits
    read_word read_byte RegisterBlock.set RegisterBlock.read_byte RegisterBlock.read_word
    RegisterBlock.read to_le_bytes from_le_bytes
build_reads v d r b s i sv si h hv hd hr hb hs hi hsv hsi hh = (
  _,
  refl,
  word_lem v hv,
  word_lem d hd,
  byte_lem r hr,
  byte_lem b hb,
  byte_lem s hs,
  byte_lem i hi,
  word_lem sv hsv,
  word_lem si hsi,
  header_lem h hh,
)
