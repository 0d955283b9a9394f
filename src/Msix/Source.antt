-- ===== src/Msix/Source.antt =====
-- `PciMsiX` of msix.rs as a message source.
pub mod Laws
use greens.Base.{
  ℕ, ◌+◌, bit_and, Bool, true, false, not, ◌||◌, List, length, Option, none, some, get_elem?, ltb,
  ◌==◌, if◌then◌else◌,
}
use greens.Error.{Result, ok, err, ◌>>=◌, invalid_msi_x_vector}
use greens.Config.{PciConfigurationSpace, read_word}
use greens.Function.{PciMsiMessage}
use greens.Msi.Source.{PciMsiMessageSource}
use greens.Msix.Table
use greens.Msix.Table.{MsiXEntry, entry_address, entry_is_masked}
use greens.Msix.{PciMsiX, message_control, message_control_fn_mask, message_control_msix_en}

unfoldable pub control_offset : PciMsiX → ℕ
control_offset msix = msix.cap_offset + message_control

-- The function `is_fn_masked` of a control word.
unfoldable pub word_is_fn_masked : ℕ → Bool
word_is_fn_masked control = not (bit_and control message_control_fn_mask == 0)

unfoldable pub is_fn_masked : PciMsiX → PciConfigurationSpace → Result Bool
unfolding word_is_fn_masked
is_fn_masked msix config = do
  control ← read_word config (msix.cap_offset + message_control)
  ok (word_is_fn_masked control)

unfoldable pub msix_is_valid_vector : PciMsiX → PciConfigurationSpace → ℕ → Result Bool
msix_is_valid_vector msix config vector = ok (ltb vector (length msix.msix_table))

unfoldable pub msix_is_enabled : PciMsiX → PciConfigurationSpace → Result Bool
msix_is_enabled msix config = do
  control ← read_word config (msix.cap_offset + message_control)
  ok (not (bit_and control message_control_msix_en == 0))

unfoldable pub msix_is_pending : PciMsiX → PciConfigurationSpace → ℕ → Result Bool
msix_is_pending msix config vector = ok (Table.is_pending msix.pba_table vector)

unfoldable pub msix_set_pending_bit :
    PciMsiX → PciConfigurationSpace → ℕ → Bool → Result (PciMsiX × PciConfigurationSpace)
msix_set_pending_bit msix config vector pending = do
  pba_table ← Table.set_pending_bit msix.pba_table vector pending
  ok (record msix { pba_table = pba_table }, config)

-- The entry of a vector, where the table has one. The function mask is read only then.
unfoldable pub is_masked_with : PciMsiX → PciConfigurationSpace → Option MsiXEntry → Result Bool
unfolding is_fn_masked
is_masked_with msix config none = ok false
is_masked_with msix config (some entry) = do
  fn_masked ← is_fn_masked msix config
  ok (fn_masked || entry_is_masked entry)

unfoldable pub msix_is_masked : PciMsiX → PciConfigurationSpace → ℕ → Result Bool
unfolding is_masked_with
msix_is_masked msix config vector = is_masked_with msix config (get_elem? msix.msix_table vector)

unfoldable pub entry_message : MsiXEntry → PciMsiMessage
entry_message entry = record { address = entry_address entry; message_data = entry.msg_data }

unfoldable pub msix_get_message_for :
    PciMsiX → PciConfigurationSpace → ℕ → Result (PciMsiX × PciMsiMessage)
unfolding entry_message
msix_get_message_for msix config vector = elim (get_elem? msix.msix_table vector) [
  | none ↦ err (invalid_msi_x_vector vector)
  | some entry ↦ ok (msix, entry_message entry)
]

-- `PciMsiX` as a source.
abbrev pub pci_msi_x : PciMsiMessageSource PciMsiX
pci_msi_x = record {
  valid_vector = msix_is_valid_vector;
  enabled = msix_is_enabled;
  masked = msix_is_masked;
  pending = msix_is_pending;
  set_pending_bit = msix_set_pending_bit;
  get_message_for = msix_get_message_for;
}
