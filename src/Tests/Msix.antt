-- ===== src/Tests/Msix.antt =====
-- Runs of the theorems on MSI-X, with a table of two vectors, the second of which is masked and
-- pending, and a capability at 0x40 of a bus master that has MSI-X enabled.
use greens.Base.{
  ℕ, ◌≡◌, ◌+◌, ◌*◌, ◌-◌, ◌≤◌, refl, arith, true, false, ◌==◌, List, [], ◌∷◌, replicate, splice,
  none, Option, length, bit_and, if◌then◌else◌,
}
use greens.Word.{from_le_bytes, to_le_bytes}
use greens.Error.{ok, Ends, Ensures}
use greens.Effects.{returned}
use greens.Utils.RegisterBlock
use greens.BarRegion.{PciBarRegionInfo}
use greens.Config.{PciConfigurationSpace, read_word, is_bus_master}
use greens.Function.{PciMsiMessage, PciConfigurationUpdate}
use greens.Utils.RegisterBlock
use greens.Msix.{msix_registers}
use greens.Msi.Source.{try_generate_message, Generation}
use greens.Msix.{PciMsiX, PciMsiXCapability, new, is_aligned}
use greens.Msix.Capability.{new_lem}
use greens.Msix.Table.{
  MsiXEntry, PbaEntry, is_pending, raw_bytes, pba_raw_bytes, entry_bytes, entry_is_masked,
}
use greens.Msix.Table.Laws.{IsEntry, EntryField}
use greens.Msix.Table.Pending.{set_all, set_all_refines, replay}
use greens.Msix.Source.{is_fn_masked, word_is_fn_masked, msix_is_enabled, pci_msi_x}
use greens.Msix.Source.Laws.{try_generate_message-MsiX}
use greens.Msix.Handler.{find_pending_vector, evaluate_pending_interrupts}
use greens.Msix.Handler.Search.{find_pending_vector-IsFound, IsFound}
use greens.Msix.Handler.Ends.{evaluate_pending_interrupts-MsiX_Ends}
use greens.Msix.Bar.{MsiXBarRegion, msix_write_bar, msix_read_bar}
use greens.Msix.Bar.Laws.{
  msix_write_bar-silent, msix_write_bar-NoError, msix_read_bar-msix_write_bar, msix_read_bar_lem,
}

abbrev pub open_entry : MsiXEntry
open_entry = record { msg_addr = 0xFEE0_0000; msg_addr_hi = 0; msg_data = 0x41; vector_control = 0 }

abbrev pub masked_entry : MsiXEntry
masked_entry = record {
  msg_addr = 0xFEE0_0000;
  msg_addr_hi = 0;
  msg_data = 0x42;
  vector_control = 1;
}

pub open_entry-IsEntry : IsEntry open_entry
open_entry-IsEntry = record {
  msg_addr_fits = omega arith;
  msg_addr_hi_fits = omega arith;
  msg_data_fits = omega arith;
  vector_control_fits = omega arith;
}

pub masked_entry-IsEntry : IsEntry masked_entry
masked_entry-IsEntry = record {
  msg_addr_fits = omega arith;
  msg_addr_hi_fits = omega arith;
  msg_data_fits = omega arith;
  vector_control_fits = omega arith;
}

abbrev table_info : PciBarRegionInfo
table_info = record { bar = 2; offset = 0x1000; length = 0x100 }

abbrev pba_info' : PciBarRegionInfo
pba_info' = record { bar = 2; offset = 0x2000; length = 8 }

abbrev pending_one : List PbaEntry
pending_one = record { pending_bits = 2 } ∷ []

abbrev pub two_vectors : PciMsiX
two_vectors = record {
  msix_info = table_info;
  pba_info = pba_info';
  msix_table = open_entry ∷ masked_entry ∷ [];
  pba_table = pending_one;
  cap_offset = 0x40;
}

abbrev pub msix_space : PciConfigurationSpace
msix_space = record {
  registers = splice (splice (replicate 256 0) 0x04 (0x04 ∷ [])) 0x41 (0x80 ∷ []);
  writable_bits = replicate 256 0xFF;
  bars = replicate 6 none;
  last_cap_size = 10;
}

-- The same with the Function Mask bit.
abbrev fn_masked_space : PciConfigurationSpace
fn_masked_space = record msix_space {
  registers = splice (splice (replicate 256 0) 0x04 (0x04 ∷ [])) 0x41 (0xC0 ∷ []);
}

-- After vector 6 was found the search goes on from 7, and passes over vector 64.
missed_vector :
    find_pending_vector (record { pending_bits = 0 } ∷ record { pending_bits = 1 } ∷ []) 7 ≡ none
unfolding find_pending_vector
missed_vector = refl

set_all_refines_example :
    (table' : List PbaEntry) × (set_all ((0, true) ∷ (1, false) ∷ []) pending_one ≡ ok table')
    × ((vector : ℕ)
        → is_pending table' vector
          ≡ replay ((0, true) ∷ (1, false) ∷ []) (is_pending pending_one) vector)
set_all_refines_example =
    set_all_refines ((0, true) ∷ (1, false) ∷ []) pending_one (omega arith, (omega arith, tt))

find_pending_vector-IsFound_example : IsFound pending_one 0 (find_pending_vector pending_one 0)
find_pending_vector-IsFound_example = find_pending_vector-IsFound pending_one 0

try_generate_message-MsiX_example :
    (pba : List PbaEntry) × (try_generate_message pci_msi_x two_vectors msix_space 1
      ≡ ok ((record two_vectors { pba_table = pba }, msix_space), Generation.is_masked))
    × ((other : ℕ)
        → is_pending pba other ≡ (if other == 1 then true else is_pending pending_one other))
unfolding is_bus_master msix_is_enabled is_fn_masked word_is_fn_masked read_word
    RegisterBlock.read_word RegisterBlock.read from_le_bytes entry_is_masked
try_generate_message-MsiX_example =
    try_generate_message-MsiX two_vectors msix_space 1 masked_entry false refl refl refl refl
      (omega arith)

evaluate_pending_interrupts-MsiX_Ends_example :
    Ends (evaluate_pending_interrupts two_vectors msix_space)
evaluate_pending_interrupts-MsiX_Ends_example =
    evaluate_pending_interrupts-MsiX_Ends two_vectors msix_space

msix_write_bar-silent_example :
    Ensures
      (λ w. w.1 ≡ [])
      (msix_write_bar two_vectors fn_masked_space MsiXBarRegion.msix_region 28 (replicate 4 0))
unfolding is_fn_masked word_is_fn_masked read_word RegisterBlock.read_word RegisterBlock.read
    from_le_bytes
msix_write_bar-silent_example =
    msix_write_bar-silent two_vectors fn_masked_space MsiXBarRegion.msix_region 28 (replicate 4 0)
      refl

msix_write_bar-NoError_example :
    (t : PciMsiX × PciConfigurationSpace) × (messages : List PciMsiMessage) × (update : Option
      PciConfigurationUpdate)
    × (msix_write_bar two_vectors msix_space MsiXBarRegion.msix_region 20 (replicate 12 0)
        ≡ ok (t, messages, returned update))
msix_write_bar-NoError_example =
    msix_write_bar-NoError two_vectors msix_space MsiXBarRegion.msix_region 20 (replicate 12 0)
      (omega arith, omega arith) (omega arith)

msix_read_bar-msix_write_bar_example :
    Ensures
      (λ w. msix_read_bar w.0.0 MsiXBarRegion.msix_region (16 * 1 + 4 * 3) 4 ≡ ok (to_le_bytes 4 0))
      (msix_write_bar two_vectors msix_space MsiXBarRegion.msix_region
        (16 * 1 + 4 * 3)
        (to_le_bytes 4 0))
msix_read_bar-msix_write_bar_example =
    msix_read_bar-msix_write_bar two_vectors msix_space 1 EntryField.control_field 0 masked_entry
      (open_entry-IsEntry, (masked_entry-IsEntry, tt)) (omega arith) refl (omega arith)

msix_read_bar_example : msix_read_bar two_vectors MsiXBarRegion.pba_region 4 8 ≡ ok (replicate 8 0)
unfolding pba_raw_bytes to_le_bytes
msix_read_bar_example = msix_read_bar_lem two_vectors MsiXBarRegion.pba_region 4 8

abbrev capability : PciMsiXCapability
capability = record { control = 1; msix_offset = 0x1002; pba_offset = 0x2002 }

new_example :
    (2 ≤ 0x800)
    × (16 * 2 ≤ 0x100)
    × (length (pba_raw_bytes pending_one) ≤ 8)
    × ((registers : List ℕ) × (table_register : ℕ) × (pba_register : ℕ) × (msix_registers capability
            (replicate 10 0)
          ≡ ok registers)
        × (RegisterBlock.read_word registers 0 ≡ ok 1)
        × (RegisterBlock.read_dword registers 2 ≡ ok table_register)
        × (bit_and table_register 7 ≡ 2)
        × (table_register - 2 ≡ 0x1000)
        × (RegisterBlock.read_dword registers 6 ≡ ok pba_register)
        × (bit_and pba_register 7 ≡ 2)
        × (pba_register - 2 ≡ 0x2000))
unfolding new is_aligned raw_bytes entry_bytes pba_raw_bytes to_le_bytes
new_example =
    new_lem table_info (open_entry ∷ masked_entry ∷ []) pba_info' pending_one capability
      (replicate 10 0) refl refl
