-- ===== src/Msix/Bar.antt =====
-- The accesses of msix.rs to the BARs that hold the MSI-X table and the pending bit array.
pub mod Laws
use greens.Base.{
  ℕ, ◌-◌, ◌/◌, ◌%◌, Bool, true, false, ◌||◌, List, [], ◌∷◌, length, Option, none, some, replicate,
  if◌then◌else◌,
}
use greens.Word.{u64_max}
use greens.Error.{Result, ok, err, panic, out_of_fuel, ◌>>=◌}
use greens.Utils.Range.{range_overlaps}
use greens.BarRegion.{PciBarRegionInfo}
use greens.Config.{PciConfigurationSpace}
use greens.Effects.{Returned, returned, as_returned}
use greens.Function.{PciMsiMessage, PciConfigurationUpdate, msi_x_message}
use greens.Msix.Table.{
  MsiXEntry, raw_bytes, pba_raw_bytes, read_register_checked, set_register_checked,
}
use greens.Msix.Source.{msix_get_message_for}
use greens.Msix.Handler.{evaluate_pending_interrupts}
use greens.Msix.{PciMsiX}

pub data MsiXBarRegion : Type 0 where
  msix_region pba_region : MsiXBarRegion

unfoldable pub info_iter : PciMsiX → List (MsiXBarRegion × PciBarRegionInfo)
info_iter msix =
    (MsiXBarRegion.msix_region, msix.msix_info) ∷ (MsiXBarRegion.pba_region, msix.pba_info) ∷ []

abbrev pub entry_size : ℕ
entry_size = 16

unfoldable pub targets_vector_control : ℕ → ℕ → Bool
targets_vector_control offset size =
    range_overlaps u64_max (offset % entry_size) size (entry_size - 4) 4

unfoldable pub targets_message_data : ℕ → ℕ → Bool
targets_message_data offset size =
    range_overlaps u64_max (offset % entry_size) size (entry_size - 4 - 4) 4

unfoldable pub targets_message_address : ℕ → ℕ → Bool
targets_message_address offset size = range_overlaps u64_max (offset % entry_size) size 0 8

unfoldable pub targets_message_info : ℕ → ℕ → Bool
unfolding targets_message_address targets_message_data
targets_message_info offset size =
    targets_message_address offset size || targets_message_data offset size

unfoldable pub offset_to_vector : ℕ → ℕ
offset_to_vector offset = offset / entry_size

-- `unwrap_or_else(|_| data.fill(0x00))`.
unfoldable pub or_zeros : Result (List ℕ) → ℕ → Result (List ℕ)
or_zeros (ok bytes) n = ok bytes
or_zeros (err e) n = ok (replicate n 0)
or_zeros panic n = panic
or_zeros out_of_fuel n = out_of_fuel

-- `read_bar`: the data that fills a buffer of `n` bytes. It returns no update, and changes nothing.
unfoldable pub msix_read_bar : PciMsiX → MsiXBarRegion → ℕ → ℕ → Result (List ℕ)
unfolding or_zeros
msix_read_bar msix MsiXBarRegion.msix_region offset n =
    or_zeros (read_register_checked (raw_bytes msix.msix_table) offset n) n
msix_read_bar msix MsiXBarRegion.pba_region offset n =
    or_zeros (read_register_checked (pba_raw_bytes msix.pba_table) offset n) n

-- The state of the function, the messages sent, and what `write_bar` returns. An error would come
-- after the state has changed, so that it is a value here.
abbrev pub BarWrite : Type 0
BarWrite =
    (PciMsiX × PciConfigurationSpace)
    × List PciMsiMessage
    × Returned (Option PciConfigurationUpdate)

-- The report of the message of the entry that a write has touched.
unfoldable pub report :
    PciMsiX → PciConfigurationSpace → ℕ → ℕ → Result (Option PciConfigurationUpdate)
report msix config offset size =
    if targets_message_info offset size
    then (do
      (_, message) ← msix_get_message_for msix config (offset_to_vector offset)
      ok (some (msi_x_message (offset_to_vector offset) message)))
    else ok none

-- After the bytes are stored.
unfoldable pub after_set : PciMsiX → PciConfigurationSpace → ℕ → ℕ → Result BarWrite
unfolding report
after_set msix config offset size = do
  (t, messages) ←
      (if targets_vector_control offset size
        then evaluate_pending_interrupts msix config
        else ok ((msix, config), []))
  outcome ← as_returned (report t.0 t.1 offset size)
  ok (t, messages, outcome)

unfoldable pub write_table :
    PciMsiX → PciConfigurationSpace → ℕ → ℕ → Result (List MsiXEntry) → Result BarWrite
unfolding after_set
write_table msix config offset size (ok table) =
    after_set (record msix { msix_table = table }) config offset size
write_table msix config offset size (err e) = ok ((msix, config), [], returned none)
write_table msix config offset size panic = panic
write_table msix config offset size out_of_fuel = out_of_fuel

unfoldable pub msix_write_bar :
    PciMsiX → PciConfigurationSpace → MsiXBarRegion → ℕ → List ℕ → Result BarWrite
unfolding write_table
msix_write_bar msix config MsiXBarRegion.msix_region offset new =
    write_table msix config offset (length new) (set_register_checked msix.msix_table offset new)
msix_write_bar msix config MsiXBarRegion.pba_region offset new =
    ok ((msix, config), [], returned none)
