-- ===== src/Composite/Msix.antt =====
-- A write of the guest to the MSI-X table, from the BAR of the function to the entry.
use greens.Base.{
  ℕ, ◌+◌, ◌*◌, ◌^◌, ◌<◌, ◌≤◌, ◌≡◌, refl, arith, [], length, set, get_elem?, some, All, get_elem?-lt,
}
use greens.Word.{u64_max, to_le_bytes, length-to_le_bytes}
use greens.Error.{ok}
use greens.BarRegion.{find_region, handle_bar_set}
use greens.BarRegion.Laws.{offset_within_region_iff}
use greens.Function.{msi_x_message}
use greens.Effects.{returned}
use greens.Msix.Table.{MsiXEntry}
use greens.Msix.Table.Laws.{IsEntry, EntryField, field_index, field_index-lt, with_field}
use greens.Msix.Source.{entry_message}
use greens.Msix.Bar.{MsiXBarRegion, info_iter}
use greens.Msix.Bar.Laws.{IsMessageField, msix_write_bar-message}
use greens.Msix.{PciMsiX}
use greens.Interrupt.{
  PciInterruptHandler, PciInterruptContext, context_handler, msix_handler, write_region, written,
}
use greens.Composite.{
  PciDeviceHandler, PciFunctionWithInterrupts, function_write_bar, write_unless_handled, report,
}

-- The region of the table takes the access.
table_region :
    (msix : PciMsiX) (within size : ℕ)
    → 0 < size
    → within + size ≤ msix.msix_info.length
    → msix.msix_info.offset + msix.msix_info.length ≤ u64_max
    → find_region (info_iter msix) msix.msix_info.bar (msix.msix_info.offset + within) size
      ≡ some (MsiXBarRegion.msix_region, within)
unfolding find_region info_iter
table_region msix within size some_bytes fits whole =
    let info = msix.msix_info in
    let taken =
      (offset_within_region_iff info info.bar (info.offset + within) size within whole).1
        (refl, some_bytes, refl, fits) in
    rw (taken, find_region) refl

module _ {D Ix Ms : Type 0} (ix : PciInterruptHandler Ix) (ms : PciInterruptHandler Ms)
    (device : PciDeviceHandler D (PciInterruptContext Ix Ms PciMsiX)) where
  -- A dword that the guest writes, through the BAR, over the address or the data of an entry of the
  -- MSI-X table becomes that field of the entry; the device is told of the new message of the
  -- vector, the write returns that update, and no message is sent. The region of the table holds
  -- the table and ends at a `u64`; what the device does with the update succeeds.
  pub function_write_bar-message :
      (f : PciFunctionWithInterrupts D (PciInterruptContext Ix Ms PciMsiX)) (vector : ℕ)
      (field : EntryField) (v : ℕ) (entry : MsiXEntry) (d : D)
      → All IsEntry f.interrupt.msix_state.msix_table
      → 16 * length f.interrupt.msix_state.msix_table ≤ f.interrupt.msix_state.msix_info.length
      → f.interrupt.msix_state.msix_info.offset + f.interrupt.msix_state.msix_info.length ≤ u64_max
      → get_elem? f.interrupt.msix_state.msix_table vector ≡ some entry
      → v < 2 ^ 32
      → IsMessageField field
      → device.on_config_update
          (msi_x_message vector (entry_message (with_field entry field v)))
          (device.set_config f.device (device.config f.device))
        ≡ ok d
      → function_write_bar device
          (context_handler ix ms msix_handler)
          f.interrupt.msix_state.msix_info.bar
          (f.interrupt.msix_state.msix_info.offset + (16 * vector + 4 * field_index field))
          (to_le_bytes 4 v)
          f
        ≡ ok (
          record {
            device = d;
            interrupt = record f.interrupt {
              msix_state = record f.interrupt.msix_state {
                msix_table =
                    set f.interrupt.msix_state.msix_table vector (with_field entry field v);
              };
            };
          },
          [],
          returned (some (msi_x_message vector (entry_message (with_field entry field v)))),
        )
  unfolding function_write_bar write_unless_handled report msix_handler handle_bar_set write_region
      written
  function_write_bar-message f vector field v entry d h fits whole there small m told =
      let msix = f.interrupt.msix_state in
      let within = 16 * vector + 4 * field_index field in
      let inside = get_elem?-lt msix.msix_table vector there in
      let found : find_region (info_iter msix) msix.msix_info.bar (msix.msix_info.offset + within)
            (length (to_le_bytes 4 v))
          ≡ some (MsiXBarRegion.msix_region, within) =
        rw length-to_le_bytes (
          table_region msix within 4 (omega arith) (omega (arith, inside, field_index-lt field))
            whole) in
      let message =
        msix_write_bar-message msix (device.config f.device) vector field v entry h
          (omega (arith, fits, whole)) there small m in
      rw (found, message, told, handle_bar_set) refl
