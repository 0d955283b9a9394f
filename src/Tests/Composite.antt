-- ===== src/Tests/Composite.antt =====
-- Runs of the theorems on the interrupt context, the composed function, its routing and its builder.
use greens.Base.{
  ℕ, ◌≡◌, ◌+◌, ◌*◌, refl, arith, true, false, ◌==◌, List, [], ◌∷◌, ◌++◌, some, none, Option,
  if◌then◌else◌,
}
use greens.Word.{from_le_bytes, to_le_bytes}
use greens.Error.{Result, ok, Ensures, bind, not_supported}
use greens.Utils.RegisterBlock
use greens.Bar.{PciBar}
use greens.Config.{PciConfigurationSpace, read_word, read_byte, is_bus_master}
use greens.Function.{msi_x_message}
use greens.Effects.{returned, raise, send_msi}
use greens.Intx.{PciIntx, PciInterruptLineConfig}
use greens.Msix.{PciMsiX}
use greens.Msix.Table.{PbaEntry, is_pending, entry_is_masked}
use greens.Msix.Table.Laws.{EntryField, with_field}
use greens.Msix.Source.{is_fn_masked, word_is_fn_masked, msix_is_enabled, entry_message}
use greens.Interrupt.{
  msi_interrupt, intx_handler, msi_handler, msix_handler, no_interrupt_handler, context_handler,
  context_is_enabled, context_active_interrupt, context_signal,
}
use greens.Interrupt.Context.{context_is_enabled-active, is_active, context_signal-MsiX, Devices}
use greens.Routing.{mmio_access, pio_access}
use greens.Routing.Laws.{Routed, mmio_access-Routed, pio_access-Routed}
use greens.Composite.{
  PciDeviceHandler, PciFunctionWithInterrupts, function_write_config, function_write_bar,
}
use greens.Composite.Laws.{logged, told, function_write_config-Tells}
use greens.Composite.Msix.{function_write_bar-message}
use greens.Builder.Laws.{build_reads, built}
use greens.Tests.{memory_bar}
use greens.Tests.Msix.{
  two_vectors, msix_space, open_entry, masked_entry, open_entry-IsEntry, masked_entry-IsEntry,
}

abbrev line : PciIntx
line = record { line_config = PciInterruptLineConfig.fixed 11; disabled = false }

-- The capability of MSI would be at 0x50, where MSI is disabled.
abbrev devices : Devices
devices = record { intx_state = line; msi_state = 0x50; msix_state = two_vectors }

context_is_enabled-active_example :
    context_is_enabled intx_handler msi_handler msix_handler devices msix_space
    ≡ bind
        (context_active_interrupt intx_handler msi_handler msix_handler devices msix_space)
        (λ t. ok (is_active t))
context_is_enabled-active_example =
    context_is_enabled-active intx_handler msi_handler msix_handler devices msix_space

context_signal-MsiX_example :
    (pba : List PbaEntry) × (context_signal intx_handler msi_handler msix_handler
        (msi_interrupt 0)
        (devices, msix_space)
      ≡ ok (
        (record devices { msix_state = record two_vectors { pba_table = pba } }, msix_space),
        send_msi (entry_message open_entry) ∷ [],
        returned tt,
      ))
    × ((other : ℕ)
        → is_pending pba other
          ≡ (if other == 0 then false else is_pending two_vectors.pba_table other))
unfolding is_bus_master msix_is_enabled is_fn_masked word_is_fn_masked read_word
    RegisterBlock.read_word RegisterBlock.read from_le_bytes entry_is_masked
context_signal-MsiX_example =
    context_signal-MsiX intx_handler msi_handler devices msix_space 0 open_entry false refl refl
      refl refl (omega arith)

-- One memory BAR, of index 2.
abbrev one_bar : ℕ → Option PciBar
one_bar i = if i == 2 then some memory_bar else none

-- What an access to a BAR returns here: the index and the offset.
abbrev place : ℕ → ℕ → Result (ℕ × ℕ)
place index offset = ok (index, offset)

mmio_access-Routed_example :
    Routed one_bar true 0xE000_0010 4 place (mmio_access (λ i. ok (one_bar i)) 0xE000_0010 4 place)
mmio_access-Routed_example =
    mmio_access-Routed (λ i. ok (one_bar i)) one_bar 0xE000_0010 4 place (λ i h. refl)

pio_access-Routed_example :
    Routed one_bar false 0x10 4 place (pio_access (λ i. ok (one_bar i)) 0x10 4 place)
pio_access-Routed_example =
    pio_access-Routed (λ i. ok (one_bar i)) one_bar 0x10 4 place (λ i h. refl) (omega arith)
      (omega arith)

-- A device that keeps the defaults of the trait.
abbrev plain_device : {I : Type 0} → PciDeviceHandler PciConfigurationSpace I
plain_device = record {
  config = λ d. d;
  set_config = λ d c. c;
  on_write_config = λ offset size d. ok (d, returned tt);
  prepare_read_config = λ offset size d. ok d;
  read_bar = λ bar offset buffer access. raise not_supported;
  write_bar = λ bar offset bytes access. raise not_supported;
  on_config_update = λ event d. ok d;
}

function_write_config-Tells_example :
    Ensures
      (λ r. r.0.device.1 ≡ told r.2 ++ [])
      (function_write_config
        (logged plain_device)
        no_interrupt_handler
        4
        (3 ∷ 0 ∷ [])
        (record { device = (msix_space, []); interrupt = tt }))
function_write_config-Tells_example =
    function_write_config-Tells plain_device no_interrupt_handler 4 (3 ∷ 0 ∷ [])
      (record { device = (msix_space, []); interrupt = tt })

abbrev function : PciFunctionWithInterrupts PciConfigurationSpace Devices
function = record { device = msix_space; interrupt = devices }

abbrev new_data : PciMsiX
new_data = record two_vectors {
  msix_table = open_entry ∷ with_field masked_entry EntryField.data_field 0x55 ∷ [];
}

function_write_bar-message_example :
    function_write_bar plain_device
      (context_handler intx_handler msi_handler msix_handler)
      2
      (0x1000 + (16 * 1 + 4 * 2))
      (to_le_bytes 4 0x55)
      function
    ≡ ok (
      record { device = msix_space; interrupt = record devices { msix_state = new_data } },
      [],
      returned (
          some
            (msi_x_message 1 (entry_message (with_field masked_entry EntryField.data_field 0x55)))),
    )
function_write_bar-message_example =
    function_write_bar-message intx_handler msi_handler plain_device function 1
      EntryField.data_field 0x55 masked_entry msix_space
      (open_entry-IsEntry, (masked_entry-IsEntry, tt)) (omega arith) (omega arith) refl
      (omega arith) tt refl

build_reads_example :
    (c : PciConfigurationSpace) × (built 0x1AF4 0x1041 1 2 0 0 0x1AF4 1 0 ≡ ok c)
    × (read_word c 0 ≡ ok 0x1AF4)
    × (read_word c 2 ≡ ok 0x1041)
    × (read_byte c 8 ≡ ok 1)
    × (read_byte c 0xB ≡ ok 2)
    × (read_byte c 0xA ≡ ok 0)
    × (read_byte c 9 ≡ ok 0)
    × (read_word c 0x2C ≡ ok 0x1AF4)
    × (read_word c 0x2E ≡ ok 1)
    × (read_byte c 0xE ≡ ok 0x80)
build_reads_example =
    build_reads 0x1AF4 0x1041 1 2 0 0 0x1AF4 1 0 (omega arith) (omega arith) (omega arith)
      (omega arith) (omega arith) (omega arith) (omega arith) (omega arith) (omega arith)
