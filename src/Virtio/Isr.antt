-- ===== src/Virtio/Isr.antt =====
-- pci_isr_cfg.rs: the interrupt status of a device, and the region that reads and clears it.
use greens.Base.{ℕ, zero, suc, ◌==◌, bit_or, List, [], ◌∷◌, replicate, Bool, not, if◌then◌else◌}

abbrev pub interrupt_status_used_buffer : ℕ
interrupt_status_used_buffer = 1

abbrev pub interrupt_status_configuration_change : ℕ
interrupt_status_configuration_change = 2

pub record VirtioInterruptStatus : Type 0 where
  pub bits : ℕ

unfoldable pub read_and_clear : VirtioInterruptStatus → VirtioInterruptStatus × ℕ
read_and_clear s = (record { bits = 0 }, s.bits)

unfoldable pub interrupts_pending : VirtioInterruptStatus → Bool
interrupts_pending s = not (s.bits == 0)

unfoldable pub set_used_buffer_notification : VirtioInterruptStatus → VirtioInterruptStatus
set_used_buffer_notification s = record { bits = bit_or s.bits interrupt_status_used_buffer }

unfoldable pub set_configuration_change_notification : VirtioInterruptStatus → VirtioInterruptStatus
set_configuration_change_notification s = record {
  bits = bit_or s.bits interrupt_status_configuration_change;
}

-- The read of the status register into a buffer of `n` bytes: an empty one reads nothing.
unfoldable pub read_status : {T : Type 0} → (T → T × ℕ) → T → ℕ → T × List ℕ
read_status read_and_clear_isr t zero = (t, [])
read_status read_and_clear_isr t (suc n) =
    let result = read_and_clear_isr t in (result.0, result.1 ∷ replicate n 0)

-- `read_bar` with a buffer of `n` bytes, for a device with the state `T`.
unfoldable pub isr_read_bar : {T : Type 0} → (T → T × ℕ) → T → ℕ → ℕ → T × List ℕ
unfolding read_status
isr_read_bar read_and_clear_isr t offset n =
    if offset == 0 then read_status read_and_clear_isr t n else (t, replicate n 0)

-- `write_bar`: a write changes nothing.
unfoldable pub isr_write_bar : {T : Type 0} → T → ℕ → List ℕ → T
isr_write_bar t offset bytes = t
