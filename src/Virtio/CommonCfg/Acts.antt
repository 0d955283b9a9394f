-- ===== src/Virtio/CommonCfg/Acts.antt =====
-- What a driver's writes to the common configuration do to the device.
use greens.Base.{
  ℕ, ◌+◌, ◌≤◌, ◌<◌, ◌≡◌, ◌≢◌, refl, ◌∙◌, arith, inr, List, length, slice, replicate, length-splice,
  length-replicate, le→ltb_false,
}
use greens.Base.Slices.{All-splice, All-replicate}
use greens.Word.{IsByte, IsBytes, usize_max, from_le_bytes}
use greens.Error.{ok}
use greens.Utils.Checked.Laws.{checked_access_outside}
use greens.Virtio.Device.{VirtioPciDevice}
use greens.Virtio.CommonCfg.Registers.{Config, VirtioPciCommonCfg, value, try_from, reg_queue_reset}
use greens.Virtio.CommonCfg.Write.{
  write_bar, process_write, act_at, act, reset_queue, input_bytes, or_unchanged,
}
use greens.Virtio.CommonCfg.Laws.{little_endian_keeps, config_word-ok}

pub length-input_bytes : (bytes : List ℕ) → length (input_bytes bytes) ≡ 8
unfolding input_bytes
length-input_bytes bytes = length-splice (replicate 8 0) 0 bytes ∙ length-replicate {A = ℕ} 8 0

pub input_bytes-IsBytes : (bytes : List ℕ) → IsBytes bytes → IsBytes (input_bytes bytes)
unfolding input_bytes
input_bytes-IsBytes bytes b =
    All-splice IsByte (replicate 8 0) 0 bytes (All-replicate IsByte 8 0 (omega arith)) b

-- Every write fills the buffer of eight bytes, so that a write past offset 56 stores nothing: it acts
-- on the registers as they are.
pub write_bar-process_write :
    {D Q : Type 0} (device : VirtioPciDevice D Q) (d : D) (cfg : VirtioPciCommonCfg) (offset : ℕ)
    (bytes : List ℕ)
    → length cfg.registers ≡ 64
    → IsBytes bytes
    → length bytes ≤ 8
    → 56 < offset
    → offset + 8 ≤ usize_max
    → write_bar device d cfg offset bytes ≡ process_write device d cfg offset (length bytes)
unfolding write_bar or_unchanged
write_bar-process_write device d cfg offset bytes l b short past small =
    let n = length-input_bytes bytes in
    let kept =
      (little_endian_keeps (input_bytes bytes) (input_bytes-IsBytes bytes b)
        (rw n (inr (inr (inr refl)), omega arith))).0 in
    let outside =
      (checked_access_outside cfg.registers cfg.writable_bits offset (input_bytes bytes)
        (rw n small) (rw (n, l) (omega arith))).2 in
    rw (le→ltb_false 8 (length bytes) short, kept, outside) refl

reset_queue-other :
    {D Q : Type 0} (device : VirtioPciDevice D Q) (d : D) (cfg : VirtioPciCommonCfg) (v : ℕ)
    → v ≢ 1
    → reset_queue device d cfg v ≡ ok (cfg, d)
unfolding reset_queue
reset_queue-other device d cfg v other = ground arith

-- A write to the reset register of a queue changes neither the registers nor the device, whatever
-- bytes it has, where the register does not hold 1 before.
pub write_bar-queue_reset :
    {D Q : Type 0} (device : VirtioPciDevice D Q) (d : D) (cfg : VirtioPciCommonCfg)
    (bytes : List ℕ)
    → length cfg.registers ≡ 64
    → IsBytes bytes
    → length bytes ≤ 8
    → from_le_bytes (slice cfg.registers reg_queue_reset 2) ≢ 1
    → write_bar device d cfg reg_queue_reset bytes ≡ ok (cfg, d)
unfolding process_write act_at act greens.Virtio.CommonCfg.Registers.size
write_bar-queue_reset device d cfg bytes l b short clear =
    write_bar-process_write device d cfg reg_queue_reset bytes l b short (omega arith) (omega arith)
    ∙ rw (config_word-ok cfg Config.queue_reset l (omega arith) refl)
        (reset_queue-other device d cfg (from_le_bytes (slice cfg.registers 58 2)) clear)
