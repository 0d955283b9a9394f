-- ===== src/Virtio/CommonCfg/Clears.antt =====
-- A write that is shorter than the buffer stores the zeros of the buffer after its bytes.
use greens.Base.{
  ℕ, zero, suc, ◌+◌, ◌*◌, ◌-◌, ◌≤◌, ◌<◌, ◌≡◌, refl, ◌∙◌, arith, List, [], ◌∷◌, length, slice,
  replicate, get_or, inr, length-splice, le→ltb_false, lt→ltb, le→leb, leb, ltb, true, ◌&&◌,
}
use greens.Base.Slices.{get_or-splice_after}
use greens.Bits.{bit_and-zero}
use greens.Word.{IsBytes, from_le_bytes}
use greens.Error.{ok}
use greens.Utils.Checked.Laws.{checked_access_inside}
use greens.Utils.RegisterBlock.{update_register}
use greens.Utils.RegisterBlock.Writes.{write-ok, write-byte, written}
use greens.Virtio.Device.{VirtioPciDevice}
use greens.Virtio.CommonCfg.Registers.{
  Config, VirtioPciCommonCfg, config_word, size, value, reg_config_msix_vector,
}
use greens.Virtio.CommonCfg.Write.{write_bar, process_write, act_at, act, input_bytes, or_unchanged}
use greens.Virtio.CommonCfg.Laws.{little_endian_keeps, config_word-ok}
use greens.Virtio.CommonCfg.Acts.{length-input_bytes, input_bytes-IsBytes}

slice_none : (arr : List ℕ) → slice arr 0 0 ≡ []
slice_none [] = refl
slice_none (x ∷ arr) = refl

get_or-replicate : (n k : ℕ) → get_or {A = ℕ} (replicate n 0) k 0 ≡ 0
get_or-replicate zero k = refl
get_or-replicate (suc n) zero = refl
get_or-replicate (suc n) (suc k) = get_or-replicate n k

from_le_bytes-slice :
    (arr : List ℕ) (i : ℕ)
    → i + 2 ≤ length arr
    → from_le_bytes (slice arr i 2) ≡ get_or arr i 0 + 256 * get_or arr (suc i) 0
unfolding from_le_bytes
from_le_bytes-slice [] i h = absurd (omega arith)
from_le_bytes-slice (x ∷ []) zero h = absurd (omega arith)
from_le_bytes-slice (x ∷ y ∷ arr) zero h = rw slice_none (omega arith)
from_le_bytes-slice (x ∷ arr) (suc i) h = from_le_bytes-slice arr i (omega arith)

-- A byte of which all bits are writable and that the buffer has no byte for.
update_register-clears : (c : ℕ) → update_register c 0 0xFF ≡ 0
unfolding update_register
update_register-clears c = rw bit_and-zero refl

-- The registers after a write that fits in them.
write_bar-inside :
    {D Q : Type 0} (device : VirtioPciDevice D Q) (d : D) (cfg : VirtioPciCommonCfg) (offset : ℕ)
    (bytes : List ℕ)
    → length cfg.registers ≡ 64
    → length cfg.writable_bits ≡ 64
    → IsBytes bytes
    → length bytes ≤ 8
    → offset ≤ 56
    → write_bar device d cfg offset bytes
      ≡ process_write device d
          (record cfg {
            registers = written cfg.registers cfg.writable_bits offset (input_bytes bytes);
          })
          offset
          (length bytes)
unfolding write_bar or_unchanged
write_bar-inside device d cfg offset bytes l w b short inside =
    let n = length-input_bytes bytes in
    let kept =
      (little_endian_keeps (input_bytes bytes) (input_bytes-IsBytes bytes b)
        (rw n (inr (inr (inr refl)), omega arith))).0 in
    let plain =
      (checked_access_inside cfg.registers cfg.writable_bits offset (input_bytes bytes)
        (rw n (omega arith)) (omega (arith, l, w)) (rw (n, l) (omega arith))).2 in
    let result =
      write-ok cfg.registers cfg.writable_bits offset (input_bytes bytes) (rw (n, l) (omega arith))
        (rw (n, w) (omega arith)) in
    rw (le→ltb_false 8 (length bytes) short, kept, plain, result) refl

-- A byte that lies in the buffer but past the bytes of the write is cleared, where it is writable.
byte-cleared :
    (cfg : VirtioPciCommonCfg) (offset j : ℕ) (bytes : List ℕ)
    → length cfg.registers ≡ 64
    → length cfg.writable_bits ≡ 64
    → offset ≤ 56
    → offset + length bytes ≤ j
    → j < offset + 8
    → get_or cfg.writable_bits j 0 ≡ 0xFF
    → get_or (written cfg.registers cfg.writable_bits offset (input_bytes bytes)) j 0 ≡ 0
byte-cleared cfg offset j bytes l w inside past below ones =
    let n = length-input_bytes bytes in
    let fits =
      write-ok cfg.registers cfg.writable_bits offset (input_bytes bytes) (rw (n, l) (omega arith))
        (rw (n, w) (omega arith)) in
    let byte = write-byte cfg.registers cfg.writable_bits offset (input_bytes bytes) j fits in
    let covered : (leb offset j && ltb j (offset + length (input_bytes bytes))) ≡ true =
      rw (n, le→leb offset j (omega (arith, past)), lt→ltb j (offset + 8) below) refl in
    let zero_byte : get_or (input_bytes bytes) (j - offset) 0 ≡ 0 =
      unfold input_bytes in
      (get_or-splice_after 0 (replicate 8 0) 0 bytes (j - offset) (omega (arith, past))
        ∙ get_or-replicate 8 (j - offset)) in
    byte ∙ rw (covered, zero_byte, ones, update_register-clears) refl

-- A write of two bytes to the vector of configuration changes gives the device the vector that is then
-- stored, and it also stores 0 as the queue selection, whatever the driver has selected before, where
-- the bits of the selection are writable.
pub write_bar-queue_select :
    {D Q : Type 0} (device : VirtioPciDevice D Q) (d : D) (cfg : VirtioPciCommonCfg) (low high : ℕ)
    → length cfg.registers ≡ 64
    → length cfg.writable_bits ≡ 64
    → get_or cfg.writable_bits 22 0 ≡ 0xFF
    → get_or cfg.writable_bits 23 0 ≡ 0xFF
    → low < 256
    → high < 256
    → (cfg' : VirtioPciCommonCfg) × (write_bar device d cfg reg_config_msix_vector (low ∷ high ∷ [])
        ≡ ok (
          cfg',
          device.set_config_msix_vector d
              (from_le_bytes (slice cfg'.registers reg_config_msix_vector 2)),
        ))
      × (config_word cfg' Config.queue_sel ≡ ok 0)
unfolding process_write act_at act size value
write_bar-queue_select device d cfg low high l w lo hi p q =
    let bytes = low ∷ high ∷ [] in
    let arr = written cfg.registers cfg.writable_bits 16 (input_bytes bytes) in
    let cfg' : VirtioPciCommonCfg = record cfg { registers = arr } in
    let same : length arr ≡ 64 = length-splice cfg.registers 16 _ ∙ l in
    (
      cfg',
      write_bar-inside device d cfg 16 bytes l w (p, (q, tt)) (omega arith) (omega arith)
          ∙ rw (config_word-ok cfg' Config.cfg_msix_vector same (omega arith) refl) refl,
      config_word-ok cfg' Config.queue_sel same (omega arith) refl
          ∙ rw
              (
                from_le_bytes-slice arr 22 (rw same (omega arith)),
                byte-cleared cfg 16 22 bytes l w (omega arith) (omega arith) (omega arith) lo,
                byte-cleared cfg 16 23 bytes l w (omega arith) (omega arith) (omega arith) hi,
              )
              refl,
    )
