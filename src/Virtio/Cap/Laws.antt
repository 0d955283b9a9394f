-- ===== src/Virtio/Cap/Laws.antt =====
-- The virtio capabilities fit the sizes that they declare.
use greens.Base.{
  ℕ, ◌+◌, ◌≤◌, ◌≡◌, refl, ◌∙◌, arith, List, length, replicate, slice, splice, le→leb,
  length-replicate, length-splice, length-slice,
}
use greens.Base.Slices.{All-splice, All-replicate, All-slice}
use greens.Word.{IsByte, usize_max, to_le_bytes, length-to_le_bytes, to_le_bytes-IsBytes}
use greens.Utils.Checked
use greens.Utils.RegisterBlock.{set_byte, set_dword, validate_bounds}
use greens.Utils.RegisterBlock.Laws.{set-ok}
use greens.Utils.RegisterBlock.Fits.{Sized, Sets, set-Sets}
use greens.Capability.{PciCapability, IsCapability}
use greens.Virtio.Cap.{
  VirtioPciCap, VirtioPciCap64, VirtioPciNotifyCfgCap, type_code, put, unwrap, cap_registers,
  base_registers, cap64_registers, notify_registers, no_writable_bits, pci_cfg_registers,
  pci_cfg_writable_bits, pci_cfg_cap, virtio_capability, virtio_capability64, notify_capability,
  pci_cfg_capability,
}

put-Sets : (n : ℕ) (arr : List ℕ) (i byte : ℕ) → Sized n arr → i + 1 ≤ n → Sets n (put arr i byte)
unfolding put set_byte
put-Sets n arr i byte s h = set-Sets n arr i 1 byte s h

set_dword-Sets :
    (n : ℕ) (arr : List ℕ) (offset v : ℕ)
    → Sized n arr
    → offset + 4 ≤ n
    → Sets n (set_dword arr offset v)
unfolding set_dword
set_dword-Sets n arr offset v s h = set-Sets n arr offset 4 v s h

checked_set-Sets :
    (n : ℕ) (arr : List ℕ) (offset v : ℕ)
    → Sized n arr
    → offset + 4 ≤ n
    → n ≤ 256
    → Sets n (unwrap (Checked.set_dword arr offset v))
unfolding Checked.set_dword Checked.set Checked.validate_access validate_bounds unwrap
checked_set-Sets n arr offset v s h small = (
  splice arr offset (to_le_bytes 4 v),
  rw
      (
        length-to_le_bytes,
        le→leb (offset + 4) usize_max (omega (arith, h, small)),
        s.0,
        le→leb (offset + 4) n h,
      )
      refl,
  length-splice arr offset (to_le_bytes 4 v) ∙ s.0,
  All-splice IsByte arr offset (to_le_bytes 4 v) s.1 (to_le_bytes-IsBytes 4 v),
)

cap_registers-Sets :
    (cap' : VirtioPciCap) (arr : List ℕ) → Sized 14 arr → Sets 14 (cap_registers cap' arr)
unfolding cap_registers
cap_registers-Sets cap' arr s =
    let (r1, e1, l1, b1) = put-Sets 14 arr 0 cap'.cap_len s (omega arith) in
    let (r2, e2, l2, b2) = put-Sets 14 r1 1 (type_code cap'.cfg_type) (l1, b1) (omega arith) in
    let (r3, e3, l3, b3) = put-Sets 14 r2 2 cap'.bar (l2, b2) (omega arith) in
    let (r4, e4, l4, b4) = put-Sets 14 r3 3 cap'.id (l3, b3) (omega arith) in
    let (r5, e5, l5, b5) =
      checked_set-Sets 14 r4 6 cap'.offset (l4, b4) (omega arith) (omega arith) in
    let (r6, e6, l6, b6) =
      checked_set-Sets 14 r5 10 cap'.length (l5, b5) (omega arith) (omega arith) in
    (r6, rw (e1, e2, e3, e4, e5) e6, l6, b6)

base_registers-Sets :
    (n : ℕ) (cap' : VirtioPciCap) (arr : List ℕ)
    → Sized n arr
    → 14 ≤ n
    → Sets n (base_registers cap' arr)
unfolding base_registers
base_registers-Sets n cap' arr s h =
    let (base, run, size, bytes) =
      cap_registers-Sets cap' (slice arr 0 14)
        (length-slice arr 0 14 (omega (arith, s.0, h)), All-slice IsByte arr 0 14 s.1) in
    (
      splice arr 0 base,
      rw (s.0, le→leb 14 n h, run) refl,
      length-splice arr 0 base ∙ s.0,
      All-splice IsByte arr 0 base s.1 bytes,
    )

zeros-Sized : (n : ℕ) (arr : List ℕ) → length arr ≡ n → Sized n (replicate (length arr) 0)
zeros-Sized n arr e =
    (length-replicate (length arr) 0 ∙ e, All-replicate IsByte (length arr) 0 (omega arith))

read_only-Sets : (n : ℕ) (arr : List ℕ) → Sized n arr → Sets n (no_writable_bits arr)
unfolding no_writable_bits
read_only-Sets n arr s =
    let zeros = zeros-Sized n arr s.0 in (replicate (length arr) 0, refl, zeros.0, zeros.1)

cap64_registers-Sets :
    (cap' : VirtioPciCap64) (arr : List ℕ) → Sized 22 arr → Sets 22 (cap64_registers cap' arr)
unfolding cap64_registers
cap64_registers-Sets cap' arr s =
    let (r1, e1, l1, b1) = base_registers-Sets 22 cap'.cap64 arr s (omega arith) in
    let (r2, e2, l2, b2) =
      checked_set-Sets 22 r1 14 cap'.offset_hi (l1, b1) (omega arith) (omega arith) in
    let (r3, e3, l3, b3) =
      checked_set-Sets 22 r2 18 cap'.length_hi (l2, b2) (omega arith) (omega arith) in
    (r3, rw (e1, e2) e3, l3, b3)

notify_registers-Sets :
    (cap' : VirtioPciNotifyCfgCap) (arr : List ℕ)
    → Sized 18 arr
    → Sets 18 (notify_registers cap' arr)
unfolding notify_registers
notify_registers-Sets cap' arr s =
    let (r1, e1, l1, b1) = base_registers-Sets 18 cap'.notify_cap arr s (omega arith) in
    let (r2, e2, l2, b2) =
      set_dword-Sets 18 r1 14 cap'.notify_off_multiplier (l1, b1) (omega arith) in
    (r2, rw e1 e2, l2, b2)

pci_cfg_registers-Sets : (arr : List ℕ) → Sized 18 arr → Sets 18 (pci_cfg_registers arr)
unfolding pci_cfg_registers
pci_cfg_registers-Sets arr s =
    let (r1, e1, l1, b1) = base_registers-Sets 18 pci_cfg_cap arr s (omega arith) in
    (
      splice r1 14 (replicate 4 0xFF),
      rw (e1, l1, set-ok r1 14 (replicate 4 0xFF) (omega (arith, l1))) refl,
      length-splice r1 14 (replicate 4 0xFF) ∙ l1,
      All-splice IsByte r1 14 (replicate 4 0xFF) b1 (All-replicate IsByte 4 0xFF (omega arith)),
    )

pci_cfg_writable_bits-Sets : (arr : List ℕ) → Sized 18 arr → Sets 18 (pci_cfg_writable_bits arr)
unfolding pci_cfg_writable_bits
pci_cfg_writable_bits-Sets arr s =
    let zeros = zeros-Sized 18 arr s.0 in
    let (r1, e1, l1, b1) =
      put-Sets 18 (replicate (length arr) 0) 2 0xFF (zeros.0, zeros.1) (omega arith) in
    let (r2, e2, l2, b2) = set_dword-Sets 18 r1 10 0xFFFF_FFFF (l1, b1) (omega arith) in
    let (r3, e3, l3, b3) = set_dword-Sets 18 r2 6 0xFFFF_FFFF (l2, b2) (omega arith) in
    let (r4, e4, l4, b4) = set_dword-Sets 18 r3 14 0xFFFF_FFFF (l3, b3) (omega arith) in
    (r4, rw (e1, e2, e3) e4, l4, b4)

-- The capabilities of the crate.
pub data VirtioCapability : Type 0 where
  plain : VirtioPciCap → VirtioCapability
  wide : VirtioPciCap64 → VirtioCapability
  notify : VirtioPciNotifyCfgCap → VirtioCapability
  window : VirtioCapability

abbrev pub as_capability : VirtioCapability → PciCapability
as_capability (plain cap') = virtio_capability cap'
as_capability (wide cap') = virtio_capability64 cap'
as_capability (notify cap') = notify_capability cap'
as_capability window = pci_cfg_capability

-- Every virtio capability fills a slice of the size that it declares, with its registers and with
-- its writable bits, without a panic and with as many bytes: no `unwrap` fails, and
-- `add_capability` can add it.
pub as_capability-IsCapability : (cap' : VirtioCapability) → IsCapability (as_capability cap')
as_capability-IsCapability (plain cap') = record {
  fills_registers = record { filled = λ arr n b. cap_registers-Sets cap' arr (n, b) };
  fills_writable_bits = record { filled = λ arr n b. read_only-Sets 14 arr (n, b) };
}
as_capability-IsCapability (wide cap') = record {
  fills_registers = record { filled = λ arr n b. cap64_registers-Sets cap' arr (n, b) };
  fills_writable_bits = record { filled = λ arr n b. read_only-Sets 22 arr (n, b) };
}
as_capability-IsCapability (notify cap') = record {
  fills_registers = record { filled = λ arr n b. notify_registers-Sets cap' arr (n, b) };
  fills_writable_bits = record { filled = λ arr n b. read_only-Sets 18 arr (n, b) };
}
as_capability-IsCapability window = record {
  fills_registers = record { filled = λ arr n b. pci_cfg_registers-Sets arr (n, b) };
  fills_writable_bits = record { filled = λ arr n b. pci_cfg_writable_bits-Sets arr (n, b) };
}
