-- ===== src/Virtio/Handler/Laws.antt =====
-- Which region of the BAR an access to a virtio function goes to.
use mathlib.Core.List.{append-nil}
use greens.Base.{
  ℕ, ◌+◌, ◌-◌, ◌≤◌, ◌<◌, ◌≡◌, refl, ap, ◌∙◌, arith, ◌⊎◌, inl, inr, List, [], ◌∷◌, ◌++◌, length, leb,
  ◌==◌, ◌&&◌, Bool-cases, if◌then◌else◌,
}
use greens.Error.{Result, ok, err, panic, out_of_fuel, bind}
use greens.Config.{PciConfigurationSpace}
use greens.Effects.{Call, Returned, returned, raised, return, continue, ◌>>=◌}
use greens.Intx.{PciInterruptLineState}
use greens.Interrupt.{PciInterrupt, PciInterruptType, intx_interrupt, Step}
use greens.Virtio.Isr.{isr_read_bar, read_status}
use greens.Composite.{PciInterruptAccess}
use greens.Virtio.Device.{VirtioPciDevice}
use greens.Virtio.Notify.{notify_read_bar}
use greens.Virtio.Handler.{
  HandlerState, VirtioDeviceHandler, read_bar, read_common, read_device, read_notify, read_isr,
  deassert,
}
use greens.Virtio.Handler.Regions.{or_next-some, or_next-none}

-- The regions as `VirtioPciFunction::new` lays them out in BAR 0.
pub record IsLaidOut {D : Type 0} (h : VirtioDeviceHandler D) : Type 0 where
  pub common : h.common_cfg.info ≡ record { bar = 0; offset = 0; length = 64 }
  pub device : h.device_cfg ≡ record { bar = 0; offset = 0x2000; length = 0x1000 }
  pub isr : h.isr_cfg ≡ record { bar = 0; offset = 0x1000; length = 1 }
  pub notify : h.notify_cfg.info ≡ record { bar = 0; offset = 0x3000; length = 0x1000 }

-- Where an access of BAR 0 belongs.
pub data Target : Type 0 where
  common_target device_target notify_target isr_target no_target : Target

-- An access of `n` bytes belongs to the region that holds all of it, and an empty one to none.
unfoldable pub target : ℕ → ℕ → Target
target offset n =
    if n == 0
    then Target.no_target
    else if leb (offset + n) 64
    then Target.common_target
    else if leb 0x2000 offset && leb (offset + n) 0x3000
    then Target.device_target
    else if leb 0x3000 offset && leb (offset + n) 0x4000
    then Target.notify_target
    else if offset == 0x1000 && n == 1
    then Target.isr_target
    else Target.no_target

-- A run that takes the line down and then returns the bytes: its error, if it has one, is returned.
abbrev pub lowered :
    {D I : Type 0}
    → VirtioDeviceHandler D
    → List ℕ
    → (I × PciConfigurationSpace) × List Call × Returned (Unit {0})
    → HandlerState D I × List Call × Returned (List ℕ)
lowered h bytes (t, calls, returned done) =
    ((record h { config = t.1 }, t.0), calls, returned bytes)
lowered h bytes (t, calls, raised e) = ((record h { config = t.1 }, t.0), calls, raised e)

-- The read of the status register: the bytes are the status, which the device clears. Where INTx is
-- the active interrupt the line is signalled low, and under any other nothing is signalled.
abbrev pub isr_served :
    {D I : Type 0}
    → VirtioDeviceHandler D
    → I
    → PciInterruptAccess I
    → D × ℕ
    → PciInterruptType
    → Result (HandlerState D I × List Call × Returned (List ℕ))
isr_served h i irq (d, status) PciInterruptType.intx =
    bind (irq.signal (intx_interrupt PciInterruptLineState.low) (i, h.config))
      λ run. ok (lowered (record h { device = d }) (status ∷ []) run)
isr_served h i irq (d, status) _ = ok ((record h { device = d }, i), [], returned (status ∷ []))

-- What a read returns by its target.
abbrev pub served :
    {D Q I : Type 0}
    → VirtioPciDevice D Q
    → VirtioDeviceHandler D
    → I
    → ℕ
    → List ℕ
    → PciInterruptAccess I
    → Target
    → Result (HandlerState D I × List Call × Returned (List ℕ))
served ops h i offset buffer irq Target.common_target =
    read_common ops (length buffer) offset (h, i)
served ops h i offset buffer irq Target.device_target =
    ok ((h, i), [], returned (ops.read_config h.device (offset - 0x2000) buffer))
served ops h i offset buffer irq Target.notify_target = ok ((h, i), [], returned buffer)
served ops h i offset buffer irq Target.isr_target =
    isr_served h i irq (ops.read_and_clear_isr h.device) irq.active
served ops h i offset buffer irq Target.no_target = ok ((h, i), [], returned buffer)

lowered_lem :
    {D I : Type 0} (h : VirtioDeviceHandler D) (bytes : List ℕ)
    (run : Result ((I × PciConfigurationSpace) × List Call × Returned (Unit {0})))
    → bind
        (bind
          (bind run λ r. ok ((record h { config = r.0.1 }, r.0.0), r.1, r.2))
          (continue (λ done. return bytes)))
        (λ r. ok (r.0, [] ++ r.1, r.2))
      ≡ bind run (λ r. ok (lowered h bytes r))
lowered_lem h bytes (ok (t, calls, returned done)) =
    ap (λ all. ok ((record h { config = t.1 }, t.0), all, returned bytes)) (append-nil calls)
lowered_lem h bytes (ok (t, calls, raised e)) = refl
lowered_lem h bytes (err e) = refl
lowered_lem h bytes panic = refl
lowered_lem h bytes out_of_fuel = refl

isr_served_lem :
    {D Q I : Type 0} (ops : VirtioPciDevice D Q) (h : VirtioDeviceHandler D) (i : I)
    (signal : PciInterrupt → Step I (Unit {0})) (active : PciInterruptType)
    → let irq : PciInterruptAccess I = record { active = active; signal = signal } in
      (read_isr ops 1 0 >>= deassert ops irq) (h, i)
      ≡ isr_served h i irq (ops.read_and_clear_isr h.device) active
unfolding read_isr isr_read_bar read_status deassert
isr_served_lem ops h i signal PciInterruptType.intx =
    let r = ops.read_and_clear_isr h.device in
    lowered_lem (record h { device = r.0 }) (r.1 ∷ [])
      (signal (intx_interrupt PciInterruptLineState.low) (i, h.config))
isr_served_lem ops h i signal PciInterruptType.msi = refl
isr_served_lem ops h i signal PciInterruptType.msi_x = refl
isr_served_lem ops h i signal PciInterruptType.no_interrupt = refl

-- The ranges of each target.
data Lies (offset n : ℕ) : Target → Type 0 where
  lies_empty : n ≡ 0 → Lies offset n Target.no_target
  lies_common : 0 < n → offset + n ≤ 64 → Lies offset n Target.common_target
  lies_device : 0 < n → 0x2000 ≤ offset → offset + n ≤ 0x3000 → Lies offset n Target.device_target
  lies_notify : 0 < n → 0x3000 ≤ offset → offset + n ≤ 0x4000 → Lies offset n Target.notify_target
  lies_isr : offset ≡ 0x1000 → n ≡ 1 → Lies offset n Target.isr_target
  lies_outside :
      64 < offset + n
      → (offset < 0x2000) ⊎ (0x3000 < offset + n)
      → (offset < 0x3000) ⊎ (0x4000 < offset + n)
      → (offset < 0x1000) ⊎ (0x1001 < offset + n)
      → Lies offset n Target.no_target

target-Lies : (offset n : ℕ) → Lies offset n (target offset n)
unfolding target
target-Lies offset n = elim (Bool-cases (n == 0)) [
  | inl e ↦ rw e (lies_empty (ground (arith, e)))
  | inr e ↦ rw e (elim (Bool-cases (leb (offset + n) 64)) [
    | inl f ↦ rw f (lies_common (ground (arith, e)) (ground (arith, f)))
    | inr f ↦ rw f (elim (Bool-cases (leb 0x2000 offset && leb (offset + n) 0x3000)) [
      | inl g ↦ rw g (lies_device (ground (arith, e)) (ground (arith, g)) (ground (arith, g)))
      | inr g ↦ rw g (elim (Bool-cases (leb 0x3000 offset && leb (offset + n) 0x4000)) [
        | inl k ↦ rw k (lies_notify (ground (arith, e)) (ground (arith, k)) (ground (arith, k)))
        | inr k ↦ rw k (elim (Bool-cases (offset == 0x1000 && n == 1)) [
          | inl m ↦ rw m (lies_isr (ground (arith, m)) (ground (arith, m)))
          | inr m ↦ rw m (
              lies_outside (ground (arith, f)) (ground (arith, g)) (ground (arith, k))
                (ground (arith, m, e)))
        ])
      ])
    ])
  ])
]

module _ {D Q I : Type 0} (ops : VirtioPciDevice D Q) (h : VirtioDeviceHandler D) (i : I)
    (offset : ℕ) (buffer : List ℕ) (irq : PciInterruptAccess I) (l : IsLaidOut h) where
  Lies-served :
      (t : Target)
      → Lies offset (length buffer) t
      → read_bar ops 0 offset buffer irq (h, i) ≡ served ops h i offset buffer irq t
  unfolding read_bar read_device read_notify notify_read_bar
  Lies-served t lies =
      let n = length buffer in
      let no_common = or_next-none 0 0 64 offset n (read_common ops n) _ (h, i) l.common in
      let no_device =
        or_next-none 0 0x2000 0x1000 offset n (read_device ops buffer) _ (h, i) l.device in
      let no_notify =
        or_next-none 0 0x3000 0x1000 offset n (read_notify ops buffer) _ (h, i) l.notify in
      let no_isr =
        or_next-none 0 0x1000 1 offset n (λ within. read_isr ops n within >>= deassert ops irq)
          (return buffer) (h, i) l.isr in
      elim lies
        as (λ t _. read_bar ops 0 offset buffer irq (h, i) ≡ served ops h i offset buffer irq t) [
          | lies_empty e ↦
              no_common (inl e) ∙ no_device (inl e) ∙ no_notify (inl e) ∙ no_isr (inl e)
          | lies_common k fits ↦
              or_next-some 0 0 64 offset n (read_common ops n) _ (h, i) l.common k (omega arith)
                fits (omega arith)
              ∙ ap (λ within. read_common ops n within (h, i)) (omega arith)
          | lies_device k from to ↦
              no_common (inr (inr (omega (arith, from, k))))
              ∙ or_next-some 0 0x2000 0x1000 offset n (read_device ops buffer) _ (h, i) l.device k
                  from to (omega arith)
          | lies_notify k from to ↦
              no_common (inr (inr (omega (arith, from, k))))
              ∙ no_device (inr (inr (omega (arith, from, k))))
              ∙ or_next-some 0 0x3000 0x1000 offset n (read_notify ops buffer) _ (h, i) l.notify k
                  from to (omega arith)
          | lies_isr at one ↦
              no_common (inr (inr (omega (arith, at, one))))
              ∙ no_device (inr (inl (omega (arith, at))))
              ∙ no_notify (inr (inl (omega (arith, at))))
              ∙ or_next-some 0 0x1000 1 offset n _ (return buffer) (h, i) l.isr (omega (arith, one))
                  (omega (arith, at)) (omega (arith, at, one)) (omega arith)
              ∙ rw (at, one) (isr_served_lem ops h i irq.signal irq.active)
          | lies_outside past apart beside other ↦
              no_common (inr (inr past))
              ∙ no_device (inr apart)
              ∙ no_notify (inr beside)
              ∙ no_isr (inr other)
        ]

  -- A read of BAR 0, of any length at any offset, where the regions are laid out as `new` does: what it
  -- returns, changes and signals is that of the region that holds all of it, at the offset within the
  -- region. A read of the interrupt status signals the line low where INTx is the active interrupt, and
  -- nothing under any other. A read that no region holds changes nothing and leaves the buffer.
  pub read_bar_regions :
      read_bar ops 0 offset buffer irq (h, i)
      ≡ served ops h i offset buffer irq (target offset (length buffer))
  read_bar_regions =
      Lies-served (target offset (length buffer)) (target-Lies offset (length buffer))
