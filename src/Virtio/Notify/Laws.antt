-- ===== src/Virtio/Notify/Laws.antt =====
-- The addresses that notify queues, and the region that handles the accesses to them.
use greens.Base.{ℕ, ◌+◌, ◌-◌, ◌*◌, ◌≤◌, ◌<◌, ◌≡◌, refl, sym, arith, some, le→leb, lt→ltb}
use greens.Word.{u64_max}
use greens.Error.{ok, >>=-eq-ok}
use greens.BarRegion.{PciBarRegionInfo, offset_within_region, access_targets_region}
use greens.Utils.Range.Laws.{range_contains_iff}
use greens.Config.{PciConfigurationSpace, read_dword}
use greens.Virtio.Device.{VirtioPciDevice, VirtioPciNotifyCfgInfo}
use greens.Virtio.Notify.{VirtioPciNotifyCfg, set_notification_info, notification_gpa, add_u64}

add_u64-eq-ok : (a b : ℕ) {sum : ℕ} → add_u64 a b ≡ ok sum → (sum ≡ a + b) × (a + b ≤ u64_max)
unfolding add_u64
add_u64-eq-ok a b e = ground arith

ok_injective : {A : Type 0} {x y : A} → ok x ≡ ok y → x ≡ y
ok_injective e = cc

-- An access at an offset of a region that holds it.
within :
    (info : PciBarRegionInfo) (offset n : ℕ)
    → 0 < n
    → offset + n ≤ info.length
    → info.offset + info.length ≤ u64_max
    → offset_within_region info info.bar (info.offset + offset) n ≡ some offset
unfolding offset_within_region access_targets_region
within info offset n k fits small =
    ground (arith, range_contains_iff u64_max info.offset info.length (info.offset + offset) n)

-- An address that is returned is the base plus the product, inside the region.
notification_gpa-eq-some :
    (info : VirtioPciNotifyCfgInfo) (q : ℕ) {gpa : ℕ}
    → notification_gpa info q ≡ ok (some gpa)
    → (gpa ≡ info.bar_gpa + info.queue_notify_off * q)
      × (info.queue_notify_off * q < info.bar_len)
      × (info.bar_gpa + info.bar_len ≤ u64_max)
unfolding notification_gpa
notification_gpa-eq-some info q {gpa} e =
    let (g, first, e1) = >>=-eq-ok (add_u64 info.bar_gpa (info.queue_notify_off * q)) _ e in
    let (end, second, e2) = >>=-eq-ok (add_u64 info.bar_gpa info.bar_len) _ e1 in
    let (a, a') = add_u64-eq-ok info.bar_gpa (info.queue_notify_off * q) first in
    let (b, b') = add_u64-eq-ok info.bar_gpa info.bar_len second in
    (ground (arith, e2, a), ground (arith, e2, a, b), b')

notification_gpa-some :
    (info : VirtioPciNotifyCfgInfo) (q : ℕ)
    → info.bar_gpa + info.bar_len ≤ u64_max
    → info.queue_notify_off * q < info.bar_len
    → notification_gpa info q ≡ ok (some (info.bar_gpa + info.queue_notify_off * q))
unfolding notification_gpa add_u64
notification_gpa-some info q small inside =
    rw
      (
        le→leb (info.bar_gpa + info.queue_notify_off * q) u64_max (omega (arith, inside, small)),
        le→leb (info.bar_gpa + info.bar_len) u64_max small,
        lt→ltb (info.bar_gpa + info.queue_notify_off * q) (info.bar_gpa + info.bar_len)
            (omega (arith, inside)),
      )
      refl

-- The device that a notification region of a BAR at `bar_gpa` is made known to has an address for
-- every queue whose offset, the product of its number and the multiplier in the capability's register,
-- lies in the region, where the region ends at a `u64`. At an address that it has for a queue an
-- access of the guest to the BAR that ends in the region goes to this region, at that offset.
pub set_notification_info-notification_gpa :
    {D Q : Type 0} (device : VirtioPciDevice D Q) (d : D) (notify : VirtioPciNotifyCfg)
    (config : PciConfigurationSpace) (bar_gpa : ℕ) {d' : D}
    → set_notification_info device d notify config bar_gpa ≡ ok d'
    → (info : VirtioPciNotifyCfgInfo) × (d' ≡ device.set_notification_info d info)
      × (read_dword config (notify.cap_offset + 14) ≡ ok info.queue_notify_off)
      × ((q : ℕ)
          → bar_gpa + notify.info.offset + notify.info.length ≤ u64_max
          → info.queue_notify_off * q < notify.info.length
          → (gpa : ℕ) × (notification_gpa info q ≡ ok (some gpa)))
      × ((q n gpa : ℕ)
          → notification_gpa info q ≡ ok (some gpa)
          → 0 < n
          → info.queue_notify_off * q + n ≤ notify.info.length
          → offset_within_region notify.info notify.info.bar (gpa - bar_gpa) n
            ≡ some (info.queue_notify_off * q))
unfolding set_notification_info
set_notification_info-notification_gpa device d notify config bar_gpa {d'} e =
    let (gpa, first, e1) = >>=-eq-ok (add_u64 bar_gpa notify.info.offset) _ e in
    let (off, word, e2) = >>=-eq-ok (read_dword config (notify.cap_offset + 14)) _ e1 in
    let base = (add_u64-eq-ok bar_gpa notify.info.offset first).0 in
    let info : VirtioPciNotifyCfgInfo = record {
      bar_gpa = gpa;
      bar_len = notify.info.length;
      queue_notify_off = off;
    } in
    (
      info,
      sym (ok_injective e2),
      word,
      λ q small inside.
          (gpa + off * q, notification_gpa-some info q (omega (arith, base, small)) inside),
      λ q n address has k inside.
          let at = notification_gpa-eq-some info q has in
          let offset : address - bar_gpa ≡ notify.info.offset + off * q =
            omega (arith, at.0, base) in
          rw offset (within notify.info (off * q) n k inside (omega (arith, at, base))),
    )
