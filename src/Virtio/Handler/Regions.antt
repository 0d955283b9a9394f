-- ===== src/Virtio/Handler/Regions.antt =====
-- The region of a BAR that takes an access.
use greens.Base.{ℕ, ◌+◌, ◌-◌, ◌≤◌, ◌<◌, ◌≡◌, refl, arith, ◌⊎◌, none, some}
use greens.Word.{u64_max}
use greens.BarRegion.{PciBarRegionInfo, access_targets_region, offset_within_region}
use greens.Utils.Range.Laws.{range_contains_iff}
use greens.Effects.{Run}
use greens.Virtio.Handler.{or_next}

within-some :
    (bar start size o n : ℕ)
    → 0 < n
    → start ≤ o
    → o + n ≤ start + size
    → start + size ≤ u64_max
    → offset_within_region (record { bar = bar; offset = start; length = size }) bar o n
      ≡ some (o - start)
unfolding offset_within_region access_targets_region
within-some bar start size o n k h p q = ground (arith, range_contains_iff u64_max start size o n)

within-none :
    (bar start size o n : ℕ)
    → (n ≡ 0) ⊎ ((o < start) ⊎ (start + size < o + n))
    → offset_within_region (record { bar = bar; offset = start; length = size }) bar o n ≡ none
unfolding offset_within_region access_targets_region
within-none bar start size o n h = ground (arith, range_contains_iff u64_max start size o n)

-- A region that holds the access takes it, and one that does not leaves it to what follows.
module _ {ℓ} {S : Type 0} {A : Type ℓ} (bar start size : ℕ) {info : PciBarRegionInfo} (o n : ℕ)
    (access : ℕ → Run S A) (next : Run S A) (s : S)
    (at : info ≡ record { bar = bar; offset = start; length = size }) where
  pub or_next-some :
      0 < n
      → start ≤ o
      → o + n ≤ start + size
      → start + size ≤ u64_max
      → or_next info bar o n access next s ≡ access (o - start) s
  unfolding or_next
  or_next-some k from to small =
      rw (at, within-some bar start size o n k from to small, or_next) refl

  pub or_next-none :
      (n ≡ 0) ⊎ ((o < start) ⊎ (start + size < o + n)) → or_next info bar o n access next s ≡ next s
  unfolding or_next
  or_next-none out = rw (at, within-none bar start size o n out, or_next) refl
