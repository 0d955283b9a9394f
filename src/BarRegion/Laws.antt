-- ===== src/BarRegion/Laws.antt =====
-- Which accesses a region takes, and which region of a set takes an access.
use greens.Base.{
  ℕ, ◌+◌, ◌≤◌, ◌<◌, ◌≡◌, ◌↔◌, refl, ap, arith, List, [], ◌∷◌, ◌++◌, Option, none, some,
}
use greens.Word.{u64_max}
use greens.Utils.Range.{range_contains}
use greens.BarRegion.{PciBarRegionInfo, access_targets_region, offset_within_region, find_region}

-- The access is not empty and lies in the region, `within` bytes from its start.
abbrev pub IsWithin : PciBarRegionInfo → ℕ → ℕ → ℕ → ℕ → Type 0
IsWithin info bar offset size within =
    (info.bar ≡ bar) × (0 < size) × (offset ≡ info.offset + within) × (within + size ≤ info.length)

-- A region, whose end is a `u64`, gives an offset for an access exactly when the access is of its
-- BAR, not empty, and lies in the region at that offset from its start.
pub offset_within_region_iff :
    (info : PciBarRegionInfo) (bar offset size within : ℕ)
    → info.offset + info.length ≤ u64_max
    → (offset_within_region info bar offset size ≡ some within)
      ↔ IsWithin info bar offset size within
unfolding offset_within_region access_targets_region range_contains
offset_within_region_iff info bar offset size within h = ground arith

-- No region of the list takes the access.
abbrev pub NoneTakes : {I : Type 0} → List (I × PciBarRegionInfo) → ℕ → ℕ → ℕ → Type 0
NoneTakes [] bar offset size = Unit
NoneTakes ((id, info) ∷ regions) bar offset size =
    (offset_within_region info bar offset size ≡ none) × NoneTakes regions bar offset size

-- The search of a set ends with the first region that takes the access.
abbrev pub FirstTakes :
    {I : Type 0} → List (I × PciBarRegionInfo) → ℕ → ℕ → ℕ → Option (I × ℕ) → Type 0
FirstTakes regions bar offset size none = NoneTakes regions bar offset size
FirstTakes {I} regions bar offset size (some (id, within)) =
    (before : List (I × PciBarRegionInfo)) × (info : PciBarRegionInfo) × (after : List
      (I × PciBarRegionInfo))
    × (regions ≡ before ++ (id, info) ∷ after)
    × NoneTakes before bar offset size
    × (offset_within_region info bar offset size ≡ some within)

find_region-step :
    {I : Type 0} (id : I) (info : PciBarRegionInfo) (regions : List (I × PciBarRegionInfo))
    (bar offset size : ℕ) (o : Option ℕ)
    → offset_within_region info bar offset size ≡ o
    → FirstTakes regions bar offset size (find_region regions bar offset size)
    → FirstTakes ((id, info) ∷ regions) bar offset size (elim o as (λ _. Option (I × ℕ)) [
      | some within ↦ some (id, within)
      | none ↦ find_region regions bar offset size
    ])
find_region-step id info regions bar offset size (some within) e rest =
    ([], info, regions, refl, tt, e)
find_region-step {I} id info regions bar offset size none e rest =
    later (find_region regions bar offset size) rest
  where
    later :
        (found : Option (I × ℕ))
        → FirstTakes regions bar offset size found
        → FirstTakes ((id, info) ∷ regions) bar offset size found
    later none r = (e, r)
    later (some (i, within)) (before, info', after, split, none_before, taken) =
        ((id, info) ∷ before, info', after, ap (λ t. (id, info) ∷ t) split, (e, none_before), taken)

-- `find_region` of a set of regions gives the first region that takes the access and the offset
-- within it, and no region only when none takes it.
pub find_region-FirstTakes :
    {I : Type 0} (regions : List (I × PciBarRegionInfo)) (bar offset size : ℕ)
    → FirstTakes regions bar offset size (find_region regions bar offset size)
unfolding find_region
find_region-FirstTakes [] bar offset size = tt
find_region-FirstTakes ((id, info) ∷ regions) bar offset size =
    find_region-step id info regions bar offset size (offset_within_region info bar offset size)
      refl (find_region-FirstTakes regions bar offset size)
