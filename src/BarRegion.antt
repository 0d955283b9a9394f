-- ===== src/BarRegion.antt =====
-- bar_region.rs: regions of a BAR, and the dispatch of an access to the region that holds it. The
-- three handler traits differ in the context that they pass on; `Access` is what an implementation
-- does with an access at an offset within its region.
pub mod Laws
use greens.Base.{
  ℕ, ◌-◌, ◌%◌, ◌^◌, Bool, true, false, ◌==◌, ◌&&◌, List, [], ◌∷◌, length, Option, none, some,
  if◌then◌else◌,
}
use greens.Word.{u64_max}
use greens.Error.{Result, ok, ◌>>=◌}
use greens.Function.{PciHandlerResult, handled, unhandled}
use greens.Utils.Range.{range_contains}

pub record PciBarRegionInfo : Type 0 where
  pub bar : ℕ
  pub offset : ℕ
  pub length : ℕ

unfoldable pub access_targets_region : PciBarRegionInfo → ℕ → ℕ → ℕ → Bool
access_targets_region info bar offset size =
    info.bar == bar && range_contains u64_max info.offset info.length offset size

-- The subtraction cannot underflow where the access targets the region.
unfoldable pub offset_within_region : PciBarRegionInfo → ℕ → ℕ → ℕ → Option ℕ
unfolding access_targets_region
offset_within_region info bar offset size =
    if access_targets_region info bar offset size then some (offset - info.offset) else none

-- `read_bar` or `write_bar` of an implementation with the state `S`: the offset within the region
-- and the data; the state, the data that a read leaves, and what it returns.
abbrev pub Access {ℓ} : Type 0 → Type ℓ → Type ℓ
Access S A = S → ℕ → List ℕ → Result (S × List ℕ × A)

-- `handle_read_bar` and `handle_write_bar` of a single region.
unfoldable pub handle_bar {ℓ} :
    {S : Type 0} {A : Type ℓ}
    → PciBarRegionInfo
    → Access S A
    → S
    → ℕ
    → ℕ
    → List ℕ
    → Result (S × List ℕ × PciHandlerResult A)
unfolding offset_within_region
handle_bar info access s bar offset buffer =
    elim (offset_within_region info bar offset (length buffer)) [
      | none ↦ ok (s, buffer, unhandled)
      | some within ↦ do (t, after, r) ← access s within buffer; ok (t, after, handled r)
    ]

-- `find` over the regions of a set: the identifier and the offset within the region.
unfoldable pub find_region : {I : Type 0} → List (I × PciBarRegionInfo) → ℕ → ℕ → ℕ → Option (I × ℕ)
unfolding offset_within_region
find_region [] bar offset size = none
find_region ((id, info) ∷ regions) bar offset size =
    elim (offset_within_region info bar offset size) [
      | some within ↦ some (id, within)
      | none ↦ find_region regions bar offset size
    ]

-- The same for a set of regions, whose implementation is also given the region.
unfoldable pub handle_bar_set {ℓ} :
    {I : Type 0} {S : Type 0} {A : Type ℓ}
    → List (I × PciBarRegionInfo)
    → (I → Access S A)
    → S
    → ℕ
    → ℕ
    → List ℕ
    → Result (S × List ℕ × PciHandlerResult A)
unfolding find_region
handle_bar_set regions access s bar offset buffer =
    elim (find_region regions bar offset (length buffer)) [
      | none ↦ ok (s, buffer, unhandled)
      | some (id, within) ↦ do (t, after, r) ← access id s within buffer; ok (t, after, handled r)
    ]
