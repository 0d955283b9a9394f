-- ===== src/Utils/Range.antt =====
-- `range_contains`, `range_overlaps` and `offset_within_range` of utils/mod.rs.
pub mod Laws
use greens.Base.{
  ℕ, ◌+◌, ◌-◌, Bool, false, Option, none, some, ltb, leb, ◌==◌, ◌&&◌, ◌||◌, not, if◌then◌else◌,
}

-- `checked_add` of an unsigned type whose largest value is `m`.
unfoldable pub checked_add : ℕ → ℕ → ℕ → Option ℕ
checked_add m a b = if leb (a + b) m then some (a + b) else none

unfoldable pub checked_sub : ℕ → ℕ → Option ℕ
checked_sub a b = if ltb a b then none else some (a - b)

-- The type parameter is the largest value of the unsigned type.
unfoldable pub range_contains : ℕ → ℕ → ℕ → ℕ → ℕ → Bool
unfolding checked_add
range_contains m start1 size1 start2 size2 =
    if size1 == 0 || size2 == 0 then false else elim (checked_add m start1 size1) [
      | none ↦ false
      | some end1 ↦ elim (checked_add m start2 size2) [
        | none ↦ false
        | some end2 ↦ leb start1 start2 && leb end2 end1
      ]
    ]

unfoldable pub range_overlaps : ℕ → ℕ → ℕ → ℕ → ℕ → Bool
unfolding checked_add
range_overlaps m start1 size1 start2 size2 = elim (checked_add m start1 size1) [
  | none ↦ false
  | some end1 ↦ elim (checked_add m start2 size2) [
    | none ↦ false
    | some end2 ↦ not (leb end2 start1 || leb end1 start2)
  ]
]

unfoldable pub offset_within_range : ℕ → ℕ → ℕ → Option ℕ
unfolding checked_sub
offset_within_range addr range_start range_size = elim (checked_sub addr range_start) [
  | none ↦ none
  | some offset ↦ if leb range_size offset then none else some offset
]
