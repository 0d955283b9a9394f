-- ===== src/Utils/Range/Laws.antt =====
-- What the range tests of utils/mod.rs decide.
use greens.Base.{ℕ, ◌+◌, ◌≤◌, ◌<◌, ◌≡◌, ◌↔◌, arith, true, some, max}
use greens.Utils.Range.{range_contains, range_overlaps, offset_within_range}

-- `range_contains` is true exactly when neither range is empty or overflows and the second lies
-- within the first.
pub range_contains_iff :
    (m a n b k : ℕ)
    → (range_contains m a n b k ≡ true)
      ↔ ((0 < n) × (0 < k) × (a + n ≤ m) × (b + k ≤ m) × (a ≤ b) × (b + k ≤ a + n))
unfolding range_contains
range_contains_iff m a n b k = ground arith

-- `range_overlaps` of two ranges that are not empty is true exactly when neither overflows and some
-- position lies in both.
pub range_overlaps_iff :
    (m a n b k : ℕ)
    → 0 < n
    → 0 < k
    → (range_overlaps m a n b k ≡ true)
      ↔ ((a + n ≤ m) × (b + k ≤ m) × ((x : ℕ) × (a ≤ x) × (x < a + n) × (b ≤ x) × (x < b + k)))
unfolding range_overlaps
range_overlaps_iff m a n b k p q = (
  λ h. (
    ground arith,
    ground arith,
    (max a b, ground arith, ground arith, ground arith, ground arith),
  ),
  λ h. ground arith,
)

-- `offset_within_range` returns an offset exactly for an address that lies in the range at that
-- offset.
pub offset_within_range_iff :
    (addr start size offset : ℕ)
    → (offset_within_range addr start size ≡ some offset)
      ↔ ((addr ≡ start + offset) × (offset < size))
unfolding offset_within_range
offset_within_range_iff addr start size offset = ground arith
