-- ===== src/Msi/Handler/Loop.antt =====
-- The search for the next pending vector, and the end of the loop over the pending vectors.
use greens.Base.{
  ℕ, zero, suc, ◌+◌, ◌-◌, ◌/◌, ◌%◌, ◌^◌, ◌≤◌, ◌<◌, ◌≡◌, ◌↔◌, refl, arith, bit_and, none, some, ltb,
  if◌then◌else◌, min, lt→ltb, le→ltb_false,
}
use native.Mathlib.Nat.{pow-le-pow_right}
use native.Mathlib.Decide.{dec_lt}
use greens.Bits.{
  testbit, complement, testbit-bit_and, testbit-complement, testbit-low_mask, testbit-le,
  two-pow-pos,
}
use greens.Error.{ok}
use greens.Config.{PciConfigurationSpace, read_word, read_dword}
use greens.Msi.{
  MsiMultipleMessage, pending_bits_offset, num_capable_vectors, capable_vectors, max_vectors,
  encode,
}
use greens.Msi.Handler.{trailing_zeros, below_mask, next_pending_vector, pending_from}

pub trailing_zeros-le : (w x : ℕ) → trailing_zeros w x ≤ w
unfolding trailing_zeros
trailing_zeros-le zero x = omega arith
trailing_zeros-le (suc w) x = ground (arith, trailing_zeros-le w (x / 2))

pub trailing_zeros-clear : (w x j : ℕ) → j < trailing_zeros w x → testbit x j ≡ 0
unfolding trailing_zeros testbit
trailing_zeros-clear zero x j h = absurd (omega arith)
trailing_zeros-clear (suc w) x zero h = ground arith
trailing_zeros-clear (suc w) x (suc j) h = ground (arith, trailing_zeros-clear w (x / 2) j)

pub trailing_zeros-set : (w x k : ℕ) → trailing_zeros w x ≡ k → k < w → testbit x k ≡ 1
unfolding trailing_zeros testbit
trailing_zeros-set zero x k e h = absurd (omega arith)
trailing_zeros-set (suc w) x zero e h = ground arith
trailing_zeros-set (suc w) x (suc k) e h = ground (arith, trailing_zeros-set w (x / 2) k)

max_vectors-le : (m : MsiMultipleMessage) → max_vectors m ≤ 32
unfolding max_vectors encode
max_vectors-le m = ground arith

pub num_capable_vectors-le : (control : ℕ) → num_capable_vectors control ≤ 32
unfolding num_capable_vectors
num_capable_vectors-le control = max_vectors-le (capable_vectors control)

below_mask-low_mask :
    (since : ℕ)
    → since < 2 ^ 32
    → (k : ℕ) × (below_mask since ≡ 2 ^ k - 1) × (k ≤ 32) × (k ≡ min since 32)
unfolding below_mask
below_mask-low_mask since h =
    let whole : since % 2 ^ 32 ≡ since = omega arith in
    rw whole (elim (dec_lt since 32) [
      | yes small ↦ (since, rw (lt→ltb since 32 small) refl, omega arith, omega arith)
      | no large ↦ (32, rw (le→ltb_false since 32 (omega arith)) refl, omega arith, omega arith)
    ])

-- The bits from `since` on.
testbit-from :
    (bits since i : ℕ)
    → since < 2 ^ 32
    → i < 32
    → testbit (bit_and bits (complement 32 (below_mask since))) i
      ≡ (if ltb i since then 0 else testbit bits i)
testbit-from bits since i h p =
    let (k, mask, small, least) = below_mask-low_mask since h in
    let bound = pow-le-pow_right {n = 2} (omega arith) {i = k} {j = 32} small in
    rw mask (
      ground (
        arith,
        testbit-bit_and i bits (complement 32 (2 ^ k - 1)),
        testbit-complement i 32 (2 ^ k - 1) (omega (arith, bound, two-pow-pos k)) p,
        testbit-low_mask k i,
        testbit-le bits i,
      ))

-- The vector that `next_pending_vector` computes is the lowest pending one from `since` on.
abbrev pub IsLowest : ℕ → ℕ → ℕ → ℕ → Type 0
IsLowest bits count since v =
    (since ≤ v)
    × (v < count)
    × (testbit bits v ≡ 1)
    × ((j : ℕ) → since ≤ j → j < v → testbit bits j ≡ 0)

abbrev pub candidate : ℕ → ℕ → ℕ
candidate bits since = trailing_zeros 32 (bit_and bits (complement 32 (below_mask since)))

module _ (bits since : ℕ) (h : since < 2 ^ 32) where
  pub candidate-IsLowest :
      (count : ℕ)
      → count ≤ 32
      → (candidate bits since) < count
      → IsLowest bits count since (candidate bits since)
  candidate-IsLowest count few found =
      let x = bit_and bits (complement 32 (below_mask since)) in
      let here = trailing_zeros-set 32 x (candidate bits since) refl (omega arith) in
      let from = testbit-from bits since (candidate bits since) h (omega arith) in
      (
        ground arith,
        found,
        ground arith,
        λ j p q.
            ground
              (arith, trailing_zeros-clear 32 x j q, testbit-from bits since j h (omega arith)),
      )

  IsLowest-candidate :
      (count v : ℕ) → count ≤ 32 → IsLowest bits count since v → (candidate bits since) ≡ v
  IsLowest-candidate count v few low =
      let x = bit_and bits (complement 32 (below_mask since)) in
      elim (dec_lt (candidate bits since) v) [
        | yes early ↦
            let found = candidate-IsLowest 32 (omega arith) (omega (arith, low.1)) in
            absurd (omega (arith, low.3 (candidate bits since) found.0 early, found.2))
        | no late ↦ elim (dec_lt v (candidate bits since)) [
          | yes behind ↦ absurd (
              ground (
                arith,
                trailing_zeros-clear 32 x v behind,
                testbit-from bits since v h (omega (arith, low.1)),
                low.0,
                low.2,
              ))
          | no level ↦ omega arith
        ]
      ]

-- The search, once its registers are read.
next_pending_vector-eq :
    (c : PciConfigurationSpace) (msi since control offset bits : ℕ)
    → read_word c msi ≡ ok control
    → pending_bits_offset control ≡ some offset
    → read_dword c (msi + offset) ≡ ok bits
    → next_pending_vector c msi since
      ≡ ok (
          if ltb (candidate bits since) (num_capable_vectors control)
          then some (candidate bits since)
          else none)
unfolding next_pending_vector pending_from
next_pending_vector-eq c msi since control offset bits word there dword =
    rw (word, there, dword) refl

-- Of a capability with pending bits, `next_pending_vector` finds a vector exactly when it is the
-- lowest that is pending from `since` on, below the number of capable vectors; `since` is a `u32`.
pub next_pending_vector_iff :
    (c : PciConfigurationSpace) (msi since control offset bits v : ℕ)
    → read_word c msi ≡ ok control
    → pending_bits_offset control ≡ some offset
    → read_dword c (msi + offset) ≡ ok bits
    → since < 2 ^ 32
    → (next_pending_vector c msi since ≡ ok (some v))
      ↔ IsLowest bits (num_capable_vectors control) since v
next_pending_vector_iff c msi since control offset bits v word there dword h =
    let few = num_capable_vectors-le control in
    rw (next_pending_vector-eq c msi since control offset bits word there dword) (
      λ e. ground (arith, candidate-IsLowest bits since h (num_capable_vectors control) few),
      λ low.
          let same = IsLowest-candidate bits since h (num_capable_vectors control) v few low in
          rw (same, lt→ltb _ _ low.1) refl,
    )
