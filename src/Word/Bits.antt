-- ===== src/Word/Bits.antt =====
-- Bit `i` of a little-endian integer is bit `i % 8` of its byte `i / 8`.
use greens.Base.{
  ℕ, zero, suc, ◌+◌, ◌*◌, ◌/◌, ◌<◌, ◌≡◌, refl, ◌∙◌, arith, List, [], ◌∷◌, get_or, ◌^◌, ap, sym,
}
use native.Mathlib.Nat.{pow-suc}
use greens.Bits.{testbit, testbit-zero}
use greens.Word.{IsBytes, from_le_bytes}

-- Dropping a byte drops eight bits.
testbit-byte_suc : (x i : ℕ) → testbit (x / 256) i ≡ testbit x (8 + i)
unfolding testbit
testbit-byte_suc x i =
    let eight : 8 + i ≡ suc (suc (suc (suc (suc (suc (suc (suc i))))))) = omega arith in
    let halves : x / 256 ≡ x / 2 / 2 / 2 / 2 / 2 / 2 / 2 / 2 = omega arith in
    rw (eight, halves) refl

-- The low bits do not see what stands above them.
testbit-above : (w r x q : ℕ) → r < w → testbit (x + 2 ^ w * q) r ≡ testbit x r
unfolding testbit
testbit-above zero r x q h = absurd (omega arith)
testbit-above (suc w) zero x q h = omega (arith, ap (λ (t : ℕ). t * q) (pow-suc 2 w))
testbit-above (suc w) (suc r) x q h =
    let half : (x + 2 ^ suc w * q) / 2 ≡ x / 2 + 2 ^ w * q =
      omega (arith, ap (λ (t : ℕ). t * q) (pow-suc 2 w)) in
    rw half (testbit-above w r (x / 2) q (omega arith))

pub testbit-from_le_bytes :
    (k r : ℕ) (bytes : List ℕ)
    → IsBytes bytes
    → r < 8
    → testbit (from_le_bytes bytes) (8 * k + r) ≡ testbit (get_or bytes k 0) r
unfolding from_le_bytes
testbit-from_le_bytes k r [] b h = testbit-zero (8 * k + r) ∙ sym (testbit-zero r)
testbit-from_le_bytes zero r (x ∷ bytes) b h =
    let same : 8 * 0 + r ≡ r = omega arith in rw same (testbit-above 8 r x (from_le_bytes bytes) h)
testbit-from_le_bytes (suc k) r (x ∷ bytes) b h =
    let next : 8 * suc k + r ≡ 8 + (8 * k + r) = omega arith in
    let rest : (x + 256 * from_le_bytes bytes) / 256 ≡ from_le_bytes bytes = omega (arith, b.0) in
    rw (next, ← testbit-byte_suc (x + 256 * from_le_bytes bytes) (8 * k + r), rest)
      (testbit-from_le_bytes k r bytes b.1 h)
