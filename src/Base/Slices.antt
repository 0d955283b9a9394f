-- ===== src/Base/Slices.antt =====
-- Slices of lists: what `splice` leaves alone, predicates on every element, equality by elements.
use greens.Base.Lists.{length, slice, splice, get_or, set, replicate, All}
use Prim.Native.Nat.{ℕ, zero, suc, ◌+◌, ◌≤◌, ◌<◌}
use mathlib.Core.Path.{◌≡◌, refl, ap₂}
use mathlib.Core.List.{List, [], ◌∷◌}
use native.Mathlib.Omega.{arith}

module _ {ℓ} {A : Type ℓ} where
  pub get_or-splice_before :
      (d : A) (xs : List A) (i : ℕ) (ys : List A) (j : ℕ)
      → j < i
      → get_or (splice xs i ys) j d ≡ get_or xs j d
  get_or-splice_before d [] i ys j p = refl
  get_or-splice_before d (x ∷ xs) zero ys j p = absurd (omega arith)
  get_or-splice_before d (x ∷ xs) (suc i) ys zero p = refl
  get_or-splice_before d (x ∷ xs) (suc i) ys (suc j) p =
      get_or-splice_before d xs i ys j (omega arith)

  pub get_or-splice_after :
      (d : A) (xs : List A) (i : ℕ) (ys : List A) (j : ℕ)
      → i + length ys ≤ j
      → get_or (splice xs i ys) j d ≡ get_or xs j d
  get_or-splice_after d [] i ys j p = refl
  get_or-splice_after d (x ∷ xs) zero [] j p = refl
  get_or-splice_after d (x ∷ xs) zero (y ∷ ys) zero p = absurd (omega arith)
  get_or-splice_after d (x ∷ xs) zero (y ∷ ys) (suc j) p =
      get_or-splice_after d xs zero ys j (omega arith)
  get_or-splice_after d (x ∷ xs) (suc i) ys zero p = absurd (omega arith)
  get_or-splice_after d (x ∷ xs) (suc i) ys (suc j) p =
      get_or-splice_after d xs i ys j (omega arith)

  pub get_or-slice :
      (d : A) (xs : List A) (i n j : ℕ) → j < n → get_or (slice xs i n) j d ≡ get_or xs (i + j) d
  get_or-slice d [] i n j p = refl
  get_or-slice d (x ∷ xs) zero zero j p = absurd (omega arith)
  get_or-slice d (x ∷ xs) zero (suc n) zero p = refl
  get_or-slice d (x ∷ xs) zero (suc n) (suc j) p =
      ground (arith, get_or-slice d xs zero n j (omega arith))
  get_or-slice d (x ∷ xs) (suc i) n j p = ground (arith, get_or-slice d xs i n j p)

  pub get_or_ext :
      (d : A) (xs ys : List A)
      → length xs ≡ length ys
      → ((i : ℕ) → i < length xs → get_or xs i d ≡ get_or ys i d)
      → xs ≡ ys
  get_or_ext d [] [] e h = refl
  get_or_ext d [] (y ∷ ys) e h = absurd (omega arith)
  get_or_ext d (x ∷ xs) [] e h = absurd (omega arith)
  get_or_ext d (x ∷ xs) (y ∷ ys) e h =
      ap₂ ◌∷◌ (h 0 (omega arith))
        (get_or_ext d xs ys (omega arith) (λ i p. h (suc i) (omega arith)))

module _ {ℓ} {A : Type ℓ} where
  pub All-splice {κ} :
      (P : A → Type κ) (xs : List A) (i : ℕ) (ys : List A)
      → All P xs
      → All P ys
      → All P (splice xs i ys)
  All-splice P [] i ys p q = tt
  All-splice P (x ∷ xs) zero [] p q = p
  All-splice P (x ∷ xs) zero (y ∷ ys) p q = (q.0, All-splice P xs zero ys p.1 q.1)
  All-splice P (x ∷ xs) (suc i) ys p q = (p.0, All-splice P xs i ys p.1 q)

  pub All-slice {κ} : (P : A → Type κ) (xs : List A) (i n : ℕ) → All P xs → All P (slice xs i n)
  All-slice P [] i n p = tt
  All-slice P (x ∷ xs) zero zero p = tt
  All-slice P (x ∷ xs) zero (suc n) p = (p.0, All-slice P xs zero n p.1)
  All-slice P (x ∷ xs) (suc i) n p = All-slice P xs i n p.1

  pub All-replicate {κ} : (P : A → Type κ) (n : ℕ) (a : A) → P a → All P (replicate n a)
  All-replicate P zero a h = tt
  All-replicate P (suc n) a h = (h, All-replicate P n a h)

  pub All-get_or {κ} :
      (P : A → Type κ) (d : A) (xs : List A) (i : ℕ) → All P xs → P d → P (get_or xs i d)
  All-get_or P d [] i p q = q
  All-get_or P d (x ∷ xs) zero p q = p.0
  All-get_or P d (x ∷ xs) (suc i) p q = All-get_or P d xs i p.1 q

  pub get_or-set :
      (d : A) (xs : List A) (i : ℕ) (v : A) → i < length xs → get_or (set xs i v) i d ≡ v
  get_or-set d [] i v h = absurd (omega arith)
  get_or-set d (x ∷ xs) zero v h = refl
  get_or-set d (x ∷ xs) (suc i) v h = get_or-set d xs i v (omega arith)
