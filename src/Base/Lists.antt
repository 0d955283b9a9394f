-- ===== src/Base/Lists.antt =====
-- Lists measured and indexed by the native numbers.
use Prim.Native.Nat.{ℕ, zero, suc, ◌+◌, ◌-◌, ◌≤◌, ◌<◌}
use mathlib.Core.Path.{◌≡◌, refl, ap}
use mathlib.Core.Logic.{◌≢◌}
use mathlib.Core.Option.{Option, none, some}
use mathlib.Core.List.{List, [], ◌∷◌, ◌++◌}
use native.Mathlib.Omega.{arith}

module _ {ℓ} {A : Type ℓ} where
  abbrev pub length : List A → ℕ
  length [] = 0
  length (x ∷ xs) = suc (length xs)

  abbrev pub get_elem? : List A → ℕ → Option A
  get_elem? [] i = none
  get_elem? (x ∷ xs) zero = some x
  get_elem? (x ∷ xs) (suc i) = get_elem? xs i

  abbrev pub get_or : List A → ℕ → A → A
  get_or [] i d = d
  get_or (x ∷ xs) zero d = x
  get_or (x ∷ xs) (suc i) d = get_or xs i d

  -- A write out of bounds changes nothing.
  abbrev pub set : List A → ℕ → A → List A
  set [] i v = []
  set (x ∷ xs) zero v = v ∷ xs
  set (x ∷ xs) (suc i) v = x ∷ set xs i v

  abbrev pub replicate : ℕ → A → List A
  replicate zero a = []
  replicate (suc n) a = a ∷ replicate n a

  -- `n` elements from index `i` on, where they exist.
  abbrev pub slice : List A → ℕ → ℕ → List A
  slice [] i n = []
  slice (x ∷ xs) zero zero = []
  slice (x ∷ xs) zero (suc n) = x ∷ slice xs zero n
  slice (x ∷ xs) (suc i) n = slice xs i n

  -- Without the first `n` elements.
  abbrev pub drop : List A → ℕ → List A
  drop xs zero = xs
  drop [] (suc n) = []
  drop (x ∷ xs) (suc n) = drop xs n

  -- The list with `ys` written over it from index `i` on.
  abbrev pub splice : List A → ℕ → List A → List A
  splice [] i ys = []
  splice (x ∷ xs) zero [] = x ∷ xs
  splice (x ∷ xs) zero (y ∷ ys) = y ∷ splice xs zero ys
  splice (x ∷ xs) (suc i) ys = x ∷ splice xs i ys

  -- Every element satisfies `P`.
  abbrev pub All {κ} : (A → Type κ) → List A → Type κ
  All P [] = Unit
  All P (x ∷ xs) = P x × All P xs

module _ {ℓ} {A : Type ℓ} where
  pub length-replicate : (n : ℕ) (a : A) → length (replicate n a) ≡ n
  length-replicate zero a = refl
  length-replicate (suc n) a = ap suc (length-replicate n a)

  pub length-set : (xs : List A) (i : ℕ) (v : A) → length (set xs i v) ≡ length xs
  length-set [] i v = refl
  length-set (x ∷ xs) zero v = refl
  length-set (x ∷ xs) (suc i) v = ap suc (length-set xs i v)

  pub length-splice : (xs : List A) (i : ℕ) (ys : List A) → length (splice xs i ys) ≡ length xs
  length-splice [] i ys = refl
  length-splice (x ∷ xs) zero [] = refl
  length-splice (x ∷ xs) zero (y ∷ ys) = ap suc (length-splice xs zero ys)
  length-splice (x ∷ xs) (suc i) ys = ap suc (length-splice xs i ys)

  pub length-slice : (xs : List A) (i n : ℕ) → i + n ≤ length xs → length (slice xs i n) ≡ n
  length-slice [] i n h = omega arith
  length-slice (x ∷ xs) zero zero h = refl
  length-slice (x ∷ xs) zero (suc n) h = ap suc (length-slice xs zero n (omega arith))
  length-slice (x ∷ xs) (suc i) n h = length-slice xs i n (omega arith)

  -- Reading back what was written.
  pub slice-splice_self :
      (xs : List A) (i : ℕ) (ys : List A)
      → i + length ys ≤ length xs
      → slice (splice xs i ys) i (length ys) ≡ ys
  slice-splice_self [] zero [] h = refl
  slice-splice_self [] (suc i) [] h = absurd (omega arith)
  slice-splice_self [] i (y ∷ ys) h = absurd (omega arith)
  slice-splice_self (x ∷ xs) zero [] h = refl
  slice-splice_self (x ∷ xs) zero (y ∷ ys) h =
      ap (λ t. y ∷ t) (slice-splice_self xs zero ys (omega arith))
  slice-splice_self (x ∷ xs) (suc i) ys h = slice-splice_self xs i ys (omega arith)

  pub slice-splice_before :
      (xs : List A) (i : ℕ) (ys : List A) (j n : ℕ)
      → j + n ≤ i
      → slice (splice xs i ys) j n ≡ slice xs j n
  slice-splice_before [] i ys j n h = refl
  slice-splice_before (x ∷ xs) zero [] j n h = refl
  slice-splice_before (x ∷ xs) zero (y ∷ ys) zero zero h = refl
  slice-splice_before (x ∷ xs) zero (y ∷ ys) zero (suc n) h = absurd (omega arith)
  slice-splice_before (x ∷ xs) zero (y ∷ ys) (suc j) n h = absurd (omega arith)
  slice-splice_before (x ∷ xs) (suc i) ys zero zero h = refl
  slice-splice_before (x ∷ xs) (suc i) ys zero (suc n) h =
      ap (λ t. x ∷ t) (slice-splice_before xs i ys zero n (omega arith))
  slice-splice_before (x ∷ xs) (suc i) ys (suc j) n h =
      slice-splice_before xs i ys j n (omega arith)

  pub slice-splice_after :
      (xs : List A) (i : ℕ) (ys : List A) (j n : ℕ)
      → i + length ys ≤ j
      → slice (splice xs i ys) j n ≡ slice xs j n
  slice-splice_after [] i ys j n h = refl
  slice-splice_after (x ∷ xs) zero [] j n h = refl
  slice-splice_after (x ∷ xs) zero (y ∷ ys) zero n h = absurd (omega arith)
  slice-splice_after (x ∷ xs) zero (y ∷ ys) (suc j) n h =
      slice-splice_after xs zero ys j n (omega arith)
  slice-splice_after (x ∷ xs) (suc i) ys zero n h = absurd (omega arith)
  slice-splice_after (x ∷ xs) (suc i) ys (suc j) n h = slice-splice_after xs i ys j n (omega arith)

  pub get_or-splice_in :
      (d : A) (xs : List A) (i : ℕ) (ys : List A) (j : ℕ)
      → i ≤ j
      → j < i + length ys
      → i + length ys ≤ length xs
      → get_or (splice xs i ys) j d ≡ get_or ys (j - i) d
  get_or-splice_in d [] i ys j p q h = absurd (omega arith)
  get_or-splice_in d (x ∷ xs) zero [] j p q h = absurd (omega arith)
  get_or-splice_in d (x ∷ xs) zero (y ∷ ys) zero p q h = refl
  get_or-splice_in d (x ∷ xs) zero (y ∷ ys) (suc j) p q h =
      ground (arith, get_or-splice_in d xs zero ys j (omega arith) (omega arith) (omega arith))
  get_or-splice_in d (x ∷ xs) (suc i) ys zero p q h = absurd (omega arith)
  get_or-splice_in d (x ∷ xs) (suc i) ys (suc j) p q h =
      ground (arith, get_or-splice_in d xs i ys j (omega arith) (omega arith) (omega arith))

  pub length-append : (xs ys : List A) → length (xs ++ ys) ≡ length xs + length ys
  length-append [] ys = omega arith
  length-append (x ∷ xs) ys = omega (arith, length-append xs ys)

  pub get_elem?-set_self :
      (xs : List A) (i : ℕ) (v : A) → i < length xs → get_elem? (set xs i v) i ≡ some v
  get_elem?-set_self [] i v h = absurd (omega arith)
  get_elem?-set_self (x ∷ xs) zero v h = refl
  get_elem?-set_self (x ∷ xs) (suc i) v h = get_elem?-set_self xs i v (omega arith)

  pub get_elem?-set_ne :
      (xs : List A) (i j : ℕ) (v : A) → i ≢ j → get_elem? (set xs i v) j ≡ get_elem? xs j
  get_elem?-set_ne [] i j v h = refl
  get_elem?-set_ne (x ∷ xs) zero zero v h = absurd (h refl)
  get_elem?-set_ne (x ∷ xs) zero (suc j) v h = refl
  get_elem?-set_ne (x ∷ xs) (suc i) zero v h = refl
  get_elem?-set_ne (x ∷ xs) (suc i) (suc j) v h = get_elem?-set_ne xs i j v (λ e. h (ap suc e))

  pub get_elem?-lt : (xs : List A) (i : ℕ) {v : A} → get_elem? xs i ≡ some v → i < length xs
  get_elem?-lt [] i e = absurd (cc)
  get_elem?-lt (x ∷ xs) zero e = omega arith
  get_elem?-lt (x ∷ xs) (suc i) e = omega (arith, get_elem?-lt xs i e)
