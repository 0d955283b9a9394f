-- ===== src/Error.antt =====
-- The errors of the PCI crate, and the outcome of a fallible function: a value, an error, or a
-- panic (a slice or index out of range, an arithmetic overflow, a failed assertion). A loop modelled
-- with fuel has a fourth outcome, for a run that the fuel does not suffice for.
use mathlib.Core.Path.{subst}
use greens.Base.{ℕ, Bool, true, false, ◌≡◌, refl, if◌then◌else◌}

pub data Error : Type 0 where
  bar_in_use : ℕ → Error
  bar_not_found : ℕ → ℕ → Error
  bar_region_overflow : ℕ → ℕ → Error
  invalid_bar_alignment : ℕ → ℕ → Error
  invalid_bar_index : ℕ → Error
  invalid_bar_size : ℕ → Error
  invalid_bar_address : ℕ → Error
  invalid_io_size : ℕ → Error
  invalid_access_alignment : ℕ → ℕ → Error
  access_bounds : ℕ → ℕ → Error
  no_interrupt : Error
  unsupported_header : ℕ → Error
  not_supported : Error
  capability_not_found : ℕ → Error
  configuration_space_bounds : ℕ → Error
  device_area_bounds : ℕ → ℕ → Error
  invalid_msi_vector : ℕ → Error
  invalid_multiple_message_value : ℕ → Error
  msi_disabled : Error
  not_bus_master : Error
  invalid_function : ℕ → Error
  invalid_msi_x_vector : ℕ → Error
  interrupt_type_mismatch : Error
  invalid_msi_x_table_offset : ℕ → Error
  invalid_msi_x_table_size : ℕ → Error
  invalid_msi_x_bar_size : ℕ → Error
  vector_not_masked : ℕ → Error

pub data Result {ℓ} (A : Type ℓ) : Type ℓ where
  panic out_of_fuel : Result A
  err : Error → Result A
  ok : A → Result A

-- The outcome is a value or an error: no panic, and the loops end.
abbrev pub IsSafe {ℓ} : {A : Type ℓ} → Result A → Type 0
IsSafe panic = ⊥
IsSafe out_of_fuel = ⊥
IsSafe _ = Unit

-- A bounds check or an assertion.
abbrev pub assert : Bool → Result (Unit {0})
assert false = panic
assert true = ok tt

-- A check with an error of its own.
abbrev pub guard : Bool → Error → Result (Unit {0})
guard false error = err error
guard true error = ok tt

infixl 5 ◌>>=◌
abbrev pub ◌>>=◌ {κ ℓ} : {B : Type κ} {A : Type ℓ} → Result A → (A → Result B) → Result B
panic >>= next = panic
out_of_fuel >>= next = out_of_fuel
err error >>= next = err error
ok value >>= next = next value

-- The same by name, for modules whose `>>=` is another.
abbrev pub bind {κ ℓ} : {B : Type κ} {A : Type ℓ} → Result A → (A → Result B) → Result B
bind first next = first >>= next

-- A run that ends in a value had a first step that ends in one.
pub >>=-eq-ok {κ ℓ} :
    {B : Type κ} {A : Type ℓ} (first : Result A) (next : A → Result B) {result : B}
    → (first >>= next) ≡ ok result
    → (value : A) × (first ≡ ok value) × (next value ≡ ok result)
>>=-eq-ok panic next run = cc
>>=-eq-ok out_of_fuel next run = cc
>>=-eq-ok (err error) next run = cc
>>=-eq-ok (ok value) next run = (value, refl, run)

infixl 5 ◌>>◌
abbrev pub ◌>>◌ {κ} : {B : Type κ} → Result (Unit {0}) → Result B → Result B
check >> next = check >>= λ _. next

-- Whatever value the outcome holds satisfies `P`.
pub data Ensures {ℓ κ} {A : Type ℓ} (P : A → Type κ) : Result A → Type (ℓ ⊔ κ) where
  on_ok : {a : A} → P a → Ensures P (ok a)
  on_err : {e : Error} → Ensures P (err e)
  on_panic : Ensures P panic
  on_out_of_fuel : Ensures P out_of_fuel

pub Ensures-bind {ℓ κ μ ν} :
    {A : Type ℓ} {B : Type κ} {P : A → Type μ} {Q : B → Type ν} (m : Result A) {f : A → Result B}
    → Ensures P m
    → ((a : A) → P a → Ensures Q (f a))
    → Ensures Q (m >>= f)
Ensures-bind m (on_ok {a} p) k = k a p
Ensures-bind m on_err k = on_err
Ensures-bind m on_panic k = on_panic
Ensures-bind m on_out_of_fuel k = on_out_of_fuel

pub Ensures-map {ℓ κ μ} :
    {A : Type ℓ} {P : A → Type κ} {Q : A → Type μ} {m : Result A}
    → Ensures P m
    → ((a : A) → P a → Q a)
    → Ensures Q m
Ensures-map (on_ok {a} p) f = on_ok (f a p)
Ensures-map on_err f = on_err
Ensures-map on_panic f = on_panic
Ensures-map on_out_of_fuel f = on_out_of_fuel

-- `Ensures-bind` where nothing is claimed of the first step.
pub Ensures-then {ℓ κ ν} :
    {A : Type ℓ} {B : Type κ} {Q : B → Type ν} (m : Result A) {f : A → Result B}
    → ((a : A) → Ensures Q (f a))
    → Ensures Q (m >>= f)
Ensures-then (ok a) k = k a
Ensures-then (err e) k = on_err
Ensures-then panic k = on_panic
Ensures-then out_of_fuel k = on_out_of_fuel

pub Ensures_lem {ℓ κ} :
    {A : Type ℓ} {P : A → Type κ} (m : Result A) → ((a : A) → m ≡ ok a → P a) → Ensures P m
Ensures_lem (ok a) h = on_ok (h a refl)
Ensures_lem (err e) h = on_err
Ensures_lem panic h = on_panic
Ensures_lem out_of_fuel h = on_out_of_fuel

pub Ensures-ok {ℓ κ} :
    {A : Type ℓ} {P : A → Type κ} {m : Result A} {a : A} → Ensures P m → m ≡ ok a → P a
Ensures-ok {A = A} {P = P} (on_ok {a} p) e = subst P (ok_injective e) p
  where
    ok_injective : {x y : A} → ok x ≡ ok y → x ≡ y
    ok_injective e = cc
Ensures-ok on_err e = absurd (cc)
Ensures-ok on_panic e = absurd (cc)
Ensures-ok on_out_of_fuel e = absurd (cc)

pub if-Ensures {ℓ κ} :
    {A : Type ℓ} {P : A → Type κ} (b : Bool) {x y : Result A}
    → Ensures P x
    → Ensures P y
    → Ensures P (if b then x else y)
if-Ensures true p q = p
if-Ensures false p q = q

-- The run ends: its fuel suffices.
pub data Ends {ℓ} {A : Type ℓ} : Result A → Type ℓ where
  ends_ok : {a : A} → Ends (ok a)
  ends_err : {error : Error} → Ends (err error)
  ends_panic : Ends panic

pub Ends-bind {ℓ κ} :
    {A : Type ℓ} {B : Type κ} (m : Result A) {f : A → Result B}
    → Ends m
    → ((a : A) → m ≡ ok a → Ends (f a))
    → Ends (m >>= f)
Ends-bind m (ends_ok {a}) k = k a refl
Ends-bind m ends_err k = ends_err
Ends-bind m ends_panic k = ends_panic

pub assert-Ends {ℓ} : {A : Type ℓ} (b : Bool) {m : Result A} → Ends m → Ends (assert b >> m)
assert-Ends true e = e
assert-Ends false e = ends_panic

pub guard-Ends : (b : Bool) (error : Error) → Ends (guard b error)
guard-Ends true error = ends_ok
guard-Ends false error = ends_err

pub if-Ends {ℓ} :
    {A : Type ℓ} (b : Bool) {x y : Result A} → Ends x → Ends y → Ends (if b then x else y)
if-Ends true p q = p
if-Ends false p q = q

-- The outcome is a value: no error, no panic, and the loops end.
pub data Returns {ℓ} {A : Type ℓ} : Result A → Type ℓ where
  returns : {a : A} → Returns (ok a)

pub Returns-bind {ℓ κ} :
    {A : Type ℓ} {B : Type κ} (m : Result A) {f : A → Result B}
    → Returns m
    → ((a : A) → m ≡ ok a → Returns (f a))
    → Returns (m >>= f)
Returns-bind m (returns {a}) k = k a refl

pub if-Returns {ℓ} :
    {A : Type ℓ} (b : Bool) {x y : Result A} → Returns x → Returns y → Returns (if b then x else y)
if-Returns true p q = p
if-Returns false p q = q

pub Returns-ok {ℓ} : {A : Type ℓ} {m : Result A} → Returns m → (a : A) × (m ≡ ok a)
Returns-ok (returns {a}) = (a, refl)
