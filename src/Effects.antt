-- ===== src/Effects.antt =====
-- The calls that code makes on the interrupt controller (lib.rs: `PciInterruptController`), and
-- runs of code that changes a state, calls the controller and returns a value or an error. The
-- error of a run may come after the state has changed, and keeps the change and the calls.
use greens.Base.{ℕ, List, [], ◌++◌}
use greens.Error.{Error, Result, ok, err, panic, out_of_fuel, bind}
use greens.Function.{PciMsiMessage}
use greens.Intx.{PciInterruptLineState}

pub data Call : Type 0 where
  set_interrupt : ℕ → PciInterruptLineState → Call
  send_msi : PciMsiMessage → Call

-- What a function that returns a `Result` has returned.
pub data Returned {ℓ} (A : Type ℓ) : Type ℓ where
  returned : A → Returned A
  raised : Error → Returned A

-- A result as what is returned, an error included.
abbrev pub as_returned {ℓ} : {A : Type ℓ} → Result A → Result (Returned A)
as_returned (ok a) = ok (returned a)
as_returned (err e) = ok (raised e)
as_returned panic = panic
as_returned out_of_fuel = out_of_fuel

-- The state afterwards, the calls in their order, and what is returned.
abbrev pub Run {ℓ} : Type 0 → Type ℓ → Type ℓ
Run S A = S → Result (S × List Call × Returned A)

module _ {ℓ} {S : Type 0} {A : Type ℓ} where
  abbrev pub return : A → Run S A
  return a s = ok (s, [], returned a)

  abbrev pub raise : Error → Run S A
  raise e s = ok (s, [], raised e)

  -- A computation that leaves the state alone.
  abbrev pub lift_result : Result A → Run S A
  lift_result (ok a) s = ok (s, [], returned a)
  lift_result (err e) s = ok (s, [], raised e)
  lift_result panic s = panic
  lift_result out_of_fuel s = out_of_fuel

  abbrev pub inspect : (S → Result A) → Run S A
  inspect f s = lift_result (f s) s

module _ {κ ℓ} {S : Type 0} {B : Type κ} {A : Type ℓ} where
  -- The rest of a run, after the calls of its first part.
  abbrev pub continue :
      (A → Run S B) → S × List Call × Returned A → Result (S × List Call × Returned B)
  continue next (t, calls, raised e) = ok (t, calls, raised e)
  continue next (t, calls, returned a) = bind (next a t) λ r. ok (r.0, calls ++ r.1, r.2)

infixl 5 ◌>>=◌
abbrev pub ◌>>=◌ {κ ℓ} : {S : Type 0} {B : Type κ} {A : Type ℓ} → Run S A → (A → Run S B) → Run S B
(first >>= next) s = bind (first s) (continue next)

infixl 5 ◌>>◌
abbrev pub ◌>>◌ {κ ℓ} : {S : Type 0} {B : Type κ} {A : Type ℓ} → Run S A → Run S B → Run S B
first >> next = first >>= λ _. next

-- A run on a part of the state.
abbrev pub zoom {ℓ} : {S T : Type 0} {A : Type ℓ} → (S → T) → (S → T → S) → Run T A → Run S A
zoom get put run s = bind (run (get s)) λ r. ok (put s r.0, r.1, r.2)
