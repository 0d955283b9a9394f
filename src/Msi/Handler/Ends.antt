-- ===== src/Msi/Handler/Ends.antt =====
-- The loop over the pending vectors ends.
use greens.Base.{
  ℕ, zero, suc, ◌+◌, ◌^◌, ◌≤◌, ◌<◌, ◌≡◌, arith, List, [], ◌++◌, Option, none, some, length, leb,
  ◌==◌,
}
use greens.Error.{Result, ok, ◌>>=◌, Ends, Ends-bind, ends_ok, assert-Ends, >>=-eq-ok}
use greens.Word.{to_le_bytes}
use greens.Utils.RegisterBlock
use greens.Config.{PciConfigurationSpace, read_word, read_dword, write_dword, write}
use greens.Function.{PciMsiMessage}
use greens.Msi.{pending_bits_offset, num_capable_vectors}
use greens.Msi.Source.{PciMsiMessageSource, try_generate_message}
use greens.Msi.Handler.{
  next_pending_vector, pending_from, sent, evaluate_from, evaluate_pending_interrupts,
}
use greens.Msi.Handler.Loop.{candidate, candidate-IsLowest, num_capable_vectors-le}

read-Ends : (arr : List ℕ) (offset n : ℕ) → Ends (RegisterBlock.read arr offset n)
unfolding RegisterBlock.read
read-Ends arr offset n = assert-Ends (leb (offset + n) (length arr)) ends_ok

pub read_word-Ends : (c : PciConfigurationSpace) (offset : ℕ) → Ends (read_word c offset)
unfolding read_word RegisterBlock.read_word
read_word-Ends c offset = Ends-bind _ (read-Ends c.registers offset 2) (λ a e. ends_ok)

pub read_dword-Ends : (c : PciConfigurationSpace) (offset : ℕ) → Ends (read_dword c offset)
unfolding read_dword RegisterBlock.read_dword
read_dword-Ends c offset = Ends-bind _ (read-Ends c.registers offset 4) (λ a e. ends_ok)

block_write-Ends :
    (arr bits : List ℕ) (offset : ℕ) (bytes : List ℕ)
    → Ends (RegisterBlock.write arr bits offset bytes)
unfolding RegisterBlock.write
block_write-Ends arr bits offset bytes =
    assert-Ends (leb (offset + length bytes) (length arr))
      (assert-Ends (leb (offset + length bytes) (length bits)) ends_ok)

pub write_dword-Ends : (c : PciConfigurationSpace) (offset v : ℕ) → Ends (write_dword c offset v)
unfolding write_dword write
write_dword-Ends c offset v = assert-Ends (length c.registers == length c.writable_bits) (
    Ends-bind _ (block_write-Ends c.registers c.writable_bits offset (to_le_bytes 4 v))
      (λ b f. ends_ok))

pending_from-Ends :
    (c : PciConfigurationSpace) (msi since control : ℕ) (o : Option ℕ)
    → Ends (pending_from c msi since control o)
unfolding pending_from
pending_from-Ends c msi since control none = ends_ok
pending_from-Ends c msi since control (some offset) =
    Ends-bind _ (read_dword-Ends c (msi + offset)) (λ a e. ends_ok)

next_pending_vector-Ends :
    (c : PciConfigurationSpace) (msi since : ℕ) → Ends (next_pending_vector c msi since)
unfolding next_pending_vector
next_pending_vector-Ends c msi since =
    Ends-bind _ (read_word-Ends c msi)
      (λ control e. pending_from-Ends c msi since control (pending_bits_offset control))

-- A vector that is found is at or above `since`, and below 32.
pending_from-progress :
    (c : PciConfigurationSpace) (msi since control v : ℕ) (o : Option ℕ)
    → since < 2 ^ 32
    → pending_from c msi since control o ≡ ok (some v)
    → (since ≤ v) × (v < 32)
unfolding pending_from
pending_from-progress c msi since control v none h e = absurd (cc)
pending_from-progress c msi since control v (some offset) h e =
    let (bits, read, found) = >>=-eq-ok (read_dword c (msi + offset)) _ e in
    let few = num_capable_vectors-le control in
    let below : candidate bits since < num_capable_vectors control = ground arith in
    let same : candidate bits since ≡ v = ground arith in
    let low = candidate-IsLowest bits since h (num_capable_vectors control) few below in
    (omega (arith, low.0), omega arith)

next_pending_vector-progress :
    (c : PciConfigurationSpace) (msi since v : ℕ)
    → since < 2 ^ 32
    → next_pending_vector c msi since ≡ ok (some v)
    → (since ≤ v) × (v < 32)
unfolding next_pending_vector
next_pending_vector-progress c msi since v h e =
    let (control, word, run) = >>=-eq-ok (read_word c msi) _ e in
    pending_from-progress c msi since control v (pending_bits_offset control) h run

module _ {S : Type 0} (source : PciMsiMessageSource S) (msi : ℕ)
    (generates : (s : S) (c : PciConfigurationSpace) (vector : ℕ)
      → Ends (try_generate_message source s c vector)) where
  found-Ends :
      (fuel : ℕ) (s : S) (c : PciConfigurationSpace) (start : ℕ) (found : Option ℕ)
      → start ≤ 32
      → next_pending_vector c msi start ≡ ok found
      → ((t : S × PciConfigurationSpace) (later : ℕ)
          → later ≤ 32
          → start < later
          → Ends (evaluate_from source msi fuel t.0 t.1 later))
      → Ends (elim found as (λ _. Result ((S × PciConfigurationSpace) × List PciMsiMessage)) [
        | none ↦ ok ((s, c), [])
        | some vector ↦ do
          (t, outcome) ← try_generate_message source s c vector
          (u, messages) ← evaluate_from source msi fuel t.0 t.1 (vector + 1)
          ok (u, sent outcome ++ messages)
      ])
  found-Ends fuel s c start none small e rest = ends_ok
  found-Ends fuel s c start (some vector) small e rest =
      let ahead = next_pending_vector-progress c msi start vector (omega arith) e in
      Ends-bind (try_generate_message source s c vector) (generates s c vector) λ r g.
        Ends-bind (evaluate_from source msi fuel r.0.0 r.0.1 (vector + 1))
          (rest r.0 (vector + 1) (omega (arith, ahead)) (omega (arith, ahead))) (λ u f. ends_ok)

  evaluate_from-Ends :
      (fuel : ℕ) (s : S) (c : PciConfigurationSpace) (start : ℕ)
      → start ≤ 32
      → 33 ≤ start + fuel
      → Ends (evaluate_from source msi fuel s c start)
  unfolding evaluate_from
  evaluate_from-Ends zero s c start small enough = absurd (omega arith)
  evaluate_from-Ends (suc fuel) s c start small enough =
      Ends-bind (next_pending_vector c msi start) (next_pending_vector-Ends c msi start) λ found e.
        found-Ends fuel s c start found small e
          (λ t later p q. evaluate_from-Ends fuel t.0 t.1 later p (omega arith))

  -- The fuel of the loop suffices for a source whose messages are generated without a loop that does
  -- not end: each round finds a higher vector, of 32.
  pub evaluate-Ends :
      (s : S) (c : PciConfigurationSpace) → Ends (evaluate_pending_interrupts source msi s c)
  unfolding evaluate_pending_interrupts
  evaluate-Ends s c = evaluate_from-Ends 33 s c 0 (omega arith) (omega arith)
