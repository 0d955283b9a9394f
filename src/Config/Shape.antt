-- ===== src/Config/Shape.antt =====
-- The shape of a `PciConfigurationSpace`, which its Rust type gives: two arrays of 256 bytes and
-- six BAR slots. The setters keep it.
use greens.Base.{ℕ, ◌≡◌, refl, ◌∙◌, arith, List, [], ◌∷◌, length, slice, splice, length-splice}
use greens.Base.Slices.{All-splice, All-slice, All-replicate}
use greens.Bits.{bit_or-lt}
use greens.Word.{IsByte, IsBytes, to_le_bytes-IsBytes}
use greens.Error.{ok}
use greens.Utils.RegisterBlock
use greens.Utils.RegisterBlock.Laws.{set_keeps}
use greens.Utils.RegisterBlock.Writes.{write-length, write-IsBytes}
use greens.Config.{
  PciConfigurationSpace, set, write, set_writable_bits, add_writable_bits, or_bytes, new, zeroed,
  set_word,
}

pub record IsShaped (c : PciConfigurationSpace) : Type 0 where
  pub registers_length : length c.registers ≡ 256
  pub writable_length : length c.writable_bits ≡ 256
  pub registers_bytes : IsBytes c.registers
  pub writable_bytes : IsBytes c.writable_bits
  pub bars_length : length c.bars ≡ 6

-- A set stores its bytes in the registers and leaves the rest of the state alone.
pub set-eq :
    (c : PciConfigurationSpace) (offset : ℕ) (bytes : List ℕ) {c' : PciConfigurationSpace}
    → set c offset bytes ≡ ok c'
    → (RegisterBlock.set c.registers offset bytes ≡ ok c'.registers)
      × (c'.writable_bits ≡ c.writable_bits)
      × (c'.bars ≡ c.bars)
      × (c'.last_cap_size ≡ c.last_cap_size)
unfolding set
set-eq c offset bytes e = ground arith

pub write-eq :
    (c : PciConfigurationSpace) (offset : ℕ) (bytes : List ℕ) {c' : PciConfigurationSpace}
    → write c offset bytes ≡ ok c'
    → (RegisterBlock.write c.registers c.writable_bits offset bytes ≡ ok c'.registers)
      × (c'.writable_bits ≡ c.writable_bits)
      × (c'.bars ≡ c.bars)
      × (c'.last_cap_size ≡ c.last_cap_size)
unfolding write
write-eq c offset bytes e = ground arith

pub set-IsShaped :
    (c : PciConfigurationSpace) (offset : ℕ) (bytes : List ℕ) {c' : PciConfigurationSpace}
    → IsBytes bytes
    → IsShaped c
    → set c offset bytes ≡ ok c'
    → IsShaped c'
set-IsShaped c offset bytes {c'} b s e =
    let same = set-eq c offset bytes e in
    let stored = set_keeps c.registers offset bytes same.0 in
    record {
      registers_length = stored.0 ∙ s.registers_length;
      writable_length = rw same.1 s.writable_length;
      registers_bytes =
          rw stored.2 (All-splice IsByte c.registers offset bytes s.registers_bytes b);
      writable_bytes = rw same.1 s.writable_bytes;
      bars_length = rw same.2 s.bars_length;
    }

pub write-IsShaped :
    (c : PciConfigurationSpace) (offset : ℕ) (bytes : List ℕ) {c' : PciConfigurationSpace}
    → IsBytes bytes
    → IsShaped c
    → write c offset bytes ≡ ok c'
    → IsShaped c'
write-IsShaped c offset bytes {c'} b s e =
    let same = write-eq c offset bytes e in
    record {
      registers_length =
          write-length c.registers c.writable_bits offset bytes same.0 ∙ s.registers_length;
      writable_length = rw same.1 s.writable_length;
      registers_bytes =
          write-IsBytes c.registers c.writable_bits offset bytes s.registers_bytes b same.0;
      writable_bytes = rw same.1 s.writable_bytes;
      bars_length = rw same.2 s.bars_length;
    }

or_bytes-IsBytes : (cs ns : List ℕ) → IsBytes cs → IsBytes ns → IsBytes (or_bytes cs ns)
unfolding or_bytes
or_bytes-IsBytes [] ns p q = tt
or_bytes-IsBytes (c ∷ cs) [] p q = p
or_bytes-IsBytes (c ∷ cs) (n ∷ ns) p q = (bit_or-lt 8 c n p.0 q.0, or_bytes-IsBytes cs ns p.1 q.1)

-- The setters of the writable bits keep the shape too.
pub set_writable_bits-IsShaped :
    (c : PciConfigurationSpace) (offset : ℕ) (bits : List ℕ) {c' : PciConfigurationSpace}
    → IsBytes bits
    → IsShaped c
    → set_writable_bits c offset bits ≡ ok c'
    → IsShaped c'
set_writable_bits-IsShaped c offset bits {c'} b s e =
    let same : record c { writable_bits = splice c.writable_bits offset bits } ≡ c' =
      unfold set_writable_bits in ground arith in
    rw (← same) record {
      registers_length = s.registers_length;
      writable_length = length-splice c.writable_bits offset bits ∙ s.writable_length;
      registers_bytes = s.registers_bytes;
      writable_bytes = All-splice IsByte c.writable_bits offset bits s.writable_bytes b;
      bars_length = s.bars_length;
    }

pub add_writable_bits-IsShaped :
    (c : PciConfigurationSpace) (offset : ℕ) (bits : List ℕ) {c' : PciConfigurationSpace}
    → IsBytes bits
    → IsShaped c
    → add_writable_bits c offset bits ≡ ok c'
    → IsShaped c'
add_writable_bits-IsShaped c offset bits {c'} b s e =
    let added = or_bytes (slice c.writable_bits offset (length bits)) bits in
    let same : record c { writable_bits = splice c.writable_bits offset added } ≡ c' =
      unfold add_writable_bits in ground arith in
    rw (← same) record {
      registers_length = s.registers_length;
      writable_length = length-splice c.writable_bits offset added ∙ s.writable_length;
      registers_bytes = s.registers_bytes;
      writable_bytes = All-splice IsByte c.writable_bits offset added s.writable_bytes (
          or_bytes-IsBytes _ bits
            (All-slice IsByte c.writable_bits offset (length bits) s.writable_bytes) b);
      bars_length = s.bars_length;
    }

-- The state that `new` returns.
pub new-IsShaped : (c : PciConfigurationSpace) → new ≡ ok c → IsShaped c
unfolding new set_word
new-IsShaped c e =
    set-IsShaped zeroed 0 _ (to_le_bytes-IsBytes 2 0xFFFF)
      record {
        registers_length = refl;
        writable_length = refl;
        registers_bytes = All-replicate IsByte 256 0 (omega arith);
        writable_bytes = All-replicate IsByte 256 0 (omega arith);
        bars_length = refl;
      }
      e
