-- ===== src/Utils/RegisterBlock/Writes.antt =====
-- Masked writes: which bits of the block change.
use greens.Base.{
  ℕ, zero, suc, ◌+◌, ◌-◌, ◌≤◌, ◌<◌, ◌≡◌, refl, ap, arith, List, [], ◌∷◌, length, slice, splice,
  get_or, leb, ltb, ◌&&◌, if◌then◌else◌, le→leb, length-splice, length-slice, get_or-splice_in,
  bit_and,
}
use greens.Base.Slices.{
  All-splice, All-slice, All-get_or, get_or-splice_before, get_or-splice_after, get_or-slice,
}
use greens.Bits.{
  testbit, has_bit, complement, testbit-bit_and, testbit-bit_or, testbit-complement, testbit-le,
  bit_or-lt, bit_and-lt,
}
use greens.Word.{IsBytes, IsByte}
use greens.Error.{ok}
use greens.Utils.RegisterBlock.{update_register, update_registers, write}

-- A writable bit takes the new value; any other keeps the current one.
pub update_register-bits :
    (current new bits i : ℕ)
    → bits < 256
    → i < 8
    → testbit (update_register current new bits) i
      ≡ (if has_bit bits i then testbit new i else testbit current i)
unfolding update_register
update_register-bits current new bits i h p = ground (
  arith,
  testbit-bit_or i (bit_and current (complement 8 bits)) (bit_and new bits),
  testbit-bit_and i current (complement 8 bits),
  testbit-bit_and i new bits,
  testbit-complement i 8 bits h p,
  testbit-le bits i,
  testbit-le new i,
  testbit-le current i,
)

update_register-IsByte :
    (current new bits : ℕ) → current < 256 → new < 256 → update_register current new bits < 256
unfolding update_register
update_register-IsByte current new bits h p =
    bit_or-lt 8 _ _ (bit_and-lt 8 current _ h) (bit_and-lt 8 new bits p)

update_registers-IsBytes :
    (cs ns ws : List ℕ) → IsBytes cs → IsBytes ns → IsBytes (update_registers cs ns ws)
unfolding update_registers
update_registers-IsBytes [] ns ws p q = tt
update_registers-IsBytes (c ∷ cs) [] ws p q = p
update_registers-IsBytes (c ∷ cs) (n ∷ ns) [] p q = p
update_registers-IsBytes (c ∷ cs) (n ∷ ns) (w ∷ ws) p q =
    (update_register-IsByte c n w p.0 q.0, update_registers-IsBytes cs ns ws p.1 q.1)

length-update_registers : (cs ns ws : List ℕ) → length (update_registers cs ns ws) ≡ length cs
unfolding update_registers
length-update_registers [] ns ws = refl
length-update_registers (c ∷ cs) [] ws = refl
length-update_registers (c ∷ cs) (n ∷ ns) [] = refl
length-update_registers (c ∷ cs) (n ∷ ns) (w ∷ ws) = ap suc (length-update_registers cs ns ws)

get_or-update_registers :
    (cs ns ws : List ℕ) (j : ℕ)
    → j < length cs
    → length ns ≡ length cs
    → length ws ≡ length cs
    → get_or (update_registers cs ns ws) j 0
      ≡ update_register (get_or cs j 0) (get_or ns j 0) (get_or ws j 0)
unfolding update_registers
get_or-update_registers [] ns ws j h p q = absurd (omega arith)
get_or-update_registers (c ∷ cs) [] ws j h p q = absurd (omega arith)
get_or-update_registers (c ∷ cs) (n ∷ ns) [] j h p q = absurd (omega arith)
get_or-update_registers (c ∷ cs) (n ∷ ns) (w ∷ ws) zero h p q = refl
get_or-update_registers (c ∷ cs) (n ∷ ns) (w ∷ ws) (suc j) h p q =
    get_or-update_registers cs ns ws j (omega arith) (omega arith) (omega arith)

pub write-ok :
    (arr bits : List ℕ) (offset : ℕ) (new : List ℕ)
    → offset + length new ≤ length arr
    → offset + length new ≤ length bits
    → write arr bits offset new
      ≡ ok (
          splice arr offset
            (update_registers (slice arr offset (length new)) new (slice bits offset (length new))))
unfolding write
write-ok arr bits offset new h p = rw (le→leb _ _ h, le→leb _ _ p)

-- The block that a write leaves.
abbrev pub written : List ℕ → List ℕ → ℕ → List ℕ → List ℕ
written arr bits offset new =
    splice arr offset
      (update_registers (slice arr offset (length new)) new (slice bits offset (length new)))

-- A write succeeds only inside both arrays.
pub write-fits :
    (arr bits : List ℕ) (offset : ℕ) (new : List ℕ) {arr' : List ℕ}
    → write arr bits offset new ≡ ok arr'
    → (offset + length new ≤ length arr) × (offset + length new ≤ length bits)
unfolding write
write-fits arr bits offset new e = ground arith

write-eq :
    (arr bits : List ℕ) (offset : ℕ) (new : List ℕ) {arr' : List ℕ}
    → write arr bits offset new ≡ ok arr'
    → written arr bits offset new ≡ arr'
write-eq arr bits offset new e =
    let fits = write-fits arr bits offset new e in cc (write-ok arr bits offset new fits.0 fits.1)

pub write-length :
    (arr bits : List ℕ) (offset : ℕ) (new : List ℕ) {arr' : List ℕ}
    → write arr bits offset new ≡ ok arr'
    → length arr' ≡ length arr
write-length arr bits offset new e =
    rw (← write-eq arr bits offset new e) (length-splice arr offset _)

pub write-IsBytes :
    (arr bits : List ℕ) (offset : ℕ) (new : List ℕ) {arr' : List ℕ}
    → IsBytes arr
    → IsBytes new
    → write arr bits offset new ≡ ok arr'
    → IsBytes arr'
write-IsBytes arr bits offset new h k e = rw (← write-eq arr bits offset new e) (
    All-splice IsByte arr offset _ h
      (update_registers-IsBytes _ new _ (All-slice IsByte arr offset (length new) h) k))

-- The byte at `j` after a write.
pub write-byte :
    (arr bits : List ℕ) (offset : ℕ) (new : List ℕ) (j : ℕ) {arr' : List ℕ}
    → write arr bits offset new ≡ ok arr'
    → get_or arr' j 0 ≡ (
        if leb offset j && ltb j (offset + length new)
        then update_register (get_or arr j 0) (get_or new (j - offset) 0) (get_or bits j 0)
        else get_or arr j 0)
write-byte arr bits offset new j {arr'} e =
    let fits = write-fits arr bits offset new e in
    let cs = slice arr offset (length new) in
    let ws = slice bits offset (length new) in
    rw (← write-eq arr bits offset new e) (
      ground (
        arith,
        length-slice arr offset (length new),
        length-slice bits offset (length new),
        length-update_registers cs new ws,
        get_or-update_registers cs new ws (j - offset),
        get_or-slice 0 arr offset (length new) (j - offset),
        get_or-slice 0 bits offset (length new) (j - offset),
        get_or-splice_in 0 arr offset (update_registers cs new ws) j,
        get_or-splice_before 0 arr offset (update_registers cs new ws) j,
        get_or-splice_after 0 arr offset (update_registers cs new ws) j,
      ))

-- A write that fits changes exactly the writable bits of the bytes that it covers: in those
-- bytes a writable bit takes the new value and any other keeps its own, and all other bytes stay.
pub write-bits :
    (arr bits : List ℕ) (offset : ℕ) (new : List ℕ) (j i : ℕ) {arr' : List ℕ}
    → write arr bits offset new ≡ ok arr'
    → IsBytes bits
    → i < 8
    → (length arr' ≡ length arr)
      × (testbit (get_or arr' j 0) i ≡ (
          if leb offset j && ltb j (offset + length new) && has_bit (get_or bits j 0) i
          then testbit (get_or new (j - offset) 0) i
          else testbit (get_or arr j 0) i))
write-bits arr bits offset new j i {arr'} e b p = (
  write-length arr bits offset new e,
  ground (
    arith,
    write-byte arr bits offset new j e,
    update_register-bits (get_or arr j 0) (get_or new (j - offset) 0) (get_or bits j 0) i
        (All-get_or IsByte 0 bits j b (omega arith)) p,
  ),
)
