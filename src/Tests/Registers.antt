-- ===== src/Tests/Registers.antt =====
-- Runs of the theorems on register blocks, on a block of eight bytes.
use greens.Base.{ℕ, ◌≡◌, refl, arith, List, [], ◌∷◌, length, replicate, get_or}
use greens.Base.Slices.{All-replicate}
use greens.Word.{IsByte}
use greens.Bits.{testbit}
use greens.Utils.RegisterBlock.{write, update_registers, update_register}
use greens.Utils.RegisterBlock.Writes.{write-bits}

abbrev block : List ℕ
block = replicate 8 0xF0

abbrev mask : List ℕ
mask = replicate 8 0x0F

-- Two bytes of 0x55 at offset 2 under the mask 0x0F.
abbrev after : List ℕ
after = 0xF0 ∷ 0xF0 ∷ 0xF5 ∷ 0xF5 ∷ 0xF0 ∷ 0xF0 ∷ 0xF0 ∷ 0xF0 ∷ []

write-bits_example : (length after ≡ 8) × (testbit (get_or after 3 0) 2 ≡ testbit 0x55 2)
unfolding write update_registers update_register testbit
write-bits_example =
    write-bits block mask 2 (0x55 ∷ 0x55 ∷ []) 3 2 refl (All-replicate IsByte 8 0x0F (omega arith))
      (omega arith)
