-- ===== src/Tests/Caps.antt =====
-- Runs of the theorems on the capability list, with a capability of four bytes in a new space.
use greens.Base.{ℕ, ◌+◌, ◌≡◌, refl, arith, List, [], ◌∷◌, ◌++◌, map}
use greens.Word.{to_le_bytes}
use greens.Error.{ok, err, device_area_bounds}
use greens.Utils.RegisterBlock
use greens.Capability.{PciCapability, PciCapabilityId, IsCapability, id_code}
use greens.Config.{PciConfigurationSpace, new, set_word, set}
use greens.Config.Shape.{IsShaped}
use greens.Config.Caps.{
  Item, add_capability, update_capability, capability_iter, set_capability_data,
}
use greens.Config.Caps.Chain.{Entry}
use greens.Config.Caps.Last.{HasCaps, next_start}
use greens.Config.Caps.Add.{
  add_capability-capability_iter, add_capability_full, listed, Placed, add_capability-Placed,
}
use greens.Config.Caps.Update.{new-HasCaps, update_capability_lem}
use greens.Config.Caps.Walk.{capability_iter-Linked, items_of}
use greens.Tests.{fresh, fresh-IsShaped}

-- A vendor specific capability of `n` bytes with the content given.
abbrev vendor_capability : ℕ → List ℕ → PciCapability
vendor_capability n content = record {
  id = PciCapabilityId.vendor_specific;
  size = n;
  registers = λ old. ok content;
  writable_bits = λ old. ok content;
}

abbrev small_capability : PciCapability
small_capability = vendor_capability 4 (1 ∷ 2 ∷ 3 ∷ 4 ∷ [])

small_capability-IsCapability : IsCapability small_capability
small_capability-IsCapability = record {
  fills_registers = record { filled = λ old n b. (1 ∷ 2 ∷ 3 ∷ 4 ∷ [], refl, refl, omega arith) };
  fills_writable_bits = record {
    filled = λ old n b. (1 ∷ 2 ∷ 3 ∷ 4 ∷ [], refl, refl, omega arith);
  };
}

fresh-HasCaps : HasCaps fresh []
unfolding fresh new set_word set RegisterBlock.set to_le_bytes
fresh-HasCaps = new-HasCaps fresh refl

first_added :
    (c : PciConfigurationSpace) × (add_capability fresh small_capability ≡ ok (c, 0x42))
    × Placed fresh small_capability [] c
first_added =
    add_capability-Placed fresh small_capability [] fresh-IsShaped small_capability-IsCapability
      fresh-HasCaps (omega arith)

abbrev one_entry : List Entry
one_entry = (0x40, 9) ∷ []

-- The space with one capability.
with_cap : PciConfigurationSpace
unfolding first_added
with_cap = first_added.0

with_cap-IsShaped : IsShaped with_cap
unfolding with_cap
with_cap-IsShaped = first_added.2.shaped

with_cap-HasCaps : HasCaps with_cap ((0x40, 9) ∷ [])
unfolding with_cap id_code
with_cap-HasCaps = first_added.2.caps

with_cap-size : with_cap.last_cap_size ≡ 4
unfolding with_cap
with_cap-size = first_added.2.size

-- The second capability.
add_capability-capability_iter_example :
    (c' : PciConfigurationSpace) × (items : List Item) × (items' : List Item) × (add_capability
        with_cap small_capability
      ≡ ok (c', next_start with_cap one_entry + 2))
    × (capability_iter with_cap ≡ ok items)
    × (capability_iter c' ≡ ok items')
    × (map listed items' ≡ map listed items ++ (9, next_start with_cap one_entry + 2) ∷ [])
    × HasCaps c' ((0x40, 9) ∷ (next_start with_cap one_entry, 9) ∷ [])
unfolding id_code
add_capability-capability_iter_example =
    add_capability-capability_iter with_cap small_capability one_entry with_cap-IsShaped
      small_capability-IsCapability with_cap-HasCaps (omega (arith, with_cap-size))

add_capability_full_example :
    add_capability fresh (vendor_capability 190 []) ≡ err (device_area_bounds 256 255)
add_capability_full_example =
    add_capability_full fresh (vendor_capability 190 []) [] fresh-IsShaped fresh-HasCaps
      (omega arith) (omega arith)

update_capability_example :
    update_capability with_cap small_capability 0x42
    ≡ set_capability_data with_cap small_capability 0x42
unfolding id_code
update_capability_example =
    update_capability_lem with_cap small_capability 0x42 one_entry with_cap-IsShaped
      with_cap-HasCaps

capability_iter-Linked_example :
    capability_iter with_cap ≡ ok (items_of with_cap.registers one_entry)
capability_iter-Linked_example =
    capability_iter-Linked with_cap _ one_entry with_cap-IsShaped with_cap-HasCaps.fits
      with_cap-HasCaps.linked
