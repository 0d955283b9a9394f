-- ===== src/Tests.antt =====
-- Concrete states of the configuration space, and runs of the theorems on them in the children.
mod Utils
mod Registers
mod Access
mod Bars
mod Caps
mod Msi
pub mod Msix
mod Composite
mod Intx
mod Virtio
use greens.Base.{ℕ, List, [], ◌∷◌, some, none, ◌≡◌, refl}
use greens.Error.{Result, ok, err, panic, out_of_fuel}
use greens.Registers.{pci_command}
use greens.Bar.{PciBar, PciBarType, PciBarPrefetchable}
use greens.Config.Shape.{IsShaped, new-IsShaped}
use greens.Config.{PciConfigurationSpace, zeroed, new, set_word, set}
use greens.Utils.RegisterBlock
use greens.Word.{to_le_bytes}

-- The value of an outcome, or a default.
abbrev pub value_or {ℓ} : {A : Type ℓ} → Result A → A → A
value_or (ok a) b = a
value_or (err e) b = b
value_or panic b = b
value_or out_of_fuel b = b

-- A new space, in which the memory space is then enabled.
unfoldable pub fresh : PciConfigurationSpace
unfolding new set_word set RegisterBlock.set to_le_bytes
fresh = value_or new zeroed

unfoldable pub enabled : PciConfigurationSpace
unfolding fresh set_word set RegisterBlock.set to_le_bytes
enabled = value_or (set_word fresh pci_command 2) fresh

-- A 32-bit memory BAR of 4 KiB.
abbrev pub memory_bar : PciBar
memory_bar = record {
  address = some 0xE000_0000;
  size = 0x1000;
  index = 2;
  region_type = PciBarType.memory_32bit PciBarPrefetchable.prefetchable;
}

pub fresh-IsShaped : IsShaped fresh
unfolding fresh new set_word set RegisterBlock.set to_le_bytes
fresh-IsShaped = new-IsShaped fresh refl
