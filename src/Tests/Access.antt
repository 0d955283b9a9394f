-- ===== src/Tests/Access.antt =====
-- Runs of the theorems on the checked accesses, on a new configuration space.
use greens.Base.{◌≡◌, arith, [], ◌∷◌}
use greens.Error.{ok}
use greens.Config.{new, set_word, set}
use greens.Utils.RegisterBlock
use greens.Word.{to_le_bytes}
use greens.Config.Access.{read_checked}
use greens.Config.Access.Laws.{read_checked_lem}
use greens.Tests.{fresh, fresh-IsShaped}

read_checked_example : read_checked fresh 2 (0 ∷ 0 ∷ []) ≡ (0 ∷ 0 ∷ [], ok tt)
unfolding fresh new set_word set RegisterBlock.set to_le_bytes
read_checked_example = read_checked_lem fresh 2 (0 ∷ 0 ∷ []) fresh-IsShaped (omega arith)
