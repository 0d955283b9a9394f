-- ===== src/Base/Order.antt =====
-- `<` on the native numbers is well founded.
use Prim.Native.Nat.{ℕ, zero, suc, ◌<◌}
use mathlib.Core.WellFounded.{Acc, WellFounded}
use native.Mathlib.Omega.{arith}

Acc-bounded : (k n : ℕ) → n < k → Acc ◌<◌ n
Acc-bounded zero n h = absurd (omega arith)
Acc-bounded (suc k) n h = Acc.intro n (λ m below. Acc-bounded k m (omega arith))

unfoldable pub lt_wf : WellFounded ◌<◌
unfolding Acc-bounded
lt_wf = record { apply = λ n. Acc-bounded (suc n) n (omega arith) }
