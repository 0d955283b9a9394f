-- ===== src/Tests/Utils.antt =====
-- Runs of the theorems on the functions of utils/mod.rs.
use greens.Base.{ℕ, ◌≡◌, ◌+◌, ◌-◌, ◌*◌, ◌↔◌, arith, some}
use greens.Utils.Window.{access_data_window}
use greens.Utils.Window.Laws.{access_data_window_past}

-- One byte of four falls on the capability, and the window has three.
access_data_window_past_example :
    (end : ℕ) × (access_data_window 6 4 0 7 ≡ some (0, end))
    × (end ≡ 6 + 4 - (0 + 7))
    × ((end ≡ 0 + 7 - 6) ↔ (4 ≡ 2 * (0 + 7 - 6)))
access_data_window_past_example =
    access_data_window_past 6 4 0 7 (omega arith) (omega arith) (omega arith) (omega arith)
