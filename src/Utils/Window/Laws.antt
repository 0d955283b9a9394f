-- ===== src/Utils/Window/Laws.antt =====
-- When `access_data_window` is the intersection of the access and the capability.
use greens.Base.{ℕ, ◌+◌, ◌-◌, ◌*◌, ◌≤◌, ◌<◌, ◌≡◌, ◌↔◌, arith, some, none}
use greens.Word.{usize_max}
use greens.Utils.Window.{access_data_window}

-- Position `i` of the data of an access at `access_offset` falls on the capability.
abbrev pub OnCap : ℕ → ℕ → ℕ → ℕ → Type 0
OnCap access_offset cap_offset cap_size i =
    (cap_offset ≤ access_offset + i) × (access_offset + i < cap_offset + cap_size)

-- A window of an access that does not reach past the capability holds exactly the positions of
-- the data that fall on the capability.
pub access_data_window_inside :
    (access_offset access_size cap_offset cap_size start end i : ℕ)
    → access_offset + access_size ≤ cap_offset + cap_size
    → access_data_window access_offset access_size cap_offset cap_size ≡ some (start, end)
    → i < access_size
    → ((start ≤ i) × (i < end)) ↔ OnCap access_offset cap_offset cap_size i
unfolding access_data_window
access_data_window_inside access_offset access_size cap_offset cap_size start end i h e p =
    ground arith

-- When neither end overflows and no window is given, no position of the data falls on the
-- capability.
pub access_data_window-none :
    (access_offset access_size cap_offset cap_size : ℕ)
    → access_offset + access_size ≤ usize_max
    → cap_offset + cap_size ≤ usize_max
    → access_data_window access_offset access_size cap_offset cap_size ≡ none
    → (i : ℕ) → i < access_size
    → ¬ OnCap access_offset cap_offset cap_size i
unfolding access_data_window
access_data_window-none access_offset access_size cap_offset cap_size p q e i h c = ground arith

-- For an access that begins on the capability and reaches past it, the window starts at 0 and
-- ends after as many bytes as reach past; that is the number of bytes on the capability only
-- when the access is twice as long as it.
pub access_data_window_past :
    (access_offset access_size cap_offset cap_size : ℕ)
    → access_offset + access_size ≤ usize_max
    → cap_offset ≤ access_offset
    → access_offset < cap_offset + cap_size
    → cap_offset + cap_size < access_offset + access_size
    → (end : ℕ) × (access_data_window access_offset access_size cap_offset cap_size ≡ some (0, end))
      × (end ≡ access_offset + access_size - (cap_offset + cap_size))
      × ((end ≡ cap_offset + cap_size - access_offset)
          ↔ (access_size ≡ 2 * (cap_offset + cap_size - access_offset)))
unfolding access_data_window
access_data_window_past access_offset access_size cap_offset cap_size p q r s = (
  access_offset + access_size - (cap_offset + cap_size),
  ground arith,
  ground arith,
  ground arith,
)
