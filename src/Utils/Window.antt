-- ===== src/Utils/Window.antt =====
-- `access_data_window` of utils/mod.rs: which part of an access's data falls on a capability.
pub mod Laws
use greens.Base.{ℕ, ◌-◌, Option, none, some, leb, ◌==◌, if◌then◌else◌}
use greens.Word.{usize_max}
use greens.Utils.Range.{checked_add, checked_sub}

-- `access_end.checked_sub(cap_end).unwrap_or(access_size)`, then `access_size` in place of 0.
window_end : ℕ → ℕ → ℕ → ℕ
unfolding checked_sub
window_end access_end cap_end access_size =
    let end : ℕ = elim (checked_sub access_end cap_end) [ none ↦ access_size | some d ↦ d ] in
    if end == 0 then access_size else end

-- `saturating_sub` is the subtraction of ℕ.
unfoldable pub access_data_window : ℕ → ℕ → ℕ → ℕ → Option (ℕ × ℕ)
unfolding checked_add window_end
access_data_window access_offset access_size cap_offset cap_size =
    elim (checked_add usize_max access_offset access_size) [
      | none ↦ none
      | some access_end ↦ elim (checked_add usize_max cap_offset cap_size) [
        | none ↦ none
        | some cap_end ↦
            let start = cap_offset - access_offset in
            if leb cap_end access_offset
            then none
            else if leb access_size start
            then none
            else some (start, window_end access_end cap_end access_size)
      ]
    ]
