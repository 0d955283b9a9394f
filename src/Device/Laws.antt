-- ===== src/Device/Laws.antt =====
-- Which function a configuration access reaches.
use greens.Base.{ℕ, ◌+◌, ◌*◌, ◌≤◌, ◌<◌, ◌≡◌, ◌↔◌, refl, arith, List, length, none, some}
use greens.Error.{err, access_bounds}
use greens.Device.{PciDevice, function_index_and_offset, read_config, write_config}

-- An offset is that of a function and an offset in its configuration space exactly when it is 256
-- times the function, of 8, and an offset below 256.
pub function_index_and_offset_iff :
    (offset function within : ℕ)
    → (function_index_and_offset offset ≡ some (function, within))
      ↔ ((offset ≡ 256 * function + within) × (within < 256) × (function ≤ 7))
unfolding function_index_and_offset
function_index_and_offset_iff offset function within = ground arith

index_past :
    (function within : ℕ)
    → within < 256
    → 7 < function
    → function_index_and_offset (256 * function + within) ≡ none
unfolding function_index_and_offset
index_past function within h past = ground arith

module _ {S : Type 0} (device : PciDevice S) where
  -- A configuration access at an offset below 256 of one of the 8 functions reaches that function.
  pub config_access_reaches :
      (s : S) (function within : ℕ) (bytes : List ℕ)
      → within < 256
      → function ≤ 7
      → (read_config device s (256 * function + within) bytes
          ≡ device.read_fn_config s function within bytes)
        × (write_config device s (256 * function + within) bytes
            ≡ device.write_fn_config s function within bytes)
  unfolding read_config write_config
  config_access_reaches s function within bytes h few =
      let found =
        (function_index_and_offset_iff (256 * function + within) function within).1
          (refl, h, few) in
      (rw (found, read_config) refl, rw (found, write_config) refl)

  -- A configuration access past the 8 functions is the error of its bounds, and does not reach the
  -- device.
  pub config_access_refuses :
      (s : S) (function within : ℕ) (bytes : List ℕ)
      → within < 256
      → 7 < function
      → (read_config device s (256 * function + within) bytes
          ≡ err (access_bounds (256 * function + within) (length bytes)))
        × (write_config device s (256 * function + within) bytes
            ≡ err (access_bounds (256 * function + within) (length bytes)))
  unfolding read_config write_config
  config_access_refuses s function within bytes h past =
      let none_found = index_past function within h past in
      (rw (none_found, read_config) refl, rw (none_found, write_config) refl)
