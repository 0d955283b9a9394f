-- ===== src/Msi/Source.antt =====
-- The message source of msi.rs: the trait `PciMsiMessageSource` with its own `try_generate_message`,
-- and `PciMsi`, which is the offset of its capability.
pub mod Laws
use greens.Base.{
  ℕ, ◌+◌, ◌-◌, ◌*◌, ◌%◌, ◌^◌, bit_and, bit_or, Bool, true, false, not, Option, none, some, ltb,
  ◌==◌, if◌then◌else◌,
}
use greens.Bits.{complement}
use greens.Error.{
  Error, Result, ok, err, panic, out_of_fuel, ◌>>=◌, ◌>>◌, guard, assert, not_bus_master,
  msi_disabled, not_supported, vector_not_masked, invalid_msi_vector,
}
use greens.Config.{PciConfigurationSpace, read_word, read_dword, write_dword, is_bus_master}
use greens.Function.{PciMsiMessage}
use greens.Msi.{
  message_address, message_address_upper, encode, is_enabled, is_64bit, message_data_offset,
  mask_bits_offset, pending_bits_offset, num_capable_vectors, enabled_vectors,
}

-- The trait, for sources with the state `S`.
pub record PciMsiMessageSource (S : Type 0) : Type 0 where
  pub valid_vector : S → PciConfigurationSpace → ℕ → Result Bool
  pub enabled : S → PciConfigurationSpace → Result Bool
  pub masked : S → PciConfigurationSpace → ℕ → Result Bool
  pub pending : S → PciConfigurationSpace → ℕ → Result Bool
  pub set_pending_bit : S → PciConfigurationSpace → ℕ → Bool → Result (S × PciConfigurationSpace)
  pub get_message_for : S → PciConfigurationSpace → ℕ → Result (S × PciMsiMessage)

-- The outcome of `try_generate_message`. An error may come after the pending bit has changed.
pub data Generation : Type 0 where
  is_masked : Generation
  generated : PciMsiMessage → Generation
  failed : Error → Generation

-- An error of a step that has not changed the state is the outcome, with the state before it.
unfoldable pub or_failed {ℓ} :
    {S : Type 0} {A : Type ℓ}
    → S
    → Result A
    → (A → Result (S × Generation))
    → Result (S × Generation)
or_failed s (ok a) next = next a
or_failed s (err e) next = ok (s, failed e)
or_failed s panic next = panic
or_failed s out_of_fuel next = out_of_fuel

module _ {S : Type 0} (source : PciMsiMessageSource S) where
  -- After the checks of the bus master and enable bits.
  unfoldable pub generate :
      S → PciConfigurationSpace → ℕ → Result ((S × PciConfigurationSpace) × Generation)
  unfolding or_failed
  generate s c vector = do
    masked' ← source.masked s c vector
    or_failed (s, c) (source.set_pending_bit s c vector masked')
        λ t.
          if masked'
          then ok (t, Generation.is_masked)
          else or_failed t (source.get_message_for t.0 t.1 vector)
              λ m. ok ((m.0, t.1), generated m.1)

  unfoldable pub try_generate_message :
      S → PciConfigurationSpace → ℕ → Result ((S × PciConfigurationSpace) × Generation)
  unfolding generate
  try_generate_message s c vector = do
    master ← is_bus_master c
    if not master then ok ((s, c), failed not_bus_master) else (do
      enabled' ← source.enabled s c
      if not enabled' then ok ((s, c), failed msi_disabled) else generate s c vector)

-- `1 << vector` of a `u32`.
unfoldable pub bit32 : ℕ → Result ℕ
bit32 vector = do assert (ltb vector 32); ok (2 ^ vector)

-- A bit of the dword at an offset that a capability without per-vector masking does not have.
unfoldable pub vector_bit : PciConfigurationSpace → ℕ → Option ℕ → ℕ → Result Bool
unfolding bit32
vector_bit c msi none vector = ok false
vector_bit c msi (some offset) vector = do
  bits ← read_dword c (msi + offset)
  mask ← bit32 vector
  ok (not (bit_and bits mask == 0))

unfoldable pub msi_is_enabled : ℕ → PciConfigurationSpace → Result Bool
msi_is_enabled msi c = do control ← read_word c msi; ok (is_enabled control)

unfoldable pub msi_is_masked : ℕ → PciConfigurationSpace → ℕ → Result Bool
unfolding vector_bit
msi_is_masked msi c vector = do
  control ← read_word c msi
  vector_bit c msi (mask_bits_offset control) vector

unfoldable pub msi_is_pending : ℕ → PciConfigurationSpace → ℕ → Result Bool
unfolding vector_bit
msi_is_pending msi c vector = do
  control ← read_word c msi
  vector_bit c msi (pending_bits_offset control) vector

-- The pending bit of a vector in its dword; the write is a masked one.
unfoldable pub write_pending_bit :
    PciConfigurationSpace → ℕ → ℕ → Bool → Result PciConfigurationSpace
unfolding bit32
write_pending_bit c offset vector pending = do
  bits ← read_dword c offset
  mask ← bit32 vector
  write_dword c offset (if pending then bit_or bits mask else bit_and bits (complement 32 mask))

-- `pending && !self.is_masked(..)`: the mask is read only where `pending` holds.
unfoldable pub check_masked : ℕ → PciConfigurationSpace → ℕ → Bool → Result (Unit {0})
unfolding msi_is_masked
check_masked msi c vector false = ok tt
check_masked msi c vector true = do
  masked ← msi_is_masked msi c vector
  guard masked (vector_not_masked vector)

-- Every error is returned before the write.
unfoldable pub msi_set_pending_bit :
    ℕ → PciConfigurationSpace → ℕ → Bool → Result (ℕ × PciConfigurationSpace)
unfolding check_masked write_pending_bit
msi_set_pending_bit msi c vector pending = do
  control ← read_word c msi
  elim (pending_bits_offset control) [
    | none ↦ err not_supported
    | some offset ↦ do
      check_masked msi c vector pending
      c' ← write_pending_bit c (msi + offset) vector pending
      ok (msi, c')
  ]

unfoldable pub msi_is_valid_vector : ℕ → PciConfigurationSpace → ℕ → Result Bool
msi_is_valid_vector msi c vector = do
  control ← read_word c msi
  ok (ltb vector (num_capable_vectors control))

-- `1 << enabled_vectors(control) as u16`, a shift by 5 at most.
unfoldable pub get_message_data_for : ℕ → PciConfigurationSpace → ℕ → Result (Option ℕ)
unfolding msi_is_valid_vector
get_message_data_for msi c vector = do
  valid ← msi_is_valid_vector msi c vector
  if not valid then ok none else (do
    control ← read_word c msi
    message_data ← read_word c (msi + message_data_offset control)
    let modifiable_mask = 2 ^ encode (enabled_vectors control) - 1
    ok (some (bit_or (bit_and message_data (complement 16 modifiable_mask)) (vector % 2 ^ 16))))

-- The address with the upper dword of a 64-bit capability.
unfoldable pub message_address_of : ℕ → PciConfigurationSpace → ℕ → Result ℕ
message_address_of msi c control = do
  low ← read_dword c (msi + message_address)
  if is_64bit control
      then (do high ← read_dword c (msi + message_address_upper); ok (bit_or low (high * 2 ^ 32)))
      else ok low

unfoldable pub msi_get_message_for : ℕ → PciConfigurationSpace → ℕ → Result (ℕ × PciMsiMessage)
unfolding message_address_of get_message_data_for
msi_get_message_for msi c vector = do
  control ← read_word c msi
  address ← message_address_of msi c control
  found ← get_message_data_for msi c vector
  elim found [
    | none ↦ err (invalid_msi_vector (vector % 256))
    | some message_data ↦ ok (msi, record { address = address; message_data = message_data })
  ]

-- `PciMsi` as a source.
abbrev pub pci_msi : PciMsiMessageSource ℕ
pci_msi = record {
  valid_vector = msi_is_valid_vector;
  enabled = msi_is_enabled;
  masked = msi_is_masked;
  pending = msi_is_pending;
  set_pending_bit = msi_set_pending_bit;
  get_message_for = msi_get_message_for;
}
