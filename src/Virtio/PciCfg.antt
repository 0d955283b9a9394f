-- ===== src/Virtio/PciCfg.antt =====
-- pci_cfg_cap.rs: the window of the configuration access capability, through which a driver reads and
-- writes a BAR by accesses to the configuration space.
pub mod Laws
use greens.Base.{
  ℕ, ◌+◌, Bool, true, false, ltb, List, [], ◌∷◌, replicate, splice, Option, none, some,
  if◌then◌else◌, slice,
}
use greens.Word.{usize_max}
use greens.Error.{Result, ok, err, panic, out_of_fuel, ◌>>=◌}
use greens.Utils.Range.{range_overlaps}
use greens.Bar.{PciBar, try_from, is_mem}
use greens.Config.{PciConfigurationSpace, read, write, read_byte, read_dword}
use greens.Virtio.Cap.{reg_bar, reg_offset, reg_length, reg_pci_cfg_data}
use greens.Virtio.Notify.{add_u64}

-- The function that has the capability: `get_bar` and the accesses to addresses and ports of
-- `PciFunction`, its configuration space, and the offset of the capability. A read returns the buffer
-- and whether it succeeded.
pub record VirtioPciCfgHandler (S : Type 0) : Type 0 where
  pub config : S → PciConfigurationSpace
  pub with_config : S → PciConfigurationSpace → S
  pub get_bar : S → ℕ → Result (Option PciBar)
  pub read_mmio : S → ℕ → List ℕ → Result (S × List ℕ × Bool)
  pub write_mmio : S → ℕ → List ℕ → Result S
  pub read_pio : S → ℕ → List ℕ → Result (S × List ℕ × Bool)
  pub write_pio : S → ℕ → List ℕ → Result S
  pub pci_cfg_cap : ℕ

-- The value of `VirtioPciCfg`, which is the offset of the capability.
unfoldable pub pci_cfg_data_offset : ℕ → ℕ
pci_cfg_data_offset offset = offset + reg_pci_cfg_data

unfoldable pub should_handle_access : ℕ → ℕ → ℕ → Bool
unfolding pci_cfg_data_offset
should_handle_access cap' offset size =
    range_overlaps usize_max offset size (pci_cfg_data_offset cap') 4

module _ {S : Type 0} (handler : VirtioPciCfgHandler S) where
  unfoldable pub update_pci_cfg_data : S → List ℕ → Result S
  unfolding pci_cfg_data_offset
  update_pci_cfg_data s bytes = do
    config ← write (handler.config s) (pci_cfg_data_offset handler.pci_cfg_cap) bytes
    ok (handler.with_config s config)

  unfoldable pub get_pci_cfg_data : S → Result (List ℕ)
  unfolding pci_cfg_data_offset
  get_pci_cfg_data s = read (handler.config s) (pci_cfg_data_offset handler.pci_cfg_cap) 4

  unfoldable pub set_pci_cfg_data_invalid : S → Result S
  unfolding update_pci_cfg_data
  set_pci_cfg_data_invalid s = update_pci_cfg_data s (replicate 4 0xFF)

  -- An index that is out of range is no BAR.
  unfoldable pub indexed_bar : S → Result ℕ → Result (Option PciBar)
  indexed_bar s (ok index) = handler.get_bar s index
  indexed_bar s (err e) = ok none
  indexed_bar s panic = panic
  indexed_bar s out_of_fuel = out_of_fuel

  unfoldable pub find_bar : S → Result (Option PciBar)
  unfolding indexed_bar
  find_bar s = do
    bar ← read_byte (handler.config s) (handler.pci_cfg_cap + reg_bar)
    indexed_bar s (try_from bar)

  unfoldable pub access_params : S → Result (ℕ × ℕ)
  access_params s = do
    offset ← read_dword (handler.config s) (handler.pci_cfg_cap + reg_offset)
    length ← read_dword (handler.config s) (handler.pci_cfg_cap + reg_length)
    ok (offset, length)

  -- A successful read updates the data, a failed one leaves them invalid.
  unfoldable pub with_read : S × List ℕ × Bool → Result S
  unfolding update_pci_cfg_data set_pci_cfg_data_invalid
  with_read (s, buffer, true) = update_pci_cfg_data s (splice (replicate 4 0xFF) 0 buffer)
  with_read (s, buffer, false) = set_pci_cfg_data_invalid s

  -- The read of `n` bytes at an address of the BAR's kind.
  unfoldable pub read_at : S → PciBar → ℕ → ℕ → Result S
  unfolding with_read
  read_at s bar address n =
      if is_mem bar
      then (handler.read_mmio s address (replicate n 0xFF) >>= with_read)
      else if ltb 0xFFFF address
      then ok s
      else (handler.read_pio s address (replicate n 0xFF) >>= with_read)

  unfoldable pub write_at : S → PciBar → ℕ → List ℕ → Result S
  write_at s bar address bytes =
      if is_mem bar
      then handler.write_mmio s address bytes
      else if ltb 0xFFFF address
      then ok s
      else handler.write_pio s address bytes

  -- The rest of `prepare_read` and of `process_write` for a BAR at an address.
  unfoldable pub read_mapped : S → PciBar → ℕ × ℕ → Option ℕ → Result S
  unfolding read_at add_u64
  read_mapped s bar params none = ok s
  read_mapped s bar params (some bar_addr) =
      if ltb 4 params.1
      then ok s
      else (add_u64 bar_addr params.0 >>= λ address. read_at s bar address params.1)

  unfoldable pub write_mapped : S → PciBar → ℕ × ℕ → Option ℕ → Result S
  unfolding write_at add_u64 get_pci_cfg_data
  write_mapped s bar params none = ok s
  write_mapped s bar params (some bar_addr) = do
    bytes ← get_pci_cfg_data s
    if ltb 4 params.1
        then ok s
        else (add_u64 bar_addr params.0 >>= λ address.
            write_at s bar address (slice bytes 0 params.1))

  unfoldable pub read_found : S → Option PciBar → Result S
  unfolding read_mapped access_params
  read_found s none = ok s
  read_found s (some bar) = do params ← access_params s; read_mapped s bar params bar.address

  unfoldable pub write_found : S → Option PciBar → Result S
  unfolding write_mapped access_params
  write_found s none = ok s
  write_found s (some bar) = do params ← access_params s; write_mapped s bar params bar.address

  -- What `prepare_read` does for an access to the window.
  unfoldable pub read_window : S → Result S
  unfolding set_pci_cfg_data_invalid find_bar read_found
  read_window s = do
    invalid ← set_pci_cfg_data_invalid s
    bar ← find_bar invalid
    read_found invalid bar

  -- What `process_write` does for an access to the window.
  unfoldable pub write_window : S → Result S
  unfolding find_bar write_found
  write_window s = do bar ← find_bar s; write_found s bar

  -- The state, and whether the access is one to the window.
  unfoldable pub prepare_read : ℕ → S → ℕ → ℕ → Result (S × Bool)
  unfolding should_handle_access read_window
  prepare_read cap' s offset size =
      if should_handle_access cap' offset size
      then (read_window s >>= λ s'. ok (s', true))
      else ok (s, false)

  unfoldable pub process_write : ℕ → S → ℕ → ℕ → Result (S × Bool)
  unfolding should_handle_access write_window
  process_write cap' s offset size =
      if should_handle_access cap' offset size
      then (write_window s >>= λ s'. ok (s', true))
      else ok (s, false)
