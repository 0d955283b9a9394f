-- ===== src/Virtio/PciCfg/Laws.antt =====
-- The window leaves the rest of the configuration space as it is.
use greens.Base.{
  ℕ, ◌+◌, ◌≤◌, ◌<◌, ◌≡◌, refl, ◌∙◌, arith, Bool, true, false, ltb, ◌==◌, ◌⊎◌, List, length, get_or,
  replicate, splice, length-splice, Option, none, some,
}
use greens.Error.{
  Ensures, Ensures-bind, Ensures-then, Ensures_lem, Ensures-map, if-Ensures, on_ok, assert,
}
use greens.Utils.RegisterBlock
use greens.Utils.RegisterBlock.Writes.{write-byte}
use greens.Bar.{PciBar, is_mem}
use greens.Config.{PciConfigurationSpace, write}
use greens.Virtio.PciCfg.{
  VirtioPciCfgHandler, pci_cfg_data_offset, should_handle_access, update_pci_cfg_data,
  set_pci_cfg_data_invalid, find_bar, access_params, with_read, read_at, read_mapped, read_found,
  read_window, prepare_read,
}
use greens.Virtio.Notify.{add_u64}

-- The bytes outside of `n` at `start` are the same.
abbrev pub Outside : ℕ → ℕ → PciConfigurationSpace → PciConfigurationSpace → Type 0
Outside start n before after =
    (j : ℕ)
    → (j < start) ⊎ (start + n ≤ j)
    → get_or after.registers j 0 ≡ get_or before.registers j 0

-- The bytes outside of the status word, at 6, and of the data of the window, at `start`.
abbrev pub Elsewhere : ℕ → PciConfigurationSpace → PciConfigurationSpace → Type 0
Elsewhere start before after =
    (j : ℕ)
    → (j < 6) ⊎ (8 ≤ j)
    → (j < start) ⊎ (start + 4 ≤ j)
    → get_or after.registers j 0 ≡ get_or before.registers j 0

write-Outside :
    (c : PciConfigurationSpace) (start : ℕ) (bytes : List ℕ)
    → length bytes ≡ 4
    → Ensures (Outside start 4 c) (write c start bytes)
unfolding write
write-Outside c start bytes four =
    Ensures-then (assert (length c.registers == length c.writable_bits)) λ _.
      Ensures-bind
        {P = λ arr.
          (j : ℕ) → (j < start) ⊎ (start + 4 ≤ j) → get_or arr j 0 ≡ get_or c.registers j 0}
        (RegisterBlock.write c.registers c.writable_bits start bytes)
        (Ensures_lem (RegisterBlock.write c.registers c.writable_bits start bytes) λ arr e j far.
          ground (arith, write-byte c.registers c.writable_bits start bytes j e, far, four))
        λ arr p. on_ok p

-- What the accesses of the function keep: a read of a BAR changes the status word of the configuration
-- space at most, which holds the state of the interrupt line.
pub record IsLawful {S : Type 0} (handler : VirtioPciCfgHandler S) : Type 0 where
  pub config-with_config :
      (s : S) (c : PciConfigurationSpace) → handler.config (handler.with_config s c) ≡ c
  pub read_mmio_keeps :
      (s : S) (address : ℕ) (buffer : List ℕ)
      → Ensures
          (λ r. Outside 6 2 (handler.config s) (handler.config r.0))
          (handler.read_mmio s address buffer)
  pub read_pio_keeps :
      (s : S) (port : ℕ) (buffer : List ℕ)
      → Ensures
          (λ r. Outside 6 2 (handler.config s) (handler.config r.0))
          (handler.read_pio s port buffer)

module _ {S : Type 0} (handler : VirtioPciCfgHandler S) (lawful : IsLawful handler) where
  abbrev Same : S → S → Type 0
  Same s t =
      Elsewhere (pci_cfg_data_offset handler.pci_cfg_cap) (handler.config s) (handler.config t)

  update-Same :
      (s : S) (bytes : List ℕ)
      → length bytes ≡ 4
      → Ensures (Same s) (update_pci_cfg_data handler s bytes)
  unfolding update_pci_cfg_data
  update-Same s bytes four =
      Ensures-bind {P = Outside (pci_cfg_data_offset handler.pci_cfg_cap) 4 (handler.config s)}
        (write (handler.config s) (pci_cfg_data_offset handler.pci_cfg_cap) bytes)
        (write-Outside (handler.config s) (pci_cfg_data_offset handler.pci_cfg_cap) bytes four)
        λ c p. on_ok (λ j other far. rw lawful.config-with_config (p j far))

  invalid-Same : (s : S) → Ensures (Same s) (set_pci_cfg_data_invalid handler s)
  unfolding set_pci_cfg_data_invalid
  invalid-Same s = update-Same s (replicate 4 0xFF) refl

  with_read-Same :
      (s t : S) (buffer : List ℕ) (success : Bool)
      → Outside 6 2 (handler.config s) (handler.config t)
      → Ensures (Same s) (with_read handler (t, buffer, success))
  unfolding with_read
  with_read-Same s t buffer true kept =
      Ensures-map {P = Same t}
        (update-Same t (splice (replicate 4 0xFF) 0 buffer)
          (length-splice (replicate 4 0xFF) 0 buffer))
        λ u p j other far. p j other far ∙ kept j other
  with_read-Same s t buffer false kept =
      Ensures-map {P = Same t} (invalid-Same t) λ u p j other far. p j other far ∙ kept j other

  read_at-Same :
      (s : S) (bar : PciBar) (address n : ℕ) → Ensures (Same s) (read_at handler s bar address n)
  unfolding read_at
  read_at-Same s bar address n =
      if-Ensures (is_mem bar)
        (Ensures-bind {P = λ r. Outside 6 2 (handler.config s) (handler.config r.0)}
          (handler.read_mmio s address (replicate n 0xFF))
          (lawful.read_mmio_keeps s address (replicate n 0xFF))
          λ r kept. with_read-Same s r.0 r.1 r.2 kept)
        (if-Ensures (ltb 0xFFFF address) (on_ok λ j other far. refl) (
          Ensures-bind {P = λ r. Outside 6 2 (handler.config s) (handler.config r.0)}
            (handler.read_pio s address (replicate n 0xFF))
            (lawful.read_pio_keeps s address (replicate n 0xFF))
            λ r kept. with_read-Same s r.0 r.1 r.2 kept))

  read_mapped-Same :
      (s : S) (bar : PciBar) (params : ℕ × ℕ) (address : Option ℕ)
      → Ensures (Same s) (read_mapped handler s bar params address)
  unfolding read_mapped
  read_mapped-Same s bar params none = on_ok λ j other far. refl
  read_mapped-Same s bar params (some bar_addr) =
      if-Ensures (ltb 4 params.1) (on_ok λ j other far. refl)
        (Ensures-then (add_u64 bar_addr params.0) λ address. read_at-Same s bar address params.1)

  read_found-Same : (s : S) (bar : Option PciBar) → Ensures (Same s) (read_found handler s bar)
  unfolding read_found
  read_found-Same s none = on_ok λ j other far. refl
  read_found-Same s (some bar) =
      Ensures-then (access_params handler s) λ params. read_mapped-Same s bar params bar.address

  read_window-Same : (s : S) → Ensures (Same s) (read_window handler s)
  unfolding read_window
  read_window-Same s =
      Ensures-bind {P = Same s} (set_pci_cfg_data_invalid handler s) (invalid-Same s) λ t first.
        Ensures-then (find_bar handler t) λ bar.
          Ensures-map {P = Same t} (read_found-Same t bar)
            λ u second j other far. second j other far ∙ first j other far

  -- A read through the window, of whatever BAR, offset and length the driver has written there, and
  -- whether the read of the BAR succeeds or not.
  pub prepare_read-Elsewhere :
      (s : S) (offset size : ℕ)
      → Ensures (λ r. Same s r.0) (prepare_read handler handler.pci_cfg_cap s offset size)
  unfolding prepare_read
  prepare_read-Elsewhere s offset size =
      if-Ensures (should_handle_access handler.pci_cfg_cap offset size)
        (Ensures-bind {P = Same s} (read_window handler s) (read_window-Same s)
          λ t same. on_ok same)
        (on_ok λ j other far. refl)
