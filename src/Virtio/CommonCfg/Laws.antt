-- ===== src/Virtio/CommonCfg/Laws.antt =====
-- The typed accesses to the registers of the common configuration.
use greens.Base.{
  ℕ, ==_iff, ◌+◌, ◌≤◌, ◌≡◌, refl, arith, List, length, slice, splice, some, length-splice,
  slice-splice_self,
}
use greens.Word.{
  IsBytes, to_le_bytes, from_le_bytes, length-to_le_bytes, to_le_bytes-IsBytes,
  to_le_bytes-from_le_bytes,
}
use greens.Error.{ok, ◌>>=◌}
use greens.Utils.Checked
use greens.Utils.RegisterBlock
use greens.Utils.Endian.{
  Endian, EndianSwapSize, from_little_endian, to_little_endian, to_ne_bytes, from_ne_bytes,
}
use greens.Utils.Endian.Laws.{HasWidth}
use greens.Virtio.Cap.{unwrap}
use greens.Virtio.CommonCfg.Registers.{
  Config, VirtioPciCommonCfg, value, size, try_from, set_config, config_bytes, config_word,
  config_dword,
}

-- An offset is taken for a register exactly where it is the register's own.
pub try_from-value : (config : Config) → try_from (value config) ≡ some config
unfolding try_from value
try_from-value Config.dev_feature_sel = refl
try_from-value Config.dev_feature = refl
try_from-value Config.drv_feature_sel = refl
try_from-value Config.drv_feature = refl
try_from-value Config.cfg_msix_vector = refl
try_from-value Config.num_queues = refl
try_from-value Config.dev_status = refl
try_from-value Config.cfg_generation = refl
try_from-value Config.queue_sel = refl
try_from-value Config.queue_size = refl
try_from-value Config.queue_msix_vector = refl
try_from-value Config.queue_enable = refl
try_from-value Config.queue_notify_off = refl
try_from-value Config.queue_desc = refl
try_from-value Config.queue_desc_hi = refl
try_from-value Config.queue_drv = refl
try_from-value Config.queue_drv_hi = refl
try_from-value Config.queue_dev = refl
try_from-value Config.queue_dev_hi = refl
try_from-value Config.queue_notify_cfg_data = refl
try_from-value Config.queue_reset = refl
try_from-value Config.adm_queue_index = refl
try_from-value Config.adm_queue_num = refl

pub checked_read-ok :
    (arr : List ℕ) (offset n : ℕ)
    → offset + n ≤ length arr
    → length arr ≤ 64
    → Checked.read arr offset n ≡ ok (slice arr offset n)
unfolding Checked.read RegisterBlock.read RegisterBlock.validate_bounds
checked_read-ok arr offset n h small = ground arith

pub checked_set-ok :
    (arr : List ℕ) (offset : ℕ) (bytes : List ℕ)
    → offset + length bytes ≤ length arr
    → length arr ≤ 64
    → Checked.set arr offset bytes ≡ ok (splice arr offset bytes)
unfolding Checked.set Checked.validate_access RegisterBlock.set RegisterBlock.validate_bounds
checked_set-ok arr offset bytes h small = ground arith

-- On a little-endian target both conversions keep the bytes.
pub little_endian_keeps :
    (bytes : List ℕ)
    → IsBytes bytes
    → HasWidth (length bytes) EndianSwapSize.qword
    → (from_little_endian Endian.little bytes EndianSwapSize.qword ≡ ok bytes)
      × (to_little_endian Endian.little bytes EndianSwapSize.qword ≡ ok bytes)
unfolding from_little_endian to_little_endian to_ne_bytes from_ne_bytes
little_endian_keeps bytes b w = ground (arith, to_le_bytes-from_le_bytes bytes b)

-- The registers with a value stored.
abbrev pub stored : VirtioPciCommonCfg → Config → ℕ → VirtioPciCommonCfg
stored cfg config v = record cfg {
  registers = splice cfg.registers (value config) (to_le_bytes (size config) v);
}

-- A register that is set and then read gives the bytes of its value.
pub set_config-read :
    (cfg : VirtioPciCommonCfg) (config : Config) (v : ℕ)
    → length cfg.registers ≡ 64
    → value config + size config ≤ 64
    → HasWidth (size config) EndianSwapSize.qword
    → (set_config cfg config (size config) v ≡ ok (stored cfg config v))
      × ((Checked.read (stored cfg config v).registers (value config) (size config) >>= λ bytes.
            to_little_endian Endian.little bytes EndianSwapSize.qword)
          ≡ ok (to_le_bytes (size config) v))
unfolding set_config unwrap
set_config-read cfg config v l inside w =
    let bytes = to_le_bytes (size config) v in
    let fits : value config + length bytes ≤ length cfg.registers =
      rw (length-to_le_bytes, l) inside in
    let same : slice (splice cfg.registers (value config) bytes) (value config) (size config)
        ≡ bytes =
      rw length-to_le_bytes at (slice-splice_self cfg.registers (value config) bytes fits) in
    (
      rw
          (
            ((==_iff (size config) (size config)).1 refl),
            checked_set-ok cfg.registers (value config) bytes fits (omega arith),
          )
          refl,
      rw
          (
            checked_read-ok (splice cfg.registers (value config) bytes) (value config) (size config)
                (rw (length-splice, l) inside) (rw (length-splice, l) (omega arith)),
            same,
            (little_endian_keeps bytes (to_le_bytes-IsBytes (size config) v)
                (rw length-to_le_bytes w)).1,
          )
          refl,
    )

-- The word that a register holds.
pub config_word-ok :
    (cfg : VirtioPciCommonCfg) (config : Config)
    → length cfg.registers ≡ 64
    → value config + 2 ≤ 64
    → size config ≡ 2
    → config_word cfg config ≡ ok (from_le_bytes (slice cfg.registers (value config) 2))
unfolding config_word config_bytes unwrap
config_word-ok cfg config l inside two =
    rw (two, checked_read-ok cfg.registers (value config) 2 (omega arith) (omega arith)) refl

pub config_dword-ok :
    (cfg : VirtioPciCommonCfg) (config : Config)
    → length cfg.registers ≡ 64
    → value config + 4 ≤ 64
    → size config ≡ 4
    → config_dword cfg config ≡ ok (from_le_bytes (slice cfg.registers (value config) 4))
unfolding config_dword config_bytes unwrap
config_dword-ok cfg config l inside four =
    rw (four, checked_read-ok cfg.registers (value config) 4 (omega arith) (omega arith)) refl
