-- ===== src/Virtio/CommonCfg/Registers.antt =====
-- The registers of pci_common_cfg.rs: their offsets and sizes, and the typed accesses to them.
use greens.Base.{
  ℕ, zero, suc, ◌+◌, ◌-◌, List, [], ◌∷◌, Option, none, some, replicate, splice, ◌==◌, get_or,
  if◌then◌else◌,
}
use greens.Word.{to_le_bytes, from_le_bytes}
use greens.Error.{Result, ok, err, panic, out_of_fuel, ◌>>=◌, ◌>>◌, assert}
use greens.Utils.Checked
use greens.BarRegion.{PciBarRegionInfo}
use greens.Virtio.Cap.{unwrap}

abbrev pub reg_device_feature_select : ℕ
reg_device_feature_select = 0

abbrev pub reg_device_feature : ℕ
reg_device_feature = 4

abbrev pub reg_driver_feature_select : ℕ
reg_driver_feature_select = 8

abbrev pub reg_driver_feature : ℕ
reg_driver_feature = 12

abbrev pub reg_config_msix_vector : ℕ
reg_config_msix_vector = 16

abbrev pub reg_num_queues : ℕ
reg_num_queues = 18

abbrev pub reg_device_status : ℕ
reg_device_status = 20

abbrev pub reg_config_generation : ℕ
reg_config_generation = 21

abbrev pub reg_queue_select : ℕ
reg_queue_select = 22

abbrev pub reg_queue_size : ℕ
reg_queue_size = 24

abbrev pub reg_queue_msix_vector : ℕ
reg_queue_msix_vector = 26

abbrev pub reg_queue_enable : ℕ
reg_queue_enable = 28

abbrev pub reg_queue_notify_off : ℕ
reg_queue_notify_off = 30

abbrev pub reg_queue_desc : ℕ
reg_queue_desc = 32

abbrev pub reg_queue_driver : ℕ
reg_queue_driver = 40

abbrev pub reg_queue_device : ℕ
reg_queue_device = 48

abbrev pub reg_queue_notif_config_data : ℕ
reg_queue_notif_config_data = 56

abbrev pub reg_queue_reset : ℕ
reg_queue_reset = 58

abbrev pub reg_admin_queue_index : ℕ
reg_admin_queue_index = 60

abbrev pub reg_admin_queue_num : ℕ
reg_admin_queue_num = 62

abbrev pub virtio_common_cfg_size : ℕ
virtio_common_cfg_size = 64

abbrev pub msix_vector_unmapped : ℕ
msix_vector_unmapped = 0xFFFF

-- The enum `Config`.
pub data Config : Type 0 where
  dev_feature_sel dev_feature drv_feature_sel drv_feature cfg_msix_vector num_queues : Config
  dev_status cfg_generation queue_sel queue_size queue_msix_vector queue_enable : Config
  queue_notify_off queue_desc queue_desc_hi queue_drv queue_drv_hi queue_dev queue_dev_hi : Config
  queue_notify_cfg_data queue_reset adm_queue_index adm_queue_num : Config

unfoldable pub value : Config → ℕ
value Config.dev_feature_sel = reg_device_feature_select
value Config.dev_feature = reg_device_feature
value Config.drv_feature_sel = reg_driver_feature_select
value Config.drv_feature = reg_driver_feature
value Config.cfg_msix_vector = reg_config_msix_vector
value Config.num_queues = reg_num_queues
value Config.dev_status = reg_device_status
value Config.cfg_generation = reg_config_generation
value Config.queue_sel = reg_queue_select
value Config.queue_size = reg_queue_size
value Config.queue_msix_vector = reg_queue_msix_vector
value Config.queue_enable = reg_queue_enable
value Config.queue_notify_off = reg_queue_notify_off
value Config.queue_desc = reg_queue_desc
value Config.queue_desc_hi = reg_queue_desc + 4
value Config.queue_drv = reg_queue_driver
value Config.queue_drv_hi = reg_queue_driver + 4
value Config.queue_dev = reg_queue_device
value Config.queue_dev_hi = reg_queue_device + 4
value Config.queue_notify_cfg_data = reg_queue_notif_config_data
value Config.queue_reset = reg_queue_reset
value Config.adm_queue_index = reg_admin_queue_index
value Config.adm_queue_num = reg_admin_queue_num

unfoldable pub size : Config → ℕ
size Config.dev_feature_sel = 4
size Config.dev_feature = 4
size Config.drv_feature_sel = 4
size Config.drv_feature = 4
size Config.cfg_msix_vector = 2
size Config.num_queues = 2
size Config.dev_status = 1
size Config.cfg_generation = 1
size Config.queue_sel = 2
size Config.queue_size = 2
size Config.queue_msix_vector = 2
size Config.queue_enable = 2
size Config.queue_notify_off = 2
size Config.queue_desc = 8
size Config.queue_desc_hi = 4
size Config.queue_drv = 8
size Config.queue_drv_hi = 4
size Config.queue_dev = 8
size Config.queue_dev_hi = 4
size Config.queue_notify_cfg_data = 2
size Config.queue_reset = 2
size Config.adm_queue_index = 2
size Config.adm_queue_num = 2

-- The variants in the order of the `match` of `try_from`.
abbrev pub variants : List Config
variants =
    Config.dev_feature_sel ∷ Config.dev_feature ∷ Config.drv_feature_sel ∷ Config.drv_feature
    ∷ Config.cfg_msix_vector ∷ Config.num_queues ∷ Config.dev_status ∷ Config.cfg_generation
    ∷ Config.queue_sel ∷ Config.queue_size ∷ Config.queue_msix_vector ∷ Config.queue_enable
    ∷ Config.queue_notify_off ∷ Config.queue_desc ∷ Config.queue_desc_hi ∷ Config.queue_drv
    ∷ Config.queue_drv_hi ∷ Config.queue_dev ∷ Config.queue_dev_hi ∷ Config.queue_notify_cfg_data
    ∷ Config.queue_reset ∷ Config.adm_queue_index ∷ Config.adm_queue_num ∷ []

unfoldable pub match_value : List Config → ℕ → Option Config
unfolding value
match_value [] v = none
match_value (config ∷ configs) v =
    let rest = match_value configs v in if v == value config then some config else rest

unfoldable pub try_from : ℕ → Option Config
unfolding match_value
try_from v = match_value variants v

-- `phantom` has no value.
pub record VirtioPciCommonCfg : Type 0 where
  pub info : PciBarRegionInfo
  pub registers : List ℕ
  pub writable_bits : List ℕ

-- Ones from a register to another.
unfoldable pub fill_ones : ℕ → ℕ → List ℕ → List ℕ
fill_ones start end bits = splice bits start (replicate (end - start) 0xFF)

abbrev pub common_writable_bits : List ℕ
common_writable_bits =
    let b0 = fill_ones 0 reg_device_feature (replicate virtio_common_cfg_size 0) in
    let b1 = fill_ones reg_driver_feature_select reg_num_queues b0 in
    let b2 = splice b1 reg_device_status (0xFF ∷ []) in
    let b3 = fill_ones reg_queue_select reg_queue_notify_off b2 in
    let b4 = fill_ones reg_queue_desc reg_queue_notif_config_data b3 in
    fill_ones reg_queue_reset reg_admin_queue_index b4

-- `new`; the last set of its writable bits cannot fail.
unfoldable pub new_common_cfg : ℕ → ℕ → ℕ → Result VirtioPciCommonCfg
unfolding fill_ones unwrap
new_common_cfg bar offset length = do
  bits ← unwrap (Checked.set_word common_writable_bits reg_queue_reset 0xFFFF)
  ok (record {
    info = record { bar = bar; offset = offset; length = length };
    registers = replicate virtio_common_cfg_size 0;
    writable_bits = bits;
  })

-- `config`: the bytes of a register, which have to be `n`.
unfoldable pub config_bytes : VirtioPciCommonCfg → Config → ℕ → Result (List ℕ)
unfolding value size unwrap
config_bytes cfg config n = do
  assert (size config == n)
  unwrap (Checked.read cfg.registers (value config) n)

unfoldable pub config_byte : VirtioPciCommonCfg → Config → Result ℕ
unfolding config_bytes
config_byte cfg config = do bytes ← config_bytes cfg config 1; ok (get_or bytes 0 0)

unfoldable pub config_word : VirtioPciCommonCfg → Config → Result ℕ
unfolding config_bytes
config_word cfg config = do bytes ← config_bytes cfg config 2; ok (from_le_bytes bytes)

unfoldable pub config_dword : VirtioPciCommonCfg → Config → Result ℕ
unfolding config_bytes
config_dword cfg config = do bytes ← config_bytes cfg config 4; ok (from_le_bytes bytes)

unfoldable pub config_qword : VirtioPciCommonCfg → Config → Result ℕ
unfolding config_bytes
config_qword cfg config = do bytes ← config_bytes cfg config 8; ok (from_le_bytes bytes)

-- `set_config` with the `n` bytes of a value.
unfoldable pub set_config : VirtioPciCommonCfg → Config → ℕ → ℕ → Result VirtioPciCommonCfg
unfolding value size unwrap
set_config cfg config n v = do
  assert (size config == n)
  registers ← unwrap (Checked.set cfg.registers (value config) (to_le_bytes n v))
  ok (record cfg { registers = registers })

unfoldable pub set_config_byte : VirtioPciCommonCfg → Config → ℕ → Result VirtioPciCommonCfg
unfolding set_config
set_config_byte cfg config v = set_config cfg config 1 v

unfoldable pub set_config_word : VirtioPciCommonCfg → Config → ℕ → Result VirtioPciCommonCfg
unfolding set_config
set_config_word cfg config v = set_config cfg config 2 v

unfoldable pub set_config_dword : VirtioPciCommonCfg → Config → ℕ → Result VirtioPciCommonCfg
unfolding set_config
set_config_dword cfg config v = set_config cfg config 4 v

unfoldable pub set_config_qword : VirtioPciCommonCfg → Config → ℕ → Result VirtioPciCommonCfg
unfolding set_config
set_config_qword cfg config v = set_config cfg config 8 v

-- The match of the loop: it goes on with the registers set, and ends where a set is an error.
unfoldable pub cleared : List ℕ → Result (List ℕ) → (List ℕ → Result (List ℕ)) → Result (List ℕ)
cleared registers (ok registers') next = next registers'
cleared registers (err e) next = ok registers
cleared registers panic next = panic
cleared registers out_of_fuel next = out_of_fuel

-- The loop of `set_config_data_invalid`: `n` bytes from `i` on.
unfoldable pub clear_from : ℕ → List ℕ → ℕ → Result (List ℕ)
unfolding cleared
clear_from zero registers i = ok registers
clear_from (suc n) registers i =
    cleared registers (Checked.set_byte registers i 0) λ registers'. clear_from n registers' (1 + i)

unfoldable pub set_config_data_invalid : VirtioPciCommonCfg → ℕ → ℕ → Result VirtioPciCommonCfg
unfolding clear_from
set_config_data_invalid cfg offset n = do
  registers ← clear_from n cfg.registers offset
  ok (record cfg { registers = registers })
