-- ===== src/Virtio/CommonCfg/Served.antt =====
-- What a driver reads of the device: the values that the device has, as the registers promise them.
use mathlib.Core.Option
use mathlib.Core.Path.{subst}
use greens.Base.{
  ℕ, zero, suc, ◌+◌, ◌≤◌, ◌≡◌, refl, arith, ◌%◌, ◌/◌, ◌^◌, inl, inr, length, slice, Option, none,
  some,
}
use greens.Word.{to_le_bytes, from_le_bytes}
use greens.Error.{ok}
use greens.Utils.Endian.{EndianSwapSize}
use greens.Utils.Endian.Laws.{HasWidth}
use greens.Virtio.Device.{VirtioPciDevice}
use greens.Virtio.CommonCfg.Registers.{
  Config, VirtioPciCommonCfg, value, size, set_config, set_config_byte, set_config_word,
  set_config_dword, set_config_qword,
}
use greens.Virtio.CommonCfg.Read.{
  read_bar, prepare_read, prepare_at, refresh, paged_features, with_queue, ready_word,
}
use greens.Virtio.CommonCfg.Laws.{
  try_from-value, stored, set_config-read, config_word-ok, config_dword-ok,
}

-- The 32-bit words of the 64 features: there are two.
unfoldable pub feature_word : ℕ → ℕ → ℕ
feature_word features zero = features % 2 ^ 32
feature_word features (suc zero) = (features / 2 ^ 32) % 2 ^ 32
feature_word features (suc (suc n)) = 0

paged_features-feature_word :
    (features select : ℕ) → paged_features features select ≡ feature_word features select
unfolding paged_features feature_word
paged_features-feature_word features zero = omega arith
paged_features-feature_word features (suc zero) = refl
paged_features-feature_word features (suc (suc n)) = ground arith

-- A field of the queue that the device has selected, 0 where there is no queue.
unfoldable pub selected : {D Q : Type 0} → VirtioPciDevice D Q → D → (Q → ℕ) → ℕ
selected device d field = elim (device.queue d (device.queue_select d)) [
  | none ↦ 0
  | some q ↦ field q
]

get_or-map :
    {Q : Type 0} (queue : Option Q) (field : Q → ℕ)
    → Option.get_or (Option.map field queue) 0 ≡ elim queue [ none ↦ 0 | some q ↦ field q ]
get_or-map none field = refl
get_or-map (some q) field = refl

with_queue-selected :
    {D Q : Type 0} (device : VirtioPciDevice D Q) (d : D) (field : Q → ℕ)
    → Option.get_or (with_queue device d field) 0 ≡ selected device d field
unfolding with_queue selected
with_queue-selected device d field = get_or-map (device.queue d (device.queue_select d)) field

-- The word and the double word that the driver has stored in a register.
abbrev pub stored_word : VirtioPciCommonCfg → Config → ℕ
stored_word cfg config = from_le_bytes (slice cfg.registers (value config) 2)

abbrev pub stored_dword : VirtioPciCommonCfg → Config → ℕ
stored_dword cfg config = from_le_bytes (slice cfg.registers (value config) 4)

-- The value that the device promises in a register: of the feature words the one that the driver has
-- selected, of the queue registers those of the selected queue. None is promised in the selectors of
-- the features, in the upper halves of the addresses and in the registers that are not implemented.
unfoldable pub promised :
    {D Q : Type 0} → VirtioPciDevice D Q → D → VirtioPciCommonCfg → Config → Option ℕ
unfolding feature_word selected
promised device d cfg Config.dev_feature =
    some (feature_word (device.device_features d) (stored_dword cfg Config.dev_feature_sel))
promised device d cfg Config.drv_feature =
    some (feature_word (device.driver_features d) (stored_dword cfg Config.drv_feature_sel))
promised device d cfg Config.cfg_msix_vector = some (device.config_msix_vector d)
promised device d cfg Config.num_queues = some (device.num_queues d)
promised device d cfg Config.dev_status = some (device.device_status d)
promised device d cfg Config.cfg_generation = some (device.config_generation d)
promised device d cfg Config.queue_sel = some (device.queue_select d)
promised device d cfg Config.queue_size = some (selected device d device.queues.size)
promised device d cfg Config.queue_msix_vector =
    some (Option.get_or (device.queue_msix_vector d) 0xFFFF)
promised device d cfg Config.queue_enable = some (selected device d (ready_word device))
promised device d cfg Config.queue_notify_off =
    let select = stored_word cfg Config.queue_sel in
    some (elim (device.queue d select) [ none ↦ 0 | some q ↦ select ])
promised device d cfg Config.queue_desc = some (selected device d device.queues.desc_table)
promised device d cfg Config.queue_drv = some (selected device d device.queues.avail_ring)
promised device d cfg Config.queue_dev = some (selected device d device.queues.used_ring)
promised device d cfg _ = none

-- The read of a whole register succeeds with the bytes of a value.
abbrev pub Reads :
    {D Q : Type 0} → VirtioPciDevice D Q → D → VirtioPciCommonCfg → Config → ℕ → Type 0
Reads device d cfg config v =
    read_bar device d cfg (value config) (size config)
    ≡ ok (stored cfg config v, ok (to_le_bytes (size config) v))

refreshed-Reads :
    {D Q : Type 0} (device : VirtioPciDevice D Q) (d : D) (cfg : VirtioPciCommonCfg)
    (config : Config) (v : ℕ)
    → length cfg.registers ≡ 64
    → value config + size config ≤ 64
    → HasWidth (size config) EndianSwapSize.qword
    → refresh device d cfg config ≡ set_config cfg config (size config) v
    → Reads device d cfg config v
unfolding read_bar prepare_read prepare_at
refreshed-Reads device d cfg config v l inside w same =
    let sets = set_config-read cfg config v l inside w in
    rw (try_from-value config, same, sets.0, sets.1) refl

-- What holds of a value, where there is one.
abbrev OnSome : Option ℕ → (ℕ → Type 0) → Type 0
OnSome none P = Unit
OnSome (some v) P = P v

OnSome_get : {o : Option ℕ} (P : ℕ → Type 0) (v : ℕ) → OnSome o P → o ≡ some v → P v
OnSome_get {o = none} P v h e = cc
OnSome_get {o = some w} P v h e = subst P (some_injective e) h
  where
    some_injective : {x y : ℕ} → some x ≡ some y → x ≡ y
    some_injective e = cc

fits1 : HasWidth 1 EndianSwapSize.qword
fits1 = (inl refl, omega arith)

fits2 : HasWidth 2 EndianSwapSize.qword
fits2 = (inr (inl refl), omega arith)

fits4 : HasWidth 4 EndianSwapSize.qword
fits4 = (inr (inr (inl refl)), omega arith)

fits8 : HasWidth 8 EndianSwapSize.qword
fits8 = (inr (inr (inr refl)), omega arith)

-- The match sets a register to what is promised in it.
refresh-promised :
    {D Q : Type 0} (device : VirtioPciDevice D Q) (d : D) (cfg : VirtioPciCommonCfg)
    (config : Config)
    → length cfg.registers ≡ 64
    → OnSome (promised device d cfg config) (λ v.
      (refresh device d cfg config ≡ set_config cfg config (size config) v)
      × (value config + size config ≤ 64)
      × HasWidth (size config) EndianSwapSize.qword)
unfolding refresh promised set_config_byte set_config_word set_config_dword set_config_qword value
    size
refresh-promised device d cfg Config.dev_feature l = (
  rw (config_dword-ok cfg Config.dev_feature_sel l (omega arith) refl, paged_features-feature_word)
      refl,
  omega arith,
  fits4,
)
refresh-promised device d cfg Config.drv_feature l = (
  rw (config_dword-ok cfg Config.drv_feature_sel l (omega arith) refl, paged_features-feature_word)
      refl,
  omega arith,
  fits4,
)
refresh-promised device d cfg Config.cfg_msix_vector l = (refl, omega arith, fits2)
refresh-promised device d cfg Config.num_queues l = (refl, omega arith, fits2)
refresh-promised device d cfg Config.dev_status l = (refl, omega arith, fits1)
refresh-promised device d cfg Config.cfg_generation l = (refl, omega arith, fits1)
refresh-promised device d cfg Config.queue_sel l = (refl, omega arith, fits2)
refresh-promised device d cfg Config.queue_size l =
    (rw (with_queue-selected device d device.queues.size) refl, omega arith, fits2)
refresh-promised device d cfg Config.queue_msix_vector l = (refl, omega arith, fits2)
refresh-promised device d cfg Config.queue_enable l =
    (rw (with_queue-selected device d (ready_word device)) refl, omega arith, fits2)
refresh-promised device d cfg Config.queue_notify_off l = (
  rw (config_word-ok cfg Config.queue_sel l (omega arith) refl, get_or-map) refl,
  omega arith,
  fits2,
)
refresh-promised device d cfg Config.queue_desc l =
    (rw (with_queue-selected device d device.queues.desc_table) refl, omega arith, fits8)
refresh-promised device d cfg Config.queue_drv l =
    (rw (with_queue-selected device d device.queues.avail_ring) refl, omega arith, fits8)
refresh-promised device d cfg Config.queue_dev l =
    (rw (with_queue-selected device d device.queues.used_ring) refl, omega arith, fits8)
refresh-promised device d cfg Config.dev_feature_sel l = tt
refresh-promised device d cfg Config.drv_feature_sel l = tt
refresh-promised device d cfg Config.queue_desc_hi l = tt
refresh-promised device d cfg Config.queue_drv_hi l = tt
refresh-promised device d cfg Config.queue_dev_hi l = tt
refresh-promised device d cfg Config.queue_notify_cfg_data l = tt
refresh-promised device d cfg Config.queue_reset l = tt
refresh-promised device d cfg Config.adm_queue_index l = tt
refresh-promised device d cfg Config.adm_queue_num l = tt

-- A read of a whole register in which the device promises a value returns the bytes of this value,
-- little end first, and leaves them stored in the registers.
pub read_bar-promised :
    {D Q : Type 0} (device : VirtioPciDevice D Q) (d : D) (cfg : VirtioPciCommonCfg)
    (config : Config) (v : ℕ)
    → length cfg.registers ≡ 64
    → promised device d cfg config ≡ some v
    → read_bar device d cfg (value config) (size config)
      ≡ ok (stored cfg config v, ok (to_le_bytes (size config) v))
read_bar-promised device d cfg config v l p =
    OnSome_get (Reads device d cfg config) v
      (OnSome_map (promised device d cfg config) (refresh-promised device d cfg config l)
        λ v facts. refreshed-Reads device d cfg config v l facts.1 facts.2 facts.0)
      p
  where
    OnSome_map : {P R : ℕ → Type 0} (o : Option ℕ) → OnSome o P → ((v : ℕ) → P v → R v) → OnSome o R
    OnSome_map none h f = tt
    OnSome_map (some v) h f = f v h
