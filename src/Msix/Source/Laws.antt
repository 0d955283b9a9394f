-- ===== src/Msix/Source/Laws.antt =====
-- What a message generation keeps of an MSI-X function, and what it returns.
use mathlib.Core.Path.{subst}
use greens.Base.{
  ℕ, ◌/◌, ◌%◌, ◌==◌, ◌≡◌, ◌<◌, refl, sym, ◌∙◌, ap, Bool, true, false, ◌||◌, not, List, [], none,
  some, length, get_elem?, length-set, inl, inr, Option-cases, if◌then◌else◌,
}
use greens.Error.{
  Result, ok, err, panic, out_of_fuel, Ensures, on_ok, on_err, on_panic, on_out_of_fuel,
  Ensures-bind, Ensures-then, Ensures-ok, if-Ensures, invalid_msi_x_vector,
}
use greens.Config.{PciConfigurationSpace, is_bus_master}
use greens.Msi.Source.{Generation, generated, failed, or_failed, generate, try_generate_message}
use greens.Msi.Handler.{sent}
use greens.Msix.Table.{
  PbaEntry, MsiXEntry, is_pending, set_pending_bit, pending_bit_for, with_bit, entry_is_masked,
}
use greens.Msix.Table.Pending.{set_pending_bit_lem}
use greens.Msix.Source.{
  is_fn_masked, is_masked_with, msix_is_masked, msix_is_enabled, msix_set_pending_bit,
  msix_get_message_for, entry_message, pci_msi_x,
}
use greens.Msix.{PciMsiX}

-- The state afterwards differs in the pending bits at most.
pub record Kept (msix : PciMsiX) (c : PciConfigurationSpace) (t : PciMsiX × PciConfigurationSpace)
    : Type 0 where
  pub config_kept : t.1 ≡ c
  pub cap_offset_kept : t.0.cap_offset ≡ msix.cap_offset
  pub table_kept : t.0.msix_table ≡ msix.msix_table
  pub pba_size_kept : length t.0.pba_table ≡ length msix.pba_table

pub Kept-refl : (msix : PciMsiX) (c : PciConfigurationSpace) → Kept msix c (msix, c)
Kept-refl msix c = record {
  config_kept = refl;
  cap_offset_kept = refl;
  table_kept = refl;
  pba_size_kept = refl;
}

pub Kept-trans :
    (msix : PciMsiX) (c : PciConfigurationSpace) (t u : PciMsiX × PciConfigurationSpace)
    → Kept msix c t
    → Kept t.0 t.1 u
    → Kept msix c u
Kept-trans msix c t u h k = record {
  config_kept = k.config_kept ∙ h.config_kept;
  cap_offset_kept = k.cap_offset_kept ∙ h.cap_offset_kept;
  table_kept = k.table_kept ∙ h.table_kept;
  pba_size_kept = k.pba_size_kept ∙ h.pba_size_kept;
}

length-set_pending_bit :
    (table : List PbaEntry) (vector : ℕ) (pending : Bool)
    → Ensures (λ table'. length table' ≡ length table) (set_pending_bit table vector pending)
unfolding set_pending_bit pending_bit_for
length-set_pending_bit table vector pending = elim (Option-cases (get_elem? table (vector / 64))) [
  | inl absent ↦ rw (absent, set_pending_bit) on_err
  | inr (pba, there) ↦
      rw (there, set_pending_bit)
        (on_ok (length-set table (vector / 64) (with_bit pba (vector % 64) pending)))
]

set_pending_bit-Kept :
    (msix : PciMsiX) (c : PciConfigurationSpace) (vector : ℕ) (pending : Bool)
    → Ensures (Kept msix c) (msix_set_pending_bit msix c vector pending)
unfolding msix_set_pending_bit
set_pending_bit-Kept msix c vector pending =
    Ensures-bind (set_pending_bit msix.pba_table vector pending)
      (length-set_pending_bit msix.pba_table vector pending)
      λ pba size. on_ok (record {
        config_kept = refl;
        cap_offset_kept = refl;
        table_kept = refl;
        pba_size_kept = size;
      })

-- What holds of the outcome of a step that may fail without changing the state.
or_failed-Ensures {ℓ} :
    {S : Type 0} {A : Type 0} (P : S × Generation → Type ℓ) (s : S) (m : Result A)
    {next : A → Result (S × Generation)}
    → ((e : _) → P (s, failed e))
    → ((a : A) → m ≡ ok a → Ensures P (next a))
    → Ensures P (or_failed s m next)
unfolding or_failed
or_failed-Ensures P s (ok a) h k = k a refl
or_failed-Ensures P s (err e) h k = on_ok (h e)
or_failed-Ensures P s panic h k = on_panic
or_failed-Ensures P s out_of_fuel h k = on_out_of_fuel

get_message-state :
    (msix : PciMsiX) (c : PciConfigurationSpace) (vector : ℕ)
    → Ensures (λ m. m.0 ≡ msix) (msix_get_message_for msix c vector)
unfolding msix_get_message_for
get_message-state msix c vector = elim (Option-cases (get_elem? msix.msix_table vector)) [
  | inl absent ↦ rw (absent, msix_get_message_for) on_err
  | inr (entry, there) ↦ rw (there, msix_get_message_for) (on_ok refl)
]

generate-Kept :
    (msix : PciMsiX) (c : PciConfigurationSpace) (vector : ℕ)
    → Ensures (λ r. Kept msix c r.0) (generate pci_msi_x msix c vector)
unfolding generate
generate-Kept msix c vector = Ensures-then (msix_is_masked msix c vector) λ masked'.
    or_failed-Ensures (λ r. Kept msix c r.0) (msix, c) (msix_set_pending_bit msix c vector masked')
      (λ e. Kept-refl msix c)
      λ t done.
        let kept = Ensures-ok (set_pending_bit-Kept msix c vector masked') done in
        if-Ensures masked' (on_ok kept) (
          or_failed-Ensures (λ r. Kept msix c r.0) t (msix_get_message_for t.0 t.1 vector)
            (λ e. kept)
            λ m found. on_ok (
              subst (λ s. Kept msix c (s, t.1))
                (sym (Ensures-ok (get_message-state t.0 t.1 vector) found)) kept))

-- A generation changes the pending bits at most.
pub try_generate_message-Kept :
    (msix : PciMsiX) (c : PciConfigurationSpace) (vector : ℕ)
    → Ensures (λ r. Kept msix c r.0) (try_generate_message pci_msi_x msix c vector)
unfolding try_generate_message
try_generate_message-Kept msix c vector = Ensures-then (is_bus_master c) λ master.
    if-Ensures (not master) (on_ok (Kept-refl msix c)) (
      Ensures-then (msix_is_enabled msix c) λ enabled'.
        if-Ensures (not enabled') (on_ok (Kept-refl msix c)) (generate-Kept msix c vector))

masked-absent :
    (msix : PciMsiX) (c : PciConfigurationSpace) (vector : ℕ)
    → get_elem? msix.msix_table vector ≡ none
    → msix_is_masked msix c vector ≡ ok false
unfolding msix_is_masked is_masked_with
masked-absent msix c vector absent = rw absent refl

masked-present :
    (msix : PciMsiX) (c : PciConfigurationSpace) (vector : ℕ) (entry : MsiXEntry) (fn_masked : Bool)
    → get_elem? msix.msix_table vector ≡ some entry
    → is_fn_masked msix c ≡ ok fn_masked
    → msix_is_masked msix c vector ≡ ok (fn_masked || entry_is_masked entry)
unfolding msix_is_masked is_masked_with
masked-present msix c vector entry fn_masked there word = rw (there, word) refl

message-absent :
    (msix : PciMsiX) (c : PciConfigurationSpace) (vector : ℕ)
    → get_elem? msix.msix_table vector ≡ none
    → msix_get_message_for msix c vector ≡ err (invalid_msi_x_vector vector)
unfolding msix_get_message_for
message-absent msix c vector absent = rw (absent, msix_get_message_for) refl

pub message-present :
    (msix : PciMsiX) (c : PciConfigurationSpace) (vector : ℕ) (entry : MsiXEntry)
    → get_elem? msix.msix_table vector ≡ some entry
    → msix_get_message_for msix c vector ≡ ok (msix, entry_message entry)
unfolding msix_get_message_for
message-present msix c vector entry there = rw (there, msix_get_message_for) refl

sent-or_failed :
    {S : Type 0} {A : Type 0} (s : S) (m : Result A) (next : A → Result (S × Generation)) (e : _)
    → m ≡ err e
    → Ensures (λ r. sent r.1 ≡ []) (or_failed s m next)
unfolding or_failed sent
sent-or_failed s m next e failing = rw failing (on_ok refl)

-- While the function is masked, no message is generated.
generate-silent :
    (msix : PciMsiX) (c : PciConfigurationSpace) (vector : ℕ)
    → is_fn_masked msix c ≡ ok true
    → Ensures (λ r. sent r.1 ≡ []) (generate pci_msi_x msix c vector)
unfolding generate sent
generate-silent msix c vector word = elim (Option-cases (get_elem? msix.msix_table vector)) [
  | inl absent ↦ rw (masked-absent msix c vector absent) (
      or_failed-Ensures (λ r. sent r.1 ≡ []) (msix, c) (msix_set_pending_bit msix c vector false)
        (λ e. refl)
        λ t done.
          let kept = Ensures-ok (set_pending_bit-Kept msix c vector false) done in
          sent-or_failed t (msix_get_message_for t.0 t.1 vector) _ (invalid_msi_x_vector vector) (
            message-absent t.0 t.1 vector
              (ap (λ table. get_elem? table vector) kept.table_kept ∙ absent)))
  | inr (entry, there) ↦ rw (masked-present msix c vector entry true there word) (
      or_failed-Ensures (λ r. sent r.1 ≡ []) (msix, c) (msix_set_pending_bit msix c vector true)
        (λ e. refl) λ t done. on_ok refl)
]

pub try_generate_message-silent :
    (msix : PciMsiX) (c : PciConfigurationSpace) (vector : ℕ)
    → is_fn_masked msix c ≡ ok true
    → Ensures (λ r. sent r.1 ≡ []) (try_generate_message pci_msi_x msix c vector)
unfolding try_generate_message sent
try_generate_message-silent msix c vector word = Ensures-then (is_bus_master c) λ master.
    if-Ensures (not master) (on_ok refl) (
      Ensures-then (msix_is_enabled msix c)
        λ enabled'. if-Ensures (not enabled') (on_ok refl) (generate-silent msix c vector word))

generates :
    (msix : PciMsiX) (c : PciConfigurationSpace) (vector : ℕ) (entry : MsiXEntry) (masked : Bool)
    (pba : List PbaEntry)
    → msix_is_masked msix c vector ≡ ok masked
    → set_pending_bit msix.pba_table vector masked ≡ ok pba
    → get_elem? msix.msix_table vector ≡ some entry
    → generate pci_msi_x msix c vector
      ≡ ok (
        (record msix { pba_table = pba }, c),
        if masked then Generation.is_masked else generated (entry_message entry),
      )
unfolding generate or_failed msix_set_pending_bit
generates msix c vector entry true pba masked run there = rw (masked, run) refl
generates msix c vector entry false pba masked run there =
    rw (masked, run, message-present (record msix { pba_table = pba }) c vector entry there) refl

-- For a bus master with MSI-X enabled and a vector that both tables cover, `try_generate_message`
-- sets the pending bit of a masked vector; of another it clears the bit and generates the message
-- of its entry. A vector is masked when the function or its entry is, and no other bit changes.
pub try_generate_message-MsiX :
    (msix : PciMsiX) (c : PciConfigurationSpace) (vector : ℕ) (entry : MsiXEntry) (fn_masked : Bool)
    → is_bus_master c ≡ ok true
    → msix_is_enabled msix c ≡ ok true
    → is_fn_masked msix c ≡ ok fn_masked
    → get_elem? msix.msix_table vector ≡ some entry
    → vector / 64 < length msix.pba_table
    → let masked = fn_masked || entry_is_masked entry in
      (pba : List PbaEntry) × (try_generate_message pci_msi_x msix c vector
        ≡ ok (
          (record msix { pba_table = pba }, c),
          if masked then Generation.is_masked else generated (entry_message entry),
        ))
      × ((other : ℕ)
          → is_pending pba other
            ≡ (if other == vector then masked else is_pending msix.pba_table other))
unfolding try_generate_message
try_generate_message-MsiX msix c vector entry fn_masked master on word there covered =
    let masked = fn_masked || entry_is_masked entry in
    let (pba, run, _, view) = set_pending_bit_lem msix.pba_table vector masked covered in
    let step =
      generates msix c vector entry masked pba
        (masked-present msix c vector entry fn_masked there word) run there in
    (pba, rw (master, on, step) refl, view)
