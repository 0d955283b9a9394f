-- ===== src/Config/Caps/Update.antt =====
-- A new space has no capabilities, and `update_capability` finds exactly those that are listed.
use greens.Base.{
  ℕ, zero, suc, ◌+◌, ◌≤◌, ◌<◌, ◌≡◌, refl, ◌∙◌, ap, arith, List, [], ◌∷◌, length, get_or, Option,
  none, some, Bool, true, false, ◌==◌, ◌&&◌, ◌||◌, if◌then◌else◌, Bool-cases, inl, inr,
}
use greens.Word.{to_le_bytes}
use greens.Error.{ok, err, capability_not_found}
use greens.Utils.RegisterBlock.Laws.{set_keeps}
use greens.Capability.{PciCapability, id_code}
use greens.Config.{PciConfigurationSpace, new, set_word, zeroed}
use greens.Config.Shape.{IsShaped, set-eq}
use greens.Config.Caps.{Item, find_from, update_capability, set_capability_data}
use greens.Config.Caps.Chain.{Entry, Linked, length-Linked}
use greens.Config.Caps.Walk.{item_at, next-end, next-Linked}
use greens.Config.Caps.Last.{HasCaps, used_end}

-- The space that `new` returns has no capabilities.
pub new-HasCaps : (c : PciConfigurationSpace) → new ≡ ok c → HasCaps c []
unfolding new set_word
new-HasCaps c e =
    let stored =
      set_keeps zeroed.registers 0 (to_le_bytes 2 0xFFFF)
        (set-eq zeroed 0 (to_le_bytes 2 0xFFFF) e).0 in
    record {
      linked = unfold to_le_bytes in ap (λ regs. get_or regs 52 0) stored.2;
      fits = omega arith;
    }

-- One of the capabilities has the identifier and its data at the offset.
abbrev pub is_listed : List Entry → ℕ → ℕ → Bool
is_listed [] id offset = false
is_listed ((start, i) ∷ entries) id offset =
    (i == id && offset == start + 2) || is_listed entries id offset

is_some : Option Item → Bool
is_some none = false
is_some (some i) = true

-- One step of the search, at a capability.
find_from-step :
    (c : PciConfigurationSpace) (bound pointer fuel id offset start i : ℕ) (entries : List Entry)
    → IsShaped c
    → bound ≤ 255
    → 52 ≤ pointer
    → Linked c.registers bound pointer ((start, i) ∷ entries)
    → find_from (suc fuel) c pointer id offset ≡ elim (i == id && offset == start + 2) [
      | true ↦ ok (some (item_at c.registers start))
      | false ↦ find_from fuel c (start + 1) id offset
    ]
unfolding find_from
find_from-step c bound pointer fuel id offset start i entries s b low l =
    rw (next-Linked c bound pointer start i entries s b low l, ← l.5) refl

-- The item that the search ends with, if any.
Finds : PciConfigurationSpace → ℕ → ℕ → ℕ → ℕ → List Entry → Type 0
Finds c fuel pointer id offset entries =
    (found : Option Item) × (find_from fuel c pointer id offset ≡ ok found)
    × (is_some found ≡ is_listed entries id offset)

find_from-Linked :
    (c : PciConfigurationSpace) (bound pointer fuel id offset : ℕ) (entries : List Entry)
    → IsShaped c
    → bound ≤ 255
    → (52 ≤ pointer) × (pointer < 256)
    → length entries < fuel
    → Linked c.registers bound pointer entries
    → Finds c fuel pointer id offset entries
unfolding Finds find_from is_some
find_from-Linked c bound pointer zero id offset entries s b p f l = absurd (omega arith)
find_from-Linked c bound pointer (suc fuel) id offset [] s b p f l =
    (none, rw (next-end c pointer s p.1 l) refl, refl)
find_from-Linked c bound pointer (suc fuel) id offset ((start, i) ∷ entries) s b p f l =
    let step = find_from-step c bound pointer fuel id offset start i entries s b p.0 l in
    let rest =
      find_from-Linked c bound (start + 1) fuel id offset entries s b (omega (arith, l.1, l.4))
        (omega arith) l.6 in
    elim (Bool-cases (i == id && offset == start + 2)) [
      | inl here ↦ (some (item_at c.registers start), rw here at step, rw here refl)
      | inr other ↦ (rest.0, (rw other at step) ∙ rest.1, rw other rest.2)
    ]

-- `update_capability` rewrites the data at its offset when a capability of its identifier is listed
-- there, and otherwise is the error that names the identifier.
pub update_capability_lem :
    (c : PciConfigurationSpace) (cap : PciCapability) (offset : ℕ) (entries : List Entry)
    → IsShaped c
    → HasCaps c entries
    → update_capability c cap offset ≡ (
        if is_listed entries (id_code cap.id) offset
        then set_capability_data c cap offset
        else err (capability_not_found (id_code cap.id)))
unfolding update_capability Finds is_some
update_capability_lem c cap offset entries s h =
    let short =
      length-Linked c.registers (used_end c entries) 52 entries h.fits (omega arith) (omega arith)
        h.linked in
    let found =
      find_from-Linked c (used_end c entries) 52 64 (id_code cap.id) offset entries s h.fits
        (omega arith) (omega arith) h.linked in
    decide found
  where
    decide :
        Finds c 64 52 (id_code cap.id) offset entries
        → update_capability c cap offset ≡ (
            if is_listed entries (id_code cap.id) offset
            then set_capability_data c cap offset
            else err (capability_not_found (id_code cap.id)))
    decide (none, run, listed) = rw (← listed, update_capability, run) refl
    decide (some i, run, listed) = rw (← listed, update_capability, run) refl
