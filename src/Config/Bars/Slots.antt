-- ===== src/Config/Bars/Slots.antt =====
-- The slots of the BARs: each BAR stands in the slot of its index, and a 64-bit BAR keeps the next
-- slot free. `add_bar` keeps this.
use greens.Base
use greens.Base.{
  ℕ, zero, suc, ◌+◌, ◌≤◌, ◌<◌, ◌≡◌, ◌≢◌, ◌⊎◌, inl, inr, refl, ◌∙◌, sym, ap, arith, List, Option,
  none, some, length, get_elem?, Bool, true, false, replicate, get_elem?-set_self, get_elem?-set_ne,
  get_elem?-lt,
}
use mathlib.Core.Path.{subst}
use native.Mathlib.Decide.{ℕ_discrete}
use greens.Error.{ok}
use greens.Bar.{PciBar, is_64bit}
use greens.Config.{PciConfigurationSpace}
use greens.Config.Bars.{used_by_previous, add_bar}
use greens.Config.Bars.Steps.{add_bar-Added, add_region-eq, finish_bar-eq}

-- What holds of the slot `i`.
abbrev SlotFits : List (Option PciBar) → ℕ → Type 0
SlotFits bars i =
    (bar : PciBar)
    → get_elem? bars i ≡ some (some bar)
    → (bar.index ≡ i) × (is_64bit bar.region_type ≡ true → get_elem? bars (i + 1) ≡ some none)

abbrev pub SlotsFit : List (Option PciBar) → Type 0
SlotsFit bars = (i : ℕ) → SlotFits bars i

same_bar : {a b : PciBar} → some (some a) ≡ some (some b) → a ≡ b
same_bar e = cc

-- The slot before `index` holds no 64-bit BAR.
abbrev pub NotUpper : List (Option PciBar) → ℕ → Type 0
NotUpper bars index =
    (bar : PciBar) (i : ℕ)
    → get_elem? bars i ≡ some (some bar)
    → is_64bit bar.region_type ≡ true
    → i + 1 ≢ index

module _ (bars : List (Option PciBar)) (new : PciBar) (fits : SlotsFit bars)
    (free : get_elem? bars new.index ≡ some none)
    (upper : is_64bit new.region_type ≡ true → get_elem? bars (new.index + 1) ≡ some none)
    (not_upper : NotUpper bars new.index) where
  abbrev after : List (Option PciBar)
  after = Base.set bars new.index (some new)

  SlotFits-new : SlotFits after new.index
  SlotFits-new bar e =
      let stored =
        get_elem?-set_self bars new.index (some new) (get_elem?-lt bars new.index free) in
      let same : new ≡ bar = same_bar (cc stored) in
      rw (← same) (
        refl,
        λ wide.
            get_elem?-set_ne bars new.index (new.index + 1) (some new) (omega arith) ∙ upper wide,
      )

  SlotFits-old : (i : ℕ) → new.index ≢ i → SlotFits after i
  SlotFits-old i other bar e =
      let kept = get_elem?-set_ne bars new.index i (some new) other in
      let old : get_elem? bars i ≡ some (some bar) = sym kept ∙ e in
      (
        (fits i bar old).0,
        λ wide.
            get_elem?-set_ne bars new.index (i + 1) (some new)
              (λ same. not_upper bar i old wide (sym same))
            ∙ (fits i bar old).1 wide,
      )

  SlotsFit-set : SlotsFit after
  SlotsFit-set i = elim (ℕ_discrete new.index i) [
    | yes same ↦ subst (λ k. SlotFits after k) same SlotFits-new
    | no other ↦ SlotFits-old i other
  ]

used_by_previous-NotUpper :
    (c : PciConfigurationSpace) (index : ℕ)
    → used_by_previous c index ≡ ok false
    → NotUpper c.bars index
unfolding used_by_previous
used_by_previous-NotUpper c zero e bar i at wide same = absurd (omega arith)
used_by_previous-NotUpper c (suc index) e bar i at wide same =
    let previous : i ≡ index = omega arith in ground (arith, ap (λ k. get_elem? c.bars k) previous)

-- `add_bar` succeeds only in a free slot that is not the upper half of another BAR, puts the BAR
-- there, and keeps every BAR in the slot of its index and the slot after a 64-bit BAR free.
pub add_bar-SlotsFit :
    (c : PciConfigurationSpace) (bar : PciBar) {c' : PciConfigurationSpace}
    → SlotsFit c.bars
    → add_bar c bar ≡ ok c'
    → SlotsFit c'.bars
      × (get_elem? c.bars bar.index ≡ some none)
      × NotUpper c.bars bar.index
      × (c'.bars ≡ Base.set c.bars bar.index (some bar))
add_bar-SlotsFit c bar {c'} fits e =
    let a = add_bar-Added c bar e in
    let r = add_region-eq c bar _ a.region in
    let f = finish_bar-eq a.middle.0 bar _ a.middle.1 a.finish in
    let bars : c'.bars ≡ Base.set c.bars bar.index (some bar) = rw r.1 at f.2 in
    let not_upper = used_by_previous-NotUpper c bar.index a.not_upper in
    (
      rw bars (SlotsFit-set c.bars bar fits a.free (λ wide. (r.4 wide).0) not_upper),
      a.free,
      not_upper,
      bars,
    )
