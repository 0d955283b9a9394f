-- ===== src/Config/Caps/Add.antt =====
-- `add_capability` appends a capability to the list that the iterator walks.
use greens.Base.{
  ℕ, ◌+◌, ◌^◌, ◌≤◌, ◌<◌, ◌≡◌, ◌≢◌, refl, ◌∙◌, sym, ap, ap₂, arith, List, [], ◌∷◌, ◌++◌, get_or,
  slice, map,
}
use greens.Error.{ok, err, device_area_bounds}
use greens.Capability.{PciCapability, PciCapabilityId, IsCapability, id_code}
use greens.Config.{PciConfigurationSpace}
use greens.Config.Shape.{IsShaped}
use greens.Config.Caps.{Item, capability_iter, place, add_capability}
use greens.Config.Caps.Chain.{Entry, Linked, end_pointer, end_pointer-le, Linked-snoc}
use greens.Config.Caps.Walk.{items_of, capability_iter-Linked}
use greens.Config.Caps.Bytes.{
  ByteSet, DataSet, set_byte-ByteSet, set_capability_data-fits, set_capability_data-full,
}
use greens.Config.Caps.Last.{
  used_end, last_start, HasCaps, next_start, find_offsets-HasCaps, align-lem, LinkSet, link-LinkSet,
  used_end-snoc, end_pointer-lt, used_end-ge,
}

id_code-lt : (id : PciCapabilityId) → id_code id < 256
unfolding id_code
id_code-lt id = ground arith

resized :
    (c : PciConfigurationSpace) (n : ℕ) → IsShaped c → IsShaped (record c { last_cap_size = n })
resized c n s = record {
  registers_length = s.registers_length;
  writable_length = s.writable_length;
  registers_bytes = s.registers_bytes;
  writable_bytes = s.writable_bytes;
  bars_length = s.bars_length;
}

-- What the new capability leaves: its data where it starts, and its place at the end of the list.
pub record Placed (c : PciConfigurationSpace) (cap : PciCapability) (entries : List Entry)
    (c' : PciConfigurationSpace) : Type 0 where
  pub shaped : IsShaped c'
  pub caps : HasCaps c' (entries ++ (next_start c entries, id_code cap.id) ∷ [])
  pub size : c'.last_cap_size ≡ cap.size
  pub content : List ℕ
  pub filled : cap.registers (slice c.registers (next_start c entries + 2) cap.size) ≡ ok content
  pub there :
      (j : ℕ)
      → j < cap.size
      → get_or c'.registers (next_start c entries + 2 + j) 0 ≡ get_or content j 0

module _ (c : PciConfigurationSpace) (cap : PciCapability) (entries : List Entry) (s : IsShaped c)
    (ic : IsCapability cap) (h : HasCaps c entries)
    (room : next_start c entries + 2 + cap.size ≤ 255) where
  abbrev start : ℕ
  start = next_start c entries

  placed :
      (c1 c2 c3 c4 : PciConfigurationSpace)
      → DataSet c cap (start + 2) c1
      → ByteSet c1 (start + 0) (id_code cap.id) c2
      → ByteSet c2 (start + 1) 0 c3
      → LinkSet (record c3 { last_cap_size = cap.size }) entries start c4
      → Placed c cap entries c4
  placed c1 c2 c3 c4 data' head next link' =
      let ge = used_end-ge c entries h in
      let lt = end_pointer-lt c entries in
      let past = end_pointer-le c.registers _ 52 entries h.linked in
      let same : (j : ℕ)
          → 52 ≤ j
          → j < start
          → j ≢ end_pointer 52 entries
          → get_or c4.registers j 0 ≡ get_or c.registers j 0 =
        λ j p q ne.
          link'.others j p ne
          ∙ next.others j (λ e. omega arith)
          ∙ head.others j (λ e. omega arith)
          ∙ data'.before j (omega arith) in
      let here : start + 0 ≡ start = omega arith in
      let id_there : get_or c4.registers start 0 ≡ id_code cap.id =
        link'.others start (omega arith) (λ e. omega arith)
        ∙ next.others start (λ e. omega arith)
        ∙ rw here at head.there in
      let next_there : get_or c4.registers (start + 1) 0 ≡ 0 =
        link'.others (start + 1) (omega arith) (λ e. omega arith) ∙ next.there in
      let used : used_end c4 (entries ++ (start, id_code cap.id) ∷ []) ≡ start + 2 + cap.size =
        used_end-snoc c4 start (id_code cap.id) entries ∙ ap (λ k. start + 2 + k) link'.size in
      record {
        shaped = link'.shaped;
        caps = record {
          linked = rw used (
              Linked-snoc c.registers c4.registers (used_end c entries) (start + 2 + cap.size) 52
                start (id_code cap.id) entries h.linked (omega arith) (omega arith)
                (λ j p q ne. same j p (omega arith) ne) link'.there
                (omega arith, omega arith, omega arith, omega arith, omega arith)
                (id_there, next_there));
          fits = rw used room;
        };
        size = link'.size;
        content = data'.content;
        filled = data'.filled;
        there = λ j p.
            link'.others (start + 2 + j) (omega arith) (λ e. omega arith)
            ∙ next.others (start + 2 + j) (λ e. omega arith)
            ∙ head.others (start + 2 + j) (λ e. omega arith)
            ∙ data'.there j p;
      }

  place-Placed :
      (c' : PciConfigurationSpace) × (place c cap start (last_start entries) ≡ ok (c', start + 2))
      × Placed c cap entries c'
  unfolding place
  place-Placed =
      let ge = used_end-ge c entries h in
      let lt = end_pointer-lt c entries in
      let past = end_pointer-le c.registers _ 52 entries h.linked in
      let (c1, done1, data') = set_capability_data-fits c cap (start + 2) s ic room in
      let (c2, done2, head) =
        set_byte-ByteSet c1 (start + 0) (id_code cap.id) data'.shaped (omega arith)
          (id_code-lt cap.id) in
      let (c3, done3, next) =
        set_byte-ByteSet c2 (start + 1) 0 head.shaped (omega arith) (omega arith) in
      let (c4, done4, link') =
        link-LinkSet (record c3 { last_cap_size = cap.size }) entries start
          (resized c3 cap.size next.shaped) (omega arith) (omega (arith, h.fits))
          (first entries refl) in
      (c4, rw (done1, done2, done3, done4) refl, placed c1 c2 c3 c4 data' head next link')
    where
      first : (es : List Entry) → es ≡ entries → es ≡ [] → next_start c es ≡ 64
      first [] e n = omega arith
      first (e' ∷ es) e n = absurd (cc)

  -- A capability that fits in the device area is added.
  pub add_capability-Placed :
      (c' : PciConfigurationSpace) × (add_capability c cap ≡ ok (c', next_start c entries + 2))
      × Placed c cap entries c'
  unfolding add_capability
  add_capability-Placed =
      let (c', done, p) = place-Placed in
      let items = capability_iter-Linked c (used_end c entries) entries s h.fits h.linked in
      (
        c',
        rw (items, find_offsets-HasCaps c entries h, align-lem (used_end c entries) h.fits) done,
        p,
      )

-- What the caller of the iterator sees of an item: the identifier, and where the data starts.
abbrev pub listed : Item → ℕ × ℕ
listed (header, offset) = (header.cap_id, offset)

abbrev listed_entry : Entry → ℕ × ℕ
listed_entry (start, id) = (id, start + 2)

listed-items_of :
    (regs : List ℕ) (bound pointer : ℕ) (entries : List Entry)
    → Linked regs bound pointer entries
    → map listed (items_of regs entries) ≡ map listed_entry entries
listed-items_of regs bound pointer [] l = refl
listed-items_of regs bound pointer ((start, id) ∷ entries) l =
    ap₂ ◌∷◌ (ap (λ k. (k, start + 2)) l.5) (listed-items_of regs bound (start + 1) entries l.6)

map-snoc :
    (e : Entry) (entries : List Entry)
    → map listed_entry (entries ++ e ∷ []) ≡ map listed_entry entries ++ listed_entry e ∷ []
map-snoc e [] = refl
map-snoc e (e' ∷ entries) = ap (λ t. listed_entry e' ∷ t) (map-snoc e entries)

-- `add_capability` of a capability that fits below 0xFF, to a space whose capabilities are linked,
-- succeeds: afterwards the iterator lists the capabilities that it listed before and then the new
-- one, with its identifier and the offset that `add_capability` returns, and the space is linked
-- again. The offset is 2 past the first multiple of 4 after the capabilities there were.
pub add_capability-capability_iter :
    (c : PciConfigurationSpace) (cap : PciCapability) (entries : List Entry)
    → IsShaped c
    → IsCapability cap
    → HasCaps c entries
    → next_start c entries + 2 + cap.size ≤ 255
    → (c' : PciConfigurationSpace) × (items : List Item) × (items' : List Item) × (add_capability c
          cap
        ≡ ok (c', next_start c entries + 2))
      × (capability_iter c ≡ ok items)
      × (capability_iter c' ≡ ok items')
      × (map listed items' ≡ map listed items ++ (id_code cap.id, next_start c entries + 2) ∷ [])
      × HasCaps c' (entries ++ (next_start c entries, id_code cap.id) ∷ [])
add_capability-capability_iter c cap entries s ic h room =
    let (c', done, p) = add_capability-Placed c cap entries s ic h room in
    let entry : Entry = (next_start c entries, id_code cap.id) in
    let entries' = entries ++ entry ∷ [] in
    (
      c',
      items_of c.registers entries,
      items_of c'.registers entries',
      done,
      capability_iter-Linked c (used_end c entries) entries s h.fits h.linked,
      capability_iter-Linked c' (used_end c' entries') entries' p.shaped p.caps.fits p.caps.linked,
      listed-items_of c'.registers _ 52 entries' p.caps.linked
          ∙ map-snoc entry entries
          ∙ ap (λ t. t ++ listed_entry entry ∷ [])
              (sym (listed-items_of c.registers _ 52 entries h.linked)),
      p.caps,
    )

-- `add_capability` of a capability whose data would end past 0xFF is the error that names the end,
-- for a size far from overflow.
pub add_capability_full :
    (c : PciConfigurationSpace) (cap : PciCapability) (entries : List Entry)
    → IsShaped c
    → HasCaps c entries
    → cap.size < 2 ^ 63
    → 255 < next_start c entries + 2 + cap.size
    → add_capability c cap ≡ err (device_area_bounds (next_start c entries + 2 + cap.size) 255)
unfolding add_capability place
add_capability_full c cap entries s h small past =
    let items = capability_iter-Linked c (used_end c entries) entries s h.fits h.linked in
    let fits = h.fits in
    rw
      (
        items,
        find_offsets-HasCaps c entries h,
        align-lem (used_end c entries) h.fits,
        set_capability_data-full c cap (next_start c entries + 2) (omega arith) past,
      )
      refl
