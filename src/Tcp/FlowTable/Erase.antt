-- ===== src/Tcp/FlowTable/Erase.antt =====
-- Backward-shift deletion: the table stays in order, and every other entry stays in it.
use dpdk_wrapper_library.Base.{
  ℕ, zero, suc, [], ◌+◌, ◌-◌, ◌<◌, ◌≡◌, ◌≢◌, refl, ◌∙◌, sym, ap, some, true, false, bit_and, ◌==◌,
  arith, inl, inr, Bool-cases, length, length-set, get_or-set_self, get_or-set_ne, ℕ_discrete,
}
use dpdk_wrapper_library.Probe.Gap.{Gap, Gap-stay, Gap-move, Gap-close, Runs-Gap}
use dpdk_wrapper_library.Probe.Ring.{Masks}
use dpdk_wrapper_library.Probe.Runs.{Runs}
use dpdk_wrapper_library.Probe.Walk.{ahead, next, bit_and-next}
use dpdk_wrapper_library.Tcp.FlowTable.Table.{
  occupied, occupied-set, IsTable, home_below, ring, spare_slot, walk-stops, walk-some,
}
use dpdk_wrapper_library.Tcp.FlowTable.{
  Entry, empty_entry, FlowTable, entry_at, key_at, home, walk, store, stays, shift, erase_at, erase,
}

-- The test of the source against the distance from home
stays-true :
    (n h i j : ℕ) → h < n → i < n → j < n → stays i j h ≡ true → ahead n h i < ahead n h j → ⊥
unfolding stays
stays-true n h i j hh hi hj e passes = ground arith

stays-false :
    (n h i j : ℕ) → h < n → i < n → j < n → i ≢ j → stays i j h ≡ false → ahead n h i < ahead n h j
unfolding stays
stays-false n h i j hh hi hj ne e = ground arith

closer_next :
    (n fuel j e : ℕ) → j < n → e < n → e ≢ j → ahead n j e < suc fuel → ahead n (next n j) e < fuel
unfolding next
closer_next n fuel j e hj he ne near = ground arith

module _ (n : ℕ) where
  -- `t'` is `t` in order and without the entry at slot `i`.
  pub record Without (t : FlowTable) (i : ℕ) (t' : FlowTable) : Type 0 where
    pub same_length : length t'.entries ≡ n
    pub same_mask : t'.mask ≡ t.mask
    pub runs : Runs n (home t) (key_at t')
    pub count : occupied t'.entries + 1 ≡ occupied t.entries
    pub kept :
        (p : ℕ)
        → p < n
        → p ≢ i
        → key_at t p ≢ 0
        → (q : ℕ) × (q < n) × (entry_at t' q ≡ entry_at t p)
    pub only :
        (q : ℕ)
        → q < n
        → key_at t' q ≢ 0
        → (p : ℕ) × (p < n) × (p ≢ i) × (entry_at t p ≡ entry_at t' q)

  module _ (t : FlowTable) (i : ℕ) (len : length t.entries ≡ n) (below : i < n)
      (full : key_at t i ≢ 0) where
    entry_at_self : (x : Entry) → entry_at (store t i x) i ≡ x
    unfolding store
    entry_at_self x = get_or-set_self t.entries i x empty_entry (omega (arith, len, below))

    entry_at-ne : (x : Entry) (p : ℕ) → p ≢ i → entry_at (store t i x) p ≡ entry_at t p
    unfolding store
    entry_at-ne x p ne = get_or-set_ne t.entries i p x empty_entry (λ e. ne (sym e))

    key_at-ne : (x : Entry) (p : ℕ) → p ≢ i → key_at (store t i x) p ≡ key_at t p
    key_at-ne x p ne = ap (λ (y : Entry). y.key) (entry_at-ne x p ne)

    -- The last store: nothing is left to move.
    Without-close :
        Runs n (home t) (key_at (store t i empty_entry)) → Without t i (store t i empty_entry)
    unfolding store
    Without-close runs = record {
      same_length = length-set t.entries i empty_entry ∙ len;
      same_mask = refl;
      runs = runs;
      count =
          let counted = occupied-set t.entries i empty_entry (omega (arith, len, below)) in
          ground arith;
      kept = λ p hp ne has. (p, hp, entry_at-ne empty_entry p ne);
      only = λ q hq has.
          let off : q ≢ i = λ same. has (
            ap (key_at (store t i empty_entry)) same
            ∙ ap (λ (y : Entry). y.key) (entry_at_self empty_entry)) in
          (q, hq, off, sym (entry_at-ne empty_entry q off));
    }

    module _ (j : ℕ) (inside : j < n) (ne : j ≢ i) (some_key : key_at t j ≢ 0) where
      abbrev moved : FlowTable
      moved = store t i (entry_at t j)

      Without-move : (t' : FlowTable) → Without moved j t' → Without t i t'
      unfolding store home
      Without-move t' w = record {
        same_length = w.same_length;
        same_mask = w.same_mask;
        runs = w.runs;
        count =
            let counted = occupied-set t.entries i (entry_at t j) (omega (arith, len, below)) in
            let more = w.count in ground arith;
        kept = λ p hp off has. elim (ℕ_discrete p j) [
          | yes same ↦
              let fresh : key_at moved i ≢ 0 = λ e.
                some_key (sym (ap (λ (y : Entry). y.key) (entry_at_self (entry_at t j))) ∙ e) in
              let (q, hq, e) = w.kept i below (λ s. ne (sym s)) fresh in
              (q, hq, e ∙ entry_at_self (entry_at t j) ∙ ap (entry_at t) (sym same))
          | no apart ↦
              let fresh : key_at moved p ≢ 0 =
                λ e. has (sym (key_at-ne (entry_at t j) p off) ∙ e) in
              let (q, hq, e) = w.kept p hp apart fresh in
              (q, hq, e ∙ entry_at-ne (entry_at t j) p off)
        ];
        only = λ q hq has.
            let (p, hp, off, e) = w.only q hq has in
            elim (ℕ_discrete p i) [
              | yes same ↦ (
                j,
                inside,
                ne,
                sym (entry_at_self (entry_at t j)) ∙ ap (entry_at moved) (sym same) ∙ e,
              )
              | no apart ↦ (p, hp, apart, sym (entry_at-ne (entry_at t j) p apart) ∙ e)
            ];
      }

  module _ (masks : Masks n) where
    shift-Without :
        (fuel : ℕ) (t : FlowTable) (i j e : ℕ)
        → length t.entries ≡ n
        → t.mask ≡ n - 1
        → ((k : ℕ) → home t k < n)
        → Gap n (home t) (key_at t) i j e
        → key_at t i ≢ 0
        → ahead n j e < fuel
        → Without t i (shift fuel t i j)
    unfolding shift store home
    shift-Without zero t i j e len mask homes gap full near = absurd (omega arith)
    shift-Without (suc fuel) t i j e len mask homes gap full near =
        let hi = gap.gap_below in
        let hj = gap.scan_below in
        let he = gap.end_below in
        let step : bit_and (j + 1) t.mask ≡ next n j =
          ap (bit_and (j + 1)) mask ∙ bit_and-next n masks j hj in
        let closer : key_at t j ≢ 0 → ahead n (bit_and (j + 1) t.mask) e < fuel = λ some_key.
          let apart : e ≢ j = λ same. some_key (sym (ap (key_at t) same) ∙ gap.ends) in
          rw step (closer_next n fuel j e hj he apart near) in
        elim (Bool-cases (key_at t j == 0)) [
          | inl stop ↦ rw stop (
              Without-close t i len hi full (
                Gap-close n (home t) (key_at t) homes i j e gap (key_at (store t i empty_entry))
                  (key_at-ne t i len hi full empty_entry) (ground arith)
                  (ap (λ (y : Entry). y.key) (entry_at_self t i len hi full empty_entry))))
          | inr go ↦
              let some_key : key_at t j ≢ 0 = ground arith in
              elim (Bool-cases (stays i j (home t (key_at t j)))) [
                | inl stay ↦
                    rw (go, stay)
                      (shift-Without fuel t i (bit_and (j + 1) t.mask) e len mask homes
                        (rw step (
                          Gap-stay n (home t) (key_at t) homes i j e gap some_key (
                            stays-true n (home t (key_at t j)) i j (homes (key_at t j)) hi hj
                              stay)))
                        full (closer some_key))
                | inr move ↦
                    rw (go, move)
                      (let x = entry_at t j in
                        Without-move t i len hi full j hj gap.scan_ne some_key
                          (shift fuel (store t i x) j (bit_and (j + 1) t.mask))
                          (shift-Without fuel (store t i x) j (bit_and (j + 1) t.mask) e
                            (length-set t.entries i x ∙ len) mask homes
                            (rw step (
                              Gap-move n (home t) (key_at t) homes i j e gap (key_at (store t i x))
                                (key_at-ne t i len hi full x) some_key
                                (stays-false n (home t (key_at t j)) i j (homes (key_at t j)) hi hj
                                  (λ s. gap.scan_ne (sym s)) move)
                                (ap (λ (y : Entry). y.key) (entry_at_self t i len hi full x))))
                            (λ e'. some_key (sym (key_at-ne t i len hi full x j gap.scan_ne) ∙ e'))
                            (closer some_key)))
              ]
        ]

first_near : (n p e : ℕ) → p < n → e < n → e ≢ p → ahead n (next n p) e < n
unfolding next
first_near n p e hp he ne = ground arith

module _ (t : FlowTable) (w : IsTable t) where
  -- A known key's slot is emptied.
  pub erase-Without :
      (k p : ℕ)
      → k ≢ 0
      → key_at t p ≡ k
      → walk t k ≡ some p
      → Without (length t.entries) t p (erase t k)
  unfolding erase erase_at
  erase-Without k p some_key has stop =
      let n = length t.entries in
      let (e, he, empty) = spare_slot t w in
      let below = (walk-some t w k p stop).0 in
      let full : key_at t p ≢ 0 = λ z. some_key (sym has ∙ z) in
      let found : key_at t p == k ≡ true = ground arith in
      let gap = Runs-Gap n (home t) (key_at t) (home_below t w) p e w.runs below he full empty in
      let step : bit_and (p + 1) t.mask ≡ next n p =
        ap (bit_and (p + 1)) w.masked ∙ bit_and-next n (ring t w) p below in
      rw (stop, found)
        (shift-Without n (ring t w) n t p (bit_and (p + 1) t.mask) e refl w.masked (home_below t w)
          (rw step gap) full (rw step (first_near n p e below he gap.end_ne)))

  -- An unknown key changes nothing.
  pub erase-missing : (k : ℕ) → ((p : ℕ) → p < length t.entries → key_at t p ≢ k) → erase t k ≡ t
  unfolding erase erase_at
  erase-missing k missing =
      let (s, e) = walk-stops t w k in
      let other = missing s (walk-some t w k s e).0 in
      let stop : key_at t s == k ≡ false = ground arith in rw (e, stop) refl

  pub Without-IsTable : (p : ℕ) (t' : FlowTable) → Without (length t.entries) t p t' → IsTable t'
  unfolding home
  Without-IsTable p t' h = record {
    power = rw h.same_length w.power;
    masked = h.same_mask ∙ w.masked ∙ ap (λ (m : ℕ). m - 1) (sym h.same_length);
    runs =
        let start : home t' ≡ home t =
          ap (λ (m : ℕ). home (record { entries = []; mask = m })) h.same_mask in
        rw (h.same_length, start) h.runs;
    spare = omega (arith, w.spare, h.count, h.same_length);
  }
