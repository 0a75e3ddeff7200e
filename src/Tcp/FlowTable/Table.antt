-- ===== src/Tcp/FlowTable/Table.antt =====
-- The flow table in order: its invariant, how many slots are in use, and what `find` reads.
use dpdk_wrapper_library.Base.{
  ℕ, zero, suc, ◌+◌, ◌-◌, ◌<◌, ◌≡◌, ◌≢◌, ◌∙◌, sym, ap, List, [], ◌∷◌, some, bit_xor, ◌/◌, ◌*◌, ◌^◌,
  u64, ◌==◌, ◌⊎◌, inl, inr, if◌then◌else◌, arith, length, get_or, set, ℕ_discrete,
}
use dpdk_wrapper_library.Probe.Ring.{Doubling, Masks, Doubling-Masks}
use dpdk_wrapper_library.Probe.Runs.{Runs, probe-Runs}
use dpdk_wrapper_library.Probe.Walk.{probe-stops, probe-some, some-injective}
use dpdk_wrapper_library.Probe.{probe}
use dpdk_wrapper_library.Tcp.FlowTable.{
  Entry, empty_entry, FlowTable, npos, entry_at, key_at, home, walk, value_or_npos, find,
}

abbrev pub occupied : List Entry → ℕ
occupied [] = 0
occupied (e ∷ es) = (if e.key == 0 then 0 else 1) + occupied es

occupied-hole :
    (es : List Entry)
    → occupied es < length es
    → (p : ℕ) × (p < length es) × ((get_or es p empty_entry).key ≡ 0)
occupied-hole [] h = absurd (omega arith)
occupied-hole (e ∷ es) h = elim (ℕ_discrete e.key 0) [
  | yes empty ↦ (0, omega arith, empty)
  | no full ↦ let (p, inside, hole) = occupied-hole es (ground arith) in (suc p, omega arith, hole)
]

-- One store changes the count by the slot it writes.
pub occupied-set :
    (es : List Entry) (i : ℕ) (e : Entry)
    → i < length es
    → occupied (set es i e) + (if (get_or es i empty_entry).key == 0 then 0 else 1)
      ≡ occupied es + (if e.key == 0 then 0 else 1)
occupied-set [] i e h = absurd (omega arith)
occupied-set (x ∷ es) zero e h = omega arith
occupied-set (x ∷ es) (suc i) e h = omega (arith, occupied-set es i e (omega arith))

-- The invariant of the table: a power of two of slots, one of them empty at least, no key twice, and
-- no empty slot between a key and its home.
pub record IsTable (t : FlowTable) : Type 0 where
  pub power : Doubling (length t.entries)
  pub masked : t.mask ≡ length t.entries - 1
  pub runs : Runs (length t.entries) (home t) (key_at t)
  pub spare : occupied t.entries < length t.entries

-- Slot `p` holds `k` with the value `v`.
pub record At (t : FlowTable) (k v p : ℕ) : Type 0 where
  pub inside : p < length t.entries
  pub entry : entry_at t p ≡ record { key = k; value = v }

module _ (t : FlowTable) (w : IsTable t) where
  pub ring : Masks (length t.entries)
  ring = Doubling-Masks w.power

  pub home_below : (k : ℕ) → home t k < length t.entries
  unfolding home
  home_below k =
      rw w.masked (let h = u64 (k * 0x9e3779b97f4a7c15) in ring.below (bit_xor h (h / 2 ^ 32)))

  pub spare_slot : (p : ℕ) × (p < length t.entries) × (key_at t p ≡ 0)
  spare_slot = occupied-hole t.entries w.spare

  pub walk-masked :
      (k : ℕ) → walk t k ≡ probe (key_at t) (length t.entries - 1) (length t.entries) (home t k) k
  unfolding walk
  walk-masked k = ap (λ (m : ℕ). probe (key_at t) m (length t.entries) (home t k) k) w.masked

  -- On a table in order, the walk for any key ends, at the key or at an empty slot.
  pub walk-stops : (k : ℕ) → (s : ℕ) × (walk t k ≡ some s)
  walk-stops k =
      let (hole, inside, empty) = spare_slot in
      let (s, e) =
        probe-stops (length t.entries) ring (key_at t) k (home t k) hole (home_below k) inside
          empty in
      (s, walk-masked k ∙ e)

  pub walk-some :
      (k s : ℕ) → walk t k ≡ some s → (s < length t.entries) × ((key_at t s ≡ k) ⊎ (key_at t s ≡ 0))
  walk-some k s e =
      probe-some (length t.entries) ring (key_at t) k (length t.entries) (home t k) s (home_below k)
        (sym (walk-masked k) ∙ e)

  pub walk-At : (k p : ℕ) → p < length t.entries → key_at t p ≡ k → k ≢ 0 → walk t k ≡ some p
  walk-At k p inside has some_key =
      walk-masked k
      ∙ probe-Runs (length t.entries) ring (home t) (key_at t) home_below w.runs p k inside has
          some_key

  walk-At_find : (k p : ℕ) → key_at t p ≡ k → walk t k ≡ some p → find t k ≡ (entry_at t p).value
  unfolding find value_or_npos
  walk-At_find k p has e = rw e (ground arith)

  -- `find` reads the value of a key that some slot holds.
  pub find-At : (k v p : ℕ) → k ≢ 0 → At t k v p → find t k ≡ v
  find-At k v p some_key a =
      let has = ap (λ (x : Entry). x.key) a.entry in
      walk-At_find k p has (walk-At k p a.inside has some_key) ∙ ap (λ (x : Entry). x.value) a.entry

  -- A key that no slot holds is not found.
  pub find-missing : (k : ℕ) → ((p : ℕ) → p < length t.entries → key_at t p ≢ k) → find t k ≡ npos
  unfolding find value_or_npos
  find-missing k missing =
      let (s, e) = walk-stops k in let other = missing s (walk-some k s e).0 in rw e (ground arith)

  -- Every key is in a slot or in none.
  pub At-or-missing :
      (k : ℕ)
      → k ≢ 0
      → ((p : ℕ) × At t k (find t k) p) ⊎ ((p : ℕ) → p < length t.entries → key_at t p ≢ k)
  At-or-missing k some_key =
      let (s, e) = walk-stops k in
      let (inside, _) = walk-some k s e in
      elim (ℕ_discrete (key_at t s) k) [
        | yes has ↦
            let found = sym (walk-At_find k s has e) in
            inl (
              s,
              record {
                inside = inside;
                entry =
                    ap (λ (m : ℕ). record { key = m; value = (entry_at t s).value }) has
                    ∙ ap (λ (v : ℕ). record { key = k; value = v }) found;
              },
            )
        | no other ↦ inr (λ p below at_p.
            let same = some-injective s p (sym e ∙ walk-At k p below at_p some_key) in
            other (ap (key_at t) same ∙ at_p))
      ]
