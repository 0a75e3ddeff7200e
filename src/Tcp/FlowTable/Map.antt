-- ===== src/Tcp/FlowTable/Map.antt =====
-- The flow table as a finite map: what `find` gives after each operation, and after any sequence of
-- them on a fresh table.
use dpdk_wrapper_library.Base.{
  ℕ, suc, ◌<◌, ◌≡◌, ◌≢◌, refl, ◌∙◌, sym, ap, ◌==◌, if◌then◌else◌, arith, inl, inr, length,
  length-set, ℕ_discrete,
}
use dpdk_wrapper_library.Tcp.FlowTable.Erase.{
  Without, erase-Without, erase-missing, Without-IsTable,
}
use dpdk_wrapper_library.Tcp.FlowTable.Insert.{
  inserted, insert-stored, entry_at_self, entry_at-ne, IsTable-inserted,
}
use dpdk_wrapper_library.Tcp.FlowTable.Table.{
  occupied, IsTable, walk-stops, walk-some, walk-At, find-At, find-missing, At-or-missing,
}
use dpdk_wrapper_library.Tcp.FlowTable.{Entry, FlowTable, npos, key_at, find, insert, erase}

module _ (t : FlowTable) (w : IsTable t) (k v : ℕ) (some_key : k ≢ 0)
    (room : suc (occupied t.entries) < length t.entries) where
  pub insert-IsTable : IsTable (insert t k v)
  insert-IsTable =
      let (s, stop) = walk-stops t w k in
      rw (insert-stored t w k v s some_key stop) (IsTable-inserted t w k v s some_key stop room)

  pub length-insert : length (insert t k v).entries ≡ length t.entries
  length-insert =
      let (s, stop) = walk-stops t w k in
      rw (insert-stored t w k v s some_key stop)
        (length-set t.entries s (record { key = k; value = v }))

  -- On a table in order with room, `find` after `insert` gives the inserted value for that key, and
  -- for every other key what it gave before.
  pub find-insert : (q : ℕ) → q ≢ 0 → find (insert t k v) q ≡ (if k == q then v else find t q)
  find-insert q some_q =
      let (s, stop) = walk-stops t w k in
      let t' = inserted t w k v s some_key stop in
      let w' = IsTable-inserted t w k v s some_key stop room in
      let inside = (walk-some t w k s stop).0 in
      let len = length-set t.entries s (record { key = k; value = v }) in
      let self = entry_at_self t w k v s some_key stop in
      let others = entry_at-ne t w k v s some_key stop in
      rw (insert-stored t w k v s some_key stop) (elim (ℕ_discrete k q) [
        | yes same ↦
            let got : find t' k ≡ v =
              find-At t' w' k v s some_key
                (record { inside = omega (arith, len, inside); entry = self }) in
            ground (arith, ap (find t') same)
        | no apart ↦ elim (At-or-missing t w q some_q) [
          | inl held ↦
              let off : held.0 ≢ s = λ same. elim (walk-some t w k s stop).1 [
                | inl known ↦ apart (
                    sym known ∙ ap (key_at t) (sym same) ∙ ap (λ (x : Entry). x.key) (held.1).entry)
                | inr empty ↦
                    some_q
                      (sym (ap (λ (x : Entry). x.key) (held.1).entry) ∙ ap (key_at t) same ∙ empty)
              ] in
              let got : find t' q ≡ find t q = find-At t' w' q (find t q) held.0 some_q (record {
                inside = omega (arith, len, (held.1).inside);
                entry = others held.0 off ∙ (held.1).entry;
              }) in
              ground (arith, got)
          | inr missing ↦
              let got : find t' q ≡ npos = find-missing t' w' q (λ p hp has. elim (ℕ_discrete p s) [
                | yes same ↦
                    apart (sym (ap (λ (x : Entry). x.key) self) ∙ ap (key_at t') (sym same) ∙ has)
                | no off ↦
                    missing p (omega (arith, len, hp))
                      (sym (ap (λ (x : Entry). x.key) (others p off)) ∙ has)
              ]) in
              ground (arith, got, find-missing t w q missing)
        ]
      ])

module _ (t : FlowTable) (w : IsTable t) (k : ℕ) (some_key : k ≢ 0) where
  pub erase-IsTable : IsTable (erase t k)
  erase-IsTable = elim (At-or-missing t w k some_key) [
    | inl held ↦
        let has = ap (λ (x : Entry). x.key) (held.1).entry in
        let stop = walk-At t w k held.0 (held.1).inside has some_key in
        Without-IsTable t w held.0 (erase t k) (erase-Without t w k held.0 some_key has stop)
    | inr missing ↦ rw (erase-missing t w k missing) w
  ]

  pub length-erase : length (erase t k).entries ≡ length t.entries
  length-erase = elim (At-or-missing t w k some_key) [
    | inl held ↦
        let has = ap (λ (x : Entry). x.key) (held.1).entry in
        let stop = walk-At t w k held.0 (held.1).inside has some_key in
        (erase-Without t w k held.0 some_key has stop).same_length
    | inr missing ↦ rw (erase-missing t w k missing) refl
  ]

  -- What a table without the entry of `k` finds.
  find-Without :
      (p q : ℕ) (t' : FlowTable)
      → p < length t.entries
      → key_at t p ≡ k
      → IsTable t'
      → Without (length t.entries) t p t'
      → q ≢ 0
      → find t' q ≡ (if k == q then npos else find t q)
  find-Without p q t' below has w' h some_q = elim (ℕ_discrete k q) [
    | yes same ↦
        let got : find t' q ≡ npos = find-missing t' w' q (λ r hr has'.
          let (o, ho, off, e) =
            h.only r (omega (arith, hr, h.same_length)) (λ z. some_q (sym has' ∙ z)) in
          let key_o : key_at t o ≡ k = ap (λ (x : Entry). x.key) e ∙ has' ∙ sym same in
          off (w.runs.unique o p ho below (λ z. some_key (sym key_o ∙ z)) (key_o ∙ sym has))) in
        ground (arith, got)
    | no apart ↦ elim (At-or-missing t w q some_q) [
      | inl held ↦
          let key_o = ap (λ (x : Entry). x.key) (held.1).entry in
          let off : held.0 ≢ p = λ same. apart (sym has ∙ ap (key_at t) (sym same) ∙ key_o) in
          let (r, hr, e) = h.kept held.0 (held.1).inside off (λ z. some_q (sym key_o ∙ z)) in
          let got : find t' q ≡ find t q =
            find-At t' w' q (find t q) r some_q
              (record { inside = omega (arith, hr, h.same_length); entry = e ∙ (held.1).entry }) in
          ground (arith, got)
      | inr missing ↦
          let got : find t' q ≡ npos = find-missing t' w' q (λ r hr has'.
            let (o, ho, _, e) =
              h.only r (omega (arith, hr, h.same_length)) (λ z. some_q (sym has' ∙ z)) in
            missing o ho (ap (λ (x : Entry). x.key) e ∙ has')) in
          ground (arith, got, find-missing t w q missing)
    ]
  ]

  -- On a table in order, `erase` leaves a table in order in which `find` no longer finds that key and
  -- gives for every other key what it gave before: the backward shift loses no flow.
  pub find-erase :
      (q : ℕ)
      → q ≢ 0
      → IsTable (erase t k) × (find (erase t k) q ≡ (if k == q then npos else find t q))
  find-erase q some_q = (
    erase-IsTable,
    elim (At-or-missing t w k some_key) [
      | inl held ↦
          let has = ap (λ (x : Entry). x.key) (held.1).entry in
          let stop = walk-At t w k held.0 (held.1).inside has some_key in
          find-Without held.0 q (erase t k) (held.1).inside has erase-IsTable
            (erase-Without t w k held.0 some_key has stop) some_q
      | inr missing ↦
          let got = find-missing t w k missing in
          rw (erase-missing t w k missing) (ground (arith, ap (find t)))
    ],
  )
