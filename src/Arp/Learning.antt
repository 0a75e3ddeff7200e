-- ===== src/Arp/Learning.antt =====
-- `learn` and `lookup`: the neighbor table is a map with a bounded number of addresses.
use dpdk_wrapper_library.Arp.Table.{
  occupied-set, IsTable, find_slot-stops, find_slot-some, stored, inside, ip_at_self, ip_at-ne,
  find_slot_self, find_slot-elsewhere,
}
use dpdk_wrapper_library.Arp.{
  Neighbor, no_neighbor, NeighborTable, slot_at, ip_at, find_slot, put, learn_at, learn, mac_at,
  lookup,
}
use dpdk_wrapper_library.Base.{
  ℕ, ◌+◌, ◌≤◌, ◌≡◌, ◌≢◌, refl, ◌∙◌, sym, ap, none, some, ◌==◌, if◌then◌else◌, arith, inl, inr,
  length-set, get_or-set_self, get_or-set_ne, ℕ_discrete, Bool-cases, leb, Bool, true, false,
}
use dpdk_wrapper_library.Packet.{EtherAddr}
use dpdk_wrapper_library.Probe.Walk.{some-injective}

pub lookup-found :
    (t : NeighborTable) (q s : ℕ)
    → q ≢ 0
    → find_slot t q ≡ some s
    → lookup t q ≡ (if ip_at t s == q then some (slot_at t s).mac else none)
unfolding lookup find_slot mac_at
lookup-found t q s real found =
    let nonzero : (q == 0) ≡ false = ground arith in rw nonzero (ap (mac_at t q) found)

pub lookup-zero : (t : NeighborTable) → lookup t 0 ≡ none
unfolding lookup
lookup-zero t = refl

module _ (t : NeighborTable) (w : IsTable t) (ip : ℕ) (real : ip ≢ 0) (p : ℕ)
    (at_p : find_slot t ip ≡ some p) (e : Neighbor) (holds : e.ip ≡ ip) (size : ℕ) where
  -- The table behind the store
  abbrev pub t' : NeighborTable
  t' = stored t w p ip e size at_p holds

  pub stored-IsTable :
      size ≡ t.size + (if ip_at t p == 0 then 1 else 0) → size ≤ t.capacity → IsTable t'
  stored-IsTable counted room =
      let same = length-set t.slots p e in
      record {
        power = rw same w.power;
        masked = rw same w.masked;
        counted =
            occupied-set t.slots p e (inside t w p ip e size at_p holds) (λ z. real (sym holds ∙ z))
            ∙ ground (arith, w.counted, counted);
        room = room;
        spare = rw same w.spare;
        filed = λ i full. elim (ℕ_discrete i p) [
          | yes i_is_p ↦
              ap (λ (j : ℕ). find_slot t' (ip_at t' j)) i_is_p
              ∙ ap (find_slot t') (ip_at_self t w p ip e size at_p holds)
              ∙ find_slot_self t w p ip e size at_p holds
              ∙ ap some (sym i_is_p)
          | no ne ↦
              let keep = ip_at-ne t w p ip e size at_p holds i ne in
              ap (find_slot t') keep
              ∙ find_slot-elsewhere t w p ip e size at_p holds (ip_at t i) i ne
                  (w.filed i (λ z. full (keep ∙ z)))
        ];
      }

  pub lookup-stored_self : lookup t' ip ≡ some e.mac
  lookup-stored_self =
      let slot : slot_at t' p ≡ e =
        get_or-set_self t.slots p e no_neighbor (inside t w p ip e size at_p holds) in
      let has : (e.ip == ip) ≡ true = ground arith in
      lookup-found t' ip p real (find_slot_self t w p ip e size at_p holds)
      ∙ ap (λ (x : Neighbor). if x.ip == ip then some x.mac else none) slot
      ∙ rw has refl

  slot_at-ne : (s : ℕ) → s ≢ p → slot_at t' s ≡ slot_at t s
  slot_at-ne s ne = get_or-set_ne t.slots p s e no_neighbor (λ z. ne (sym z))

  -- An address that was looked for at `p` is not in the table, before or after.
  lookup-crowded :
      IsTable t' → (q : ℕ) → q ≢ 0 → q ≢ ip → find_slot t q ≡ some p → lookup t' q ≡ lookup t q
  lookup-crowded w' q real' other at_p' =
      let (s', found') = find_slot-stops t' w' q in
      let absent : (ip_at t p == q) ≡ false = elim (find_slot-some t w ip p at_p).1 [
        | inl known ↦ ground arith
        | inr empty ↦ ground arith
      ] in
      let absent' : (ip_at t' s' == q) ≡ false = elim (ℕ_discrete (ip_at t' s') q) [
        | no ne ↦ ground arith
        | yes found ↦ elim (ℕ_discrete s' p) [
          | yes at ↦
              absurd (other (sym found ∙ ap (ip_at t') at ∙ ip_at_self t w p ip e size at_p holds))
          | no apart ↦
              let here : ip_at t s' ≡ q =
                sym (ip_at-ne t w p ip e size at_p holds s' apart) ∙ found in
              let filed = w.filed s' (λ z. real' (sym here ∙ z)) in
              absurd (apart (some-injective s' p (sym filed ∙ ap (find_slot t) here ∙ at_p')))
        ]
      ] in
      lookup-found t' q s' real' found' ∙ rw (absent', lookup-found t q p real' at_p', absent) refl

  pub lookup-stored_ne : IsTable t' → (q : ℕ) → q ≢ ip → lookup t' q ≡ lookup t q
  lookup-stored_ne w' q other = elim (ℕ_discrete q 0) [
    | yes zero' ↦
        ap (lookup t') zero' ∙ lookup-zero t' ∙ sym (lookup-zero t) ∙ ap (lookup t) (sym zero')
    | no real' ↦
        let (s, found) = find_slot-stops t w q in
        elim (ℕ_discrete s p) [
          | yes at ↦ lookup-crowded w' q real' other (found ∙ ap some at)
          | no apart ↦
              lookup-found t' q s real'
                (find_slot-elsewhere t w p ip e size at_p holds q s apart found)
              ∙ ap (λ (x : Neighbor). if x.ip == q then some x.mac else none) (slot_at-ne s apart)
              ∙ sym (lookup-found t q s real' found)
        ]
  ]

-- What a call of `learn` did
pub data Learned (t : NeighborTable) (ip : ℕ) (mac : EtherAddr)
    : Bool × NeighborTable → Type 0 where
  knows :
      (t' : NeighborTable)
      → IsTable t'
      → lookup t' ip ≡ some mac
      → ((q : ℕ) → q ≢ ip → lookup t' q ≡ lookup t q)
      → Learned t ip mac (true, t')
  full : lookup t ip ≡ none → t.size ≡ t.capacity → Learned t ip mac (false, t)

-- On a table in order, `learn` of an address other than 0.0.0.0 either makes `lookup` of it yield the
-- new MAC, changes `lookup` of no other address, and leaves the table in order; or it leaves the table
-- alone, and then the address is unknown and the table holds as many as its capacity.
pub learn-Learned :
    (t : NeighborTable) (ip : ℕ) (mac : EtherAddr)
    → IsTable t
    → ip ≢ 0
    → Learned t ip mac (learn t ip mac)
unfolding learn learn_at find_slot put
learn-Learned t ip mac w real =
    let nonzero : (ip == 0) ≡ false = ground arith in
    let (p, at_p) = find_slot-stops t w ip in
    elim (Bool-cases (ip_at t p == 0)) [
      | inl empty ↦ elim (Bool-cases (leb t.capacity t.size)) [
        | inl no_room ↦
            let absent : (ip_at t p == ip) ≡ false = ground arith in
            rw (nonzero, at_p, empty, no_room)
              (full (lookup-found t ip p real at_p ∙ rw absent refl) (ground (arith, w.room)))
        | inr room ↦
            let e : Neighbor = record { ip = ip; mac = mac } in
            let w' =
              stored-IsTable t w ip real p at_p e refl (t.size + 1) (rw empty refl)
                (ground arith) in
            rw (nonzero, at_p, empty, room)
              (knows _ w' (lookup-stored_self t w ip real p at_p e refl (t.size + 1))
                (lookup-stored_ne t w ip real p at_p e refl (t.size + 1) w'))
      ]
      | inr known ↦
          let same : ip_at t p ≡ ip = elim (find_slot-some t w ip p at_p).1 [
            | inl found ↦ found
            | inr empty ↦ absurd (ground arith)
          ] in
          let e : Neighbor = record { ip = ip_at t p; mac = mac } in
          let w' =
            stored-IsTable t w ip real p at_p e same t.size (rw known (omega arith)) w.room in
          rw (nonzero, at_p, known)
            (knows _ w' (lookup-stored_self t w ip real p at_p e same t.size)
              (lookup-stored_ne t w ip real p at_p e same t.size w'))
    ]
