-- ===== src/Arp/Table.antt =====
-- The slots of the neighbor table: where an address is filed, and what one store changes.
use dpdk_wrapper_library.Arp.{Neighbor, no_neighbor, NeighborTable, hash_ip, ip_at, find_slot}
use dpdk_wrapper_library.Base.{
  ℕ, zero, suc, ◌+◌, ◌-◌, ◌≤◌, ◌<◌, ◌≡◌, ◌≢◌, ◌∙◌, sym, ap, List, [], ◌∷◌, some, bit_and, ◌==◌, ◌⊎◌,
  if◌then◌else◌, arith, inl, inr, length, get_or, set, length-set, get_or-set_self, get_or-set_ne,
  ℕ_discrete,
}
use dpdk_wrapper_library.Probe.Ring.{Doubling, Masks, Doubling-Masks}
use dpdk_wrapper_library.Probe.Walk.{probe-stops, probe-some, probe-elsewhere, probe-at, probe-same}

abbrev pub occupied : List Neighbor → ℕ
occupied [] = 0
occupied (e ∷ es) = (if e.ip == 0 then 0 else 1) + occupied es

pub occupied-hole :
    (es : List Neighbor)
    → occupied es < length es
    → (p : ℕ) × (p < length es) × ((get_or es p no_neighbor).ip ≡ 0)
occupied-hole [] h = absurd (omega arith)
occupied-hole (e ∷ es) h = elim (ℕ_discrete e.ip 0) [
  | yes empty ↦ (0, omega arith, empty)
  | no full ↦ let (p, inside, hole) = occupied-hole es (ground arith) in (suc p, omega arith, hole)
]

pub occupied-set :
    (es : List Neighbor) (i : ℕ) (e : Neighbor)
    → i < length es
    → e.ip ≢ 0
    → occupied (set es i e) ≡ occupied es + (if (get_or es i no_neighbor).ip == 0 then 1 else 0)
occupied-set [] i e h full = absurd (omega arith)
occupied-set (x ∷ es) zero e h full = ground arith
occupied-set (x ∷ es) (suc i) e h full = ground (arith, occupied-set es i e (omega arith) full)

-- The invariant of the table: a power of two of slots, more than it may fill, `size` of them in use,
-- and every address where its walk ends.
pub record IsTable (t : NeighborTable) : Type 0 where
  pub power : Doubling (length t.slots)
  pub masked : t.mask ≡ length t.slots - 1
  pub counted : occupied t.slots ≡ t.size
  pub room : t.size ≤ t.capacity
  pub spare : t.capacity < length t.slots
  pub filed : (i : ℕ) → ip_at t i ≢ 0 → find_slot t (ip_at t i) ≡ some i

module _ (t : NeighborTable) (w : IsTable t) where
  ring : Masks (length t.slots)
  ring = Doubling-Masks w.power

  -- On a table in order, the walk for any address, known or not, ends at a slot.
  pub find_slot-stops : (ip : ℕ) → (s : ℕ) × (find_slot t ip ≡ some s)
  unfolding find_slot
  find_slot-stops ip =
      let (hole, inside, empty) =
        occupied-hole t.slots (omega (arith, w.counted, w.room, w.spare)) in
      rw (w.masked) (
        probe-stops (length t.slots) ring (ip_at t) ip (bit_and (hash_ip ip) (length t.slots - 1))
          hole (ring.below (hash_ip ip)) inside empty)

  pub find_slot-some :
      (ip s : ℕ)
      → find_slot t ip ≡ some s
      → (s < length t.slots) × ((ip_at t s ≡ ip) ⊎ (ip_at t s ≡ 0))
  unfolding find_slot
  find_slot-some ip s e =
      probe-some (length t.slots) ring (ip_at t) ip (length t.slots)
        (bit_and (hash_ip ip) (length t.slots - 1)) s (ring.below (hash_ip ip)) (rw w.masked at e)

  module _ (p ip : ℕ) (e : Neighbor) (size : ℕ) (at_p : find_slot t ip ≡ some p)
      (holds : e.ip ≡ ip) where
    abbrev pub stored : NeighborTable
    stored = record t { slots = set t.slots p e; size = size }

    pub inside : p < length t.slots
    inside = (find_slot-some ip p at_p).0

    pub ip_at_self : ip_at stored p ≡ ip
    ip_at_self =
        ap (λ (x : Neighbor). x.ip) (get_or-set_self t.slots p e no_neighbor inside) ∙ holds

    pub ip_at-ne : (j : ℕ) → j ≢ p → ip_at stored j ≡ ip_at t j
    ip_at-ne j ne =
        ap (λ (x : Neighbor). x.ip) (get_or-set_ne t.slots p j e no_neighbor (λ q. ne (sym q)))

    pub find_slot_self : find_slot stored ip ≡ some p
    unfolding find_slot
    find_slot_self = rw (length-set t.slots p e) (
        probe-at (ip_at t) (ip_at stored) t.mask p ip_at-ne (length t.slots)
          (bit_and (hash_ip ip) t.mask) ip ip_at_self at_p)

    -- A walk for another address that ended elsewhere still does.
    pub find_slot-elsewhere :
        (q s : ℕ) → s ≢ p → find_slot t q ≡ some s → find_slot stored q ≡ some s
    unfolding find_slot
    find_slot-elsewhere q s ne found = elim (find_slot-some ip p at_p).1 [
      | inl known ↦
          let same : (j : ℕ) → ip_at stored j ≡ ip_at t j = λ j. elim (ℕ_discrete j p) [
            | yes j_is_p ↦
                ap (ip_at stored) j_is_p ∙ ip_at_self ∙ sym known ∙ ap (ip_at t) (sym j_is_p)
            | no ne' ↦ ip_at-ne j ne'
          ] in
          rw (length-set t.slots p e) (
            probe-same (ip_at t) (ip_at stored) t.mask same (length t.slots)
              (bit_and (hash_ip q) t.mask) q
            ∙ found)
      | inr empty ↦ rw (length-set t.slots p e) (
          probe-elsewhere (ip_at t) (ip_at stored) t.mask p ip_at-ne (length t.slots)
            (bit_and (hash_ip q) t.mask) q s empty ne found)
    ]
