-- ===== src/Arp/Merge.antt =====
-- What a received ARP frame does to the neighbor table.
use dpdk_wrapper_library.Arp.Learning.{
  lookup-found, lookup-zero, stored-IsTable, lookup-stored_self, lookup-stored_ne, Learned, knows,
  full, learn-Learned,
}
use dpdk_wrapper_library.Arp.Table.{IsTable, find_slot-stops}
use dpdk_wrapper_library.Arp.{
  Neighbor, NeighborTable, slot_at, ip_at, find_slot, put, learn, update_at, update_if_present,
  lookup, merge, ArpOutcome, ArpResult, not_arp, ignored, learned, answer, arp_body, dropped,
  read16, read32, mac_from, is_ipv4_over_ethernet, handle_arp, arp_request,
}
use dpdk_wrapper_library.Base.{
  ℕ, ◌≡◌, ◌≢◌, refl, ◌∙◌, sym, ap, none, some, ◌==◌, if◌then◌else◌, arith, inl, inr, ℕ_discrete,
  Bool-cases, ltb, not, ◌&&◌, Bool, true, false, List,
}
use dpdk_wrapper_library.Packet.{EtherAddr, Mbuf, Dpdk, World, packet_length}

-- What a call of `update_if_present` did
pub data Updated (t : NeighborTable) (ip : ℕ) (mac : EtherAddr)
    : Bool × NeighborTable → Type 0 where
  refreshed :
      (t' : NeighborTable)
      → IsTable t'
      → (lookup t ip ≡ none → ⊥)
      → lookup t' ip ≡ some mac
      → ((q : ℕ) → q ≢ ip → lookup t' q ≡ lookup t q)
      → Updated t ip mac (true, t')
  unknown : lookup t ip ≡ none → Updated t ip mac (false, t)

not-none : (m : EtherAddr) → some m ≡ none → ⊥
not-none m e = cc

-- On a table in order, `update_if_present` gives a known address the new MAC, changes `lookup` of no
-- other and leaves the table in order; an unknown address it leaves unknown, and the table alone.
pub update_if_present-Updated :
    (t : NeighborTable) (ip : ℕ) (mac : EtherAddr)
    → IsTable t
    → Updated t ip mac (update_if_present t ip mac)
unfolding update_if_present update_at find_slot put
update_if_present-Updated t ip mac w = elim (ℕ_discrete ip 0) [
  | yes is_zero ↦
      let stop : (ip == 0) ≡ true = ground arith in
      rw stop (unknown (ap (lookup t) is_zero ∙ lookup-zero t))
  | no real ↦
      let nonzero : (ip == 0) ≡ false = ground arith in
      let (p, at_p) = find_slot-stops t w ip in
      elim (Bool-cases (ip_at t p == ip)) [
        | inr other ↦
            rw (nonzero, at_p, other) (unknown (lookup-found t ip p real at_p ∙ rw other refl))
        | inl known ↦
            let same : ip_at t p ≡ ip = ground arith in
            let full_slot : (ip_at t p == 0) ≡ false = ground arith in
            let e : Neighbor = record { ip = ip_at t p; mac = mac } in
            let w' =
              stored-IsTable t w ip real p at_p e same t.size (rw full_slot (omega arith)) w.room in
            let before : lookup t ip ≡ some (slot_at t p).mac =
              lookup-found t ip p real at_p ∙ rw known refl in
            rw (nonzero, at_p, known)
              (refreshed _ w' (λ gone. not-none _ (sym before ∙ gone))
                (lookup-stored_self t w ip real p at_p e same t.size)
                (lookup-stored_ne t w ip real p at_p e same t.size w'))
      ]
]

-- What may become of the table: it stays in order, and only the lookup of `ip` may change, and where
-- we are not the target only if that was known.
pub record Kept (t : NeighborTable) (ip : ℕ) (for_us : Bool) (t' : NeighborTable) : Type 0 where
  pub order : IsTable t'
  pub others : (q : ℕ) → q ≢ ip → lookup t' q ≡ lookup t q
  pub stranger : for_us ≡ false → lookup t ip ≡ none → t' ≡ t

Kept-refl : (t : NeighborTable) (ip : ℕ) (for_us : Bool) → IsTable t → Kept t ip for_us t
Kept-refl t ip for_us w = record { order = w; others = λ q _. refl; stranger = λ _ _. refl }

Learned-Kept :
    (t : NeighborTable) (ip : ℕ) (mac : EtherAddr) (r : Bool × NeighborTable)
    → IsTable t
    → Learned t ip mac r
    → Kept t ip true r.1
Learned-Kept t ip mac _ w (knows t' w' found others) = record {
  order = w';
  others = others;
  stranger = λ e. cc;
}
Learned-Kept t ip mac _ w (full gone crowded) = Kept-refl t ip true w

Updated-Kept :
    (t : NeighborTable) (ip : ℕ) (mac : EtherAddr) (for_us : Bool) (r : Bool × NeighborTable)
    → IsTable t
    → Updated t ip mac r
    → Kept t ip for_us r.1
Updated-Kept t ip mac for_us _ w (refreshed t' w' known found others) = record {
  order = w';
  others = others;
  stranger = λ _ gone. absurd (known gone);
}
Updated-Kept t ip mac for_us _ w (unknown gone) = Kept-refl t ip for_us w

learn-zero : (t : NeighborTable) (mac : EtherAddr) → learn t 0 mac ≡ (false, t)
unfolding learn
learn-zero t mac = refl

merge-Kept :
    (for_us : Bool) (t : NeighborTable) (ip : ℕ) (mac : EtherAddr)
    → IsTable t
    → Kept t ip for_us (merge for_us t ip mac).1
unfolding merge
merge-Kept false t ip mac w =
    Updated-Kept t ip mac false (update_if_present t ip mac) w
      (update_if_present-Updated t ip mac w)
merge-Kept true t ip mac w = elim (ℕ_discrete ip 0) [
  | yes is_zero ↦
      let same : learn t ip mac ≡ (false, t) =
        ap (λ (i : ℕ). learn t i mac) is_zero ∙ learn-zero t mac in
      rw same (Kept-refl t ip true w)
  | no real ↦ Learned-Kept t ip mac (learn t ip mac) w (learn-Learned t ip mac w real)
]

answer-neighbors :
    (d : Dpdk) (w : World) (mac : EtherAddr) (ip : ℕ) (t : NeighborTable) (sha : EtherAddr)
    (sip : ℕ)
    → (answer d w mac ip t sha sip).neighbors ≡ t
unfolding answer
answer-neighbors d w mac ip t sha sip = refl

-- A predicate of both branches of a test holds of the test.
either_way {ℓ ℓ'} :
    {A : Type ℓ} (P : A → Type ℓ') (b : Bool) (x y : A) → P x → P y → P (if b then x else y)
either_way P true x y px py = px
either_way P false x y px py = py

after_merge-Kept :
    (d : Dpdk) (w : World) (mac : EtherAddr) (ip : ℕ) (t t' : NeighborTable) (sha : EtherAddr)
    (sip : ℕ) (for_us reply known : Bool)
    → Kept t sip for_us t'
    → Kept t sip for_us
        (if reply then answer d w mac ip t' sha sip else record {
          result = if known then learned else ignored;
          neighbors = t';
          reply = none;
          world = w;
        }).neighbors
after_merge-Kept d w mac ip t t' sha sip for_us true known kept =
    rw (answer-neighbors d w mac ip t' sha sip) kept
after_merge-Kept d w mac ip t t' sha sip for_us false known kept = kept

arp_body-Kept :
    (d : Dpdk) (w : World) (bs : List ℕ) (mac : EtherAddr) (ip : ℕ) (t : NeighborTable)
    → IsTable t
    → Kept t (read32 bs 28) (read32 bs 38 == ip) (arp_body d w bs mac ip t).neighbors
unfolding arp_body
arp_body-Kept d w bs mac ip t order =
    let for_us = read32 bs 38 == ip in
    let sip = read32 bs 28 in
    let sha = mac_from bs 22 in
    let (known, t') = merge for_us t sip sha in
    after_merge-Kept d w mac ip t t' sha sip for_us (for_us && read16 bs 20 == arp_request) known
      (merge-Kept for_us t sip sha order)

-- Whatever the frame, `handle_arp` leaves a table in order in order, changes the lookup of no address
-- but the sender's, and leaves the table alone where the sender was unknown and the target is not our
-- address.
pub handle_arp-Kept :
    (d : Dpdk) (w : World) (pkt : Mbuf) (mac : EtherAddr) (ip : ℕ) (t : NeighborTable)
    → IsTable t
    → Kept t
        (read32 pkt.bytes 28)
        (read32 pkt.bytes 38 == ip)
        (handle_arp d w pkt mac ip t).neighbors
unfolding handle_arp dropped
handle_arp-Kept d w pkt mac ip t order =
    let bs = pkt.bytes in
    let keeps : ArpOutcome → Type 0 = λ o. Kept t (read32 bs 28) (read32 bs 38 == ip) o.neighbors in
    let refused : (why : ArpResult) → keeps (dropped w t why) =
      λ _. Kept-refl t (read32 bs 28) (read32 bs 38 == ip) order in
    let body = arp_body d w bs mac ip t in
    let after_kind = if not (is_ipv4_over_ethernet bs) then dropped w t ignored else body in
    let after_length = if ltb (packet_length pkt) 42 then dropped w t ignored else after_kind in
    let after_type = if not (read16 bs 12 == 0x0806) then dropped w t not_arp else after_length in
    either_way keeps (ltb (packet_length pkt) 14) (dropped w t not_arp) after_type (refused not_arp)
      (either_way keeps (not (read16 bs 12 == 0x0806)) (dropped w t not_arp) after_length
        (refused not_arp)
        (either_way keeps (ltb (packet_length pkt) 42) (dropped w t ignored) after_kind
          (refused ignored)
          (either_way keeps (not (is_ipv4_over_ethernet bs)) (dropped w t ignored) body
            (refused ignored) (arp_body-Kept d w bs mac ip t order))))
