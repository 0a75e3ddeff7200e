-- ===== src/Arp.antt =====
-- src/arp.h and src/arp.cpp: the neighbor table, and one received frame through ARP.
pub mod Table
pub mod Learning
pub mod Merge
pub mod Fresh
mod Examples
use dpdk_wrapper_library.Base.{
  ℕ, ◌+◌, ◌-◌, ◌*◌, List, ◌∷◌, ◌++◌, Option, none, some, Bool, true, false, ◌&&◌, not, bit_and, ltb,
  leb, ◌==◌, if◌then◌else◌, ◌>>=◌, u32, be16, be32, of_be16, of_be32, length, get_or, set,
  replicate,
}
use dpdk_wrapper_library.Headers.{build_ethernet_header}
use dpdk_wrapper_library.Packet.{
  EtherAddr, mac_bytes, Mbuf, Dpdk, World, get, packet_length, append, write,
}
use dpdk_wrapper_library.Probe.{bit_ceil, probe}

abbrev pub zero_mac : EtherAddr
zero_mac = record { b0 = 0; b1 = 0; b2 = 0; b3 = 0; b4 = 0; b5 = 0 }

pub record Neighbor : Type 0 where
  pub ip : ℕ
  pub mac : EtherAddr

abbrev pub no_neighbor : Neighbor
no_neighbor = record { ip = 0; mac = zero_mac }

pub record NeighborTable : Type 0 where
  pub slots : List Neighbor
  pub mask : ℕ
  pub capacity : ℕ
  pub size : ℕ

unfoldable pub new_table : ℕ → NeighborTable
new_table capacity =
    let n = bit_ceil (if ltb (capacity * 2) 2 then 2 else capacity * 2) in
    record { slots = replicate n no_neighbor; mask = n - 1; capacity = capacity; size = 0 }

pub hash_ip : ℕ → ℕ
hash_ip ip = u32 (ip * 2654435769)

abbrev pub slot_at : NeighborTable → ℕ → Neighbor
slot_at t i = get_or t.slots i no_neighbor

abbrev pub ip_at : NeighborTable → ℕ → ℕ
ip_at t i = (slot_at t i).ip

-- A walk has the number of slots for fuel.
pub find_slot : NeighborTable → ℕ → Option ℕ
find_slot t ip = probe (ip_at t) t.mask (length t.slots) (bit_and (hash_ip ip) t.mask) ip

put : NeighborTable → ℕ → Neighbor → NeighborTable
put t i e = record t { slots = set t.slots i e }

learn_at : NeighborTable → ℕ → EtherAddr → Option ℕ → Bool × NeighborTable
unfolding put
learn_at t ip mac none = (false, t)
learn_at t ip mac (some i) =
    if ip_at t i == 0
    then (if leb t.capacity t.size
        then (false, t)
        else (true, put (record t { size = t.size + 1 }) i (record { ip = ip; mac = mac })))
    else (true, put t i (record { ip = ip_at t i; mac = mac }))

unfoldable pub learn : NeighborTable → ℕ → EtherAddr → Bool × NeighborTable
unfolding learn_at find_slot
learn t ip mac = if ip == 0 then (false, t) else learn_at t ip mac (find_slot t ip)

update_at : NeighborTable → ℕ → EtherAddr → Option ℕ → Bool × NeighborTable
unfolding put
update_at t ip mac none = (false, t)
update_at t ip mac (some i) =
    if ip_at t i == ip then (true, put t i (record { ip = ip_at t i; mac = mac })) else (false, t)

unfoldable pub update_if_present : NeighborTable → ℕ → EtherAddr → Bool × NeighborTable
unfolding update_at find_slot
update_if_present t ip mac = if ip == 0 then (false, t) else update_at t ip mac (find_slot t ip)

mac_at : NeighborTable → ℕ → Option ℕ → Option EtherAddr
mac_at t ip none = none
mac_at t ip (some i) = if ip_at t i == ip then some (slot_at t i).mac else none

unfoldable pub lookup : NeighborTable → ℕ → Option EtherAddr
unfolding mac_at find_slot
lookup t ip = if ip == 0 then none else mac_at t ip (find_slot t ip)

pub data ArpResult : Type 0 where
  not_arp ignored learned replied : ArpResult

abbrev pub arp_request : ℕ
arp_request = 1

abbrev pub arp_reply : ℕ
arp_reply = 2

-- fill_arp: the 28 bytes of an rte_arp_hdr
pub arp_bytes : ℕ → EtherAddr → ℕ → EtherAddr → ℕ → List ℕ
arp_bytes opcode sha sip tha tip =
    0 ∷ 1 ∷ 0x08 ∷ 0x00 ∷ 6 ∷ 4 ∷ be16 opcode
    ++ (mac_bytes sha ++ (be32 sip ++ (mac_bytes tha ++ be32 tip)))

fill_arp : EtherAddr → ℕ → EtherAddr → ℕ → EtherAddr → ℕ → Mbuf → Option Mbuf
unfolding append write arp_bytes build_ethernet_header
fill_arp eth_dst opcode sha sip tha tip pkt = do
  (_, framed) ← build_ethernet_header pkt eth_dst sha 0x0806
  (off, m) ← append framed 28
  some (write off (arp_bytes opcode sha sip tha tip) m)

unfoldable pub build_arp :
    Dpdk → World → EtherAddr → ℕ → EtherAddr → ℕ → EtherAddr → ℕ → Option Mbuf × World
unfolding get fill_arp
build_arp d w eth_dst opcode sha sip tha tip =
    let (pkt, w') = get d w in (pkt >>= fill_arp eth_dst opcode sha sip tha tip, w')

unfoldable pub mac_from : List ℕ → ℕ → EtherAddr
mac_from bs off = record {
  b0 = get_or bs off 0;
  b1 = get_or bs (off + 1) 0;
  b2 = get_or bs (off + 2) 0;
  b3 = get_or bs (off + 3) 0;
  b4 = get_or bs (off + 4) 0;
  b5 = get_or bs (off + 5) 0;
}

unfoldable pub read16 : List ℕ → ℕ → ℕ
read16 bs off = of_be16 (get_or bs off 0) (get_or bs (off + 1) 0)

unfoldable pub read32 : List ℕ → ℕ → ℕ
read32 bs off =
    of_be32 (get_or bs off 0) (get_or bs (off + 1) 0) (get_or bs (off + 2) 0)
      (get_or bs (off + 3) 0)

-- What handle_arp leaves behind.
pub record ArpOutcome : Type 0 where
  pub result : ArpResult
  pub neighbors : NeighborTable
  pub reply : Option Mbuf
  pub world : World

-- RFC 826: refresh if known, add only if we are the target.
unfoldable pub merge : Bool → NeighborTable → ℕ → EtherAddr → Bool × NeighborTable
merge for_us t sip sha = if for_us then learn t sip sha else update_if_present t sip sha

-- The reply goes back by unicast, unless none can be built.
answer : Dpdk → World → EtherAddr → ℕ → NeighborTable → EtherAddr → ℕ → ArpOutcome
answer d w local_mac local_ip t sha sip =
    let (built, w') = build_arp d w sha arp_reply local_mac local_ip sha sip in
    record {
      result = elim built [ none ↦ learned | some _ ↦ replied ];
      neighbors = t;
      reply = built;
      world = w';
    }

-- The hardware type, the protocol, and the lengths of an IPv4-over-Ethernet body.
unfoldable pub is_ipv4_over_ethernet : List ℕ → Bool
unfolding read16
is_ipv4_over_ethernet bs =
    read16 bs 14 == 1 && read16 bs 16 == 0x0800 && get_or bs 18 0 == 6 && get_or bs 19 0 == 4

arp_body : Dpdk → World → List ℕ → EtherAddr → ℕ → NeighborTable → ArpOutcome
unfolding merge answer read16 read32 mac_from
arp_body d w bs local_mac local_ip t =
    let sip = read32 bs 28 in
    let sha = mac_from bs 22 in
    let for_us = read32 bs 38 == local_ip in
    let (known, t') = merge for_us t sip sha in
    if for_us && read16 bs 20 == arp_request
    then answer d w local_mac local_ip t' sha sip
    else record {
      result = if known then learned else ignored;
      neighbors = t';
      reply = none;
      world = w;
    }

dropped : World → NeighborTable → ArpResult → ArpOutcome
dropped w t why = record { result = why; neighbors = t; reply = none; world = w }

unfoldable pub handle_arp : Dpdk → World → Mbuf → EtherAddr → ℕ → NeighborTable → ArpOutcome
unfolding packet_length read16 is_ipv4_over_ethernet arp_body dropped
handle_arp d w pkt local_mac local_ip t =
    if ltb (packet_length pkt) 14
    then dropped w t not_arp
    else if not (read16 pkt.bytes 12 == 0x0806)
    then dropped w t not_arp
    else if ltb (packet_length pkt) 42
    then dropped w t ignored
    else if not (is_ipv4_over_ethernet pkt.bytes)
    then dropped w t ignored
    else arp_body d w pkt.bytes local_mac local_ip t

abbrev broadcast : EtherAddr
broadcast = record { b0 = 0xff; b1 = 0xff; b2 = 0xff; b3 = 0xff; b4 = 0xff; b5 = 0xff }

pub build_arp_request : Dpdk → World → EtherAddr → ℕ → ℕ → Option Mbuf × World
unfolding build_arp
build_arp_request d w local_mac local_ip target_ip =
    build_arp d w broadcast arp_request local_mac local_ip zero_mac target_ip
