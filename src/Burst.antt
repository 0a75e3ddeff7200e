-- ===== src/Burst.antt =====
-- src/packet.cpp, src/packet_burst.cpp, src/rx_queue.cpp and src/tx_queue.cpp: who owns an mbuf. Here
-- an mbuf is its number, a packet the mbuf that it owns, and a burst its packets.
pub mod Conserved
mod Examples
use dpdk_wrapper_library.Base.{
  ℕ, List, [], ◌∷◌, ◌++◌, map, Option, none, some, ltb, if◌then◌else◌, u16, length, take, drop,
  replicate, zero, suc,
}

abbrev pub Packet : Type 0
Packet = Option ℕ

abbrev pub Burst : Type 0
Burst = List Packet

-- What has left the program: the mbufs freed, and those given to the driver.
pub record Gone : Type 0 where
  pub freed : List ℕ
  pub sent : List ℕ

-- The destructor
unfoldable pub destroy_packet : Packet → Gone → Gone
destroy_packet none g = g
destroy_packet (some m) g = record g { freed = g.freed ++ m ∷ [] }

-- The new packet and what is left of `other`
unfoldable pub move_packet : Packet → Packet × Packet
move_packet other = (other, none)

-- Assignment to a packet that is another object; to itself it does nothing.
unfoldable pub assign_packet : Packet → Packet → Gone → Packet × Packet × Gone
unfolding destroy_packet
assign_packet this other g = (other, none, destroy_packet this g)

-- The mbuf is the caller's now.
unfoldable pub release : Packet → Packet × Packet
release p = (p, none)

-- push_back for each packet of `other`, whose packets stay behind without mbufs
move_each : Burst → Burst × Burst
unfolding move_packet
move_each [] = ([], [])
move_each (p ∷ ps) =
    let (new, old) = move_packet p in let (news, olds) = move_each ps in (new ∷ news, old ∷ olds)

unfoldable pub move_burst : Burst → Burst × Burst
unfolding move_each
move_burst other = move_each other

unfoldable pub destroy_burst : Burst → Gone → Gone
unfolding destroy_packet
destroy_burst [] g = g
destroy_burst (p ∷ ps) g = destroy_burst ps (destroy_packet p g)

-- Assignment to a burst that is another object
unfoldable pub assign_burst : Burst → Burst → Gone → Burst × Burst × Gone
unfolding move_each destroy_burst
assign_burst this other g = let (new, old) = move_each other in (new, old, destroy_burst this g)

-- packet_burst::max_size
abbrev pub max_size : ℕ
max_size = 32

-- `rx` is rte_eth_rx_burst on this queue: the mbufs that it gives where so many are asked for.
unfoldable pub receive_burst : (ℕ → List ℕ) → ℕ → Burst
receive_burst rx max_count =
    map some (rx (u16 (if ltb max_size max_count then max_size else max_count)))

-- `release` on the first `n` packets
release_first : ℕ → Burst → Burst
unfolding release
release_first zero pkts = pkts
release_first (suc n) [] = []
release_first (suc n) (p ∷ ps) = (release p).1 ∷ release_first n ps

abbrev pub mbufs : Burst → List ℕ
mbufs [] = []
mbufs (none ∷ ps) = mbufs ps
mbufs (some m ∷ ps) = m ∷ mbufs ps

-- `tx` is rte_eth_tx_burst on this queue: how many of so many packets the driver takes.
unfoldable pub send_burst : (ℕ → ℕ) → Burst → Gone → ℕ × Burst × Gone
unfolding release_first
send_burst tx pkts g =
    let n = tx (u16 (length pkts)) in
    (n, release_first n pkts, record g { sent = g.sent ++ mbufs (take n pkts) })
