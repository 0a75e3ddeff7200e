-- ===== src/Packet.antt =====
-- include/packet.h, src/packet.cpp, src/packet_pool.cpp: one mbuf as its bytes, and what the
-- library asks of DPDK. A packet that owns no mbuf is `none`.
pub mod Append
use dpdk_wrapper_library.Base.{
  ℕ, ◌+◌, ◌-◌, ◌^◌, List, [], ◌∷◌, ◌++◌, Option, none, some, Bool, ltb, ◌==◌, if◌then◌else◌, ◌>>=◌,
  u16, length, take, drop,
}

-- rte_ether_addr
pub record EtherAddr : Type 0 where
  pub b0 : ℕ
  pub b1 : ℕ
  pub b2 : ℕ
  pub b3 : ℕ
  pub b4 : ℕ
  pub b5 : ℕ

abbrev pub mac_bytes : EtherAddr → List ℕ
mac_bytes a = a.b0 ∷ a.b1 ∷ a.b2 ∷ a.b3 ∷ a.b4 ∷ a.b5 ∷ []

-- An rte_mbuf: `bytes` is the packet's contents, `tail` what lies in the unused tailroom.
pub record Mbuf : Type 0 where
  pub bytes : List ℕ
  pub tail : List ℕ
  pub nb_segs : ℕ
  pub l2_len : ℕ
  pub l3_len : ℕ

-- What DPDK answers: the tailroom of the n-th mbuf that the thread allocates (`none` when the pool
-- is exhausted), how many packets the n-th tx burst takes of those offered, the n-th random number,
-- and the checksum helpers of rte_ip.h over the bytes from a header on, a checksum being the number
-- that its two bytes stand for on the wire.
pub record Dpdk : Type 0 where
  pub alloc : ℕ → Option (List ℕ)
  pub tx_burst : ℕ → ℕ → ℕ
  pub rand : ℕ → ℕ
  pub ipv4_cksum : List ℕ → ℕ
  pub udptcp_cksum : List ℕ → List ℕ → ℕ
  pub phdr_cksum : List ℕ → ℕ
  pub raw_cksum : List ℕ → ℕ → ℕ
  pub raw_cksum_reduce : ℕ → ℕ

-- How many calls of each kind the thread has made.
pub record World : Type 0 where
  pub allocs : ℕ
  pub bursts : ℕ
  pub rands : ℕ

-- packet_pool::get
unfoldable pub get : Dpdk → World → Option Mbuf × World
get d w = (
  (do
    tail ← d.alloc w.allocs
    some (record { bytes = []; tail = tail; nb_segs = 1; l2_len = 0; l3_len = 0 })),
  record w { allocs = w.allocs + 1 },
)

-- pkt_len is 32 bits wide
unfoldable pub packet_length : Mbuf → ℕ
packet_length m = u16 (length m.bytes)

unfoldable pub is_contiguous : Mbuf → Bool
is_contiguous m = m.nb_segs == 1

-- packet::append(uint16_t): the offset of the new region, whose contents are left as they were.
unfoldable pub append : Mbuf → ℕ → Option (ℕ × Mbuf)
append m len =
    if ltb (length m.tail) len
    then none
    else some
        (length m.bytes, record m { bytes = m.bytes ++ take len m.tail; tail = drop len m.tail })

-- Stores through a pointer into the packet.
unfoldable pub write : ℕ → List ℕ → Mbuf → Mbuf
write off src m = record m { bytes = take off m.bytes ++ (src ++ drop (off + length src) m.bytes) }

-- packet::append(Payload)
unfoldable pub append_payload : Mbuf → List ℕ → Option (ℕ × Mbuf)
unfolding append write
append_payload m payload =
    if ltb (2 ^ 16 - 1) (length payload)
    then none
    else do (off, m') ← append m (length payload); some (off, write off payload m')

unfoldable pub set_l2_len : ℕ → Mbuf → Mbuf
set_l2_len len m = record m { l2_len = len }

unfoldable pub set_l3_len : ℕ → Mbuf → Mbuf
set_l3_len len m = record m { l3_len = len }
