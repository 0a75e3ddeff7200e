-- ===== src/Headers/Layout.antt =====
-- The header builders put their headers one behind the other.
use dpdk_wrapper_library.Base.{
  ℕ, ◌≡◌, refl, List, ◌++◌, some, arith, length, be16, Option-cases, inl, inr,
}
use dpdk_wrapper_library.Headers.{
  build_ethernet_header, build_ipv4_header, build_tcp_header, ipv4_bytes, tcp_bytes,
}
use dpdk_wrapper_library.Packet.Append.{append-write}
use dpdk_wrapper_library.Packet.{EtherAddr, mac_bytes, Mbuf, append}

-- `off` points behind what was there, and `src` stands at it.
pub record Appends (m : Mbuf) (src : List ℕ) (r : ℕ × Mbuf) : Type 0 where
  pub offset : r.0 ≡ length m.bytes
  pub contents : r.1.bytes ≡ m.bytes ++ src

module _ (m : Mbuf) {r : ℕ × Mbuf} where
  pub build_ethernet_header-Appends :
      (dst src : EtherAddr) (ether_type : ℕ)
      → build_ethernet_header m dst src ether_type ≡ some r
      → Appends m (mac_bytes dst ++ (mac_bytes src ++ be16 ether_type)) r
  unfolding build_ethernet_header
  build_ethernet_header-Appends dst src ether_type done = elim (Option-cases (append m 14)) [
    | inl full ↦ absurd (ground arith)
    | inr ((off, m'), e) ↦
        let fill = append-write m 14 (mac_bytes dst ++ (mac_bytes src ++ be16 ether_type)) e refl in
        ground arith
  ]

  pub build_ipv4_header-Appends :
      (src dst proto ttl tos : ℕ)
      → build_ipv4_header m src dst proto ttl tos ≡ some r
      → Appends m (ipv4_bytes src dst proto ttl tos) r
  unfolding build_ipv4_header ipv4_bytes
  build_ipv4_header-Appends src dst proto ttl tos done = elim (Option-cases (append m 20)) [
    | inl full ↦ absurd (ground arith)
    | inr ((off, m'), e) ↦
        let fill = append-write m 20 (ipv4_bytes src dst proto ttl tos) e refl in ground arith
  ]

  pub build_tcp_header-Appends :
      (src_port dst_port seq ack flags window : ℕ)
      → build_tcp_header m src_port dst_port seq ack flags window ≡ some r
      → Appends m (tcp_bytes src_port dst_port seq ack flags window) r
  unfolding build_tcp_header tcp_bytes
  build_tcp_header-Appends src_port dst_port seq ack flags window done =
      elim (Option-cases (append m 20)) [
        | inl full ↦ absurd (ground arith)
        | inr ((off, m'), e) ↦
            let fill =
              append-write m 20 (tcp_bytes src_port dst_port seq ack flags window) e refl in
            ground arith
      ]
