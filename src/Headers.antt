-- ===== src/Headers.antt =====
-- src/ethernet_header.cpp, src/ipv4_header.cpp, src/udp_header.cpp, src/tcp_header.cpp and
-- ipv4_multicast_mac. A header pointer is the offset of the header in the packet.
pub mod Layout
use dpdk_wrapper_library.Base.{
  ℕ, ◌+◌, ◌-◌, ◌/◌, ◌^◌, List, [], ◌∷◌, ◌++◌, Option, some, ◌>>=◌, u8, u16, be16, be32, bit_and,
  drop,
}
use dpdk_wrapper_library.Packet.{
  EtherAddr, mac_bytes, Mbuf, Dpdk, packet_length, append, write, set_l2_len, set_l3_len,
}

unfoldable pub build_ethernet_header : Mbuf → EtherAddr → EtherAddr → ℕ → Option (ℕ × Mbuf)
unfolding append write set_l2_len
build_ethernet_header pkt dst src ether_type = do
  (off, m) ← append pkt 14
  some (off, set_l2_len 14 (write off (mac_bytes dst ++ (mac_bytes src ++ be16 ether_type)) m))

-- RTE_IPV4_VHL_DEF, and zeros for all that finalize_ipv4_header fills in
unfoldable pub ipv4_bytes : ℕ → ℕ → ℕ → ℕ → ℕ → List ℕ
ipv4_bytes src_addr dst_addr next_proto ttl tos =
    0x45 ∷ tos ∷ 0 ∷ 0 ∷ 0 ∷ 0 ∷ 0 ∷ 0 ∷ ttl ∷ next_proto ∷ 0 ∷ 0 ∷ be32 src_addr ++ be32 dst_addr

unfoldable pub build_ipv4_header : Mbuf → ℕ → ℕ → ℕ → ℕ → ℕ → Option (ℕ × Mbuf)
unfolding append write set_l3_len ipv4_bytes
build_ipv4_header pkt src_addr dst_addr next_proto ttl tos = do
  (off, m) ← append pkt 20
  some (off, set_l3_len 20 (write off (ipv4_bytes src_addr dst_addr next_proto ttl tos) m))

-- `pkt.data() + pkt.length() - hdr_bytes`, cast to uint16_t
unfoldable pub bytes_from : Mbuf → ℕ → ℕ
unfolding packet_length
bytes_from pkt hdr = u16 (packet_length pkt + 2 ^ 16 - hdr)

unfoldable pub finalize_ipv4_header : Dpdk → Mbuf → ℕ → Mbuf
unfolding bytes_from write
finalize_ipv4_header d pkt hdr =
    let sized = write (hdr + 2) (be16 (bytes_from pkt hdr)) pkt in
    let cleared = write (hdr + 10) (0 ∷ 0 ∷ []) sized in
    write (hdr + 10) (be16 (d.ipv4_cksum (drop hdr cleared.bytes))) cleared

unfoldable pub build_udp_header : Mbuf → ℕ → ℕ → Option (ℕ × Mbuf)
unfolding append write
build_udp_header pkt src_port dst_port = do
  (off, m) ← append pkt 8
  some (off, write off (be16 src_port ++ be16 dst_port) m)

unfoldable pub finalize_udp_header : Dpdk → Mbuf → ℕ → ℕ → Mbuf
unfolding bytes_from write
finalize_udp_header d pkt ip_hdr hdr =
    let sized = write (hdr + 4) (be16 (bytes_from pkt hdr)) pkt in
    let cleared = write (hdr + 6) (0 ∷ 0 ∷ []) sized in
    let cksum = d.udptcp_cksum (drop ip_hdr cleared.bytes) (drop hdr cleared.bytes) in
    write (hdr + 6) (be16 cksum) cleared

-- data_off is `5 << 4`
unfoldable pub tcp_bytes : ℕ → ℕ → ℕ → ℕ → ℕ → ℕ → List ℕ
tcp_bytes src_port dst_port seq ack flags window =
    be16 src_port
    ++ (be16 dst_port
        ++ (be32 seq ++ (be32 ack ++ (0x50 ∷ flags ∷ be16 window ++ (0 ∷ 0 ∷ 0 ∷ 0 ∷ [])))))

unfoldable pub build_tcp_header : Mbuf → ℕ → ℕ → ℕ → ℕ → ℕ → ℕ → Option (ℕ × Mbuf)
unfolding append write tcp_bytes
build_tcp_header pkt src_port dst_port seq ack flags window = do
  (off, m) ← append pkt 20
  some (off, write off (tcp_bytes src_port dst_port seq ack flags window) m)

unfoldable pub finalize_tcp_header : Dpdk → Mbuf → ℕ → ℕ → Mbuf
unfolding write
finalize_tcp_header d pkt ip_hdr hdr =
    let cleared = write (hdr + 16) (0 ∷ 0 ∷ []) pkt in
    let cksum = d.udptcp_cksum (drop ip_hdr cleared.bytes) (drop hdr cleared.bytes) in
    write (hdr + 16) (be16 cksum) cleared

-- 01:00:5e and the low 23 bits of the group
pub ipv4_multicast_mac : ℕ → EtherAddr
ipv4_multicast_mac group = record {
  b0 = 0x01;
  b1 = 0x00;
  b2 = 0x5e;
  b3 = u8 (bit_and (group / 2 ^ 16) 0x7f);
  b4 = u8 (bit_and (group / 2 ^ 8) 0xff);
  b5 = u8 (bit_and group 0xff);
}
