-- ===== src/Tcp/Segment/Layout.antt =====
-- The wire bytes of a segment that `build_segment` builds.
use mathlib.Core.List.{append-nil}
use dpdk_wrapper_library.Base.{
  ℕ, ◌+◌, ◌-◌, ◌/◌, ◌^◌, ◌≡◌, refl, ◌∙◌, sym, ap, List, [], ◌∷◌, ◌++◌, some, arith, length, drop,
  u8, u16, be16, be32, >>=-eq-some, Option-cases, inl, inr,
}
use dpdk_wrapper_library.Headers.Layout.{
  Appends, build_ethernet_header-Appends, build_ipv4_header-Appends, build_tcp_header-Appends,
}
use dpdk_wrapper_library.Headers.{
  build_ethernet_header, build_ipv4_header, build_tcp_header, finalize_ipv4_header,
  finalize_tcp_header, ipv4_bytes, tcp_bytes, bytes_from,
}
use dpdk_wrapper_library.Packet.Append.{append_payload-lem}
use dpdk_wrapper_library.Packet.{mac_bytes, Mbuf, Dpdk, packet_length, append_payload, write}
use dpdk_wrapper_library.Tcp.Segment.{SegmentAddr, Content, append_mss, append_data, fill_segment}

-- The frame up to its payload, with the IPv4 length and the two checksums as given, and with
-- `data_off` and the options.
abbrev pub header : SegmentAddr → Content → ℕ → ℕ → ℕ → ℕ → List ℕ → List ℕ
header a c total ip_sum tcp_sum data_off opt =
    mac_bytes a.dst_mac
    ++ (mac_bytes a.src_mac
        ++ (be16 0x0800
            ++ (0x45 ∷ 0 ∷ be16 total
                ++ (0 ∷ 0 ∷ 0 ∷ 0 ∷ 64 ∷ 6 ∷ be16 ip_sum
                    ++ (be32 a.src_ip
                        ++ (be32 a.dst_ip
                            ++ (be16 a.src_port
                                ++ (be16 a.dst_port
                                    ++ (be32 c.seq
                                        ++ (be32 c.ack
                                            ++ (data_off ∷ c.flags ∷ be16 c.window
                                                ++ (be16 tcp_sum ++ (0 ∷ 0 ∷ opt)))))))))))))

abbrev pub mss_bytes : ℕ → List ℕ
mss_bytes mss = 2 ∷ 4 ∷ u8 (mss / 2 ^ 8) ∷ u8 mss ∷ []

-- Without an MSS option
abbrev pub frame : SegmentAddr → Content → ℕ → ℕ → ℕ → List ℕ
frame a c total ip_sum tcp_sum = header a c total ip_sum tcp_sum 0x50 [] ++ c.payload

append_data-bytes :
    (payload : List ℕ) (m : Mbuf) {m' : Mbuf}
    → append_data payload m ≡ some m'
    → m'.bytes ≡ m.bytes ++ payload
unfolding append_data
append_data-bytes [] m done = ground (arith, append-nil m.bytes)
append_data-bytes (x ∷ xs) m done = elim (Option-cases (append_payload m (x ∷ xs))) [
  | inl full ↦ absurd (ground arith)
  | inr ((off, m'), e) ↦ ground (arith, append_payload-lem m (x ∷ xs) e)
]

finalized :
    (d : Dpdk) (a : SegmentAddr) (c : Content) (m : Mbuf)
    → m.bytes ≡ frame a c 0 0 0
    → let total = u16 (u16 (length (frame a c 0 0 0)) + 2 ^ 16 - 14) in
      let ip_sum = d.ipv4_cksum (drop 14 (frame a c total 0 0)) in
      let tcp_sum =
        d.udptcp_cksum (drop 14 (frame a c total ip_sum 0)) (drop 34 (frame a c total ip_sum 0)) in
      (finalize_tcp_header d (finalize_ipv4_header d m 14) 14 34).bytes
      ≡ frame a c total ip_sum tcp_sum
unfolding finalize_tcp_header finalize_ipv4_header bytes_from packet_length write
finalized d a c m e = rw e refl

-- The three headers, one behind the other
module _ (a : SegmentAddr) (c : Content) {pkt : Mbuf} {e i t : ℕ × Mbuf} (fresh : pkt.bytes ≡ [])
    (ethernet : Appends pkt (mac_bytes a.dst_mac ++ (mac_bytes a.src_mac ++ be16 0x0800)) e)
    (ipv4 : Appends e.1 (ipv4_bytes a.src_ip a.dst_ip 6 64 0) i)
    (tcp : Appends i.1 (tcp_bytes a.src_port a.dst_port c.seq c.ack c.flags c.window) t) where
  at_14 : e.1.bytes ≡ mac_bytes a.dst_mac ++ (mac_bytes a.src_mac ++ be16 0x0800)
  at_14 = ethernet.contents ∙ rw fresh

  ip_at : i.0 ≡ 14
  ip_at = ipv4.offset ∙ ap length at_14

  at_34 : i.1.bytes ≡ e.1.bytes ++ ipv4_bytes a.src_ip a.dst_ip 6 64 0
  at_34 = ipv4.contents

  tcp_at : t.0 ≡ 34
  unfolding ipv4_bytes
  tcp_at = tcp.offset ∙ rw (at_34, at_14)

  headers : t.1.bytes ≡ header a c 0 0 0 0x50 []
  unfolding ipv4_bytes tcp_bytes
  headers = tcp.contents ∙ rw (at_34, at_14)

-- A segment without an MSS option, from an empty packet on: the exact frame.
pub fill_segment-frame :
    (d : Dpdk) (a : SegmentAddr) (c : Content) (pkt : Mbuf) {m : Mbuf}
    → pkt.bytes ≡ []
    → c.mss_option ≡ 0
    → fill_segment d a c pkt ≡ some m
    → let total = u16 (u16 (length (frame a c 0 0 0)) + 2 ^ 16 - 14) in
      let ip_sum = d.ipv4_cksum (drop 14 (frame a c total 0 0)) in
      let tcp_sum =
        d.udptcp_cksum (drop 14 (frame a c total ip_sum 0)) (drop 34 (frame a c total ip_sum 0)) in
      m.bytes ≡ frame a c total ip_sum tcp_sum
unfolding fill_segment append_mss
fill_segment-frame d a c pkt {m} fresh no_option done =
    let (e, be, done₁) =
      >>=-eq-some (build_ethernet_header pkt a.dst_mac a.src_mac 0x0800) _ done in
    let (i, bi, done₂) = >>=-eq-some (build_ipv4_header e.1 a.src_ip a.dst_ip 6 64 0) _ done₁ in
    let (t, bt, done₃) =
      >>=-eq-some (build_tcp_header i.1 a.src_port a.dst_port c.seq c.ack c.flags c.window) _
        done₂ in
    let (o, bo, done₄) = >>=-eq-some (append_mss t.0 c.mss_option t.1) _ done₃ in
    let (full, bf, done₅) = >>=-eq-some (append_data c.payload o) _ done₄ in
    let ethernet = build_ethernet_header-Appends pkt a.dst_mac a.src_mac 0x0800 be in
    let ipv4 = build_ipv4_header-Appends e.1 a.src_ip a.dst_ip 6 64 0 bi in
    let tcp = build_tcp_header-Appends i.1 a.src_port a.dst_port c.seq c.ack c.flags c.window bt in
    let plain : t.1 ≡ o = ground (arith, bo) in
    let whole : full.bytes ≡ frame a c 0 0 0 =
      append_data-bytes c.payload o bf
      ∙ ap (λ (x : Mbuf). x.bytes ++ c.payload) (sym plain)
      ∙ ap (λ (bs : List ℕ). bs ++ c.payload) (headers a c fresh ethernet ipv4 tcp) in
    built full (ip_at a c fresh ethernet ipv4 tcp) (tcp_at a c fresh ethernet ipv4 tcp) whole done₅
  where
    built :
        {i t : ℕ} (full : Mbuf)
        → i ≡ 14
        → t ≡ 34
        → full.bytes ≡ frame a c 0 0 0
        → some (finalize_tcp_header d (finalize_ipv4_header d full i) i t) ≡ some m
        → let total = u16 (u16 (length (frame a c 0 0 0)) + 2 ^ 16 - 14) in
          let ip_sum = d.ipv4_cksum (drop 14 (frame a c total 0 0)) in
          let tcp_sum =
            d.udptcp_cksum
              (drop 14 (frame a c total ip_sum 0))
              (drop 34 (frame a c total ip_sum 0)) in
          m.bytes ≡ frame a c total ip_sum tcp_sum
    built {i} {t} full ei et whole e =
        let e' : m ≡ finalize_tcp_header d (finalize_ipv4_header d full 14) 14 34 = cc in
        ap (λ (x : Mbuf). x.bytes) e' ∙ finalized d a c full whole
