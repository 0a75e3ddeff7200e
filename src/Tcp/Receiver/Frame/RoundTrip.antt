-- ===== src/Tcp/Receiver/Frame/RoundTrip.antt =====
-- `process` on a frame that `build_segment` built: what the sender put in comes out.
use dpdk_wrapper_library.Base.{
  ℕ, ◌+◌, ◌-◌, ◌^◌, ◌<◌, ◌≡◌, ◌≢◌, refl, ◌∙◌, List, [], ◌∷◌, ◌++◌, some, Bool, true, false, not,
  ◌&&◌, ltb, ◌==◌, arith, length, get_or, take, drop, take_all, u16, be16, be32, ==_iff, has_bits,
}
use dpdk_wrapper_library.Arp.{mac_from, read16, read32}
use dpdk_wrapper_library.Packet.{EtherAddr, Mbuf, Dpdk, packet_length, is_contiguous}
use dpdk_wrapper_library.Tcp.Receiver.Frame.{
  tcp_checksum_ok, parse_segment, route, tcp_header_len, process_tcp, ip_header_len, bad_ipv4,
  process_ipv4, process,
}
use dpdk_wrapper_library.Tcp.Receiver.State.{Receiver}
use dpdk_wrapper_library.Tcp.Segment.Layout.{frame, fill_segment-frame}
use dpdk_wrapper_library.Tcp.Segment.{SegmentAddr, Content, fill_segment, Segment}
use dpdk_wrapper_library.Tcp.Stack.{TcpStack}

-- What the checksum helpers of rte_ip.h promise. A header checksum depends on the header alone, and
-- a header that holds its own checksum verifies; so does a TCP segment under an IPv4 header
-- without options and of the same total length.
pub record Checksums (d : Dpdk) : Type 0 where
  pub ipv4_verifies :
      (bs bs' pre suf : List ℕ)
      → length pre ≡ 10
      → length suf ≡ 8
      → get_or pre 0 0 ≡ 0x45
      → take 20 bs ≡ pre ++ (0 ∷ 0 ∷ suf)
      → take 20 bs' ≡ pre ++ (be16 (d.ipv4_cksum bs) ++ suf)
      → d.ipv4_cksum bs' ≡ 0
  pub tcp_verifies :
      (ip ip' pre suf : List ℕ)
      → take 20 ip ≡ take 20 ip'
      → length pre ≡ 16
      → get_or ip 0 0 ≡ 0x45
      → read16 ip 2 ≡ 38 + length suf
      → let sum = d.udptcp_cksum ip (pre ++ (0 ∷ 0 ∷ suf)) in
        tcp_checksum_ok d ip' (pre ++ (be16 sum ++ suf)) (18 + length suf) ≡ true

IsMac : EtherAddr → Type 0
IsMac a = (a.b0 < 256) × (a.b1 < 256) × (a.b2 < 256) × (a.b3 < 256) × (a.b4 < 256) × (a.b5 < 256)

-- The widths of the fields, and a payload that fits a frame.
pub record Fits (a : SegmentAddr) (c : Content) : Type 0 where
  pub src_ip : a.src_ip < 2 ^ 32
  pub dst_ip : a.dst_ip < 2 ^ 32
  pub src_port : a.src_port < 2 ^ 16
  pub dst_port : a.dst_port < 2 ^ 16
  pub seq : c.seq < 2 ^ 32
  pub ack : c.ack < 2 ^ 32
  pub window : c.window < 2 ^ 16
  pub payload : length c.payload + 54 < 2 ^ 16

-- The segment that the receiver should see.
abbrev pub received : SegmentAddr → Content → Segment
received a c = record {
  src_mac = a.src_mac;
  src_ip = a.src_ip;
  src_port = a.src_port;
  dst_port = a.dst_port;
  seq = c.seq;
  ack = c.ack;
  flags = c.flags;
  window = c.window;
  payload = c.payload;
  len = length c.payload;
  options = [];
}

skip_check : (on passed : Bool) → (on ≡ true → passed ≡ true) → on && not passed ≡ false
skip_check on passed h = ground arith

module _ (a : SegmentAddr) (c : Content) (fits : Fits a c) (total ip_sum tcp_sum : ℕ) where
  abbrev bs : List ℕ
  bs = frame a c total ip_sum tcp_sum

  parse_segment-frame : parse_segment bs 34 20 (20 + length c.payload) ≡ received a c
  unfolding parse_segment mac_from read16 read32
  parse_segment-frame =
      let whole = take_all (length c.payload) c.payload (omega arith) in
      let n : 20 + length c.payload - 20 ≡ length c.payload = omega arith in
      rw (n, whole) (ground arith)

  -- The tests of `process` on the way to TCP
  ip_header_len-frame : ip_header_len bs ≡ 20
  unfolding ip_header_len
  ip_header_len-frame = refl

  tcp_header_len-frame : tcp_header_len bs 34 ≡ 20
  unfolding tcp_header_len
  tcp_header_len-frame = refl

  total-frame : total ≡ 40 + length c.payload → read16 bs 16 ≡ total
  unfolding read16
  total-frame e = omega (arith, fits.payload)

  src-frame : read32 bs 26 ≡ a.src_ip
  unfolding read32
  src-frame = omega (arith, fits.src_ip)

  dst-frame : read32 bs 30 ≡ a.dst_ip
  unfolding read32
  dst-frame = omega (arith, fits.dst_ip)

  good_ipv4-frame : total ≡ 40 + length c.payload → bad_ipv4 bs (40 + length c.payload) ≡ false
  unfolding bad_ipv4
  good_ipv4-frame e = rw (ip_header_len-frame, total-frame e, e) (ground arith)

  -- The checksums verify, or are not looked at.
  Verified : Dpdk → TcpStack → Type 0
  Verified d st =
      st.params.verify_checksums ≡ true
      → (d.ipv4_cksum (drop 14 bs) ≡ 0)
        × (tcp_checksum_ok d (drop 14 bs) (drop 34 bs) (20 + length c.payload) ≡ true)

  module _ (d : Dpdk) (st : TcpStack) (r : Receiver) (sized : total ≡ 40 + length c.payload)
      (verified : Verified d st) where
    packet_length-frame : (m : Mbuf) → m.bytes ≡ bs → packet_length m ≡ 54 + length c.payload
    unfolding packet_length
    packet_length-frame m e = rw e (omega (arith, fits.payload))

    process_tcp-frame : process_tcp d st bs 20 total r ≡ route d st (received a c) r
    unfolding process_tcp Verified
    process_tcp-frame =
        let l4 : u16 (total - 20) ≡ 20 + length c.payload = omega (arith, fits.payload) in
        let room : ltb (20 + length c.payload) 20 ≡ false = ground arith in
        let checked =
          skip_check st.params.verify_checksums
            (tcp_checksum_ok d (drop 14 bs) (drop 34 bs) (20 + length c.payload))
            (λ v. (verified v).1) in
        rw (l4, tcp_header_len-frame, room, parse_segment-frame, checked)

    process_ipv4-frame :
        a.dst_ip ≡ st.local_ip → a.src_ip ≢ 0 → process_ipv4 d st bs r ≡ route d st (received a c) r
    unfolding process_ipv4 Verified has_bits read16
    process_ipv4-frame ours real =
        let own : (a.dst_ip == st.local_ip) ≡ true = ground arith in
        let nonzero : (a.src_ip == 0) ≡ false = ground arith in
        let checked =
          skip_check st.params.verify_checksums (d.ipv4_cksum (drop 14 bs) == 0)
            (λ v. (==_iff _ 0).1 (verified v).0) in
        rw (dst-frame, own, src-frame, nonzero, checked, ip_header_len-frame, total-frame sized)
          process_tcp-frame

    process-frame :
        (m : Mbuf)
        → m.bytes ≡ bs
        → m.nb_segs ≡ 1
        → a.dst_ip ≡ st.local_ip
        → a.src_ip ≢ 0
        → process d st m r ≡ route d st (received a c) r
    unfolding process read16
    process-frame m e one ours real =
        let n : packet_length m ≡ 54 + length c.payload = packet_length-frame m e in
        let contiguous : is_contiguous m ≡ true = unfold is_contiguous in rw one in
        let l3 : u16 (54 + length c.payload - 14) ≡ 40 + length c.payload =
          omega (arith, fits.payload) in
        let enough : ltb (54 + length c.payload) 14 ≡ false = ground arith in
        let room : ltb (40 + length c.payload) 20 ≡ false = ground arith in
        rw (n, contiguous, l3, enough, room, e, good_ipv4-frame sized)
          (process_ipv4-frame ours real)

-- The checksums that `build_segment` fills in are those that `process` accepts.
frame-Verified :
    (d : Dpdk) (st : TcpStack) (a : SegmentAddr) (c : Content) (fits : Fits a c) (total : ℕ)
    → Checksums d
    → total ≡ 40 + length c.payload
    → let ip_sum = d.ipv4_cksum (drop 14 (frame a c total 0 0)) in
      let tcp_sum =
        d.udptcp_cksum (drop 14 (frame a c total ip_sum 0)) (drop 34 (frame a c total ip_sum 0)) in
      Verified a c fits total ip_sum tcp_sum d st
unfolding Verified
frame-Verified d st a c fits total laws sized on =
    let ip_sum = d.ipv4_cksum (drop 14 (frame a c total 0 0)) in
    let tcp_sum =
      d.udptcp_cksum (drop 14 (frame a c total ip_sum 0)) (drop 34 (frame a c total ip_sum 0)) in
    let start = 0x45 ∷ 0 ∷ be16 total ++ (0 ∷ 0 ∷ 0 ∷ 0 ∷ 64 ∷ 6 ∷ []) in
    let addresses = be32 a.src_ip ++ be32 a.dst_ip in
    let n : 18 + length (0 ∷ 0 ∷ c.payload) ≡ 20 + length c.payload = omega arith in
    let fields =
      be16 a.src_port
      ++ (be16 a.dst_port ++ (be32 c.seq ++ (be32 c.ack ++ (0x50 ∷ c.flags ∷ be16 c.window)))) in
    (
      laws.ipv4_verifies (drop 14 (frame a c total 0 0)) (drop 14 (frame a c total ip_sum tcp_sum))
          start addresses refl refl refl refl refl,
      rw n at (
          laws.tcp_verifies (drop 14 (frame a c total ip_sum 0))
            (drop 14 (frame a c total ip_sum tcp_sum)) fields (0 ∷ 0 ∷ c.payload) refl refl refl
            (unfold read16 in omega (arith, fits.payload))),
    )

-- With checksum helpers that keep their promises, and fields that fit their widths, a segment
-- without an MSS option that `build_segment` fills into an empty mbuf, received in one mbuf at the station it
-- is addressed to, from a source other than 0.0.0.0, passes every check of `process`, and reaches
-- `route` with the addresses, ports, numbers, flags, window and payload that were put in.
pub process-fill_segment :
    (d : Dpdk) (st : TcpStack) (a : SegmentAddr) (c : Content) (pkt m rx : Mbuf) (r : Receiver)
    → Checksums d
    → Fits a c
    → pkt.bytes ≡ []
    → c.mss_option ≡ 0
    → fill_segment d a c pkt ≡ some m
    → rx.bytes ≡ m.bytes
    → rx.nb_segs ≡ 1
    → a.dst_ip ≡ st.local_ip
    → a.src_ip ≢ 0
    → process d st rx r ≡ route d st (received a c) r
process-fill_segment d st a c pkt m rx r laws fits fresh plain built same one ours real =
    let total = u16 (u16 (length (frame a c 0 0 0)) + 2 ^ 16 - 14) in
    let sized : total ≡ 40 + length c.payload = omega (arith, fits.payload) in
    let ip_sum = d.ipv4_cksum (drop 14 (frame a c total 0 0)) in
    let tcp_sum =
      d.udptcp_cksum (drop 14 (frame a c total ip_sum 0)) (drop 34 (frame a c total ip_sum 0)) in
    process-frame a c fits total ip_sum tcp_sum d st r sized
      (frame-Verified d st a c fits total laws sized) rx
      (same ∙ fill_segment-frame d a c pkt fresh plain built) one ours real
