-- ===== src/Tcp/Receiver/Frame.antt =====
-- `process` and `process_tcp` of src/tcp_stack.cpp: a received frame, from its bytes on.
pub mod RoundTrip
pub mod Resets
use dpdk_wrapper_library.Arp.{ArpOutcome, replied, handle_arp, mac_from, read16, read32}
use dpdk_wrapper_library.Base.{
  ℕ, ◌+◌, ◌-◌, ◌*◌, ◌/◌, ◌^◌, List, Option, none, some, Bool, not, ◌&&◌, ◌||◌, ltb, ◌==◌,
  if◌then◌else◌, u16, u64, has_bits, bit_and, get_or, take, drop,
}
use dpdk_wrapper_library.Packet.{Mbuf, Dpdk, packet_length, is_contiguous}
use dpdk_wrapper_library.Tcp.FlowTable
use dpdk_wrapper_library.Tcp.Receiver.Dispatch.{process_segment}
use dpdk_wrapper_library.Tcp.Receiver.Replies.{send_rst_for, open_connection}
use dpdk_wrapper_library.Tcp.Receiver.State.{Receiver, count, queue_control}
use dpdk_wrapper_library.Tcp.Segment.{Segment, has, syn_flag, rst_flag, ack_flag}
use dpdk_wrapper_library.Tcp.Stack.{TcpStack, contains}

-- The sum over pseudo-header and segment comes out all-ones.
unfoldable pub tcp_checksum_ok : Dpdk → List ℕ → List ℕ → ℕ → Bool
tcp_checksum_ok d ip l4 l4_len =
    d.raw_cksum_reduce (d.raw_cksum (take l4_len l4) (d.phdr_cksum ip)) == 0xffff

unfoldable pub count_malformed : Receiver → Receiver
count_malformed = count λ s. record s { malformed = u64 (s.malformed + 1) }

unfoldable pub count_bad_checksum : Receiver → Receiver
count_bad_checksum = count λ s. record s { bad_checksum = u64 (s.bad_checksum + 1) }

-- The fields of a frame with its IP header at 14 and its TCP header at `tcp`.
unfoldable pub parse_segment : List ℕ → ℕ → ℕ → ℕ → Segment
parse_segment bs tcp data_off l4_len = record {
  src_mac = mac_from bs 6;
  src_ip = read32 bs 26;
  src_port = read16 bs tcp;
  dst_port = read16 bs (tcp + 2);
  seq = read32 bs (tcp + 4);
  ack = read32 bs (tcp + 8);
  flags = get_or bs (tcp + 13) 0;
  window = read16 bs (tcp + 14);
  payload = take (l4_len - data_off) (drop (tcp + data_off) bs);
  len = l4_len - data_off;
  options = take (data_off - 20) (drop (tcp + 20) bs);
}

-- To its connection, or `open`, or a reset.
unfoldable pub route : Dpdk → TcpStack → Segment → Receiver → Receiver
route d st seg r =
    let idx = FlowTable.find r.flows (FlowTable.key seg.src_ip seg.src_port seg.dst_port) in
    if not (idx == FlowTable.npos)
    then process_segment d st idx seg r
    else if has seg syn_flag
        && not (has seg ack_flag)
        && not (has seg rst_flag)
        && contains st.listening seg.dst_port
    then open_connection d st seg r
    else send_rst_for d st seg r

-- `(tcp->data_off >> 4) * 4`
unfoldable pub tcp_header_len : List ℕ → ℕ → ℕ
tcp_header_len bs tcp = u16 (get_or bs (tcp + 12) 0 / 2 ^ 4 * 4)

unfoldable pub process_tcp : Dpdk → TcpStack → List ℕ → ℕ → ℕ → Receiver → Receiver
unfolding count_malformed count_bad_checksum
process_tcp d st bs ip_hdr_len ip_total_len r =
    let tcp = 14 + ip_hdr_len in
    let l4_len = u16 (ip_total_len - ip_hdr_len) in
    let data_off = tcp_header_len bs tcp in
    if ltb l4_len 20
    then count_malformed r
    else if ltb data_off 20 || ltb l4_len data_off
    then count_malformed r
    else if st.params.verify_checksums && not (tcp_checksum_ok d (drop 14 bs) (drop tcp bs) l4_len)
    then count_bad_checksum r
    else route d st (parse_segment bs tcp data_off l4_len) r

-- The reply is queued only where there is one.
unfoldable pub process_arp : Dpdk → TcpStack → Mbuf → Receiver → Receiver
process_arp d st pkt r =
    let out = handle_arp d r.world pkt st.local_mac st.local_ip r.neighbors in
    let learned = record r { neighbors = out.neighbors; world = out.world } in
    elim out.result [ replied ↦ queue_control out.reply learned | _ ↦ learned ]

-- `(ip->version_ihl & 0x0f) * 4`
unfoldable pub ip_header_len : List ℕ → ℕ
ip_header_len bs = u16 (bit_and (get_or bs 14 0) 0x0f * 4)

-- The version and the lengths of an IPv4 header in a frame of `l3_avail` bytes behind Ethernet
unfoldable pub bad_ipv4 : List ℕ → ℕ → Bool
bad_ipv4 bs l3_avail =
    not (get_or bs 14 0 / 2 ^ 4 == 4)
    || ltb (ip_header_len bs) 20
    || ltb (read16 bs 16) (ip_header_len bs)
    || ltb l3_avail (read16 bs 16)

unfoldable pub process_ipv4 : Dpdk → TcpStack → List ℕ → Receiver → Receiver
unfolding count_malformed count_bad_checksum
process_ipv4 d st bs r =
    if not (read32 bs 30 == st.local_ip)
    then r
    else if read32 bs 26 == 0
    then count_malformed r
    else if st.params.verify_checksums && not (d.ipv4_cksum (drop 14 bs) == 0)
    then count_bad_checksum r
    else if not (get_or bs 23 0 == 6)
    then r
    else if has_bits (read16 bs 20) 0x3fff
    then count (λ s. record s { ip_fragments = u64 (s.ip_fragments + 1) }) r
    else process_tcp d st bs (ip_header_len bs) (read16 bs 16) r

unfoldable pub process : Dpdk → TcpStack → Mbuf → Receiver → Receiver
unfolding process_arp count_malformed
process d st pkt r =
    let l3_avail = u16 (packet_length pkt - 14) in
    if ltb (packet_length pkt) 14
    then r
    else if not (is_contiguous pkt)
    then count (λ s. record s { multi_segment = u64 (s.multi_segment + 1) }) r
    else if read16 pkt.bytes 12 == 0x0806
    then process_arp d st pkt r
    else if not (read16 pkt.bytes 12 == 0x0800)
    then r
    else if ltb l3_avail 20
    then count_malformed r
    else if bad_ipv4 pkt.bytes l3_avail
    then count_malformed r
    else process_ipv4 d st pkt.bytes r
