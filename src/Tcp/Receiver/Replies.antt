-- ===== src/Tcp/Receiver/Replies.antt =====
-- The control segments of `tcp_receiver::impl`, and `open`.
use dpdk_wrapper_library.Base.{
  ℕ, ◌+◌, List, [], ◌∷◌, false, min, bit_or, ◌==◌, if◌then◌else◌, u32, u64, length,
}
use dpdk_wrapper_library.Packet.{Dpdk}
use dpdk_wrapper_library.Tcp.Connection.{TcpState, TcpConnection, pack_window}
use dpdk_wrapper_library.Tcp.FlowTable
use dpdk_wrapper_library.Tcp.Options.{parse_mss_option}
use dpdk_wrapper_library.Tcp.Receiver.State.{Receiver, slot, modify, count, queue_control}
use dpdk_wrapper_library.Tcp.Segment.{
  SegmentAddr, Content, build_segment, Segment, has, fin_flag, syn_flag, rst_flag, ack_flag,
}
use dpdk_wrapper_library.Tcp.Stack.{TcpStack}

unfoldable pub reply_addr : TcpStack → TcpConnection → SegmentAddr
reply_addr st c = record {
  src_mac = st.local_mac;
  dst_mac = c.peer_mac;
  src_ip = st.local_ip;
  dst_ip = c.peer_ip;
  src_port = c.local_port;
  dst_port = c.peer_port;
}

-- `queue_control(build_segment(...))`
unfoldable pub queue_segment : Dpdk → SegmentAddr → Content → Receiver → Receiver
queue_segment d a c r =
    let (pkt, w) = build_segment d r.world a c in queue_control pkt (record r { world = w })

unfoldable pub rst_addr : TcpStack → Segment → SegmentAddr
rst_addr st seg = record {
  src_mac = st.local_mac;
  dst_mac = seg.src_mac;
  src_ip = st.local_ip;
  dst_ip = seg.src_ip;
  src_port = seg.dst_port;
  dst_port = seg.src_port;
}

-- Sequence space that a segment occupies
unfoldable pub occupied : Segment → ℕ
occupied seg =
    u32 (seg.len + (if has seg syn_flag then 1 else 0) + (if has seg fin_flag then 1 else 0))

unfoldable pub rst_content : Segment → Content
rst_content seg =
    if has seg ack_flag
    then record {
      seq = seg.ack;
      ack = 0;
      flags = rst_flag;
      window = 0;
      payload = [];
      mss_option = 0;
    }
    else record {
      seq = 0;
      ack = u32 (seg.seq + occupied seg);
      flags = bit_or rst_flag ack_flag;
      window = 0;
      payload = [];
      mss_option = 0;
    }

unfoldable pub send_rst_for : Dpdk → TcpStack → Segment → Receiver → Receiver
send_rst_for d st seg r =
    if has seg rst_flag
    then r
    else queue_segment d (rst_addr st seg) (rst_content seg)
        (count (λ s. record s { rst_sent = u64 (s.rst_sent + 1) }) r)

unfoldable pub syn_ack_content : TcpStack → TcpConnection → Content
syn_ack_content st c = record {
  seq = c.iss;
  ack = c.rcv_nxt_local;
  flags = bit_or syn_flag ack_flag;
  window = st.params.receive_window;
  payload = [];
  mss_option = st.mss;
}

unfoldable pub send_syn_ack : Dpdk → TcpStack → TcpConnection → Receiver → Receiver
send_syn_ack d st c = queue_segment d (reply_addr st c) (syn_ack_content st c)

-- A wrapped generation skips 0.
unfoldable pub next_generation : ℕ → ℕ
next_generation g = if u32 (g + 1) == 0 then 1 else u32 (g + 1)

-- The stores of `open` into its slot, the generation's before that of `out_flags`.
unfoldable pub init_connection : TcpStack → Segment → ℕ → TcpConnection → TcpConnection
init_connection st seg iss c = record {
  peer_ip = seg.src_ip;
  peer_port = seg.src_port;
  local_port = seg.dst_port;
  peer_mac = seg.src_mac;
  send_mss = min (parse_mss_option seg.options (length seg.options)) st.mss;
  iss = iss;
  state = TcpState.syn_received;
  irs = seg.seq;
  rcv_nxt_local = u32 (seg.seq + 1);
  snd_una = iss;
  snd_wnd = seg.window;
  snd_wl1 = seg.seq;
  snd_wl2 = 0;
  ack_pending = false;
  finalize_pending = false;
  generation = next_generation c.generation;
  rcv_nxt = u32 (seg.seq + 1);
  send_window = pack_window iss seg.window;
  terminated = 0;
  snd_nxt = u32 (iss + 1);
  out_flags = 0;
}

unfoldable pub flow_key : TcpConnection → ℕ
flow_key c = FlowTable.key c.peer_ip c.peer_port c.local_port

unfoldable pub open_slot : Dpdk → TcpStack → Segment → ℕ → List ℕ → Receiver → Receiver
open_slot d st seg idx rest r =
    let iss = u32 (d.rand r.world.rands) in
    let taken = record r {
      free_slots = rest;
      world = record (r.world) { rands = r.world.rands + 1 };
    } in
    let opened = modify idx (init_connection st seg iss) taken in
    let c = slot opened idx in
    send_syn_ack d st c (record opened { flows = FlowTable.insert opened.flows (flow_key c) idx })

unfoldable pub open_from : Dpdk → TcpStack → Segment → List ℕ → Receiver → Receiver
unfolding open_slot
open_from d st seg [] r =
    send_rst_for d st seg (count (λ s. record s { no_free_slot = u64 (s.no_free_slot + 1) }) r)
open_from d st seg (idx ∷ rest) r = open_slot d st seg idx rest r

-- A SYN for a listening port. (`open` is a reserved word.)
unfoldable pub open_connection : Dpdk → TcpStack → Segment → Receiver → Receiver
unfolding open_from
open_connection d st seg r = open_from d st seg r.free_slots r
