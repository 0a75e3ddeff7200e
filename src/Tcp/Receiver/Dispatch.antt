-- ===== src/Tcp/Receiver/Dispatch.antt =====
-- `process_segment` of src/tcp_stack.cpp: the TCP state machine for one segment.
pub mod Transitions
pub mod Machine
use dpdk_wrapper_library.Base.{
  ℕ, ◌+◌, [], Bool, true, false, not, ◌&&◌, ◌==◌, if◌then◌else◌, u32, u64,
}
use dpdk_wrapper_library.Packet.{Dpdk}
use dpdk_wrapper_library.Tcp.Connection.{TcpState, TcpConnection}
use dpdk_wrapper_library.Tcp.FlowTable
use dpdk_wrapper_library.Tcp.Receiver.Ack.{
  sync_out_flags, rst_acceptable, publish_window, process_ack,
}
use dpdk_wrapper_library.Tcp.Receiver.Data.{process_data}
use dpdk_wrapper_library.Tcp.Receiver.Replies.{send_rst_for, send_syn_ack, flow_key}
use dpdk_wrapper_library.Tcp.Receiver.State.{
  Receiver, slot, modify, count, push_event, queue_ack, terminate, release_slot,
}
use dpdk_wrapper_library.Tcp.Segment.{Segment, has, syn_flag, rst_flag, ack_flag}
use dpdk_wrapper_library.Tcp.Stack.{TcpStack, TcpEventType}

unfoldable pub count_rst : Receiver → Receiver
count_rst = count λ s. record s { rst_received = u64 (s.rst_received + 1) }

-- Never accepted, so the slot is recycled at once.
unfoldable pub abandon : ℕ → Receiver → Receiver
unfolding count_rst
abandon idx r =
    let r' = count_rst r in
    release_slot idx (record r' { flows = FlowTable.erase r'.flows (flow_key (slot r' idx)) })

unfoldable pub establish : Segment → TcpConnection → TcpConnection
establish seg c =
    record (publish_window (record c {
      snd_una = seg.ack;
      snd_wnd = seg.window;
      snd_wl1 = seg.seq;
      snd_wl2 = seg.ack;
    })) { state = TcpState.established }

-- The final ACK may carry data.
unfoldable pub accept : ℕ → Segment → Receiver → Receiver
accept idx seg r =
    process_data idx seg (push_event TcpEventType.accepted idx [] (modify idx (establish seg) r))

unfoldable pub on_syn_received : Dpdk → TcpStack → ℕ → Segment → Receiver → Receiver
on_syn_received d st idx seg r =
    let c = slot r idx in
    if has seg rst_flag
    then if rst_acceptable st c seg then abandon idx r else r
    else if has seg syn_flag
    then if not (has seg ack_flag) && seg.seq == c.irs then send_syn_ack d st c r else r
    else if not (has seg ack_flag)
    then r
    else if not (seg.ack == u32 (c.iss + 1))
    then send_rst_for d st seg r
    else accept idx seg r

unfoldable pub ack_then_data : ℕ → Segment → Bool × Receiver → Receiver
ack_then_data idx seg (true, r) = process_data idx seg r
ack_then_data idx seg (false, r) = r

unfoldable pub on_synchronized : TcpStack → ℕ → Segment → Receiver → Receiver
unfolding count_rst ack_then_data
on_synchronized st idx seg r =
    if has seg rst_flag
    then (if rst_acceptable st (slot r idx) seg
        then terminate idx TcpEventType.reset (count_rst r)
        else r)
    else if has seg syn_flag
    then queue_ack idx r
    else if not (has seg ack_flag)
    then r
    else ack_then_data idx seg (process_ack idx seg r)

-- `switch (c.state)`
unfoldable pub dispatch : TcpState → Dpdk → TcpStack → ℕ → Segment → Receiver → Receiver
dispatch TcpState.free d st idx seg r = r
dispatch TcpState.closed d st idx seg r = r
dispatch TcpState.syn_received d st idx seg r = on_syn_received d st idx seg r
dispatch s d st idx seg r = on_synchronized st idx seg r

unfoldable pub process_segment : Dpdk → TcpStack → ℕ → Segment → Receiver → Receiver
process_segment d st idx seg r =
    let r' = modify idx sync_out_flags r in dispatch (slot r' idx).state d st idx seg r'
