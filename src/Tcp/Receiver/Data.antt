-- ===== src/Tcp/Receiver/Data.antt =====
-- `process_data` of src/tcp_stack.cpp: in-order delivery and the peer's FIN.
pub mod Stream
pub mod Delivery
pub mod Sequence
use dpdk_wrapper_library.Base.{
  ℕ, ◌+◌, ◌-◌, List, [], Bool, true, false, not, ◌&&◌, ◌||◌, ltb, ◌==◌, if◌then◌else◌, u32, u64,
  sub32, take, drop,
}
use dpdk_wrapper_library.Tcp.Connection.{TcpState, TcpConnection, seq_gt}
use dpdk_wrapper_library.Tcp.Receiver.State.{
  Receiver, slot, modify, count, push_event, queue_ack, terminate,
}
use dpdk_wrapper_library.Tcp.Segment.{Segment, has, fin_flag}
use dpdk_wrapper_library.Tcp.Stack.{TcpEventType}

unfoldable pub can_receive : TcpState → Bool
can_receive TcpState.established = true
can_receive TcpState.fin_wait_1 = true
can_receive TcpState.fin_wait_2 = true
can_receive s = false

-- The front of the payload that is already delivered, `rcv_nxt_local - seg.seq`
unfoldable pub skip_of : Segment → TcpConnection → ℕ
skip_of seg c = sub32 c.rcv_nxt_local seg.seq

-- `seg.seq + seg.len`
unfoldable pub end_of : Segment → ℕ
end_of seg = u32 (seg.seq + seg.len)

-- New bytes start at `rcv_nxt_local`: the span `{payload + skip, len - skip}`.
unfoldable pub deliver : ℕ → Segment → Receiver → Receiver
deliver idx seg r =
    let skip = skip_of seg (slot r idx) in
    modify idx (λ c. record c { rcv_nxt_local = end_of seg })
      (push_event TcpEventType.payload idx (take (seg.len - skip) (drop skip seg.payload)) r)

unfoldable pub switch_fin : TcpState → ℕ → Receiver → Receiver
switch_fin TcpState.established idx r =
    push_event TcpEventType.peer_closed idx []
      (modify idx (λ c. record c { state = TcpState.close_wait }) r)
switch_fin TcpState.fin_wait_1 idx r = modify idx (λ c. record c { state = TcpState.closing }) r
switch_fin TcpState.fin_wait_2 idx r = terminate idx TcpEventType.closed r
switch_fin s idx r = r

-- The peer's FIN is in order: it takes a sequence number.
unfoldable pub receive_fin : ℕ → Receiver → Receiver
unfolding switch_fin
receive_fin idx r =
    switch_fin (slot r idx).state idx
      (modify idx (λ c. record c { rcv_nxt_local = u32 (c.rcv_nxt_local + 1) }) r)

unfoldable pub publish_rcv_nxt : TcpConnection → TcpConnection
publish_rcv_nxt c = record c { rcv_nxt = c.rcv_nxt_local }

unfoldable pub deliver_new : ℕ → Segment → Receiver → Receiver
deliver_new idx seg r =
    if seq_gt (end_of seg) (slot r idx).rcv_nxt_local then deliver idx seg r else r

unfoldable pub finish : ℕ → Segment → Receiver → Receiver
finish idx seg r =
    if has seg fin_flag && end_of seg == (slot r idx).rcv_nxt_local then receive_fin idx r else r

-- A segment that begins at `rcv_nxt_local` or before it: new data, or a duplicate to re-ACK.
unfoldable pub accept_data : ℕ → Segment → Receiver → Receiver
accept_data idx seg r =
    modify idx publish_rcv_nxt (finish idx seg (queue_ack idx (deliver_new idx seg r)))

unfoldable pub process_data : ℕ → Segment → Receiver → Receiver
process_data idx seg r =
    let c = slot r idx in
    let fin = has seg fin_flag in
    if not (can_receive c.state)
    then if ltb 0 seg.len || fin then queue_ack idx r else r
    else if seg.len == 0 && not fin
    then r
    else if seq_gt seg.seq c.rcv_nxt_local
    then queue_ack idx (count (λ s. record s { out_of_order = u64 (s.out_of_order + 1) }) r)
    else accept_data idx seg r
