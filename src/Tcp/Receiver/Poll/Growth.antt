-- ===== src/Tcp/Receiver/Poll/Growth.antt =====
-- How much one packet adds to the events, and to the control segments and the ACKs that are owed.
-- `tcp_events` and `control` are arrays of fixed size.
use dpdk_wrapper_library.Base.{
  ℕ, ◌+◌, ◌≤◌, List, [], ◌∷◌, Option, none, some, arith, length, length-append, if◌then◌else◌,
}
use dpdk_wrapper_library.Packet.{Mbuf, Dpdk}
use dpdk_wrapper_library.Tcp.Connection.{TcpState, TcpConnection}
use dpdk_wrapper_library.Tcp.Receiver.Ack.{fin_acked, process_ack}
use dpdk_wrapper_library.Tcp.Receiver.Data.{
  deliver, deliver_new, receive_fin, switch_fin, finish, accept_data, process_data,
}
use dpdk_wrapper_library.Tcp.Receiver.Replies.{queue_segment, send_rst_for, send_syn_ack}
use dpdk_wrapper_library.Tcp.Receiver.State.{
  Receiver, push_event, queue_control, queue_ack, schedule_finalize, terminate,
}
use dpdk_wrapper_library.Tcp.Segment.{SegmentAddr, Content, Segment}
use dpdk_wrapper_library.Tcp.Stack.{TcpStack, TcpEventType}

-- At most `e` events and `c` control segments, sent or owed, are new.
pub record Grows (e c : ℕ) (r r' : Receiver) : Type 0 where
  pub events : length r'.events ≤ length r.events + e
  pub control : length r'.control + length r'.ack_list ≤ length r.control + length r.ack_list + c

pub Grows-trans :
    {e c e' c' : ℕ} {r r' r'' : Receiver}
    → Grows e c r r'
    → Grows e' c' r' r''
    → Grows (e + e') (c + c') r r''
Grows-trans g h = omega arith

pub push_event-Grows :
    (kind : TcpEventType) (idx : ℕ) (bytes : List ℕ) (r : Receiver)
    → Grows 1 0 r (push_event kind idx bytes r)
unfolding push_event
push_event-Grows kind idx bytes r = omega (arith, length-append {0})

pub queue_ack-Grows : (idx : ℕ) (r : Receiver) → Grows 0 1 r (queue_ack idx r)
unfolding queue_ack
queue_ack-Grows idx r = ground (arith, length-append r.ack_list (idx ∷ []))

schedule_finalize-Grows : (idx : ℕ) (r : Receiver) → Grows 0 0 r (schedule_finalize idx r)
unfolding schedule_finalize
schedule_finalize-Grows idx r = ground arith

pub terminate-Grows :
    (idx : ℕ) (why : TcpEventType) (r : Receiver) → Grows 1 0 r (terminate idx why r)
unfolding terminate
terminate-Grows idx why r = grind (arith, push_event-Grows, schedule_finalize-Grows)

pub queue_control-Grows : (pkt : Option Mbuf) (r : Receiver) → Grows 0 1 r (queue_control pkt r)
unfolding queue_control
queue_control-Grows none r = omega arith
queue_control-Grows (some m) r = ground (arith, length-append r.control (m ∷ []))

pub queue_segment-Grows :
    (d : Dpdk) (a : SegmentAddr) (c : Content) (r : Receiver) → Grows 0 1 r (queue_segment d a c r)
unfolding queue_segment
queue_segment-Grows d a c r = grind (arith, queue_control-Grows)

pub send_rst_for-Grows :
    (d : Dpdk) (st : TcpStack) (seg : Segment) (r : Receiver)
    → Grows 0 1 r (send_rst_for d st seg r)
unfolding send_rst_for
send_rst_for-Grows d st seg r = grind (arith, queue_segment-Grows)

pub send_syn_ack-Grows :
    (d : Dpdk) (st : TcpStack) (c : TcpConnection) (r : Receiver)
    → Grows 0 1 r (send_syn_ack d st c r)
unfolding send_syn_ack
send_syn_ack-Grows d st c r = queue_segment-Grows d _ _ r

deliver-Grows : (idx : ℕ) (seg : Segment) (r : Receiver) → Grows 1 0 r (deliver idx seg r)
unfolding deliver
deliver-Grows idx seg r = grind (arith, push_event-Grows)

deliver_new-Grows : (idx : ℕ) (seg : Segment) (r : Receiver) → Grows 1 0 r (deliver_new idx seg r)
unfolding deliver_new
deliver_new-Grows idx seg r = grind (arith, deliver-Grows)

switch_fin-Grows : (s : TcpState) (idx : ℕ) (r : Receiver) → Grows 1 0 r (switch_fin s idx r)
unfolding switch_fin
switch_fin-Grows TcpState.established idx r = grind (arith, push_event-Grows)
switch_fin-Grows TcpState.fin_wait_2 idx r = terminate-Grows idx TcpEventType.closed r
switch_fin-Grows _ idx r = omega arith

finish-Grows : (idx : ℕ) (seg : Segment) (r : Receiver) → Grows 1 0 r (finish idx seg r)
unfolding finish receive_fin
finish-Grows idx seg r = grind (arith, switch_fin-Grows)

accept_data-Grows : (idx : ℕ) (seg : Segment) (r : Receiver) → Grows 2 1 r (accept_data idx seg r)
unfolding accept_data
accept_data-Grows idx seg r =
    let delivered = deliver_new idx seg r in
    let acked = queue_ack idx delivered in
    omega (
      arith,
      deliver_new-Grows idx seg r,
      queue_ack-Grows idx delivered,
      finish-Grows idx seg acked,
    )

pub process_data-Grows :
    (idx : ℕ) (seg : Segment) (r : Receiver) → Grows 2 1 r (process_data idx seg r)
unfolding process_data
process_data-Grows idx seg r = grind (arith, queue_ack-Grows, accept_data-Grows)

fin_acked-Grows :
    (s : TcpState) (idx : ℕ) (r : Receiver)
    → let (more, r') = fin_acked s idx r in Grows (if more then 0 else 1) 0 r r'
unfolding fin_acked
fin_acked-Grows TcpState.fin_wait_1 idx r = omega arith
fin_acked-Grows TcpState.closing idx r = terminate-Grows idx TcpEventType.closed r
fin_acked-Grows TcpState.last_ack idx r = terminate-Grows idx TcpEventType.closed r
fin_acked-Grows _ idx r = omega arith

-- An ACK that ends the processing may add an event or owe an ACK; one that does not adds nothing.
pub process_ack-Grows :
    (idx : ℕ) (seg : Segment) (r : Receiver)
    → let (more, r') = process_ack idx seg r in
      Grows (if more then 0 else 1) (if more then 0 else 1) r r'
unfolding process_ack
process_ack-Grows idx seg r = grind (arith, queue_ack-Grows, fin_acked-Grows)
