-- ===== src/Tcp/Receiver/Poll/Bounds.antt =====
-- One packet through `process`, and a whole `poll`: the fixed arrays are large enough.
use dpdk_wrapper_library.Base.{
  ℕ, zero, suc, ◌*◌, ◌≤◌, ◌≡◌, refl, List, [], ◌∷◌, arith, length, ◌∙◌, ap,
}
use dpdk_wrapper_library.Packet.{Mbuf, Dpdk}
use dpdk_wrapper_library.Tcp.Connection.{TcpState}
use dpdk_wrapper_library.Tcp.Receiver.Ack.{process_ack}
use dpdk_wrapper_library.Tcp.Receiver.Dispatch.{
  abandon, accept, on_syn_received, ack_then_data, on_synchronized, dispatch, process_segment,
}
use dpdk_wrapper_library.Tcp.Receiver.Frame.{process_arp, route, process_tcp, process_ipv4, process}
use dpdk_wrapper_library.Tcp.Receiver.Poll.Growth.{
  Grows, push_event-Grows, queue_ack-Grows, terminate-Grows, queue_control-Grows,
  queue_segment-Grows, send_rst_for-Grows, send_syn_ack-Grows, process_data-Grows,
  process_ack-Grows,
}
use dpdk_wrapper_library.Tcp.Receiver.Poll.{
  process_each, flush_ack, flush_each, flush_acks, flush_control, finalize_slot, finalize_each,
  finalize, reap, reap_released, poll,
}
use dpdk_wrapper_library.Tcp.Receiver.Replies.{queue_segment, open_slot, open_from, open_connection}
use dpdk_wrapper_library.Tcp.Receiver.State.{Receiver, slot, release_slot, queue_control}
use dpdk_wrapper_library.Tcp.Segment.{Segment}
use dpdk_wrapper_library.Tcp.Stack.{TcpStack}

abandon-Grows : (idx : ℕ) (r : Receiver) → Grows 0 0 r (abandon idx r)
unfolding abandon release_slot
abandon-Grows idx r = omega arith

accept-Grows : (idx : ℕ) (seg : Segment) (r : Receiver) → Grows 3 1 r (accept idx seg r)
unfolding accept
accept-Grows idx seg r = grind (arith, push_event-Grows, process_data-Grows)

module _ (d : Dpdk) (st : TcpStack) where
  on_syn_received-Grows :
      (idx : ℕ) (seg : Segment) (r : Receiver) → Grows 3 1 r (on_syn_received d st idx seg r)
  unfolding on_syn_received
  on_syn_received-Grows idx seg r = ground (
    arith,
    abandon-Grows idx r,
    send_syn_ack-Grows d st (slot r idx) r,
    send_rst_for-Grows d st seg r,
    accept-Grows idx seg r,
  )

  ack_then_data-Grows :
      (idx : ℕ) (seg : Segment) (r : Receiver)
      → Grows 2 1 r (ack_then_data idx seg (process_ack idx seg r))
  unfolding ack_then_data
  ack_then_data-Grows idx seg r =
      ground
        (arith, process_ack-Grows idx seg r, process_data-Grows idx seg (process_ack idx seg r).1)

  on_synchronized-Grows :
      (idx : ℕ) (seg : Segment) (r : Receiver) → Grows 2 1 r (on_synchronized st idx seg r)
  unfolding on_synchronized
  on_synchronized-Grows idx seg r =
      grind (arith, terminate-Grows, queue_ack-Grows, ack_then_data-Grows)

  dispatch-Grows :
      (s : TcpState) (idx : ℕ) (seg : Segment) (r : Receiver)
      → Grows 3 1 r (dispatch s d st idx seg r)
  unfolding dispatch
  dispatch-Grows TcpState.free idx seg r = omega arith
  dispatch-Grows TcpState.closed idx seg r = omega arith
  dispatch-Grows TcpState.syn_received idx seg r = on_syn_received-Grows idx seg r
  dispatch-Grows _ idx seg r = omega (arith, on_synchronized-Grows idx seg r)

  process_segment-Grows :
      (idx : ℕ) (seg : Segment) (r : Receiver) → Grows 3 1 r (process_segment d st idx seg r)
  unfolding process_segment
  process_segment-Grows idx seg r = grind (arith, dispatch-Grows)

  open_slot-Grows :
      (seg : Segment) (idx : ℕ) (rest : List ℕ) (r : Receiver)
      → Grows 0 1 r (open_slot d st seg idx rest r)
  unfolding open_slot
  open_slot-Grows seg idx rest r = grind (arith, send_syn_ack-Grows)

  open_from-Grows :
      (seg : Segment) (free : List ℕ) (r : Receiver) → Grows 0 1 r (open_from d st seg free r)
  unfolding open_from
  open_from-Grows seg [] r = grind (arith, send_rst_for-Grows)
  open_from-Grows seg (idx ∷ rest) r = open_slot-Grows seg idx rest r

  route-Grows : (seg : Segment) (r : Receiver) → Grows 3 1 r (route d st seg r)
  unfolding route open_connection
  route-Grows seg r = grind (arith, process_segment-Grows, open_from-Grows, send_rst_for-Grows)

  process_tcp-Grows :
      (bs : List ℕ) (hdr total : ℕ) (r : Receiver) → Grows 3 1 r (process_tcp d st bs hdr total r)
  unfolding process_tcp
  process_tcp-Grows bs hdr total r = grind (arith, route-Grows)

  process_ipv4-Grows : (bs : List ℕ) (r : Receiver) → Grows 3 1 r (process_ipv4 d st bs r)
  unfolding process_ipv4
  process_ipv4-Grows bs r = grind (arith, process_tcp-Grows)

  process_arp-Grows : (pkt : Mbuf) (r : Receiver) → Grows 0 1 r (process_arp d st pkt r)
  unfolding process_arp
  process_arp-Grows pkt r = grind (arith, queue_control-Grows)

  -- A packet yields three events at most, and one control segment at most, sent at once or owed.
  pub process-Grows : (pkt : Mbuf) (r : Receiver) → Grows 3 1 r (process d st pkt r)
  unfolding process
  process-Grows pkt r = grind (arith, process_arp-Grows, process_ipv4-Grows)

  pub process_each-Grows :
      (burst : List Mbuf) (r : Receiver)
      → Grows (3 * length burst) (length burst) r (process_each d st burst r)
  unfolding process_each
  process_each-Grows [] r = omega arith
  process_each-Grows (pkt ∷ burst) r =
      omega (arith, process-Grows pkt r, process_each-Grows burst (process d st pkt r))

-- What a poll starts from: the control array and the list of owed ACKs are empty.
pub record IsIdle (r : Receiver) : Type 0 where
  pub control : length r.control ≡ 0
  pub ack_list : length r.ack_list ≡ 0

-- Equal lengths of the three lists
record Same (r r' : Receiver) : Type 0 where
  events : length r'.events ≡ length r.events
  control : length r'.control ≡ length r.control
  ack_list : length r'.ack_list ≡ length r.ack_list

reap-Same : (rounds i : ℕ) (r : Receiver) → Same r (reap rounds i r)
unfolding reap release_slot
reap-Same zero i r = omega arith
reap-Same (suc rounds) i r = grind (arith, reap-Same rounds)

finalize_slot-Same : (idx : ℕ) (r : Receiver) → Same r (finalize_slot idx r)
unfolding finalize_slot release_slot
finalize_slot-Same idx r = ground arith

finalize_each-Same : (list : List ℕ) (r : Receiver) → Same r (finalize_each list r)
unfolding finalize_each
finalize_each-Same [] r = omega arith
finalize_each-Same (idx ∷ list) r =
    omega (arith, finalize_slot-Same idx r, finalize_each-Same list (finalize_slot idx r))

module _ (d : Dpdk) (st : TcpStack) where
  flush_ack-Grows : (idx : ℕ) (r : Receiver) → Grows 0 1 r (flush_ack d st idx r)
  unfolding flush_ack
  flush_ack-Grows idx r = grind (arith, queue_segment-Grows)

  flush_each-Grows :
      (list : List ℕ) (r : Receiver) → Grows 0 (length list) r (flush_each d st list r)
  unfolding flush_each
  flush_each-Grows [] r = omega arith
  flush_each-Grows (idx ∷ list) r =
      omega (arith, flush_ack-Grows idx r, flush_each-Grows list (flush_ack d st idx r))

  flush_ack-ack_list : (idx : ℕ) (r : Receiver) → (flush_ack d st idx r).ack_list ≡ r.ack_list
  unfolding flush_ack queue_segment queue_control
  flush_ack-ack_list idx r = ground arith

  flush_each-ack_list :
      (list : List ℕ) (r : Receiver) → (flush_each d st list r).ack_list ≡ r.ack_list
  unfolding flush_each
  flush_each-ack_list [] r = refl
  flush_each-ack_list (idx ∷ list) r =
      flush_each-ack_list list (flush_ack d st idx r) ∙ flush_ack-ack_list idx r

  -- The receiver of a poll just before `flush_control`
  abbrev pub before_flush : List Mbuf → Receiver → Receiver
  before_flush burst r =
      flush_acks d st (process_each d st burst (reap_released (record r { events = [] })))

  before_flush-bounds :
      (burst : List Mbuf) (r : Receiver)
      → IsIdle r
      → (length (before_flush burst r).events ≤ 3 * length burst)
        × (length (before_flush burst r).control ≤ length burst)
        × (length (before_flush burst r).ack_list ≡ 0)
  unfolding flush_acks reap_released
  before_flush-bounds burst r idle =
      let cleared : Receiver = record r { events = [] } in
      let reaped = reap (length r.awaiting_release) 0 cleared in
      let done = process_each d st burst reaped in
      omega (
        arith,
        reap-Same (length r.awaiting_release) 0 cleared,
        process_each-Grows d st burst reaped,
        flush_each-Grows done.ack_list done,
        ap length (flush_each-ack_list done.ack_list done),
      )

  -- A poll that starts with no control segment and no ACK owed, over any burst, ends so too, returns
  -- three events per packet at most, and has one control segment per packet at most when it flushes.
  pub poll-bounds :
      (burst : List Mbuf) (r : Receiver)
      → IsIdle r
      → IsIdle (poll d st burst r)
        × (length (poll d st burst r).events ≤ 3 * length burst)
        × (length (before_flush burst r).control ≤ length burst)
  unfolding poll flush_control finalize
  poll-bounds burst r idle =
      let b = before_flush burst r in
      let flushed = flush_control d b in
      ground
        (arith, before_flush-bounds burst r idle, finalize_each-Same flushed.finalize_list flushed)
