-- ===== src/Tcp/Receiver/Dispatch/Machine.antt =====
-- `process_segment` follows the edges of the TCP state machine.
use dpdk_wrapper_library.Base.{
  ℕ, ◌+◌, ◌<◌, ◌≡◌, refl, ap, [], Bool, true, false, not, ◌&&◌, ◌||◌, ltb, ◌==◌, inl, inr,
  Bool-cases, length, has_bits, u32,
}
use dpdk_wrapper_library.Packet.{Dpdk}
use dpdk_wrapper_library.Tcp.Connection.{TcpState, TcpConnection, out_fin_sent, seq_gt}
use dpdk_wrapper_library.Tcp.Receiver.Ack.{
  after_fin_sent, sync_out_flags, rst_acceptable, process_ack, publish_window,
}
use dpdk_wrapper_library.Tcp.Receiver.Data.{
  can_receive, deliver, switch_fin, receive_fin, publish_rcv_nxt, deliver_new, finish, accept_data,
  process_data, end_of,
}
use dpdk_wrapper_library.Tcp.Receiver.Dispatch.{
  count_rst, abandon, establish, accept, on_syn_received, ack_then_data, on_synchronized, dispatch,
  process_segment,
}
use dpdk_wrapper_library.Tcp.Receiver.Dispatch.Transitions.{
  Steps, here, one, Advances, andthen, stays, modify-Advances, modify-stays, push_event-Advances,
  queue_ack-Advances, terminate-Advances, process_ack-Advances, slots-queue_segment, handshake_done,
  handshake_reset, close_seen, close_after_peer, peer_fin, both_fins, last_fin, closing_done,
  last_ack_done, reset_established, reset_close_wait, reset_fin_wait_1,
}
use dpdk_wrapper_library.Tcp.Receiver.Replies.{send_rst_for, send_syn_ack}
use dpdk_wrapper_library.Tcp.Receiver.State.Slots.{slot-modify_self}
use dpdk_wrapper_library.Tcp.Receiver.State.{Receiver, slot, modify, free_slot, release_slot}
use dpdk_wrapper_library.Tcp.Segment.{Segment, has, fin_flag, rst_flag, syn_flag, ack_flag}
use dpdk_wrapper_library.Tcp.Stack.{TcpStack, TcpEventType}

state-modify :
    (idx : ℕ) (r : Receiver) (f : TcpConnection → TcpConnection)
    → idx < length r.slots
    → (slot (modify idx f r) idx).state ≡ (f (slot r idx)).state
state-modify idx r f live = ap (λ (c : TcpConnection). c.state) (slot-modify_self idx r f live)

switch_fin-Advances :
    (s : TcpState) (idx : ℕ) (r : Receiver)
    → (slot r idx).state ≡ s
    → idx < length r.slots
    → Advances idx r (switch_fin s idx r)
unfolding switch_fin
switch_fin-Advances TcpState.established idx r e live =
    andthen live
      (modify-Advances idx r (λ c. record c { state = TcpState.close_wait }) (rw e (one peer_fin))
        live)
      λ _. push_event-Advances idx _ TcpEventType.peer_closed []
switch_fin-Advances TcpState.fin_wait_1 idx r e live =
    modify-Advances idx r (λ c. record c { state = TcpState.closing }) (rw e (one both_fins)) live
switch_fin-Advances TcpState.fin_wait_2 idx r e live =
    terminate-Advances TcpEventType.closed idx r (rw e (one last_fin)) live
switch_fin-Advances TcpState.free idx r e live = stays idx r r refl
switch_fin-Advances TcpState.syn_received idx r e live = stays idx r r refl
switch_fin-Advances TcpState.close_wait idx r e live = stays idx r r refl
switch_fin-Advances TcpState.last_ack idx r e live = stays idx r r refl
switch_fin-Advances TcpState.closing idx r e live = stays idx r r refl
switch_fin-Advances TcpState.closed idx r e live = stays idx r r refl

module _ (idx : ℕ) (seg : Segment) where
  receive_fin-Advances : (r : Receiver) → idx < length r.slots → Advances idx r (receive_fin idx r)
  unfolding receive_fin
  receive_fin-Advances r live =
      let next = λ (c : TcpConnection). record c { rcv_nxt_local = u32 (c.rcv_nxt_local + 1) } in
      andthen live (modify-stays idx r next refl live)
        (switch_fin-Advances (slot r idx).state idx _ (state-modify idx r next live))

  finish-Advances : (r : Receiver) → idx < length r.slots → Advances idx r (finish idx seg r)
  unfolding finish
  finish-Advances r live =
      elim (Bool-cases (has seg fin_flag && end_of seg == (slot r idx).rcv_nxt_local)) [
        | inl due ↦ rw due (receive_fin-Advances r live)
        | inr not_due ↦ rw not_due (stays idx r r refl)
      ]

  deliver_new-Advances :
      (r : Receiver) → idx < length r.slots → Advances idx r (deliver_new idx seg r)
  unfolding deliver_new deliver
  deliver_new-Advances r live = elim (Bool-cases (seq_gt (end_of seg) (slot r idx).rcv_nxt_local)) [
    | inl fresh ↦ rw fresh (
        andthen live (push_event-Advances idx r TcpEventType.payload _)
          (modify-stays idx _ (λ c. record c { rcv_nxt_local = end_of seg }) refl))
    | inr old ↦ rw old (stays idx r r refl)
  ]

  accept_data-Advances :
      (r : Receiver) → idx < length r.slots → Advances idx r (accept_data idx seg r)
  unfolding accept_data publish_rcv_nxt
  accept_data-Advances r live = andthen live (deliver_new-Advances r live) λ l.
      andthen l (queue_ack-Advances idx _ l)
        λ l'. andthen l' (finish-Advances _ l') (modify-stays idx _ publish_rcv_nxt refl)

  process_data-Advances :
      (r : Receiver) → idx < length r.slots → Advances idx r (process_data idx seg r)
  unfolding process_data
  process_data-Advances r live = elim (Bool-cases (can_receive (slot r idx).state)) [
    | inr deaf ↦ elim (Bool-cases (ltb 0 seg.len || has seg fin_flag)) [
      | inl answered ↦ rw (deaf, answered) (queue_ack-Advances idx r live)
      | inr silent ↦ rw (deaf, silent) (stays idx r r refl)
    ]
    | inl ready ↦ elim (Bool-cases (seg.len == 0 && not (has seg fin_flag))) [
      | inl empty ↦ rw (ready, empty) (stays idx r r refl)
      | inr full ↦ elim (Bool-cases (seq_gt seg.seq (slot r idx).rcv_nxt_local)) [
        | inl ahead ↦
            rw (ready, full, ahead) (andthen live (stays idx r _ refl) (queue_ack-Advances idx _))
        | inr due ↦ rw (ready, full, due) (accept_data-Advances r live)
      ]
    ]
  ]

slots-send_rst_for :
    (d : Dpdk) (st : TcpStack) (seg : Segment) (r : Receiver)
    → (send_rst_for d st seg r).slots ≡ r.slots
unfolding send_rst_for
slots-send_rst_for d st seg r = elim (Bool-cases (has seg rst_flag)) [
  | inl rst ↦ rw rst refl
  | inr plain ↦ rw plain (slots-queue_segment d _ _ _)
]

module _ (d : Dpdk) (st : TcpStack) (idx : ℕ) (seg : Segment) (r : Receiver)
    (live : idx < length r.slots) where
  abandon-Advances : (slot r idx).state ≡ TcpState.syn_received → Advances idx r (abandon idx r)
  unfolding abandon count_rst release_slot free_slot
  abandon-Advances e =
      let m = modify-Advances idx r free_slot (rw e (one handshake_reset)) live in
      record { path = m.path; kept = m.kept }

  accept-Advances : (slot r idx).state ≡ TcpState.syn_received → Advances idx r (accept idx seg r)
  unfolding accept establish publish_window
  accept-Advances e =
      andthen live (modify-Advances idx r (establish seg) (rw e (one handshake_done)) live) λ l.
        andthen l (push_event-Advances idx _ TcpEventType.accepted [])
          (process_data-Advances idx seg _)

  on_syn_received-Advances :
      (slot r idx).state ≡ TcpState.syn_received → Advances idx r (on_syn_received d st idx seg r)
  unfolding on_syn_received send_syn_ack
  on_syn_received-Advances e = elim (Bool-cases (has seg rst_flag)) [
    | inl rst ↦ elim (Bool-cases (rst_acceptable st (slot r idx) seg)) [
      | inl fits ↦ rw (rst, fits) (abandon-Advances e)
      | inr forged ↦ rw (rst, forged) (stays idx r r refl)
    ]
    | inr no_rst ↦ elim (Bool-cases (has seg syn_flag)) [
      | inl syn ↦ elim (Bool-cases (not (has seg ack_flag) && seg.seq == (slot r idx).irs)) [
        | inl again ↦ rw (no_rst, syn, again) (stays idx r _ (slots-queue_segment d _ _ r))
        | inr other ↦ rw (no_rst, syn, other) (stays idx r r refl)
      ]
      | inr no_syn ↦ elim (Bool-cases (has seg ack_flag)) [
        | inr no_ack ↦ rw (no_rst, no_syn, no_ack) (stays idx r r refl)
        | inl acks ↦ elim (Bool-cases (seg.ack == u32 ((slot r idx).iss + 1))) [
          | inl right ↦ rw (no_rst, no_syn, acks, right) (accept-Advances e)
          | inr wrong ↦
              rw (no_rst, no_syn, acks, wrong) (stays idx r _ (slots-send_rst_for d st seg r))
        ]
      ]
    ]
  ]

  data_after : (p : Bool × Receiver) → Advances idx r p.1 → Advances idx r (ack_then_data idx seg p)
  unfolding ack_then_data
  data_after (true, r') a = andthen live a (process_data-Advances idx seg r')
  data_after (false, r') a = a

  on_synchronized-Advances :
      Steps (slot r idx).state TcpState.closed → Advances idx r (on_synchronized st idx seg r)
  unfolding on_synchronized count_rst ack_then_data
  on_synchronized-Advances to_closed = elim (Bool-cases (has seg rst_flag)) [
    | inl rst ↦ elim (Bool-cases (rst_acceptable st (slot r idx) seg)) [
      | inl fits ↦
          rw (rst, fits)
            (andthen live (stays idx r _ refl)
              (terminate-Advances TcpEventType.reset idx _ to_closed))
      | inr forged ↦ rw (rst, forged) (stays idx r r refl)
    ]
    | inr no_rst ↦ elim (Bool-cases (has seg syn_flag)) [
      | inl syn ↦ rw (no_rst, syn) (queue_ack-Advances idx r live)
      | inr no_syn ↦ elim (Bool-cases (has seg ack_flag)) [
        | inr no_ack ↦ rw (no_rst, no_syn, no_ack) (stays idx r r refl)
        | inl acks ↦
            rw (no_rst, no_syn, acks)
              (data_after (process_ack idx seg r) (process_ack-Advances idx seg r live))
      ]
    ]
  ]

dispatch-Advances :
    (s : TcpState) (d : Dpdk) (st : TcpStack) (idx : ℕ) (seg : Segment) (r : Receiver)
    → (slot r idx).state ≡ s
    → idx < length r.slots
    → Advances idx r (dispatch s d st idx seg r)
unfolding dispatch
dispatch-Advances TcpState.free d st idx seg r e live = stays idx r r refl
dispatch-Advances TcpState.closed d st idx seg r e live = stays idx r r refl
dispatch-Advances TcpState.syn_received d st idx seg r e live =
    on_syn_received-Advances d st idx seg r live e
dispatch-Advances TcpState.established d st idx seg r e live =
    on_synchronized-Advances d st idx seg r live (rw e (one reset_established))
dispatch-Advances TcpState.close_wait d st idx seg r e live =
    on_synchronized-Advances d st idx seg r live (rw e (one reset_close_wait))
dispatch-Advances TcpState.last_ack d st idx seg r e live =
    on_synchronized-Advances d st idx seg r live (rw e (one last_ack_done))
dispatch-Advances TcpState.fin_wait_1 d st idx seg r e live =
    on_synchronized-Advances d st idx seg r live (rw e (one reset_fin_wait_1))
dispatch-Advances TcpState.fin_wait_2 d st idx seg r e live =
    on_synchronized-Advances d st idx seg r live (rw e (one last_fin))
dispatch-Advances TcpState.closing d st idx seg r e live =
    on_synchronized-Advances d st idx seg r live (rw e (one closing_done))

close_seen-Steps : (s : TcpState) → Steps s (after_fin_sent s)
unfolding after_fin_sent
close_seen-Steps TcpState.established = one close_seen
close_seen-Steps TcpState.close_wait = one close_after_peer
close_seen-Steps TcpState.free = here TcpState.free
close_seen-Steps TcpState.syn_received = here TcpState.syn_received
close_seen-Steps TcpState.last_ack = here TcpState.last_ack
close_seen-Steps TcpState.fin_wait_1 = here TcpState.fin_wait_1
close_seen-Steps TcpState.fin_wait_2 = here TcpState.fin_wait_2
close_seen-Steps TcpState.closing = here TcpState.closing
close_seen-Steps TcpState.closed = here TcpState.closed

sync_out_flags-Steps : (c : TcpConnection) → Steps c.state (sync_out_flags c).state
unfolding sync_out_flags
sync_out_flags-Steps c = elim (Bool-cases (has_bits c.out_flags out_fin_sent)) [
  | inl sent ↦ rw sent (close_seen-Steps c.state)
  | inr not_sent ↦ rw not_sent (here c.state)
]

-- One segment moves the state of its slot, one of the stack's, only along edges of the state machine, whatever the
-- segment is, and leaves the number of slots as it is.
pub process_segment-Advances :
    (d : Dpdk) (st : TcpStack) (idx : ℕ) (seg : Segment) (r : Receiver)
    → idx < length r.slots
    → Advances idx r (process_segment d st idx seg r)
unfolding process_segment
process_segment-Advances d st idx seg r live =
    andthen live (modify-Advances idx r sync_out_flags (sync_out_flags-Steps (slot r idx)) live)
      (dispatch-Advances _ d st idx seg _ refl)
