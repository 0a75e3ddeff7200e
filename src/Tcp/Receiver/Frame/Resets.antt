-- ===== src/Tcp/Receiver/Frame/Resets.antt =====
-- A segment with the RST flag is never answered.
use dpdk_wrapper_library.Base.{
  ℕ, ◌≡◌, refl, [], Bool, true, false, not, ◌&&◌, ◌==◌, arith, inl, inr, Bool-cases,
}
use dpdk_wrapper_library.Packet.{Dpdk}
use dpdk_wrapper_library.Tcp.Connection.{TcpState}
use dpdk_wrapper_library.Tcp.FlowTable
use dpdk_wrapper_library.Tcp.Receiver.Ack.{rst_acceptable, sync_out_flags}
use dpdk_wrapper_library.Tcp.Receiver.Dispatch.{
  count_rst, abandon, on_syn_received, on_synchronized, dispatch, process_segment,
}
use dpdk_wrapper_library.Tcp.Receiver.Frame.{route}
use dpdk_wrapper_library.Tcp.Receiver.Replies.{send_rst_for}
use dpdk_wrapper_library.Tcp.Receiver.State.{
  Receiver, slot, modify, push_event, schedule_finalize, terminate, release_slot,
}
use dpdk_wrapper_library.Tcp.Segment.{Segment, has, rst_flag, syn_flag, ack_flag}
use dpdk_wrapper_library.Tcp.Stack.{TcpStack, TcpEventType, contains}

-- Nothing is sent, and no ACK is newly owed.
pub record Quiet (r r' : Receiver) : Type 0 where
  pub control : r'.control ≡ r.control
  pub ack_list : r'.ack_list ≡ r.ack_list

terminate-Quiet : (idx : ℕ) (why : TcpEventType) (r : Receiver) → Quiet r (terminate idx why r)
unfolding terminate schedule_finalize push_event
terminate-Quiet idx why r =
    elim (Bool-cases (slot (push_event why idx [] r) idx).finalize_pending) [
      | inl set ↦ record { control = ground arith; ack_list = ground arith }
      | inr clear ↦ record { control = ground arith; ack_list = ground arith }
    ]

module _ (d : Dpdk) (st : TcpStack) (idx : ℕ) (seg : Segment) (rst : has seg rst_flag ≡ true) where
  on_syn_received-Quiet : (r : Receiver) → Quiet r (on_syn_received d st idx seg r)
  unfolding on_syn_received abandon count_rst release_slot
  on_syn_received-Quiet r = elim (Bool-cases (rst_acceptable st (slot r idx) seg)) [
    | inl fits ↦ rw (rst, fits) (record { control = refl; ack_list = refl })
    | inr forged ↦ rw (rst, forged) (record { control = refl; ack_list = refl })
  ]

  on_synchronized-Quiet : (r : Receiver) → Quiet r (on_synchronized st idx seg r)
  unfolding on_synchronized count_rst
  on_synchronized-Quiet r = elim (Bool-cases (rst_acceptable st (slot r idx) seg)) [
    | inl fits ↦
        let t = terminate-Quiet idx TcpEventType.reset (count_rst r) in
        rw (rst, fits) (record { control = t.control; ack_list = t.ack_list })
    | inr forged ↦ rw (rst, forged) (record { control = refl; ack_list = refl })
  ]

  dispatch-Quiet : (s : TcpState) (r : Receiver) → Quiet r (dispatch s d st idx seg r)
  unfolding dispatch
  dispatch-Quiet TcpState.free r = record { control = refl; ack_list = refl }
  dispatch-Quiet TcpState.closed r = record { control = refl; ack_list = refl }
  dispatch-Quiet TcpState.syn_received r = on_syn_received-Quiet r
  dispatch-Quiet TcpState.established r = on_synchronized-Quiet r
  dispatch-Quiet TcpState.close_wait r = on_synchronized-Quiet r
  dispatch-Quiet TcpState.last_ack r = on_synchronized-Quiet r
  dispatch-Quiet TcpState.fin_wait_1 r = on_synchronized-Quiet r
  dispatch-Quiet TcpState.fin_wait_2 r = on_synchronized-Quiet r
  dispatch-Quiet TcpState.closing r = on_synchronized-Quiet r

  process_segment-Quiet : (r : Receiver) → Quiet r (process_segment d st idx seg r)
  unfolding process_segment
  process_segment-Quiet r =
      let q =
        dispatch-Quiet (slot (modify idx sync_out_flags r) idx).state
          (modify idx sync_out_flags r) in
      record { control = q.control; ack_list = q.ack_list }

-- Whatever the state of the connection, and whether there is one, a segment with the RST flag adds no
-- control segment and owes no ACK: a reset is never answered.
pub route-Quiet :
    (d : Dpdk) (st : TcpStack) (seg : Segment) (r : Receiver)
    → has seg rst_flag ≡ true
    → Quiet r (route d st seg r)
unfolding route send_rst_for
route-Quiet d st seg r rst =
    let idx = FlowTable.find r.flows (FlowTable.key seg.src_ip seg.src_port seg.dst_port) in
    elim (Bool-cases (idx == FlowTable.npos)) [
      | inr known ↦ rw known (process_segment-Quiet d st idx seg rst r)
      | inl unknown ↦
          let shut =
            no_open (has seg syn_flag) (has seg ack_flag) (has seg rst_flag)
              (contains st.listening seg.dst_port) rst in
          rw (unknown, shut, rst) (record { control = refl; ack_list = refl })
    ]
  where
    no_open :
        (syn ack reset listening : Bool)
        → reset ≡ true
        → syn && not ack && not reset && listening ≡ false
    no_open syn ack reset listening h = ground arith
