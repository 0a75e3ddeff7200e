-- ===== src/Tcp/Receiver/Ack.antt =====
-- `sync_out_flags`, `rst_acceptable`, `publish_window` and `process_ack` of src/tcp_stack.cpp.
pub mod Una
use dpdk_wrapper_library.Base.{
  ℕ, ◌+◌, Bool, true, false, not, ◌&&◌, ◌||◌, ◌==◌, if◌then◌else◌, u32, has_bits,
}
use dpdk_wrapper_library.Tcp.Connection.{
  TcpState, TcpConnection, out_fin_sent, seq_lt, seq_leq, seq_gt, seq_geq, pack_window,
}
use dpdk_wrapper_library.Tcp.Receiver.State.{Receiver, slot, modify, queue_ack, terminate}
use dpdk_wrapper_library.Tcp.Segment.{Segment}
use dpdk_wrapper_library.Tcp.Stack.{TcpStack, TcpEventType}

-- The state once our close() is seen.
unfoldable pub after_fin_sent : TcpState → TcpState
after_fin_sent TcpState.established = TcpState.fin_wait_1
after_fin_sent TcpState.close_wait = TcpState.last_ack
after_fin_sent s = s

unfoldable pub sync_out_flags : TcpConnection → TcpConnection
sync_out_flags c =
    if has_bits c.out_flags out_fin_sent then record c { state = after_fin_sent c.state } else c

unfoldable pub rst_acceptable : TcpStack → TcpConnection → Segment → Bool
rst_acceptable st c seg =
    seq_geq seg.seq c.rcv_nxt_local
    && seq_lt seg.seq (u32 (c.rcv_nxt_local + st.params.receive_window))

unfoldable pub publish_window : TcpConnection → TcpConnection
publish_window c = record c { send_window = pack_window c.snd_una c.snd_wnd }

unfoldable pub advance_una : Segment → TcpConnection → TcpConnection
advance_una seg c = if seq_gt seg.ack c.snd_una then record c { snd_una = seg.ack } else c

-- RFC 793 SND.WL1/WL2
unfoldable pub updates_window : Segment → TcpConnection → Bool
updates_window seg c =
    seq_geq seg.ack c.snd_una
    && (seq_lt c.snd_wl1 seg.seq || c.snd_wl1 == seg.seq && seq_leq c.snd_wl2 seg.ack)

unfoldable pub update_window : Segment → TcpConnection → TcpConnection
update_window seg c =
    if updates_window seg c
    then record c { snd_wnd = seg.window; snd_wl1 = seg.seq; snd_wl2 = seg.ack }
    else c

-- The stores of `process_ack` into the slot. `changed` is set where `snd_una` moves, and where
-- `snd_wnd` does.
unfoldable pub fold_ack : Segment → TcpConnection → TcpConnection
fold_ack seg c =
    let c' = update_window seg (advance_una seg c) in
    if seq_gt seg.ack c.snd_una || not (c'.snd_wnd == c.snd_wnd) then publish_window c' else c'

-- Our FIN is acknowledged. The result is whether the payload is still to be looked at.
unfoldable pub fin_acked : TcpState → ℕ → Receiver → Bool × Receiver
fin_acked TcpState.fin_wait_1 idx r =
    (true, modify idx (λ c. record c { state = TcpState.fin_wait_2 }) r)
fin_acked TcpState.closing idx r = (false, terminate idx TcpEventType.closed r)
fin_acked TcpState.last_ack idx r = (false, terminate idx TcpEventType.closed r)
fin_acked s idx r = (true, r)

unfoldable pub process_ack : ℕ → Segment → Receiver → Bool × Receiver
unfolding fin_acked
process_ack idx seg r =
    let c = slot r idx in
    if seq_gt seg.ack c.snd_nxt
    then (false, queue_ack idx r)
    else let folded = modify idx (fold_ack seg) r in
      if has_bits c.out_flags out_fin_sent && seg.ack == c.snd_nxt
      then fin_acked c.state idx folded
      else (true, folded)
