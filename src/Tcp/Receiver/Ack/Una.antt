-- ===== src/Tcp/Receiver/Ack/Una.antt =====
-- `process_ack` keeps the acknowledged position inside what has been sent.
use dpdk_wrapper_library.Base.{
  ℕ, ◌+◌, ◌^◌, ◌≤◌, ◌<◌, ◌≡◌, refl, ◌∙◌, ap, [], true, ◌&&◌, ◌==◌, if◌then◌else◌, arith, inl, inr,
  Bool-cases, max, ltb, length, u32, has_bits,
}
use dpdk_wrapper_library.Tcp.Connection.Sequence.{seq_gt-positions}
use dpdk_wrapper_library.Tcp.Connection.{TcpState, TcpConnection, out_fin_sent, seq_gt}
use dpdk_wrapper_library.Tcp.Receiver.Ack.{
  fold_ack, update_window, advance_una, publish_window, fin_acked, process_ack,
}
use dpdk_wrapper_library.Tcp.Receiver.State.Slots.{slot-modify_self, slot-queue_ack, length-modify}
use dpdk_wrapper_library.Tcp.Receiver.State.{
  Receiver, slot, modify, terminate, close_state, push_event, schedule_finalize,
}
use dpdk_wrapper_library.Tcp.Segment.{Segment}
use dpdk_wrapper_library.Tcp.Stack.{TcpEventType}

fold_ack-snd_una :
    (seg : Segment) (c : TcpConnection)
    → (fold_ack seg c).snd_una ≡ (if seq_gt seg.ack c.snd_una then seg.ack else c.snd_una)
unfolding fold_ack update_window advance_una publish_window
fold_ack-snd_una seg c = ground arith

module _ (idx : ℕ) (r : Receiver) (live : idx < length r.slots) where
  modify-snd_una :
      (f : TcpConnection → TcpConnection)
      → (f (slot r idx)).snd_una ≡ (slot r idx).snd_una
      → (slot (modify idx f r) idx).snd_una ≡ (slot r idx).snd_una
  modify-snd_una f same =
      ap (λ (c : TcpConnection). c.snd_una) (slot-modify_self idx r f live) ∙ same

  schedule_finalize-snd_una : (slot (schedule_finalize idx r) idx).snd_una ≡ (slot r idx).snd_una
  unfolding schedule_finalize
  schedule_finalize-snd_una = elim (Bool-cases (slot r idx).finalize_pending) [
    | inl set ↦ rw set refl
    | inr clear ↦ rw clear (modify-snd_una (λ c. record c { finalize_pending = true }) refl)
  ]

module _ (idx : ℕ) (r : Receiver) (live : idx < length r.slots) where
  terminate-snd_una :
      (slot (terminate idx TcpEventType.closed r) idx).snd_una ≡ (slot r idx).snd_una
  unfolding terminate close_state push_event
  terminate-snd_una =
      schedule_finalize-snd_una idx
        (push_event TcpEventType.closed idx [] (modify idx (close_state TcpEventType.closed) r))
        (rw (length-modify idx r (close_state TcpEventType.closed)) live)
      ∙ modify-snd_una idx r live (close_state TcpEventType.closed) refl

  fin_acked-snd_una :
      (s : TcpState) → (slot (fin_acked s idx r).1 idx).snd_una ≡ (slot r idx).snd_una
  unfolding fin_acked
  fin_acked-snd_una TcpState.fin_wait_1 =
      modify-snd_una idx r live (λ c. record c { state = TcpState.fin_wait_2 }) refl
  fin_acked-snd_una TcpState.closing = terminate-snd_una
  fin_acked-snd_una TcpState.last_ack = terminate-snd_una
  fin_acked-snd_una TcpState.free = refl
  fin_acked-snd_una TcpState.syn_received = refl
  fin_acked-snd_una TcpState.established = refl
  fin_acked-snd_una TcpState.close_wait = refl
  fin_acked-snd_una TcpState.fin_wait_2 = refl
  fin_acked-snd_una TcpState.closed = refl

-- `a`, `u` and `n` are the positions of the segment's ACK, of `snd_una` and of `snd_nxt` in the
-- stream that starts at `base`.
module _ (idx : ℕ) (seg : Segment) (r : Receiver) (live : idx < length r.slots) (base a u n : ℕ)
    (at_ack : seg.ack ≡ u32 (base + a)) (at_una : (slot r idx).snd_una ≡ u32 (base + u))
    (at_nxt : (slot r idx).snd_nxt ≡ u32 (base + n)) (sent : u ≤ n) (near : a < u + 2 ^ 31)
    (near' : n < a + 2 ^ 31) where
  beyond_nxt : seq_gt seg.ack (slot r idx).snd_nxt ≡ ltb n a
  beyond_nxt = rw (at_ack, at_nxt) (seq_gt-positions base a n (omega arith) near')

  beyond_una : seq_gt seg.ack (slot r idx).snd_una ≡ ltb u a
  beyond_una = rw (at_ack, at_una) (seq_gt-positions base a u (omega arith) (omega arith))

  folded : (slot (modify idx (fold_ack seg) r) idx).snd_una ≡ u32 (base + max u a)
  folded =
      ap (λ (c : TcpConnection). c.snd_una) (slot-modify_self idx r (fold_ack seg) live)
      ∙ fold_ack-snd_una seg (slot r idx)
      ∙ rw (beyond_una, at_ack, at_una) (ground arith)

  -- On a live slot, for positions of the ACK, of `snd_una` and of `snd_nxt`, in which `snd_una` is not
  -- behind `snd_nxt` and the ACK is less than half the sequence space from both, `process_ack` moves `snd_una` to the later of its position and the ACK's, if the
  -- ACK's is not behind `snd_nxt`, and else leaves it: it never goes back, and never passes `snd_nxt`.
  pub process_ack-snd_una :
      (slot (process_ack idx seg r).1 idx).snd_una ≡ u32 (base + (if ltb n a then u else max u a))
  unfolding process_ack
  process_ack-snd_una = elim (Bool-cases (ltb n a)) [
    | inl beyond ↦
        rw (beyond_nxt, beyond)
          (ap (λ (c : TcpConnection). c.snd_una) (slot-queue_ack idx r live) ∙ at_una)
    | inr within ↦
        let c = slot r idx in
        elim (Bool-cases (has_bits c.out_flags out_fin_sent && seg.ack == c.snd_nxt)) [
          | inl acked ↦
              rw (beyond_nxt, within, acked)
                (fin_acked-snd_una idx (modify idx (fold_ack seg) r)
                    (rw (length-modify idx r (fold_ack seg)) live) c.state
                  ∙ folded)
          | inr no_fin ↦ rw (beyond_nxt, within, no_fin) folded
        ]
  ]
