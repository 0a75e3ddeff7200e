-- ===== src/Tcp/Receiver/Dispatch/Transitions.antt =====
-- The edges of the TCP state machine that `process_segment` follows.
use dpdk_wrapper_library.Base.{
  ℕ, ◌<◌, ◌≡◌, refl, ◌∙◌, ap, List, [], Option, none, some, true, ◌&&◌, ◌==◌, arith, inl, inr,
  Bool-cases, length, has_bits,
}
use dpdk_wrapper_library.Packet.{Mbuf, Dpdk}
use dpdk_wrapper_library.Tcp.Connection.{TcpState, TcpConnection, seq_gt, out_fin_sent}
use dpdk_wrapper_library.Tcp.Receiver.Ack.{
  fold_ack, advance_una, update_window, publish_window, fin_acked, process_ack,
}
use dpdk_wrapper_library.Tcp.Receiver.Replies.{queue_segment}
use dpdk_wrapper_library.Tcp.Receiver.State.Slots.{length-modify, slot-modify_self}
use dpdk_wrapper_library.Tcp.Receiver.State.{
  Receiver, slot, modify, push_event, queue_control, queue_ack, schedule_finalize, close_state,
  terminate,
}
use dpdk_wrapper_library.Tcp.Segment.{build_segment, Content, Segment, SegmentAddr}
use dpdk_wrapper_library.Tcp.Stack.{TcpEventType}

-- RFC 793's edges, without TIME-WAIT: the last FIN closes at once.
pub data Edge : TcpState → TcpState → Type 0 where
  handshake_done : Edge TcpState.syn_received TcpState.established
  handshake_reset : Edge TcpState.syn_received TcpState.free
  close_seen : Edge TcpState.established TcpState.fin_wait_1
  close_after_peer : Edge TcpState.close_wait TcpState.last_ack
  peer_fin : Edge TcpState.established TcpState.close_wait
  fin_acknowledged : Edge TcpState.fin_wait_1 TcpState.fin_wait_2
  both_fins : Edge TcpState.fin_wait_1 TcpState.closing
  last_fin : Edge TcpState.fin_wait_2 TcpState.closed
  closing_done : Edge TcpState.closing TcpState.closed
  last_ack_done : Edge TcpState.last_ack TcpState.closed
  reset_established : Edge TcpState.established TcpState.closed
  reset_close_wait : Edge TcpState.close_wait TcpState.closed
  reset_fin_wait_1 : Edge TcpState.fin_wait_1 TcpState.closed

-- A path along the edges
pub data Steps : TcpState → TcpState → Type 0 where
  here : (s : TcpState) → Steps s s
  along : {s t u : TcpState} → Edge s t → Steps t u → Steps s u

pub join : {s t u : TcpState} → Steps s t → Steps t u → Steps s u
join (here s) q = q
join (along e p) q = along e (join p q)

pub one : {s t : TcpState} → Edge s t → Steps s t
one {s} {t} e = along e (here t)

-- From `r` to `r'` the slot follows edges.
pub record Advances (idx : ℕ) (r r' : Receiver) : Type 0 where
  pub path : Steps (slot r idx).state (slot r' idx).state
  pub kept : length r'.slots ≡ length r.slots

pub andthen :
    {idx : ℕ} {r r' r'' : Receiver}
    → idx < length r.slots
    → Advances idx r r'
    → (idx < length r'.slots → Advances idx r' r'')
    → Advances idx r r''
andthen live a next =
    let b = next (rw (a.kept) live) in record { path = join a.path b.path; kept = b.kept ∙ a.kept }

module _ (idx : ℕ) (r : Receiver) where
  pub stays : (r' : Receiver) → r'.slots ≡ r.slots → Advances idx r r'
  stays r' e = record { path = rw e (here (slot r idx).state); kept = rw e refl }

  pub modify-Advances :
      (f : TcpConnection → TcpConnection)
      → Steps (slot r idx).state (f (slot r idx)).state
      → idx < length r.slots
      → Advances idx r (modify idx f r)
  modify-Advances f p live = record {
    path = rw (slot-modify_self idx r f live) p;
    kept = length-modify idx r f;
  }

  -- A store that leaves `state` alone
  pub modify-stays :
      (f : TcpConnection → TcpConnection)
      → (f (slot r idx)).state ≡ (slot r idx).state
      → idx < length r.slots
      → Advances idx r (modify idx f r)
  modify-stays f same live = modify-Advances f (rw same (here (slot r idx).state)) live

  slots-queue_control : (pkt : Option Mbuf) → (queue_control pkt r).slots ≡ r.slots
  unfolding queue_control
  slots-queue_control none = refl
  slots-queue_control (some m) = ground arith

  pub push_event-Advances :
      (why : TcpEventType) (bytes : List ℕ) → Advances idx r (push_event why idx bytes r)
  unfolding push_event
  push_event-Advances why bytes = stays _ refl

  pub queue_ack-Advances : idx < length r.slots → Advances idx r (queue_ack idx r)
  unfolding queue_ack
  queue_ack-Advances live = elim (Bool-cases (slot r idx).ack_pending) [
    | inl set ↦ rw set (stays r refl)
    | inr clear ↦
        let m = modify-stays (λ c. record c { ack_pending = true }) refl live in
        rw clear (record { path = m.path; kept = m.kept })
  ]

  schedule_finalize-Advances : idx < length r.slots → Advances idx r (schedule_finalize idx r)
  unfolding schedule_finalize
  schedule_finalize-Advances live = elim (Bool-cases (slot r idx).finalize_pending) [
    | inl set ↦ rw set (stays r refl)
    | inr clear ↦
        let m = modify-stays (λ c. record c { finalize_pending = true }) refl live in
        rw clear (record { path = m.path; kept = m.kept })
  ]

pub slots-queue_segment :
    (d : Dpdk) (a : SegmentAddr) (c : Content) (r : Receiver)
    → (queue_segment d a c r).slots ≡ r.slots
unfolding queue_segment
slots-queue_segment d a c r =
    let (pkt, w) = build_segment d r.world a c in slots-queue_control 0 (record r { world = w }) pkt

close_state-closed :
    (why : TcpEventType) (c : TcpConnection) → (close_state why c).state ≡ TcpState.closed
unfolding close_state
close_state-closed TcpEventType.accepted c = refl
close_state-closed TcpEventType.payload c = refl
close_state-closed TcpEventType.peer_closed c = refl
close_state-closed TcpEventType.closed c = refl
close_state-closed TcpEventType.reset c = refl

pub terminate-Advances :
    (why : TcpEventType) (idx : ℕ) (r : Receiver)
    → Steps (slot r idx).state TcpState.closed
    → idx < length r.slots
    → Advances idx r (terminate idx why r)
unfolding terminate
terminate-Advances why idx r p live =
    andthen live
      (modify-Advances idx r (close_state why) (rw (close_state-closed why (slot r idx)) p) live)
      λ live'. andthen live' (push_event-Advances idx _ why []) (schedule_finalize-Advances idx _)

fold_ack-state : (seg : Segment) (c : TcpConnection) → (fold_ack seg c).state ≡ c.state
unfolding fold_ack update_window advance_una publish_window
fold_ack-state seg c = ground arith

fin_acked-Advances :
    (s : TcpState) (idx : ℕ) (r : Receiver)
    → (slot r idx).state ≡ s
    → idx < length r.slots
    → Advances idx r (fin_acked s idx r).1
unfolding fin_acked
fin_acked-Advances TcpState.fin_wait_1 idx r e live =
    modify-Advances idx r (λ c. record c { state = TcpState.fin_wait_2 })
      (rw e (one fin_acknowledged)) live
fin_acked-Advances TcpState.closing idx r e live =
    terminate-Advances TcpEventType.closed idx r (rw e (one closing_done)) live
fin_acked-Advances TcpState.last_ack idx r e live =
    terminate-Advances TcpEventType.closed idx r (rw e (one last_ack_done)) live
fin_acked-Advances TcpState.free idx r e live = stays idx r r refl
fin_acked-Advances TcpState.syn_received idx r e live = stays idx r r refl
fin_acked-Advances TcpState.established idx r e live = stays idx r r refl
fin_acked-Advances TcpState.close_wait idx r e live = stays idx r r refl
fin_acked-Advances TcpState.fin_wait_2 idx r e live = stays idx r r refl
fin_acked-Advances TcpState.closed idx r e live = stays idx r r refl

pub process_ack-Advances :
    (idx : ℕ) (seg : Segment) (r : Receiver)
    → idx < length r.slots
    → Advances idx r (process_ack idx seg r).1
unfolding process_ack
process_ack-Advances idx seg r live =
    let c = slot r idx in
    let fold = modify-stays idx r (fold_ack seg) (fold_ack-state seg c) live in
    let same = ap (λ (x : TcpConnection). x.state) (slot-modify_self idx r (fold_ack seg) live) in
    elim (Bool-cases (seq_gt seg.ack c.snd_nxt)) [
      | inl beyond ↦ rw beyond (queue_ack-Advances idx r live)
      | inr within ↦ elim (Bool-cases (has_bits c.out_flags out_fin_sent && seg.ack == c.snd_nxt)) [
        | inl acked ↦
            rw (within, acked)
              (andthen live fold (fin_acked-Advances c.state idx _ (same ∙ fold_ack-state seg c)))
        | inr no_fin ↦ rw (within, no_fin) fold
      ]
    ]
