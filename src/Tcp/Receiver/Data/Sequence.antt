-- ===== src/Tcp/Receiver/Data/Sequence.antt =====
-- Any sequence of segments: what `process_data` hands over is an unbroken part of the stream.
use mathlib.Core.List.{append_assoc, append-nil}
use dpdk_wrapper_library.Base.{
  ℕ, ◌+◌, ◌-◌, ◌^◌, ◌≤◌, ◌<◌, ◌≡◌, refl, ◌∙◌, sym, ap, List, [], ◌∷◌, ◌++◌, true, false, not, ◌&&◌,
  ◌||◌, ltb, leb, max, ◌==◌, if◌then◌else◌, arith, inl, inr, Bool-cases, length, u32, u64,
}
use dpdk_wrapper_library.Tcp.Connection.{TcpConnection, seq_gt}
use dpdk_wrapper_library.Tcp.Receiver.Data.Delivery.{process_data-Delivers}
use dpdk_wrapper_library.Tcp.Receiver.Data.Stream.{stream, stream-append, bytes_of, Carries}
use dpdk_wrapper_library.Tcp.Receiver.Data.{
  can_receive, end_of, deliver, deliver_new, finish, accept_data, publish_rcv_nxt, process_data,
}
use dpdk_wrapper_library.Tcp.Receiver.State.Slots.{
  length-modify, slot-modify_self, slot-queue_ack, length-queue_ack,
}
use dpdk_wrapper_library.Tcp.Receiver.State.{Receiver, slot, modify, count, push_event, queue_ack}
use dpdk_wrapper_library.Tcp.Segment.{Segment, has, fin_flag}
use dpdk_wrapper_library.Tcp.Stack.{TcpEventType}

-- The slot's state and the number of slots stay.
record Keeps (idx : ℕ) (r r' : Receiver) : Type 0 where
  same_state : (slot r' idx).state ≡ (slot r idx).state
  same_length : length r'.slots ≡ length r.slots

andthen :
    {idx : ℕ} {r r' r'' : Receiver}
    → idx < length r.slots
    → Keeps idx r r'
    → (idx < length r'.slots → Keeps idx r' r'')
    → Keeps idx r r''
andthen live a next =
    let b = next (rw (a.same_length) live) in
    record { same_state = b.same_state ∙ a.same_state; same_length = b.same_length ∙ a.same_length }

module _ (idx : ℕ) (r : Receiver) where
  modify-Keeps :
      (f : TcpConnection → TcpConnection)
      → (f (slot r idx)).state ≡ (slot r idx).state
      → idx < length r.slots
      → Keeps idx r (modify idx f r)
  modify-Keeps f same live = record {
    same_state = ap (λ (c : TcpConnection). c.state) (slot-modify_self idx r f live) ∙ same;
    same_length = length-modify idx r f;
  }

  queue_ack-Keeps : idx < length r.slots → Keeps idx r (queue_ack idx r)
  queue_ack-Keeps live = record {
    same_state = ap (λ (c : TcpConnection). c.state) (slot-queue_ack idx r live);
    same_length = length-queue_ack idx r;
  }

  push_event-Keeps :
      (why : TcpEventType) (bytes : List ℕ) → Keeps idx r (push_event why idx bytes r)
  unfolding push_event
  push_event-Keeps why bytes = record { same_state = refl; same_length = refl }

module _ (idx : ℕ) (seg : Segment) (r : Receiver) (live : idx < length r.slots)
    (no_fin : has seg fin_flag ≡ false) where
  deliver_new-Keeps : Keeps idx r (deliver_new idx seg r)
  unfolding deliver_new deliver
  deliver_new-Keeps = elim (Bool-cases (seq_gt (end_of seg) (slot r idx).rcv_nxt_local)) [
    | inl fresh ↦ rw fresh (
        andthen live (push_event-Keeps idx r TcpEventType.payload _)
          (modify-Keeps idx _ (λ c. record c { rcv_nxt_local = end_of seg }) refl))
    | inr old ↦ rw old (record { same_state = refl; same_length = refl })
  ]

  accept_data-Keeps : Keeps idx r (accept_data idx seg r)
  unfolding accept_data finish publish_rcv_nxt
  accept_data-Keeps = rw no_fin (
      andthen live deliver_new-Keeps
        λ l. andthen l (queue_ack-Keeps idx _ l) (modify-Keeps idx _ publish_rcv_nxt refl))

  process_data-Keeps : Keeps idx r (process_data idx seg r)
  unfolding process_data
  process_data-Keeps = elim (Bool-cases (can_receive (slot r idx).state)) [
    | inr deaf ↦ elim (Bool-cases (ltb 0 seg.len || has seg fin_flag)) [
      | inl answered ↦ rw (deaf, answered) (queue_ack-Keeps idx r live)
      | inr silent ↦ rw (deaf, silent) (record { same_state = refl; same_length = refl })
    ]
    | inl ready ↦ elim (Bool-cases (seg.len == 0 && not (has seg fin_flag))) [
      | inl empty ↦ rw (ready, empty) (record { same_state = refl; same_length = refl })
      | inr full ↦ elim (Bool-cases (seq_gt seg.seq (slot r idx).rcv_nxt_local)) [
        | inl ahead ↦
            rw (ready, full, ahead)
              (let q =
                  queue_ack-Keeps idx
                    (count (λ s. record s { out_of_order = u64 (s.out_of_order + 1) }) r) live in
                record { same_state = q.same_state; same_length = q.same_length })
        | inr due ↦ rw (ready, full, due) accept_data-Keeps
      ]
    ]
  ]

-- The position that is expected after the stream's bytes from `a` to `a + len` arrive at `n`
abbrev pub advance : ℕ → ℕ → ℕ → ℕ
advance n a len = if leb a n then max n (a + len) else n

-- Segments in the order of their arrival, each with the position of its first byte
abbrev pub reached : ℕ → List (ℕ × Segment) → ℕ
reached n [] = n
reached n ((a, seg) ∷ rest) = reached (advance n a seg.len) rest

abbrev pub process_all : ℕ → List (ℕ × Segment) → Receiver → Receiver
process_all idx [] r = r
process_all idx ((a, seg) ∷ rest) r = process_all idx rest (process_data idx seg r)

-- Each segment carries the stream's bytes of its position, has no FIN, and lies less than half the
-- sequence space from the position that is expected when it arrives.
abbrev pub AreNear : (ℕ → ℕ) → ℕ → ℕ → List (ℕ × Segment) → Type 0
AreNear s base n [] = Unit
AreNear s base n ((a, seg) ∷ rest) =
    Carries s base a seg
    × (has seg fin_flag ≡ false)
    × (a + seg.len ≤ n + 2 ^ 31)
    × (n < a + 2 ^ 31)
    × AreNear s base (advance n a seg.len) rest

reached-forward : (n : ℕ) (pieces : List (ℕ × Segment)) → n ≤ reached n pieces
reached-forward n [] = omega arith
reached-forward n ((a, seg) ∷ rest) = ground (arith, reached-forward (advance n a seg.len) rest)

-- Whatever segments without a FIN arrive on a live slot that can receive, in any order, with gaps,
-- overlaps and repetitions, each carrying the stream's bytes at its position and near the position
-- that is expected: the bytes handed over are the stream's from the first expected position to the
-- last, without a gap and none twice, and the slot expects the last position.
pub process_all-reached :
    (s : ℕ → ℕ) (base n idx : ℕ) (pieces : List (ℕ × Segment)) (r : Receiver)
    → idx < length r.slots
    → can_receive (slot r idx).state ≡ true
    → (slot r idx).rcv_nxt_local ≡ u32 (base + n)
    → AreNear s base n pieces
    → ((slot (process_all idx pieces r) idx).rcv_nxt_local ≡ u32 (base + reached n pieces))
      × (bytes_of idx (process_all idx pieces r).events
          ≡ bytes_of idx r.events ++ stream s n (reached n pieces - n))
process_all-reached s base n idx [] r live ready at_n near =
    let none_new : n - n ≡ 0 = omega arith in (at_n, rw none_new (sym (append-nil _)))
process_all-reached s base n idx ((a, seg) ∷ rest) r live ready at_n
      (carries, no_fin, low, high, near) =
    let kept = process_data-Keeps idx seg r live no_fin in
    let first =
      process_data-Delivers s base a n idx seg r live at_n carries low high ready no_fin in
    let later =
      process_all-reached s base (advance n a seg.len) idx rest (process_data idx seg r)
        (rw (kept.same_length) live) (rw (kept.same_state) ready) first.0 near in
    let m = advance n a seg.len in
    let up : n ≤ m = ground arith in
    let on = reached-forward m rest in
    (
      later.0,
      later.1
          ∙ ap (λ (bs : List ℕ). bs ++ stream s m (reached m rest - m)) first.1
          ∙ append_assoc (bytes_of idx r.events) _ _
          ∙ ap (◌++◌ (bytes_of idx r.events)) (
              stream-append s n (m - n) m (reached m rest - m) (reached m rest - n) (omega arith)
                (omega arith)),
    )
