-- ===== src/Tcp/Receiver/Data/Delivery.antt =====
-- `process_data` delivers the peer's stream in order: no gap, no byte twice.
use mathlib.Core.List.{append-nil}
use dpdk_wrapper_library.Base.{
  ℕ, ◌+◌, ◌-◌, ◌^◌, ◌≤◌, ◌<◌, ◌≡◌, refl, ap, List, ◌++◌, true, false, get_or, ◌==◌, if◌then◌else◌,
  arith, length, take, drop, u32, ◌∙◌, inl, inr, Bool-cases, ltb, leb, max, take_all, ==_refl,
  dec_lt, lt→ltb,
}
use dpdk_wrapper_library.Tcp.Connection.Sequence.{seq_gt-positions}
use dpdk_wrapper_library.Tcp.Connection.{seq_gt, TcpConnection, fresh_connection}
use dpdk_wrapper_library.Tcp.Receiver.Data.Stream.{
  stream, length-stream, drop-stream, bytes_of, bytes_of-append, Carries,
}
use dpdk_wrapper_library.Tcp.Receiver.Data.{
  can_receive, skip_of, end_of, deliver, deliver_new, finish, accept_data, process_data,
  publish_rcv_nxt,
}
use dpdk_wrapper_library.Tcp.Receiver.State.Slots.{
  slot-modify_self, length-modify, slot-queue_ack, events-queue_ack, length-queue_ack,
}
use dpdk_wrapper_library.Tcp.Receiver.State.{
  Receiver, slot, modify, push_event, queue_ack, make_event,
}
use dpdk_wrapper_library.Tcp.Segment.{Segment, has, fin_flag}

-- The span behind the front that is already delivered is the stream from there on.
span-stream :
    (s : ℕ → ℕ) (a n len k : ℕ)
    → a + k ≡ n
    → take (len - k) (drop k (stream s a len)) ≡ stream s n (len - k)
span-stream s a n len k e =
    let n' : k + a ≡ n = omega arith in
    rw (drop-stream s k a len, n')
      (take_all (len - k) (stream s n (len - k)) (omega (arith, length-stream s n (len - k))))

module _ (s : ℕ → ℕ) (base a n idx : ℕ) (seg : Segment) (r : Receiver) (live : idx < length r.slots)
    (at_n : (slot r idx).rcv_nxt_local ≡ u32 (base + n)) (carries : Carries s base a seg)
    (near : a + seg.len ≤ n + 2 ^ 31) (near' : n < a + 2 ^ 31) where
  -- There is something new exactly when the segment ends behind `n`.
  end_of-positions : seq_gt (end_of seg) (slot r idx).rcv_nxt_local ≡ ltb n (a + seg.len)
  unfolding end_of
  end_of-positions =
      let e : u32 (seg.seq + seg.len) ≡ u32 (base + (a + seg.len)) =
        omega (arith, carries.seq_at) in
      rw (e, at_n) (seq_gt-positions base (a + seg.len) n near (omega arith))

  skip_of-positions : a ≤ n → n ≤ a + seg.len → skip_of seg (slot r idx) ≡ n - a
  unfolding skip_of
  skip_of-positions h h' = rw (at_n, carries.seq_at) (omega arith)

  bytes_of-deliver :
      a ≤ n
      → n < a + seg.len
      → bytes_of idx (deliver idx seg r).events
        ≡ bytes_of idx r.events ++ stream s n (a + seg.len - n)
  unfolding deliver push_event make_event
  bytes_of-deliver h h' =
      let e : seg.len - (n - a) ≡ a + seg.len - n = omega arith in
      let span = span-stream s a n seg.len (n - a) (omega arith) in
      rw
        (
          bytes_of-append,
          ==_refl,
          skip_of-positions h (omega arith),
          carries.bytes_at,
          span,
          e,
          append-nil,
        )
        refl

  -- What is left of `accept_data` once the payload is delivered: an ACK is queued.
  settle : Receiver → Receiver
  settle r' = modify idx publish_rcv_nxt (queue_ack idx r')

  settle-rcv_nxt_local :
      (r' : Receiver)
      → idx < length r'.slots
      → (slot (settle r') idx).rcv_nxt_local ≡ (slot r' idx).rcv_nxt_local
  unfolding settle publish_rcv_nxt
  settle-rcv_nxt_local r' h =
      rw (slot-modify_self idx (queue_ack idx r') publish_rcv_nxt (rw length-queue_ack h))
        (ground (arith, slot-queue_ack idx r' h))

  settle-events : (r' : Receiver) → (settle r').events ≡ r'.events
  unfolding settle
  settle-events r' = events-queue_ack idx r'

  accept_data-settles :
      has seg fin_flag ≡ false
      → accept_data idx seg r
        ≡ settle (if seq_gt (end_of seg) (slot r idx).rcv_nxt_local then deliver idx seg r else r)
  unfolding accept_data settle deliver_new finish
  accept_data-settles no_fin = rw no_fin

  deliver-rcv_nxt_local : (slot (deliver idx seg r) idx).rcv_nxt_local ≡ end_of seg
  unfolding deliver push_event
  deliver-rcv_nxt_local =
      ground (arith, slot-modify_self idx r (λ c. record c { rcv_nxt_local = end_of seg }) live)

  length-deliver : length (deliver idx seg r).slots ≡ length r.slots
  unfolding deliver push_event
  length-deliver = length-modify idx r (λ c. record c { rcv_nxt_local = end_of seg })

  end_of-base : end_of seg ≡ u32 (base + (a + seg.len))
  unfolding end_of
  end_of-base = omega (arith, carries.seq_at)

  -- The next position that is expected after the segment.
  abbrev next : ℕ
  next = if leb a n then max n (a + seg.len) else n

  abbrev Delivers : Receiver → Type 0
  Delivers r' =
      ((slot r' idx).rcv_nxt_local ≡ u32 (base + next))
      × (bytes_of idx r'.events ≡ bytes_of idx r.events ++ stream s n (next - n))

  unmoved : next ≡ n → bytes_of idx r.events ≡ bytes_of idx r.events ++ stream s n (next - n)
  unmoved e = let e' : next - n ≡ 0 = omega (arith, e) in rw (e', append-nil)

  settle-Delivers : (r' : Receiver) → idx < length r'.slots → Delivers r' → Delivers (settle r')
  settle-Delivers r' h d =
      (settle-rcv_nxt_local r' h ∙ d.0, ap (bytes_of idx) (settle-events r') ∙ d.1)

  accept_data-Delivers : a ≤ n → has seg fin_flag ≡ false → Delivers (accept_data idx seg r)
  accept_data-Delivers h no_fin = elim (dec_lt n (a + seg.len)) [
    | yes new ↦
        let fresh : next ≡ a + seg.len = ground arith in
        rw (accept_data-settles no_fin, end_of-positions, lt→ltb _ _ new)
          (settle-Delivers (deliver idx seg r) (rw length-deliver live)
            (deliver-rcv_nxt_local ∙ rw fresh end_of-base, rw fresh (bytes_of-deliver h new)))
    | no old ↦
        let stale : next ≡ n = ground arith in
        let shut : ltb n (a + seg.len) ≡ false = ground arith in
        rw (accept_data-settles no_fin, end_of-positions, shut)
          (settle-Delivers r live (rw stale at_n, unmoved stale))
  ]

  gap-positions : seq_gt seg.seq (slot r idx).rcv_nxt_local ≡ ltb n a
  gap-positions = rw (carries.seq_at, at_n) (seq_gt-positions base a n (omega arith) near')

  queue_ack-Delivers :
      (r' : Receiver)
      → r'.slots ≡ r.slots
      → r'.events ≡ r.events
      → next ≡ n
      → Delivers (queue_ack idx r')
  queue_ack-Delivers r' same same' stay =
      let h : idx < length r'.slots = rw same live in
      (
        ground (
          arith,
          slot-queue_ack idx r' h,
          ap (λ (l : List TcpConnection). get_or l idx fresh_connection) same,
        ),
        ap (bytes_of idx) (events-queue_ack idx r' ∙ same') ∙ unmoved stay,
      )

  -- A segment without a FIN that carries the stream's bytes from position `a` on, on a live slot that
  -- can receive and expects position `n`, `a` and the segment's end being less than half the sequence
  -- space from `n`: the expected position moves to the end of the segment if the segment reaches past
  -- it without a gap, and the bytes handed over are those of the stream in between, no more and no
  -- less.
  pub process_data-Delivers :
      can_receive (slot r idx).state ≡ true
      → has seg fin_flag ≡ false
      → Delivers (process_data idx seg r)
  unfolding process_data
  process_data-Delivers ready no_fin = elim (Bool-cases (seg.len == 0)) [
    | inl nothing ↦
        let stay : next ≡ n = ground arith in
        rw (ready, no_fin, nothing) (rw stay at_n, unmoved stay)
    | inr some_bytes ↦ elim (dec_lt n a) [
      | yes gap ↦
          let stay : next ≡ n = ground arith in
          rw (ready, no_fin, some_bytes, gap-positions, lt→ltb _ _ gap)
            (queue_ack-Delivers _ refl refl stay)
      | no fits ↦
          let shut : ltb n a ≡ false = ground arith in
          rw (ready, no_fin, some_bytes, gap-positions, shut)
            (accept_data-Delivers (omega arith) no_fin)
    ]
  ]
