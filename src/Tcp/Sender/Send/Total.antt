-- ===== src/Tcp/Sender/Send/Total.antt =====
-- `send` ends, and its result counts the bytes on the wire.
use dpdk_wrapper_library.Base.{
  ℕ, zero, suc, ◌+◌, ◌-◌, ◌^◌, ◌≤◌, ◌<◌, ◌≡◌, refl, ◌∙◌, sym, ap, List, ◌++◌, Option, some, false,
  ltb, ◌==◌, arith, length, take, u32, ◌⊎◌, inl, inr, Bool-cases, lt→ltb, dec_lt,
}
use mathlib.Core.List.{append-nil}
use dpdk_wrapper_library.Packet.{Dpdk, World}
use dpdk_wrapper_library.Tcp.Connection.{TcpConnection, window_space}
use dpdk_wrapper_library.Tcp.Sender.Send.Chains.{payloads, between_nil, build_batch-Chain}
use dpdk_wrapper_library.Tcp.Sender.Send.Prefix.{
  wire, TxBounded, Moved, Moved-trans, send_batch-Moved,
}
use dpdk_wrapper_library.Tcp.Sender.Send.{
  Job, build_batch, max_burst, send_batch, send_loop, job_of, send,
}
use dpdk_wrapper_library.Tcp.Sender.State.{Sender, conn_slot, sendable, sendable-live}
use dpdk_wrapper_library.Tcp.Stack.{TcpStack, ConnId}

-- The call returns, and what it has done is a move from `done`.
abbrev pub Ends : Job → ConnId → Sender → ℕ → Option (ℕ × Sender) → Type 0
Ends j conn s done r =
    (done' : ℕ) × (s' : Sender) × (r ≡ some (done', s')) × Moved j conn s done s' done'

Moved-refl :
    (j : Job) (conn : ConnId) (s : Sender) (w : World) (done : ℕ)
    → done ≤ j.limit
    → (conn_slot s conn).snd_nxt ≡ u32 (j.base + done)
    → Moved j conn s done (record s { world = w }) done
Moved-refl j conn s w done low at = record {
  forward = omega arith;
  limited = low;
  bytes = rw (between_nil j.bytes done) (sym (append-nil _));
  snd_nxt = at;
  same_slots = refl;
  same_mss = refl;
}

minus-zero : (n : ℕ) → n - 0 ≡ n
minus-zero n = omega arith

ℕ-cases : (n : ℕ) → (n ≡ 0) ⊎ (n ≡ suc (n - 1))
ℕ-cases zero = inl refl
ℕ-cases (suc n) = inr (omega arith)

module _ (d : Dpdk) (j : Job) (conn : ConnId) (bounded : TxBounded d) (some_mss : 0 < j.mss) where
  pub send_loop-Ends :
      (fuel done : ℕ) (s : Sender)
      → done ≤ j.limit
      → j.limit < fuel + done
      → conn.slot < length s.slots
      → (conn_slot s conn).snd_nxt ≡ u32 (j.base + done)
      → Ends j conn s done (send_loop d j conn fuel done s)
  unfolding send_loop
  send_loop-Ends zero done s low enough live at = absurd (omega arith)
  send_loop-Ends (suc fuel) done s low enough live at = elim (dec_lt done j.limit) [
    | no finished ↦
        let stop : ltb done j.limit ≡ false = ground arith in
        rw (send_loop, stop) (done, s, refl, Moved-refl j conn s s.world done low at)
    | yes more ↦
        let b = build_batch d j max_burst done s.world in
        let s₁ = record s { world = b.world } in
        let chain = build_batch-Chain d j some_mss max_burst done s.world low in
        let step = send_batch-Moved d j conn bounded b done s₁ chain.0 low live in
        let r = send_batch d j conn b done s₁ in
        let moved : Moved j conn s done r.2 r.1 = record {
          forward = step.0.forward;
          limited = step.0.limited;
          bytes = step.0.bytes;
          snd_nxt = step.0.snd_nxt;
          same_slots = step.0.same_slots;
          same_mss = step.0.same_mss;
        } in
        elim (ℕ-cases (length b.segs)) [
          | inl empty ↦
              rw (send_loop, lt→ltb _ _ more, empty)
                (done, s₁, refl, Moved-refl j conn s b.world done low at)
          | inr some_segs ↦ elim (Bool-cases r.0) [
            | inl goes_on ↦
                let (done', s', run, rest) =
                  send_loop-Ends fuel r.1 r.2 step.0.limited
                    (omega (arith, step.1 goes_on, some_segs)) (rw (step.0.same_slots) live)
                    step.0.snd_nxt in
                rw (send_loop, lt→ltb _ _ more, some_segs, goes_on)
                  (done', s', run, Moved-trans moved rest)
            | inr stops ↦ rw (send_loop, lt→ltb _ _ more, some_segs, stops) (r.1, r.2, refl, moved)
          ]
        ]
  ]

-- What a call of `send` has done
pub record Delivered (c : TcpConnection) (conn : ConnId) (bytes : List ℕ) (s s' : Sender) (done : ℕ)
    : Type 0 where
  pub counted : done ≤ length bytes
  pub in_window : done ≤ window_space c.send_window c.snd_nxt
  pub on_wire : payloads (wire s'.trace) ≡ payloads (wire s.trace) ++ take done bytes
  pub advanced : (conn_slot s' conn).snd_nxt ≡ u32 (c.snd_nxt + done)
  pub same_slots : length s'.slots ≡ length s.slots
  pub same_mss : (conn_slot s' conn).send_mss ≡ c.send_mss

module _ (d : Dpdk) (st : TcpStack) (conn : ConnId) (bytes : List ℕ) (s : Sender)
    (bounded : TxBounded d) (some_mss : 0 < (conn_slot s conn).send_mss)
    (whole : st.params.max_connections ≤ length s.slots)
    (word : (conn_slot s conn).snd_nxt < 2 ^ 32) where
  nothing_sent : Delivered (conn_slot s conn) conn bytes s s 0
  nothing_sent = record {
    counted = omega arith;
    in_window = omega arith;
    on_wire = sym (append-nil _);
    advanced = sym (omega arith);
    same_slots = refl;
    same_mss = refl;
  }

  -- With a driver that takes no more packets than it is offered, on a connection whose MSS is not 0
  -- and whose `snd_nxt` is a 32-bit word, in a stack that has all its slots, `send` returns, and its result counts the bytes that went
  -- out: they are the front of `bytes`, in order, at most the peer's window, and `snd_nxt` has moved
  -- by as many, also where the pool or the ring ran out midway, while the number of slots and the
  -- connection's MSS stay.
  pub send-Delivered :
      (done : ℕ) × (s' : Sender) × (send d st conn bytes s ≡ some (done, s'))
      × Delivered (conn_slot s conn) conn bytes s s' done
  unfolding send job_of
  send-Delivered = elim (Bool-cases (length bytes == 0)) [
    | inl empty ↦ rw empty (0, s, refl, nothing_sent)
    | inr some_bytes ↦ elim (Bool-cases (sendable st s conn)) [
      | inr shut ↦ rw (some_bytes, shut) (0, s, refl, nothing_sent)
      | inl ready ↦
          let j = job_of st (conn_slot s conn) bytes in
          elim (Bool-cases (j.limit == 0)) [
            | inl none_left ↦ rw (some_bytes, ready, none_left) (0, s, refl, nothing_sent)
            | inr room ↦
                let live : conn.slot < length s.slots =
                  omega (arith, sendable-live st s conn ready, whole) in
                let (done, s', run, m) =
                  send_loop-Ends d j conn bounded some_mss (suc j.limit) 0 s (omega arith)
                    (omega arith) live (sym (omega arith)) in
                rw (some_bytes, ready, room)
                  (
                    done,
                    s',
                    run,
                    record {
                      counted = omega (arith, m.limited);
                      in_window = omega (arith, m.limited);
                      on_wire =
                          m.bytes
                          ∙ ap (λ (n : ℕ). payloads (wire s.trace) ++ take n bytes)
                              (minus-zero done);
                      advanced = m.snd_nxt;
                      same_slots = m.same_slots;
                      same_mss = m.same_mss;
                    },
                  )
          ]
    ]
  ]
