-- ===== src/Echo/Outbound/Echoed.antt =====
-- What one data item puts on the wire.
use dpdk_wrapper_library.Base.{
  ℕ, ◌+◌, ◌-◌, ◌^◌, ◌≤◌, ◌<◌, ◌≡◌, refl, ◌∙◌, sym, ap, List, [], ◌∷◌, ◌++◌, some, not, ◌&&◌, ltb,
  arith, length, length-drop, take, drop, inl, inr, Bool-cases,
}
use dpdk_wrapper_library.Echo.Outbound.{Round, echo_data}
use dpdk_wrapper_library.Packet.{Dpdk}
use dpdk_wrapper_library.Tcp.Sender.Send.Chains.{payloads, between, between-append, between_nil}
use dpdk_wrapper_library.Tcp.Sender.Send.Prefix.{wire, TxBounded}
use dpdk_wrapper_library.Tcp.Sender.Send.Total.{send-Delivered}
use dpdk_wrapper_library.Tcp.Sender.State.{Effect, Sender, conn_slot, sendable}
use dpdk_wrapper_library.Tcp.Stack.{TcpStack, ConnId}
use mathlib.Core.List.{append-nil, append_assoc}

module _ (d : Dpdk) (st : TcpStack) (conn : ConnId) (bounded : TxBounded d) where
  -- A connection on which `send` may be called
  pub record Ready (s : Sender) : Type 0 where
    pub some_mss : 0 < (conn_slot s conn).send_mss
    pub whole : st.params.max_connections ≤ length s.slots
    pub word : (conn_slot s conn).snd_nxt < 2 ^ 32

  -- What the inbound thread leaves alone: the fields that only the outbound thread or `open` writes.
  pub record Steady (r : Round) : Type 0 where
    pub same_trace : (s : Sender) → (r.inbound s).trace ≡ s.trace
    pub same_slots : (s : Sender) → length (r.inbound s).slots ≡ length s.slots
    pub same_mss :
        (s : Sender) → (conn_slot (r.inbound s) conn).send_mss ≡ (conn_slot s conn).send_mss
    pub same_snd_nxt :
        (s : Sender) → (conn_slot (r.inbound s) conn).snd_nxt ≡ (conn_slot s conn).snd_nxt

  abbrev pub AllSteady : List Round → Type 0
  AllSteady [] = Unit
  AllSteady (r ∷ rs) = Steady r × AllSteady rs

  Ready-inbound : (r : Round) (s : Sender) → Steady r → Ready s → Ready (r.inbound s)
  Ready-inbound r s steady ready = record {
    some_mss = rw (steady.same_mss s) ready.some_mss;
    whole = rw (steady.same_slots s) ready.whole;
    word = rw (steady.same_snd_nxt s) ready.word;
  }

  -- From `from` to `sent'` the bytes have gone out, behind those that were on the wire.
  pub record Echoed (bytes : List ℕ) (from : ℕ) (s : Sender) (sent' : ℕ) (s' : Sender)
      : Type 0 where
    pub forward : from ≤ sent'
    pub counted : sent' ≤ length bytes
    pub on_wire : payloads (wire s'.trace) ≡ payloads (wire s.trace) ++ between bytes from sent'
    pub ready : Ready s'

  Echoed-inbound :
      (bytes : List ℕ) (r : Round) (sent : ℕ) (s : Sender)
      → Steady r
      → Ready s
      → sent ≤ length bytes
      → Echoed bytes sent s sent (r.inbound s)
  Echoed-inbound bytes r sent s steady ready low = record {
    forward = omega arith;
    counted = low;
    on_wire =
        ap (λ (t : List Effect). payloads (wire t)) (steady.same_trace s)
        ∙ rw (between_nil bytes sent) (sym (append-nil _));
    ready = Ready-inbound r s steady ready;
  }

  -- However many rounds the outbound thread spends on a data item, and whatever the inbound thread
  -- does in between, if that leaves alone the trace, the number of slots, and the MSS and `snd_nxt` of
  -- the connection, the loop gets to the end of the rounds or stops before, and its count is that of
  -- the item's bytes that have gone out on the wire since the count it began with, in order and behind
  -- what was there, and the connection is as ready as before: for a driver that takes no more packets
  -- than it is offered, on a connection whose MSS is not 0 and whose `snd_nxt` is a 32-bit word, and in
  -- a stack that has all its slots.
  pub echo_data-Echoed :
      (bytes : List ℕ) (rounds : List Round) (sent : ℕ) (s : Sender)
      → AllSteady rounds
      → Ready s
      → sent ≤ length bytes
      → (sent' : ℕ) × (s' : Sender) × (echo_data d st conn bytes rounds sent s ≡ some (sent', s'))
        × Echoed bytes sent s sent' s'
  unfolding echo_data
  echo_data-Echoed bytes [] sent s steady ready low = (
    sent,
    s,
    refl,
    record {
      forward = omega arith;
      counted = low;
      on_wire = rw (between_nil bytes sent) (sym (append-nil _));
      ready = ready;
    },
  )
  echo_data-Echoed bytes (r ∷ rounds) sent s (steady, others) ready low =
      let s₁ = r.inbound s in
      let ready₁ = Ready-inbound r s steady ready in
      elim (Bool-cases (ltb sent (length bytes) && sendable st s₁ conn && not r.stop)) [
        | inr stop ↦
            rw (echo_data, stop) (sent, s₁, refl, Echoed-inbound bytes r sent s steady ready low)
        | inl more ↦
            let (n, s₂, run, went) =
              send-Delivered d st conn (drop sent bytes) s₁ bounded ready₁.some_mss ready₁.whole
                ready₁.word in
            let ready₂ : Ready s₂ = record {
              some_mss = rw went.same_mss ready₁.some_mss;
              whole = rw went.same_slots ready₁.whole;
              word = omega (arith, went.advanced);
            } in
            let count : n ≡ sent + n - sent = omega arith in
            let out : payloads (wire s₂.trace)
                ≡ payloads (wire s.trace) ++ between bytes sent (sent + n) =
              went.on_wire
              ∙ ap (λ (t : List Effect). payloads (wire t) ++ take n (drop sent bytes))
                  (steady.same_trace s)
              ∙ ap (λ (k : ℕ). payloads (wire s.trace) ++ take k (drop sent bytes)) count in
            let left = length-drop sent bytes in
            let (sent', s', loop, rest) =
              echo_data-Echoed bytes rounds (sent + n) s₂ others ready₂
                (omega (arith, went.counted, left)) in
            rw (echo_data, more, run)
              (
                sent',
                s',
                loop,
                record {
                  forward = omega (arith, rest.forward);
                  counted = rest.counted;
                  on_wire =
                      rest.on_wire
                      ∙ ap (λ (l : List ℕ). l ++ between bytes (sent + n) sent') out
                      ∙ append_assoc (payloads (wire s.trace)) _ _
                      ∙ ap (◌++◌ (payloads (wire s.trace)))
                          (between-append bytes sent (sent + n) sent' (omega arith) rest.forward);
                  ready = rest.ready;
                },
              )
      ]
