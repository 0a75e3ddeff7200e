-- ===== src/Tcp/Sender/Close/Order.antt =====
-- The order of the stores and of the FIN in `close`.
use mathlib.Core.List.{append_assoc, append-nil}
use dpdk_wrapper_library.Base.{
  ℕ, zero, suc, ◌+◌, ◌≤◌, ◌≡◌, refl, ◌∙◌, sym, ap, List, [], ◌∷◌, ◌++◌, Option, none, some, true,
  not, ◌&&◌, ◌==◌, arith, inl, inr, Bool-cases, Option-cases, u32, has_bits, bit_or, length, take,
  length-take,
}
use dpdk_wrapper_library.Packet.{Mbuf, Dpdk}
use dpdk_wrapper_library.Tcp.Connection.{TcpConnection, out_fin_sent, out_released}
use dpdk_wrapper_library.Tcp.Sender.Close.{close, close_open, close_retries, fin_packet, send_fin}
use dpdk_wrapper_library.Tcp.Sender.Send.Prefix.{TxBounded}
use dpdk_wrapper_library.Tcp.Sender.Send.{send_burst}
use dpdk_wrapper_library.Tcp.Sender.State.{
  Effect, stores_snd_nxt, stores_out_flags, transmits, Sender, lookup, store_snd_nxt,
  store_out_flags,
}
use dpdk_wrapper_library.Tcp.Stack.{TcpStack, ConnId}

-- Bursts alone, and the frames that they put on the wire
abbrev pub burst_frames : List (List Mbuf) → ℕ
burst_frames [] = 0
burst_frames (ms ∷ bs) = length ms + burst_frames bs

abbrev pub sends : List (List Mbuf) → List Effect
sends [] = []
sends (ms ∷ bs) = transmits ms ∷ sends bs

-- The loop only transmits, at most one frame in all, and leaves the slots alone.
pub record FinSent (s s' : Sender) : Type 0 where
  pub bursts : List (List Mbuf)
  pub trace : s'.trace ≡ s.trace ++ sends bursts
  pub once : burst_frames bursts ≤ 1
  pub slots : s'.slots ≡ s.slots

-- A burst in front of the rest of the loop
FinSent-after :
    (d : Dpdk) (m : Mbuf) (s s' : Sender)
    → FinSent (send_burst d (m ∷ []) s).1 s'
    → d.tx_burst s.world.bursts 1 ≡ 0
    → FinSent s s'
unfolding send_burst
FinSent-after d m s s' r none_taken = record {
  bursts = take (d.tx_burst s.world.bursts 1) (m ∷ []) ∷ r.bursts;
  trace = r.trace ∙ append_assoc s.trace _ _;
  once = rw none_taken (omega (arith, r.once));
  slots = r.slots;
}

module _ (d : Dpdk) (st : TcpStack) (c : TcpConnection) (bounded : TxBounded d) where
  pub send_fin-FinSent :
      (attempts : ℕ) (fin : Option Mbuf) (s : Sender) → FinSent s (send_fin d st c attempts fin s)
  unfolding send_fin send_burst
  send_fin-FinSent zero fin s = record {
    bursts = [];
    trace = sym (append-nil s.trace);
    once = omega arith;
    slots = refl;
  }
  send_fin-FinSent (suc attempts) fin s =
      let w = (fin_packet d st c fin s.world).1 in
      let s₁ : Sender = record s { world = w } in
      elim (Option-cases (fin_packet d st c fin s.world).0) [
        | inl no_packet ↦
            let r = send_fin-FinSent attempts none s₁ in
            rw (send_fin, no_packet)
              (record { bursts = r.bursts; trace = r.trace; once = r.once; slots = r.slots })
        | inr (m, got) ↦
            let sent = d.tx_burst w.bursts 1 in
            elim (Bool-cases (sent == 1)) [
              | inl gone ↦
                  rw (send_fin, got, gone)
                    (record {
                      bursts = take sent (m ∷ []) ∷ [];
                      trace = refl;
                      once = omega (arith, length-take sent (m ∷ []));
                      slots = refl;
                    })
              | inr refused ↦
                  let r = send_fin-FinSent attempts (some m) (send_burst d (m ∷ []) s₁).1 in
                  let f = FinSent-after d m s₁ _ r (ground (arith, bounded w.bursts 1)) in
                  rw (send_fin, got, refused)
                    (record { bursts = f.bursts; trace = f.trace; once = f.once; slots = f.slots })
            ]
      ]

append_two :
    (xs : List Effect) (a b : Effect) (ys zs : List Effect)
    → (((xs ++ a ∷ []) ++ b ∷ []) ++ ys) ++ zs ≡ xs ++ a ∷ b ∷ (ys ++ zs)
append_two [] a b ys zs = refl
append_two (x ∷ xs) a b ys zs = ap (◌∷◌ x) (append_two xs a b ys zs)

-- What `close` makes visible on a connection whose FIN is still to be sent: `snd_nxt` behind the
-- FIN, the flag of the FIN, bursts with at most one frame in all, and last the release of the slot.
abbrev pub Announces : TcpConnection → List Effect → List (List Mbuf) → List Effect → Type 0
Announces c before bursts trace =
    (trace
      ≡ before
        ++ stores_snd_nxt (u32 (c.snd_nxt + 1))
          ∷ stores_out_flags (bit_or c.out_flags out_fin_sent)
          ∷ (sends bursts
              ++ stores_out_flags (bit_or (bit_or c.out_flags out_fin_sent) out_released) ∷ []))
    × (burst_frames bursts ≤ 1)

-- On a connection that still can send, `close` first stores `snd_nxt` behind the FIN, then the flag
-- that the FIN is sent, then transmits at most one frame, and releases the slot at the end, however
-- many of its attempts fail, provided the driver takes no more packets than it is offered.
pub close-Announces :
    (d : Dpdk) (st : TcpStack) (conn : ConnId) (s : Sender) (c : TcpConnection)
    → TxBounded d
    → lookup st s conn ≡ some c
    → not (has_bits c.out_flags out_fin_sent) && c.terminated == 0 ≡ true
    → (bursts : List (List Mbuf)) × Announces c s.trace bursts (close d st conn s).trace
unfolding close close_open store_snd_nxt store_out_flags
close-Announces d st conn s c bounded found sending =
    let flagged =
      store_out_flags conn (bit_or c.out_flags out_fin_sent)
        (store_snd_nxt conn (u32 (c.snd_nxt + 1)) s) in
    let r = send_fin-FinSent d st c bounded close_retries none flagged in
    rw (found, sending)
      (
        r.bursts,
        (
          ap
                (λ (es : List Effect).
                  es
                  ++ stores_out_flags (bit_or (bit_or c.out_flags out_fin_sent) out_released) ∷ [])
                r.trace
              ∙ append_two s.trace _ _ (sends r.bursts) _,
          r.once,
        ),
      )
