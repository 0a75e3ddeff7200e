-- ===== src/Tcp/Sender/Close/Release.antt =====
-- After `close` the handle is refused.
use dpdk_wrapper_library.Base.{
  ℕ, zero, suc, ◌+◌, ◌≤◌, ◌<◌, ◌≡◌, refl, ◌∙◌, ap, Option, none, some, true, false, not, ◌&&◌, leb,
  ◌==◌, arith, inl, inr, Bool-cases, Option-cases, u32, has_bits, bit_or, length, length-set,
  get_or-set_self,
}
use dpdk_wrapper_library.Packet.{Dpdk}
use dpdk_wrapper_library.Tcp.Connection.{
  TcpConnection, fresh_connection, out_fin_sent, out_released,
}
use dpdk_wrapper_library.Tcp.Sender.Close.Order.{send_fin-FinSent}
use dpdk_wrapper_library.Tcp.Sender.Close.{close, close_found, close_open, close_retries}
use dpdk_wrapper_library.Tcp.Sender.Send.Prefix.{TxBounded}
use dpdk_wrapper_library.Tcp.Sender.State.{
  Sender, conn_slot, lookup, sendable, store_snd_nxt, store_out_flags,
}
use dpdk_wrapper_library.Tcp.Stack.{TcpStack, ConnId}

-- The flags are two bits wide.
released_bit : (n : ℕ) → n < 4 → has_bits (bit_or n out_released) out_released ≡ true
unfolding has_bits
released_bit zero h = refl
released_bit (suc zero) h = refl
released_bit (suc (suc zero)) h = refl
released_bit (suc (suc (suc zero))) h = refl
released_bit (suc (suc (suc (suc n)))) h = absurd (omega arith)

sent_bit : (n : ℕ) → n < 4 → bit_or n out_fin_sent < 4
sent_bit zero h = omega arith
sent_bit (suc zero) h = omega arith
sent_bit (suc (suc zero)) h = omega arith
sent_bit (suc (suc (suc zero))) h = omega arith
sent_bit (suc (suc (suc (suc n)))) h = absurd (omega arith)

none-not-some : (c : TcpConnection) → none ≡ some c → ⊥
none-not-some c e = cc

some-injective : (c k : TcpConnection) → some k ≡ some c → c ≡ k
some-injective c k e = cc

module _ (st : TcpStack) (conn : ConnId) where
  -- A handle whose slot is released is refused.
  store_out_flags-lookup :
      (v : ℕ) (s : Sender)
      → conn.slot < length s.slots
      → has_bits v out_released ≡ true
      → lookup st (store_out_flags conn v s) conn ≡ none
  unfolding store_out_flags lookup
  store_out_flags-lookup v s live out =
      let now : conn_slot (store_out_flags conn v s) conn
          ≡ record (conn_slot s conn) { out_flags = v } =
        get_or-set_self s.slots conn.slot _ fresh_connection live in
      rw (now, out) (ground arith)

  -- What a lookup that succeeds says
  lookup-found :
      (s : Sender) (c : TcpConnection)
      → lookup st s conn ≡ some c
      → (c ≡ conn_slot s conn) × (conn.slot < st.params.max_connections)
  unfolding lookup
  lookup-found s c found =
      let k = conn_slot s conn in
      elim (Bool-cases (leb st.params.max_connections conn.slot)) [
        | inl out ↦ absurd (none-not-some c (rw out at found))
        | inr inside ↦ elim (Bool-cases (k.generation == conn.generation)) [
          | inr stale ↦ absurd (none-not-some c (rw (inside, stale) at found))
          | inl same ↦ elim (Bool-cases (has_bits k.out_flags out_released)) [
            | inl gone ↦ absurd (none-not-some c (rw (inside, same, gone) at found))
            | inr kept ↦ (some-injective c k (rw (inside, same, kept) at found), ground arith)
          ]
        ]
      ]

refused :
    (st : TcpStack) (conn : ConnId) (s : Sender)
    → lookup st s conn ≡ none
    → (lookup st s conn ≡ none) × (sendable st s conn ≡ false)
unfolding sendable
refused st conn s e = (e, rw e refl)

length-flagged :
    (conn : ConnId) (flags v : ℕ) (s : Sender)
    → length (store_out_flags conn flags (store_snd_nxt conn v s)).slots ≡ length s.slots
unfolding store_out_flags store_snd_nxt
length-flagged conn flags v s =
    length-set (store_snd_nxt conn v s).slots conn.slot _ ∙ length-set s.slots conn.slot _

close-lookup :
    (d : Dpdk) (st : TcpStack) (conn : ConnId) (s : Sender)
    → TxBounded d
    → st.params.max_connections ≤ length s.slots
    → (conn_slot s conn).out_flags < 4
    → lookup st (close d st conn s) conn ≡ none
unfolding close close_found close_open
close-lookup d st conn s bounded whole flags = elim (Option-cases (lookup st s conn)) [
  | inl unknown ↦
      ap (λ (o : Option TcpConnection). lookup st (close_found d st conn o s) conn) unknown
      ∙ unknown
  | inr (c, found) ↦
      let (same, inside) = lookup-found st conn s c found in
      let live : conn.slot < length s.slots = omega (arith, inside, whole) in
      let two : c.out_flags < 4 = rw same flags in
      elim (Bool-cases (not (has_bits c.out_flags out_fin_sent) && c.terminated == 0)) [
        | inr ended ↦
            rw (found, ended)
              (store_out_flags-lookup st conn (bit_or c.out_flags out_released) s live
                (released_bit c.out_flags two))
        | inl sending ↦
            let flags' = bit_or c.out_flags out_fin_sent in
            let flagged =
              store_out_flags conn flags' (store_snd_nxt conn (u32 (c.snd_nxt + 1)) s) in
            let r = send_fin-FinSent d st c bounded close_retries none flagged in
            rw (found, sending)
              (store_out_flags-lookup st conn (bit_or flags' out_released) _
                (rw (r.slots, length-flagged conn flags' (u32 (c.snd_nxt + 1)) s) live)
                (released_bit flags' (sent_bit c.out_flags two)))
      ]
]

-- Once `close` returns, the handle is refused, whether it was open, only released, stale or unknown
-- before: in a stack that has all its slots, with flags of two bits, and with a driver that takes no
-- more packets than it is offered.
pub close-refuses :
    (d : Dpdk) (st : TcpStack) (conn : ConnId) (s : Sender)
    → TxBounded d
    → st.params.max_connections ≤ length s.slots
    → (conn_slot s conn).out_flags < 4
    → (lookup st (close d st conn s) conn ≡ none) × (sendable st (close d st conn s) conn ≡ false)
close-refuses d st conn s bounded whole flags =
    refused st conn (close d st conn s) (close-lookup d st conn s bounded whole flags)
