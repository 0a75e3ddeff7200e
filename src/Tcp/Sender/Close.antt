-- ===== src/Tcp/Sender/Close.antt =====
-- `tcp_sender::close` of src/tcp_stack.cpp.
pub mod Order
pub mod Release
use dpdk_wrapper_library.Base.{
  ℕ, zero, suc, ◌+◌, ◌^◌, List, [], ◌∷◌, ◌++◌, Option, none, some, Bool, true, false, not, ◌&&◌,
  ◌==◌, if◌then◌else◌, u32, has_bits, bit_or, take,
}
use dpdk_wrapper_library.Packet.{Mbuf, Dpdk, World}
use dpdk_wrapper_library.Tcp.Connection.{TcpConnection, out_fin_sent, out_released}
use dpdk_wrapper_library.Tcp.Segment.{Content, build_segment, fin_flag, ack_flag}
use dpdk_wrapper_library.Tcp.Sender.State.{
  Sender, transmits, conn_slot, store_snd_nxt, store_out_flags, lookup, data_addr,
}
use dpdk_wrapper_library.Tcp.Sender.Send.{send_burst}
use dpdk_wrapper_library.Tcp.Stack.{TcpStack, ConnId}

-- kCloseRetries, `1u << 20`
abbrev pub close_retries : ℕ
close_retries = 2 ^ 20

unfoldable pub fin_content : TcpStack → TcpConnection → Content
fin_content st c = record {
  seq = c.snd_nxt;
  ack = c.rcv_nxt;
  flags = bit_or fin_flag ack_flag;
  window = st.params.receive_window;
  payload = [];
  mss_option = 0;
}

-- The FIN of this attempt: the one at hand, or a new one.
unfoldable pub fin_packet :
    Dpdk → TcpStack → TcpConnection → Option Mbuf → World → Option Mbuf × World
fin_packet d st c (some m) w = (some m, w)
fin_packet d st c none w = build_segment d w (data_addr st c) (fin_content st c)

-- The loop over the attempts that are left; `fin` is the packet built before, if any.
unfoldable pub send_fin : Dpdk → TcpStack → TcpConnection → ℕ → Option Mbuf → Sender → Sender
send_fin d st c zero fin s = s
send_fin d st c (suc attempts) fin s =
    let (pkt, w) = fin_packet d st c fin s.world in
    let s₁ = record s { world = w } in
    elim pkt [
      | none ↦ send_fin d st c attempts none s₁
      | some m ↦
          let (sent, s₂) = send_burst d (m ∷ []) s₁ in
          elim (sent == 1) [ true ↦ s₂ | false ↦ send_fin d st c attempts (some m) s₂ ]
    ]

-- `c` is the slot as the call found it, whose `snd_nxt` is the FIN's sequence number.
close_open : Dpdk → TcpStack → ConnId → TcpConnection → Sender → Sender
close_open d st conn c s =
    let counted = store_snd_nxt conn (u32 (c.snd_nxt + 1)) s in
    let flagged = store_out_flags conn (bit_or c.out_flags out_fin_sent) counted in
    send_fin d st c close_retries none flagged

close_found : Dpdk → TcpStack → ConnId → Option TcpConnection → Sender → Sender
unfolding close_open
close_found d st conn none s = s
close_found d st conn (some c) s =
    if not (has_bits c.out_flags out_fin_sent) && c.terminated == 0
    then store_out_flags conn (bit_or (bit_or c.out_flags out_fin_sent) out_released)
        (close_open d st conn c s)
    else store_out_flags conn (bit_or c.out_flags out_released) s

unfoldable pub close : Dpdk → TcpStack → ConnId → Sender → Sender
unfolding close_found
close d st conn s = close_found d st conn (lookup st s conn) s
