-- ===== src/Tcp/Sender/State.antt =====
-- `tcp_sender` of src/tcp_stack.cpp: its state, `lookup`, `sendable` and `send_space`.
-- No step of the inbound thread falls inside a call, so a second load of `generation` sees the first.
use dpdk_wrapper_library.Base.{
  ℕ, ◌<◌, ◌≡◌, arith, dec_lt, List, [], ◌∷◌, ◌++◌, Option, none, some, Bool, true, false, not, ◌&&◌,
  ◌||◌, leb, ◌==◌, if◌then◌else◌, has_bits, get_or, set,
}
use dpdk_wrapper_library.Packet.{Mbuf, World}
use dpdk_wrapper_library.Tcp.Connection.{
  TcpConnection, fresh_connection, out_fin_sent, out_released, window_space,
}
use dpdk_wrapper_library.Tcp.Segment.{SegmentAddr}
use dpdk_wrapper_library.Tcp.Stack.{TcpStack, ConnId}

-- What the other thread and the peer can see of a call, in the order of the stores and of the
-- frames that the NIC takes.
pub data Effect : Type 0 where
  stores_snd_nxt : ℕ → Effect
  stores_out_flags : ℕ → Effect
  transmits : List Mbuf → Effect

-- `slots` are the stack's.
pub record Sender : Type 0 where
  pub slots : List TcpConnection
  pub world : World
  pub trace : List Effect

abbrev pub conn_slot : Sender → ConnId → TcpConnection
conn_slot s conn = get_or s.slots conn.slot fresh_connection

unfoldable pub store_snd_nxt : ConnId → ℕ → Sender → Sender
store_snd_nxt conn v s = record s {
  slots = set s.slots conn.slot (record (conn_slot s conn) { snd_nxt = v });
  trace = s.trace ++ stores_snd_nxt v ∷ [];
}

unfoldable pub store_out_flags : ConnId → ℕ → Sender → Sender
store_out_flags conn v s = record s {
  slots = set s.slots conn.slot (record (conn_slot s conn) { out_flags = v });
  trace = s.trace ++ stores_out_flags v ∷ [];
}

unfoldable pub lookup : TcpStack → Sender → ConnId → Option TcpConnection
lookup st s conn =
    let c = conn_slot s conn in
    if leb st.params.max_connections conn.slot
    then none
    else if not (c.generation == conn.generation)
    then none
    else if not (c.generation == conn.generation) || has_bits c.out_flags out_released
    then none
    else some c

can_send : Option TcpConnection → Bool
can_send none = false
can_send (some c) = not (has_bits c.out_flags out_fin_sent) && c.terminated == 0

unfoldable pub sendable : TcpStack → Sender → ConnId → Bool
unfolding can_send
sendable st s conn = can_send (lookup st s conn)

-- `sendable` looks no slot up behind the last.
pub sendable-live :
    (st : TcpStack) (s : Sender) (conn : ConnId)
    → sendable st s conn ≡ true
    → conn.slot < st.params.max_connections
unfolding sendable lookup can_send
sendable-live st s conn h = elim (dec_lt conn.slot st.params.max_connections) [
  | yes inside ↦ inside
  | no outside ↦ absurd (ground arith)
]

unfoldable pub send_space : TcpStack → Sender → ConnId → ℕ
send_space st s conn =
    if not (sendable st s conn)
    then 0
    else let c = conn_slot s conn in window_space c.send_window c.snd_nxt

unfoldable pub data_addr : TcpStack → TcpConnection → SegmentAddr
data_addr st c = record {
  src_mac = st.local_mac;
  dst_mac = c.peer_mac;
  src_ip = st.local_ip;
  dst_ip = c.peer_ip;
  src_port = c.local_port;
  dst_port = c.peer_port;
}
