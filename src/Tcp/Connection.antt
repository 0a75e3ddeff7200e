-- ===== src/Tcp/Connection.antt =====
-- src/tcp_connection.h: sequence arithmetic, the packed window, and one connection slot.
pub mod Sequence
pub mod Window
use dpdk_wrapper_library.Base.{
  ℕ, ◌*◌, ◌/◌, ◌^◌, Bool, true, false, not, bit_or, ltb, leb, ◌==◌, if◌then◌else◌, ◌&&◌, u32, sub32,
  has_bits, ◌+◌, ◌-◌,
}
use dpdk_wrapper_library.Packet.{EtherAddr}

pub data TcpState : Type 0 where
  free syn_received established close_wait last_ack fin_wait_1 fin_wait_2 closing closed : TcpState

abbrev pub out_fin_sent : ℕ
out_fin_sent = 1

abbrev pub out_released : ℕ
out_released = 2

-- `static_cast<int32_t>(a - b) < 0`: the sign bit of the difference
unfoldable pub seq_lt : ℕ → ℕ → Bool
seq_lt a b = leb (2 ^ 31) (sub32 a b)

unfoldable pub seq_leq : ℕ → ℕ → Bool
seq_leq a b = if leb (2 ^ 31) (sub32 a b) then true else sub32 a b == 0

unfoldable pub seq_gt : ℕ → ℕ → Bool
unfolding seq_lt
seq_gt a b = seq_lt b a

unfoldable pub seq_geq : ℕ → ℕ → Bool
unfolding seq_leq
seq_geq a b = seq_leq b a

unfoldable pub pack_window : ℕ → ℕ → ℕ
pack_window una wnd = bit_or (una * 2 ^ 32) wnd

unfoldable pub window_una : ℕ → ℕ
window_una w = u32 (w / 2 ^ 32)

unfoldable pub window_size : ℕ → ℕ
window_size w = u32 w

-- Bytes the peer's window still has room for.
unfoldable pub window_space : ℕ → ℕ → ℕ
unfolding window_una window_size
window_space window snd_nxt =
    let space = sub32 (u32 (window_una window + window_size window)) snd_nxt in
    if ltb 0 space && ltb space (2 ^ 31) then space else 0

-- An atomic is the value that it holds.
pub record TcpConnection : Type 0 where
  pub peer_ip : ℕ
  pub peer_port : ℕ
  pub local_port : ℕ
  pub peer_mac : EtherAddr
  pub send_mss : ℕ
  pub iss : ℕ
  pub state : TcpState
  pub irs : ℕ
  pub rcv_nxt_local : ℕ
  pub snd_una : ℕ
  pub snd_wnd : ℕ
  pub snd_wl1 : ℕ
  pub snd_wl2 : ℕ
  pub ack_pending : Bool
  pub finalize_pending : Bool
  pub generation : ℕ
  pub rcv_nxt : ℕ
  pub send_window : ℕ
  pub terminated : ℕ
  pub snd_nxt : ℕ
  pub out_flags : ℕ

abbrev pub fresh_connection : TcpConnection
fresh_connection = record {
  peer_ip = 0;
  peer_port = 0;
  local_port = 0;
  peer_mac = record { b0 = 0; b1 = 0; b2 = 0; b3 = 0; b4 = 0; b5 = 0 };
  send_mss = 0;
  iss = 0;
  state = TcpState.free;
  irs = 0;
  rcv_nxt_local = 0;
  snd_una = 0;
  snd_wnd = 0;
  snd_wl1 = 0;
  snd_wl2 = 0;
  ack_pending = false;
  finalize_pending = false;
  generation = 0;
  rcv_nxt = 0;
  send_window = 0;
  terminated = 0;
  snd_nxt = 0;
  out_flags = 0;
}
