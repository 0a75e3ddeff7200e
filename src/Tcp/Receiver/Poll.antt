-- ===== src/Tcp/Receiver/Poll.antt =====
-- `tcp_receiver::poll` of src/tcp_stack.cpp and the passes around its loop over the burst.
pub mod Growth
pub mod Bounds
use dpdk_wrapper_library.Base.{
  ℕ, zero, suc, ◌+◌, ◌-◌, List, [], ◌∷◌, ◌++◌, Bool, true, false, not, leb, ◌==◌, if◌then◌else◌,
  u64, has_bits, length, get_or, set, take,
}
use dpdk_wrapper_library.Packet.{Mbuf, Dpdk}
use dpdk_wrapper_library.Tcp.Connection.{TcpConnection, out_released}
use dpdk_wrapper_library.Tcp.FlowTable
use dpdk_wrapper_library.Tcp.Receiver.Frame.{process}
use dpdk_wrapper_library.Tcp.Receiver.Replies.{reply_addr, queue_segment, flow_key}
use dpdk_wrapper_library.Tcp.Receiver.State.{Receiver, slot, modify, count, release_slot}
use dpdk_wrapper_library.Tcp.Segment.{Content, ack_flag}
use dpdk_wrapper_library.Tcp.Stack.{TcpStack, TcpEvent}

-- `xs[i] = xs.back(); xs.pop_back()`
unfoldable pub swap_remove : ℕ → List ℕ → List ℕ
swap_remove i xs = let n = length xs - 1 in take n (set xs i (get_or xs n 0))

unfoldable pub is_released : Receiver → ℕ → Bool
is_released r idx = has_bits (slot r idx).out_flags out_released

-- A round for each entry: the entry goes, or the index moves on.
unfoldable pub reap : ℕ → ℕ → Receiver → Receiver
reap zero i r = r
reap (suc rounds) i r =
    let idx = get_or r.awaiting_release i 0 in
    let gone = is_released r idx in
    let rest = reap rounds (if gone then i else i + 1) (
      if gone
      then record (release_slot idx r) { awaiting_release = swap_remove i r.awaiting_release }
      else r) in
    if leb (length r.awaiting_release) i then r else rest

unfoldable pub reap_released : Receiver → Receiver
reap_released r = reap (length r.awaiting_release) 0 r

unfoldable pub ack_content : TcpStack → TcpConnection → Content
ack_content st c = record {
  seq = c.snd_nxt;
  ack = c.rcv_nxt_local;
  flags = ack_flag;
  window = st.params.receive_window;
  payload = [];
  mss_option = 0;
}

unfoldable pub flush_ack : Dpdk → TcpStack → ℕ → Receiver → Receiver
flush_ack d st idx r =
    let c = slot r idx in
    if not c.ack_pending
    then r
    else queue_segment d (reply_addr st c) (ack_content st c)
        (modify idx (λ c'. record c' { ack_pending = false }) r)

unfoldable pub flush_each : Dpdk → TcpStack → List ℕ → Receiver → Receiver
flush_each d st [] r = r
flush_each d st (idx ∷ rest) r = flush_each d st rest (flush_ack d st idx r)

unfoldable pub flush_acks : Dpdk → TcpStack → Receiver → Receiver
flush_acks d st r = record (flush_each d st r.ack_list r) { ack_list = [] }

unfoldable pub flush_control : Dpdk → Receiver → Receiver
flush_control d r =
    let n = length r.control in
    let sent = d.tx_burst r.world.bursts n in
    if n == 0
    then r
    else record (count
        (λ s. record s { control_tx_dropped = u64 (s.control_tx_dropped + (n - sent)) }) r) {
          control = [];
          world = record (r.world) { bursts = r.world.bursts + 1 };
        }

unfoldable pub finalize_slot : ℕ → Receiver → Receiver
finalize_slot idx r =
    let cleared = modify idx (λ c. record c { finalize_pending = false }) r in
    let erased = record cleared {
      flows = FlowTable.erase cleared.flows (flow_key (slot cleared idx));
    } in
    if is_released erased idx
    then release_slot idx erased
    else record erased { awaiting_release = erased.awaiting_release ++ idx ∷ [] }

unfoldable pub finalize_each : List ℕ → Receiver → Receiver
finalize_each [] r = r
finalize_each (idx ∷ rest) r = finalize_each rest (finalize_slot idx r)

unfoldable pub finalize : Receiver → Receiver
finalize r = record (finalize_each r.finalize_list r) { finalize_list = [] }

unfoldable pub process_each : Dpdk → TcpStack → List Mbuf → Receiver → Receiver
process_each d st [] r = r
process_each d st (pkt ∷ burst) r = process_each d st burst (process d st pkt r)

-- The events of the result are what `poll` returns.
unfoldable pub poll : Dpdk → TcpStack → List Mbuf → Receiver → Receiver
poll d st burst r = finalize (
    flush_control d
      (flush_acks d st (process_each d st burst (reap_released (record r { events = [] })))))
