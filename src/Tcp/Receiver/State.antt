-- ===== src/Tcp/Receiver/State.antt =====
-- `tcp_receiver::impl` of src/tcp_stack.cpp: its state, and the small operations on a slot.
pub mod Slots
use dpdk_wrapper_library.Arp.{NeighborTable, new_table}
use dpdk_wrapper_library.Base.{
  ℕ, zero, suc, ◌+◌, ◌*◌, List, [], ◌∷◌, ◌++◌, Option, none, some, Bool, true, false, ◌==◌,
  if◌then◌else◌, u64, length, get_or, set,
}
use dpdk_wrapper_library.Packet.{Mbuf, World}
use dpdk_wrapper_library.Tcp.Connection.{TcpState, TcpConnection, fresh_connection}
use dpdk_wrapper_library.Tcp.FlowTable.{FlowTable}
use dpdk_wrapper_library.Tcp.FlowTable
use dpdk_wrapper_library.Tcp.Stack.{TcpStack, TcpStats, zero_stats, TcpEvent, TcpEventType, reset}

-- packet_burst::max_size
abbrev pub max_burst : ℕ
max_burst = 32

abbrev pub max_control : ℕ
max_control = 2 * max_burst

-- `slots` are the stack's, and `events` are those of the poll under way. The back of the vector
-- `free_slots` is the head of its list; the other vectors are in order.
pub record Receiver : Type 0 where
  pub slots : List TcpConnection
  pub neighbors : NeighborTable
  pub flows : FlowTable
  pub stats : TcpStats
  pub free_slots : List ℕ
  pub awaiting_release : List ℕ
  pub ack_list : List ℕ
  pub finalize_list : List ℕ
  pub control : List Mbuf
  pub events : List TcpEvent
  pub world : World

abbrev pub count_up : ℕ → ℕ → List ℕ
count_up zero i = []
count_up (suc n) i = i ∷ count_up n (i + 1)

-- The constructor: slot 0 is handed out first.
unfoldable pub new_receiver : TcpStack → List TcpConnection → Receiver
new_receiver st slots = record {
  slots = slots;
  neighbors = new_table 256;
  flows = FlowTable.new st.params.max_connections;
  stats = zero_stats;
  free_slots = count_up st.params.max_connections 0;
  awaiting_release = [];
  ack_list = [];
  finalize_list = [];
  control = [];
  events = [];
  world = record { allocs = 0; bursts = 0; rands = 0 };
}

abbrev pub slot : Receiver → ℕ → TcpConnection
slot r i = get_or r.slots i fresh_connection

-- A store through `tcp_connection &c = slot(i)`.
abbrev pub modify : ℕ → (TcpConnection → TcpConnection) → Receiver → Receiver
modify i f r = record r { slots = set r.slots i (f (slot r i)) }

abbrev pub count : (TcpStats → TcpStats) → Receiver → Receiver
count f r = record r { stats = f r.stats }

unfoldable pub make_event : TcpEventType → ℕ → List ℕ → Receiver → TcpEvent
make_event kind idx bytes r =
    let c = slot r idx in
    record {
      kind = kind;
      conn = record { slot = idx; generation = c.generation };
      bytes = bytes;
      peer_addr = c.peer_ip;
      peer_port = c.peer_port;
      local_port = c.local_port;
    }

unfoldable pub push_event : TcpEventType → ℕ → List ℕ → Receiver → Receiver
push_event kind idx bytes r = record r { events = r.events ++ make_event kind idx bytes r ∷ [] }

drop_control : Receiver → Receiver
drop_control = count λ s. record s { control_tx_dropped = u64 (s.control_tx_dropped + 1) }

unfoldable pub queue_control : Option Mbuf → Receiver → Receiver
unfolding drop_control
queue_control none r = drop_control r
queue_control (some pkt) r =
    if length r.control == max_control
    then drop_control r
    else record r { control = r.control ++ pkt ∷ [] }

unfoldable pub queue_ack : ℕ → Receiver → Receiver
queue_ack idx r =
    if (slot r idx).ack_pending
    then r
    else record (modify idx (λ c. record c { ack_pending = true }) r) {
      ack_list = r.ack_list ++ idx ∷ [];
    }

unfoldable pub schedule_finalize : ℕ → Receiver → Receiver
schedule_finalize idx r =
    if (slot r idx).finalize_pending
    then r
    else record (modify idx (λ c. record c { finalize_pending = true }) r) {
      finalize_list = r.finalize_list ++ idx ∷ [];
    }

-- An ACK is never sent into a reset connection.
unfoldable pub close_state : TcpEventType → TcpConnection → TcpConnection
close_state reset c = record c { state = TcpState.closed; terminated = 1; ack_pending = false }
close_state why c = record c { state = TcpState.closed; terminated = 1 }

unfoldable pub terminate : ℕ → TcpEventType → Receiver → Receiver
terminate idx why r = schedule_finalize idx (push_event why idx [] (modify idx (close_state why) r))

unfoldable pub free_slot : TcpConnection → TcpConnection
free_slot c = record c { state = TcpState.free; ack_pending = false; finalize_pending = false }

unfoldable pub release_slot : ℕ → Receiver → Receiver
release_slot idx r = record (modify idx free_slot r) { free_slots = idx ∷ r.free_slots }
