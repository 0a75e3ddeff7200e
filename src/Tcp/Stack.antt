-- ===== src/Tcp/Stack.antt =====
-- `tcp_params`, `tcp_stats`, the events, and the setup-time object `tcp_stack` of
-- include/tcp_stack.h and src/tcp_stack.cpp.
pub mod Listening
use dpdk_wrapper_library.Base.{
  ℕ, ◌+◌, ◌-◌, ◌^◌, List, [], ◌∷◌, ◌++◌, Option, none, some, Bool, true, false, min, ◌==◌, ◌||◌,
  if◌then◌else◌, u16, length, replicate,
}
use dpdk_wrapper_library.Packet.{EtherAddr}
use dpdk_wrapper_library.Tcp.Connection.{TcpConnection, fresh_connection}

pub record TcpParams : Type 0 where
  pub max_connections : ℕ
  pub mss : ℕ
  pub receive_window : ℕ
  pub verify_checksums : Bool

pub record TcpStats : Type 0 where
  pub bad_checksum : ℕ
  pub malformed : ℕ
  pub ip_fragments : ℕ
  pub multi_segment : ℕ
  pub out_of_order : ℕ
  pub no_free_slot : ℕ
  pub rst_received : ℕ
  pub rst_sent : ℕ
  pub control_tx_dropped : ℕ

abbrev pub zero_stats : TcpStats
zero_stats = record {
  bad_checksum = 0;
  malformed = 0;
  ip_fragments = 0;
  multi_segment = 0;
  out_of_order = 0;
  no_free_slot = 0;
  rst_received = 0;
  rst_sent = 0;
  control_tx_dropped = 0;
}

pub record ConnId : Type 0 where
  pub slot : ℕ
  pub generation : ℕ

-- `payload` is the source's `data`.
pub data TcpEventType : Type 0 where
  accepted payload peer_closed closed reset : TcpEventType

pub record TcpEvent : Type 0 where
  pub kind : TcpEventType
  pub conn : ConnId
  pub bytes : List ℕ
  pub peer_addr : ℕ
  pub peer_port : ℕ
  pub local_port : ℕ

abbrev pub max_ports : ℕ
max_ports = 16

-- The slots stand in the receiver's state.
pub record TcpStack : Type 0 where
  pub local_mac : EtherAddr
  pub local_ip : ℕ
  pub mss : ℕ
  pub params : TcpParams
  pub listening : List ℕ
  pub receiver_taken : Bool
  pub sender_taken : Bool

pub data StackError : Type 0 where
  no_ipv4_address no_connections zero_mss too_many_ports : StackError
  receiver_twice null_control_queue sender_twice null_data_queue : StackError

pub data Result {ℓ} (A : Type ℓ) : Type ℓ where
  ok : A → Result A
  err : StackError → Result A

-- What the port reports: rte_eth_dev_get_mtu may fail.
pub record PortInfo : Type 0 where
  pub mac : EtherAddr
  pub ipv4 : Option ℕ
  pub mtu : Option ℕ

abbrev pub ether_mtu : ℕ
ether_mtu = 1500

abbrev mtu_of : Option ℕ → ℕ
mtu_of none = ether_mtu
mtu_of (some mtu) = mtu

-- `mtu - 40` is computed in std::size_t and cast to uint16_t.
unfoldable pub clamped_mss : ℕ → Option ℕ → ℕ
clamped_mss mss mtu = min mss (u16 (mtu_of mtu + 2 ^ 16 - 40))

with_address : PortInfo → TcpParams → ℕ → Result (TcpStack × List TcpConnection)
unfolding clamped_mss
with_address p params ip =
    if params.max_connections == 0
    then err no_connections
    else if clamped_mss params.mss p.mtu == 0
    then err zero_mss
    else ok (
      record {
        local_mac = p.mac;
        local_ip = ip;
        mss = clamped_mss params.mss p.mtu;
        params = params;
        listening = [];
        receiver_taken = false;
        sender_taken = false;
      },
      replicate params.max_connections fresh_connection,
    )

-- The constructor, with the slots that it allocates.
unfoldable pub new_stack : PortInfo → TcpParams → Result (TcpStack × List TcpConnection)
unfolding with_address
new_stack p params = elim p.ipv4 [ none ↦ err no_ipv4_address | some ip ↦ with_address p params ip ]

unfoldable pub contains : List ℕ → ℕ → Bool
contains [] p = false
contains (q ∷ qs) p = q == p || contains qs p

unfoldable pub listen : TcpStack → ℕ → Result TcpStack
unfolding contains
listen s p =
    if contains s.listening p
    then ok s
    else if length s.listening == max_ports
    then err too_many_ports
    else ok (record s { listening = s.listening ++ p ∷ [] })

-- The queue is a shared_ptr, here whether it is non-null.
unfoldable pub take_receiver : TcpStack → Bool → Result TcpStack
take_receiver s queue =
    if s.receiver_taken
    then err receiver_twice
    else if queue
    then ok (record s { receiver_taken = true })
    else err null_control_queue

unfoldable pub take_sender : TcpStack → Bool → Result TcpStack
take_sender s queue =
    if s.sender_taken
    then err sender_twice
    else if queue
    then ok (record s { sender_taken = true })
    else err null_data_queue
