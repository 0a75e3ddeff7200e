-- ===== src/Tcp/Samples.antt =====
-- A driver, a stack and a connection that the tests run on.
use dpdk_wrapper_library.Base.{◌+◌, ◌*◌, ◌^◌, [], ◌∷◌, some, true, replicate}
use dpdk_wrapper_library.Packet.{EtherAddr, Dpdk}
use dpdk_wrapper_library.Tcp.Connection.{TcpState, TcpConnection, fresh_connection}
use dpdk_wrapper_library.Tcp.Receiver.State.{Receiver}
use dpdk_wrapper_library.Tcp.Sender.State.{Sender}
use dpdk_wrapper_library.Tcp.Stack.{TcpStack, ConnId, zero_stats}

abbrev pub zero_mac : EtherAddr
zero_mac = record { b0 = 0; b1 = 0; b2 = 0; b3 = 0; b4 = 0; b5 = 0 }

-- A driver that takes every packet, and a pool that is never empty
abbrev pub driver : Dpdk
driver = record {
  alloc = λ _. some (replicate 64 0);
  tx_burst = λ _ n. n;
  rand = λ _. 7;
  ipv4_cksum = λ _. 0;
  udptcp_cksum = λ _ _. 0;
  phdr_cksum = λ _. 0;
  raw_cksum = λ _ _. 0;
  raw_cksum_reduce = λ _. 0xffff;
}

abbrev pub stack : TcpStack
stack = record {
  local_mac = zero_mac;
  local_ip = 0x0a000001;
  mss = 1460;
  params = record {
    max_connections = 1;
    mss = 1460;
    receive_window = 65535;
    verify_checksums = true;
  };
  listening = 80 ∷ [];
  receiver_taken = true;
  sender_taken = true;
}

-- 105 is expected next; 1000 to 1009 are sent, and the peer's window has 100 bytes from 1000 on.
abbrev pub connection : TcpConnection
connection = record fresh_connection {
  state = TcpState.established;
  generation = 1;
  send_mss = 4;
  rcv_nxt_local = 105;
  rcv_nxt = 105;
  snd_una = 1000;
  snd_wnd = 100;
  snd_nxt = 1010;
  send_window = 1000 * 2 ^ 32 + 100;
}

abbrev pub sender : Sender
sender = record {
  slots = connection ∷ [];
  world = record { allocs = 0; bursts = 0; rands = 0 };
  trace = [];
}

abbrev pub handle : ConnId
handle = record { slot = 0; generation = 1 }

abbrev pub receiver : Receiver
receiver = record {
  slots = connection ∷ [];
  neighbors = record { slots = []; mask = 0; capacity = 0; size = 0 };
  flows = record { entries = []; mask = 0 };
  stats = zero_stats;
  free_slots = [];
  awaiting_release = [];
  ack_list = [];
  finalize_list = [];
  control = [];
  events = [];
  world = record { allocs = 0; bursts = 0; rands = 0 };
}
