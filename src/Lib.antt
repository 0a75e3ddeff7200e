-- ===== src/Lib.antt =====
-- Verification of the DPDK wrapper library: its TCP termination, ARP, header builders and queue
-- claims, as functions, with proofs.
--
-- The program. A gateway has two threads and no locks. The inbound thread owns an rx queue and a
-- control tx queue, and hands every received burst to tcp_receiver::poll, which answers ARP, runs
-- the TCP state machine, sends SYN-ACK, ACK and RST, and returns events. The outbound thread owns a
-- data tx queue and calls tcp_sender::send and close. They share the connection slots, each field
-- of which has one writer.
--
-- The files.
--   Base         native numbers, lists, words and their lemmas.
--   Packet       include/packet.h, src/packet.cpp, src/packet_pool.cpp: an mbuf is its bytes and its
--                tailroom. `Dpdk` is what the library asks of DPDK: allocations, how many packets a
--                tx burst takes, random numbers, checksum helpers. `World` counts the calls.
--   Headers      src/ethernet_header.cpp, src/ipv4_header.cpp, src/udp_header.cpp,
--                src/tcp_header.cpp.
--   Probe        linear probing over a power of two, shared by the two hash tables.
--   Arp          src/arp.cpp: neighbor_table, handle_arp, build_arp_request. Arp.Table has the
--                invariant of the table, Arp.Merge what a frame does to it.
--   Port         src/port.cpp: claim_next and claim_by_id. Port.Device: the constructor, the moves, the
--                assignment and the destructor of a port.
--   Tcp.Connection, Tcp.FlowTable, Tcp.Options, Tcp.Segment, Tcp.Stack
--                src/tcp_connection.h and the first part of src/tcp_stack.cpp.
--   Tcp.Receiver tcp_receiver::impl of src/tcp_stack.cpp. State holds the fields and the operations
--                on a slot, Replies the control segments and open, Ack, Data and Dispatch the state
--                machine, Frame the way from a frame to a segment, Poll the whole call.
--   Tcp.Sender   tcp_sender of src/tcp_stack.cpp. Its state keeps a trace of the stores and of the
--                frames that the other side can see.
--   Tcp.Samples  a driver, a stack and a connection that the tests run on. Tcp.Sums has the checksums
--                of RFC 1071 for that driver.
--   Echo         examples/tcp_echo_server.h: Ring is spsc_ring, Inbound and Outbound the two threads,
--                Setup the constructor; Streams, Server, Rounds and Progress put the threads
--                together.
--   Runtime      include/runtime.h, src/runtime.cpp: Args has build_eal_args, and in Reader a reader
--                of its own for what it prints; Life has the life cycle and the ports.
--   Burst        src/packet.cpp, src/packet_burst.cpp, src/rx_queue.cpp, src/tx_queue.cpp: who owns
--                an mbuf.
--   Tap          src/tap_interface.cpp.
--
-- State. A function that changes state takes the state and returns the new one. An atomic is the
-- value that it holds; the steps of the two threads do not interleave inside a call of the library.
-- The echo server's ring is the exception: there every access is a step of its own, in any order of
-- the two threads. A null pointer or an empty packet is `none`, an exception is an error value. An
-- mbuf's payload span is the list of its bytes.
--
-- Fuel. The loop of send has one unit more than there are bytes to send, as every round that goes
-- on sends a byte at least. The scan of the options has one more than there are bytes, the probes
-- of the hash tables have the number of slots, and claim_next has the number of queues. close has
-- the program's own bound of 2^20 attempts.
--
-- What a component asks of DPDK or of the kernel is a trace of calls, and the answers are a
-- parameter that may depend on all the calls before. A sequence of operations on objects that live,
-- move and die is an indexed data type (`Lives`), one constructor for each operation.
--
-- Not modelled: the lifetimes of pools, which shared pointers govern, port::mac_address and the
-- calls that only forward a burst to a queue, the pinning of threads, the other examples, tests and
-- benchmarks. Memory order is not modelled beyond the order of the stores in a call.
pub mod Base
pub mod Packet
pub mod Headers
pub mod Probe
pub mod Arp
pub mod Tcp
pub mod Port
pub mod Echo
pub mod Runtime
pub mod Burst
pub mod Tap
