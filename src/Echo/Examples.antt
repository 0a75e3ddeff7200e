-- ===== src/Echo/Examples.antt =====
-- One segment's bytes from an event through the ring to the wire.
use dpdk_wrapper_library.Base.{
  true, Bool, ℕ, ◌≡◌, ◌≢◌, refl, ◌≤◌, List, [], ◌∷◌, ◌++◌, none, some, false, arith, length, ◌*◌,
}
use dpdk_wrapper_library.Echo.Inbound.Chunks.{messages}
use dpdk_wrapper_library.Echo.Inbound.Fifo.{Message, Waits, shown}
use dpdk_wrapper_library.Echo.Inbound.{
  WorkItem, Inbound, echoes, handle, enqueue_data, enqueue, put, inbound_round,
}
use dpdk_wrapper_library.Echo.Outbound.Echoed.{Steady, Ready, Echoed, echo_data-Echoed}
use dpdk_wrapper_library.Echo.Outbound.Once.{close_each, close_once-again}
use dpdk_wrapper_library.Echo.Outbound.{Outbound, Round, echo_data, close_once}
use dpdk_wrapper_library.Echo.Ring.Threads.{
  Threads, start, Reaches, starts, reserves, fills, commits, looks, Reaches-fifo,
}
use dpdk_wrapper_library.Echo.Ring.{SpscRing, capacity, reserve, front, commit, fill}
use dpdk_wrapper_library.Echo.Progress.{busy, back, cycles, Serves-cycles}
use dpdk_wrapper_library.Echo.Streams.{all_messages, received, carried}
use dpdk_wrapper_library.Echo.Server.{Serves, handles, new_inbound, Serves-order}
use dpdk_wrapper_library.Tcp.Sender.Close.{close}
use dpdk_wrapper_library.Tcp.Sender.State.{Sender}
use dpdk_wrapper_library.Echo.Rounds.{polled, Queued, inbound_round-Queued}
use dpdk_wrapper_library.Echo.Setup.{Server, Setup, new_server}
use dpdk_wrapper_library.Packet.{Mbuf}
use dpdk_wrapper_library.Port.Device.Owners.{no_port}
use dpdk_wrapper_library.Port.Device.{Port, claim_rx_queue, claim_tx_queue}
use dpdk_wrapper_library.Port.{new_queues, claim_by_id}
use dpdk_wrapper_library.Tcp.Receiver.Poll.Bounds.{IsIdle}
use dpdk_wrapper_library.Tcp.Samples.{receiver, driver, stack, sender}
use dpdk_wrapper_library.Tcp.Stack.{
  new_stack, take_receiver, take_sender, listen, clamped_mss, contains, ConnId, TcpEvent, payload,
}

abbrev handle_one : ConnId
handle_one = record { slot = 0; generation = 1 }

abbrev hello : TcpEvent
hello = record {
  kind = payload;
  conn = handle_one;
  bytes = 104 ∷ 105 ∷ [];
  peer_addr = 1;
  peer_port = 5000;
  local_port = 80;
}

abbrev blank : WorkItem
blank = record { what = echoes; conn = handle_one; len = 0; bytes = [] }

abbrev empty_ring : SpscRing ℕ
empty_ring = record { head = 0; tail = 0; items = λ _. 0 }

abbrev committed : SpscRing ℕ
committed = commit (fill 0 7 empty_ring)

abbrev both_busy : Threads ℕ
both_busy = record { ring = fill 1 8 committed; filling = some 1; looking = some 0 }

-- The producer commits 7, and the consumer looks at it while 8 is on its way.
both_busy-Reaches : Reaches 0 (7 ∷ []) [] both_busy
unfolding start reserve front commit fill
both_busy-Reaches =
    let first : Reaches 0 (7 ∷ []) []
        (record { ring = committed; filling = none; looking = none }) =
      commits 0 (fills 0 7 (reserves 0 starts refl refl) refl) refl in
    looks 0 (fills 1 8 (reserves 1 first refl refl) refl) refl refl

Reaches-fifo_example :
    ((held : List ℕ) × (7 ∷ [] ≡ [] ++ held) × (length held ≤ capacity))
    × ((i j : ℕ) → some 1 ≡ some i → some 0 ≡ some j → i ≢ j)
Reaches-fifo_example = Reaches-fifo both_busy-Reaches

abbrev one_event : Inbound
one_event = handle (9 ∷ []) hello (new_inbound blank)

one_event-Serves : Serves blank (9 ∷ []) (hello ∷ []) [] one_event
one_event-Serves = handles hello Serves.starts

Serves-order_example :
    (left : List Message) × (all_messages (hello ∷ []) ≡ [] ++ left)
    × Waits 0 left one_event
    × ((c : ConnId) → received c (hello ∷ []) ≡ carried c [] ++ carried c left)
Serves-order_example = Serves-order one_event-Serves

Serves-cycles_example :
    (all_messages (hello ∷ []) ≡ [] ++ (cycles (busy ∷ back ∷ []) one_event).0)
    × ((cycles (busy ∷ back ∷ []) one_event).1.overflow ≡ [])
    × (front (cycles (busy ∷ back ∷ []) one_event).1.ring ≡ none)
unfolding all_messages messages
Serves-cycles_example = Serves-cycles (busy ∷ back ∷ []) one_event-Serves (omega arith)

one_event_front : front one_event.ring ≡ some 0
unfolding front handle enqueue_data enqueue new_inbound reserve put commit fill
one_event_front = refl

-- Two rounds in which the inbound thread changes nothing
abbrev idle : Round
idle = record { stop = false; inbound = λ s. s }

idle-Steady : Steady driver stack handle_one (λ call n. omega arith) idle
idle-Steady = record {
  same_trace = λ _. refl;
  same_slots = λ _. refl;
  same_mss = λ _. refl;
  same_snd_nxt = λ _. refl;
}

sender-Ready : Ready driver stack handle_one (λ call n. omega arith) sender
sender-Ready = record { some_mss = omega arith; whole = omega arith; word = omega arith }

echo_data-Echoed_example :
    (sent : ℕ) × (s : Sender) × (echo_data driver stack handle_one
        (104 ∷ 105 ∷ [])
        (idle ∷ idle ∷ [])
        0
        sender
      ≡ some (sent, s))
    × Echoed driver stack handle_one (λ call n. omega arith) (104 ∷ 105 ∷ []) 0 sender sent s
echo_data-Echoed_example =
    echo_data-Echoed driver stack handle_one (λ call n. omega arith) (104 ∷ 105 ∷ [])
      (idle ∷ idle ∷ []) 0 sender (idle-Steady, (idle-Steady, tt)) sender-Ready (omega arith)

abbrev outbound : Outbound
outbound = record { sender = sender; released = 0 ∷ 0 ∷ [] }

abbrev other_handle : ConnId
other_handle = record { slot = 1; generation = 4 }

close_once-again_example :
    ((close_once driver stack handle_one outbound).sender ≡ close driver stack handle_one sender)
    × (close_once driver stack handle_one (
          close_each driver stack (other_handle ∷ []) (close_once driver stack handle_one outbound))
        ≡ close_each driver stack (other_handle ∷ []) (close_once driver stack handle_one outbound))
close_once-again_example =
    close_once-again driver stack handle_one (other_handle ∷ []) outbound (omega arith)
      (λ e. absurd (omega arith)) ((λ e. absurd (omega arith)), tt)

-- One frame too short for Ethernet
abbrev runt : Mbuf
runt = record { bytes = 1 ∷ 2 ∷ []; tail = []; nb_segs = 1; l2_len = 0; l3_len = 0 }

-- The ring is empty, and an item has spilled.
abbrev spilled : Inbound
spilled = record (new_inbound blank) { overflow = blank ∷ [] }

spilled-Waits : Waits 0 (shown blank ∷ []) spilled
unfolding new_inbound
spilled-Waits = record {
  ringed = [];
  queue = record { fits = omega arith; tail = refl; head = refl; content = tt };
  sized = (omega arith, tt);
  order = refl;
}

inbound_round-Queued_example :
    Queued 0
      (shown blank ∷ [])
      (polled driver stack ((runt ∷ []) ∷ []) receiver)
      (inbound_round driver stack [] ((runt ∷ []) ∷ []) receiver spilled).1
    × IsIdle (inbound_round driver stack [] ((runt ∷ []) ∷ []) receiver spilled).0
    × (length (polled driver stack ((runt ∷ []) ∷ []) receiver) ≤ 3 * 1)
inbound_round-Queued_example =
    inbound_round-Queued driver stack [] ((runt ∷ []) ∷ []) receiver 0 (shown blank ∷ []) spilled
      (record { control = refl; ack_list = refl }) spilled-Waits

abbrev port_with_two : Port
port_with_two = record no_port { rx = new_queues 2; tx = new_queues 2; owns_device = true }

abbrev tx_claims : Setup (Server × Port) → List Bool
tx_claims (Setup.ready (s, p)) = p.tx.claimed
tx_claims (Setup.threw e) = []

-- The server takes both tx queues of the port.
both_taken :
    tx_claims (
      new_server blank
        (record { mac = stack.local_mac; ipv4 = some 0x0a000001; mtu = none })
        port_with_two
        2
        7
        stack.params)
    ≡ true ∷ true ∷ []
unfolding new_server new_stack take_receiver take_sender listen claim_tx_queue claim_rx_queue
    new_queues claim_by_id clamped_mss contains
both_taken = refl
