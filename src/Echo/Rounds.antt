-- ===== src/Echo/Rounds.antt =====
-- A round of the inbound thread, from the received frames to the ring and the overflow.
use dpdk_wrapper_library.Base.{
  ℕ, ◌+◌, ◌*◌, ◌≤◌, ◌≡◌, refl, sym, List, [], ◌∷◌, ◌++◌, arith, length, length-append,
}
use dpdk_wrapper_library.Echo.Inbound.Chunks.{messages, handle-Waits}
use dpdk_wrapper_library.Echo.Inbound.Fifo.{Message, Waits, drain_overflow-Waits}
use dpdk_wrapper_library.Echo.Inbound.Tight.{Tight, drain_overflow-Tight, handle-Tight}
use dpdk_wrapper_library.Echo.Inbound.{
  Inbound, drain_overflow, handle, handle_each, poll_each, inbound_round,
}
use dpdk_wrapper_library.Echo.Streams.{all_messages}
use dpdk_wrapper_library.Packet.{Dpdk, Mbuf}
use dpdk_wrapper_library.Tcp.Receiver.Poll.Bounds.{IsIdle, poll-bounds}
use dpdk_wrapper_library.Tcp.Receiver.Poll.{poll}
use dpdk_wrapper_library.Tcp.Receiver.State.{Receiver}
use dpdk_wrapper_library.Tcp.Stack.{TcpStack, TcpEvent}
use mathlib.Core.List.{append-nil, append_assoc}

-- The events of the polls of one round
unfoldable pub polled : Dpdk → TcpStack → List (List Mbuf) → Receiver → List TcpEvent
polled d st [] r = []
polled d st (burst ∷ bursts) r = let r' = poll d st burst r in r'.events ++ polled d st bursts r'

-- How many frames a round received
abbrev pub frames : List (List Mbuf) → ℕ
frames [] = 0
frames (burst ∷ bursts) = length burst + frames bursts

all_messages-append :
    (xs ys : List TcpEvent) → all_messages (xs ++ ys) ≡ all_messages xs ++ all_messages ys
unfolding all_messages
all_messages-append [] ys = refl
all_messages-append (e ∷ es) ys =
    rw (all_messages-append es ys)
      (sym (append_assoc (messages e) (all_messages es) (all_messages ys)))

-- What a round leaves: the messages of its events behind those that waited, and the overflow in use
-- only while the ring is full.
pub record Queued (taken : ℕ) (ms : List Message) (evs : List TcpEvent) (s : Inbound) : Type 0 where
  pub waits : Waits taken (ms ++ all_messages evs) s
  pub tight : Tight s

Queued-more :
    {taken : ℕ} {ms : List Message} {s : Inbound} (es evs : List TcpEvent)
    → Queued taken (ms ++ all_messages es) evs s
    → Queued taken ms (es ++ evs) s
Queued-more {ms = ms} es evs q =
    let order = all_messages-append es evs in
    let apart = append_assoc ms (all_messages es) (all_messages evs) in
    record { waits = rw (order, sym apart) q.waits; tight = q.tight }

module _ (junk : List ℕ) (taken : ℕ) where
  handle_each-Queued :
      (es : List TcpEvent) (ms : List Message) (s : Inbound)
      → Waits taken ms s
      → Tight s
      → Queued taken ms es (handle_each junk es s)
  unfolding handle_each all_messages
  handle_each-Queued [] ms s w tight = record { waits = rw (append-nil ms) w; tight = tight }
  handle_each-Queued (e ∷ es) ms s w tight =
      let next =
        handle_each-Queued es (ms ++ messages e) (handle junk e s)
          (handle-Waits junk e taken ms s w) (handle-Tight junk e s tight) in
      record {
        waits = rw (sym (append_assoc ms (messages e) (all_messages es))) next.waits;
        tight = next.tight;
      }

  poll_each-Queued :
      (d : Dpdk) (st : TcpStack) (bursts : List (List Mbuf)) (r : Receiver) (ms : List Message)
      (s : Inbound)
      → Waits taken ms s
      → Tight s
      → Queued taken ms (polled d st bursts r) (poll_each d st junk bursts r s).1
  unfolding poll_each polled all_messages
  poll_each-Queued d st [] r ms s w tight = record { waits = rw (append-nil ms) w; tight = tight }
  poll_each-Queued d st (burst ∷ bursts) r ms s w tight =
      let r' = poll d st burst r in
      let q = handle_each-Queued r'.events ms s w tight in
      Queued-more r'.events (polled d st bursts r') (
        poll_each-Queued d st bursts r' (ms ++ all_messages r'.events)
          (handle_each junk r'.events s) q.waits q.tight)

-- A round takes up no more than three events for each frame, and leaves the receiver idle.
poll_each-bounds :
    (d : Dpdk) (st : TcpStack) (junk : List ℕ) (bursts : List (List Mbuf)) (r : Receiver)
    (s : Inbound)
    → IsIdle r
    → IsIdle (poll_each d st junk bursts r s).0
      × (length (polled d st bursts r) ≤ 3 * frames bursts)
unfolding poll_each polled
poll_each-bounds d st junk [] r s idle = (idle, omega arith)
poll_each-bounds d st junk (burst ∷ bursts) r s idle =
    let r' = poll d st burst r in
    let here = poll-bounds d st burst r idle in
    let rest = poll_each-bounds d st junk bursts r' (handle_each junk r'.events s) here.0 in
    (rest.0, omega (arith, here.1, rest.1, length-append r'.events (polled d st bursts r')))

-- With an idle receiver, a round of the inbound thread during which the outbound thread takes nothing
-- puts the messages of the events of its polls behind all that waited, in the order of the polls;
-- afterwards nothing is left in the overflow or the ring has no free slot, also where items had
-- spilled and room has come since; the events are at most three for each frame, and the receiver is idle again.
pub inbound_round-Queued :
    (d : Dpdk) (st : TcpStack) (junk : List ℕ) (bursts : List (List Mbuf)) (r : Receiver)
    (taken : ℕ) (ms : List Message) (s : Inbound)
    → IsIdle r
    → Waits taken ms s
    → let (r', s') = inbound_round d st junk bursts r s in
      Queued taken ms (polled d st bursts r) s'
      × IsIdle r'
      × (length (polled d st bursts r) ≤ 3 * frames bursts)
unfolding inbound_round
inbound_round-Queued d st junk bursts r taken ms s idle w =
    let drained = drain_overflow s in
    let receiver = poll_each-bounds d st junk bursts r drained idle in
    (
      poll_each-Queued junk taken d st bursts r ms drained (drain_overflow-Waits taken ms s w).0
          (drain_overflow-Tight s),
      receiver.0,
      receiver.1,
    )
