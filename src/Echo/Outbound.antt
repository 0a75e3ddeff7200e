-- ===== src/Echo/Outbound.antt =====
-- The outbound thread of examples/tcp_echo_server.h: from the ring to tcp_sender.
pub mod Echoed
pub mod Once
use dpdk_wrapper_library.Base.{
  ℕ, zero, suc, ◌+◌, List, [], ◌∷◌, Option, none, some, Bool, true, false, not, ◌&&◌, ltb, ◌==◌,
  if◌then◌else◌, length, get_or, set, take, drop,
}
use dpdk_wrapper_library.Echo.Inbound.{WorkItem, echoes, peer_closes, resets}
use dpdk_wrapper_library.Echo.Ring.{SpscRing, front, pop}
use dpdk_wrapper_library.Packet.{Dpdk}
use dpdk_wrapper_library.Tcp.Sender.Close.{close}
use dpdk_wrapper_library.Tcp.Sender.Send.{send}
use dpdk_wrapper_library.Tcp.Sender.State.{Sender, sendable}
use dpdk_wrapper_library.Tcp.Stack.{TcpStack, ConnId}

-- `released` is `released_gen_`.
pub record Outbound : Type 0 where
  pub sender : Sender
  pub released : List ℕ

-- What happens before a round of the loop: is the thread told to stop, and what has the inbound
-- thread made of the state that both share?
pub record Round : Type 0 where
  pub stop : Bool
  pub inbound : Sender → Sender

-- The loop over one item, `sent` bytes of which went out. Where the rounds run out, the thread is
-- still in the loop. The result is `none` where a call of `send` does not return.
unfoldable pub echo_data :
    Dpdk → TcpStack → ConnId → List ℕ → List Round → ℕ → Sender → Option (ℕ × Sender)
echo_data d st conn bytes [] sent s = some (sent, s)
echo_data d st conn bytes (r ∷ rounds) sent s =
    let s₁ = r.inbound s in
    elim (ltb sent (length bytes) && sendable st s₁ conn && not r.stop) [
      | false ↦ some (sent, s₁)
      | true ↦ elim (send d st conn (drop sent bytes) s₁) [
        | none ↦ none
        | some (n, s₂) ↦ echo_data d st conn bytes rounds (sent + n) s₂
      ]
    ]

unfoldable pub close_once : Dpdk → TcpStack → ConnId → Outbound → Outbound
close_once d st conn o = if get_or o.released conn.slot 0 == conn.generation then o else record {
  sender = close d st conn o.sender;
  released = set o.released conn.slot conn.generation;
}

echo_item : Dpdk → TcpStack → WorkItem → List Round → Outbound → Option Outbound
echo_item d st item rounds o =
    elim (echo_data d st item.conn (take item.len item.bytes) rounds 0 o.sender) [
      | none ↦ none
      | some (_, s) ↦ some (record o { sender = s })
    ]

-- The switch on one item from the ring.
unfoldable pub consume : Dpdk → TcpStack → WorkItem → List Round → Outbound → Option Outbound
unfolding echo_item
consume d st item rounds o = elim item.what [
  | echoes ↦ echo_item d st item rounds o
  | peer_closes ↦ some (close_once d st item.conn o)
  | resets ↦ some (close_once d st item.conn o)
]

-- The body of the loop of `run_outbound`
unfoldable pub outbound_round :
    Dpdk
    → TcpStack
    → List Round
    → SpscRing WorkItem
    → Outbound
    → Option (SpscRing WorkItem × Outbound)
unfolding consume
outbound_round d st rounds ring o = elim (front ring) [
  | none ↦ some (ring, o)
  | some i ↦ elim (consume d st (ring.items i) rounds o) [
    | none ↦ none
    | some o' ↦ some (pop ring, o')
  ]
]
