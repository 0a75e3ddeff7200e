-- ===== src/Echo/Streams.antt =====
-- The bytes of a connection, in the events of the polls and in the messages for the outbound thread.
use dpdk_wrapper_library.Base.{
  ℕ, zero, suc, ◌≡◌, refl, ◌∙◌, sym, ap, List, [], ◌∷◌, ◌++◌, Bool, true, false, ◌&&◌, ◌==◌,
  if◌then◌else◌, arith, length, Bool-cases, inl, inr, take, drop,
}
use dpdk_wrapper_library.Echo.Inbound.Chunks.{chunks, messages, bare, join_bytes, join_bytes-chunks}
use dpdk_wrapper_library.Echo.Inbound.Fifo.{Message}
use dpdk_wrapper_library.Echo.Inbound.{item_bytes}
use dpdk_wrapper_library.Tcp.Stack.{
  ConnId, TcpEvent, TcpEventType, accepted, payload, peer_closed, closed, reset,
}
use mathlib.Core.List.{append-nil, append_assoc}

unfoldable pub same_conn : ConnId → ConnId → Bool
same_conn a b = a.slot == b.slot && a.generation == b.generation

-- The bytes received on a connection, and those that messages carry for it
unfoldable pub received : ConnId → List TcpEvent → List ℕ
received c [] = []
received c (ev ∷ evs) =
    (if same_conn c ev.conn then elim ev.kind [ payload ↦ ev.bytes | _ ↦ [] ] else [])
    ++ received c evs

unfoldable pub carried : ConnId → List Message → List ℕ
carried c [] = []
carried c (m ∷ ms) = (if same_conn c m.conn then m.bytes else []) ++ carried c ms

pub carried-append :
    (c : ConnId) (xs ys : List Message) → carried c (xs ++ ys) ≡ carried c xs ++ carried c ys
unfolding carried
carried-append c [] ys = refl
carried-append c (m ∷ ms) ys =
    rw (carried-append c ms ys) (sym (append_assoc _ (carried c ms) (carried c ys)))

received-append :
    (c : ConnId) (xs ys : List TcpEvent) → received c (xs ++ ys) ≡ received c xs ++ received c ys
unfolding received
received-append c [] ys = refl
received-append c (e ∷ es) ys =
    rw (received-append c es ys) (sym (append_assoc _ (received c es) (received c ys)))

carried-same :
    (c conn : ConnId) (fuel : ℕ) (bytes : List ℕ)
    → same_conn c conn ≡ true
    → carried c (chunks conn fuel bytes) ≡ join_bytes (chunks conn fuel bytes)
unfolding carried
carried-same c conn zero bytes h = refl
carried-same c conn (suc fuel) [] h = refl
carried-same c conn (suc fuel) (b ∷ bs) h =
    rw h
      (ap (◌++◌ (take item_bytes (b ∷ bs))) (carried-same c conn fuel (drop item_bytes (b ∷ bs)) h))

carried-other :
    (c conn : ConnId) (fuel : ℕ) (bytes : List ℕ)
    → same_conn c conn ≡ false
    → carried c (chunks conn fuel bytes) ≡ []
unfolding carried
carried-other c conn zero bytes h = refl
carried-other c conn (suc fuel) [] h = refl
carried-other c conn (suc fuel) (b ∷ bs) h =
    rw h (carried-other c conn fuel (drop item_bytes (b ∷ bs)) h)

-- The messages of one event carry the bytes that it received.
carried-messages : (c : ConnId) (ev : TcpEvent) → carried c (messages ev) ≡ received c (ev ∷ [])
unfolding carried received messages bare
carried-messages c ev = by_kind ev.kind ev.conn ev.bytes ev.peer_addr ev.peer_port ev.local_port
  where
    by_kind :
        (kind : TcpEventType) (conn : ConnId) (bytes : List ℕ) (a p l : ℕ)
        → carried c (
            messages (record {
              kind = kind;
              conn = conn;
              bytes = bytes;
              peer_addr = a;
              peer_port = p;
              local_port = l;
            }))
          ≡ received c (
              record {
                kind = kind;
                conn = conn;
                bytes = bytes;
                peer_addr = a;
                peer_port = p;
                local_port = l;
              }
              ∷ [])
    by_kind accepted conn bytes a p l = elim (Bool-cases (same_conn c conn)) [
      | inl e ↦ rw e refl
      | inr e ↦ rw e refl
    ]
    by_kind payload conn bytes a p l = elim (Bool-cases (same_conn c conn)) [
      | inl e ↦
          rw (e, append-nil bytes)
            (carried-same c conn (length bytes) bytes e
              ∙ join_bytes-chunks conn (length bytes) bytes (omega arith))
      | inr e ↦ rw e (carried-other c conn (length bytes) bytes e)
    ]
    by_kind peer_closed conn bytes a p l = elim (Bool-cases (same_conn c conn)) [
      | inl e ↦ rw e refl
      | inr e ↦ rw e refl
    ]
    by_kind reset conn bytes a p l = elim (Bool-cases (same_conn c conn)) [
      | inl e ↦ rw e refl
      | inr e ↦ rw e refl
    ]
    by_kind closed conn bytes a p l = elim (Bool-cases (same_conn c conn)) [
      | inl e ↦ rw e refl
      | inr e ↦ rw e refl
    ]

unfoldable pub all_messages : List TcpEvent → List Message
all_messages [] = []
all_messages (ev ∷ evs) = messages ev ++ all_messages evs

pub all_messages-snoc :
    (evs : List TcpEvent) (ev : TcpEvent)
    → all_messages (evs ++ ev ∷ []) ≡ all_messages evs ++ messages ev
unfolding all_messages
all_messages-snoc [] ev = append-nil (messages ev)
all_messages-snoc (e ∷ es) ev =
    rw (all_messages-snoc es ev) (sym (append_assoc (messages e) (all_messages es) (messages ev)))

pub carried-all_messages :
    (c : ConnId) (evs : List TcpEvent) → carried c (all_messages evs) ≡ received c evs
unfolding all_messages carried received
carried-all_messages c [] = refl
carried-all_messages c (ev ∷ evs) =
    carried-append c (messages ev) (all_messages evs)
    ∙ ap (λ (l : List ℕ). l ++ carried c (all_messages evs)) (carried-messages c ev)
    ∙ ap (◌++◌ (received c (ev ∷ []))) (carried-all_messages c evs)
    ∙ sym (received-append c (ev ∷ []) evs)
