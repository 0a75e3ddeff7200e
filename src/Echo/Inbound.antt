-- ===== src/Echo/Inbound.antt =====
-- The inbound thread of examples/tcp_echo_server.h: from the events of a poll to the ring.
pub mod Fifo
pub mod Chunks
pub mod Tight
use dpdk_wrapper_library.Base.{
  ℕ, zero, suc, ◌+◌, ◌-◌, List, [], ◌∷◌, ◌++◌, Option, none, some, true, false, ltb, if◌then◌else◌,
  u16, u64, min, length, take, drop,
}
use dpdk_wrapper_library.Echo.Ring.{SpscRing, reserve, commit, fill}
use dpdk_wrapper_library.Packet.{Dpdk, Mbuf}
use dpdk_wrapper_library.Tcp.Receiver.Poll.{poll}
use dpdk_wrapper_library.Tcp.Receiver.State.{Receiver}
use dpdk_wrapper_library.Tcp.Stack.{
  TcpStack, ConnId, TcpEvent, TcpEventType, accepted, payload, peer_closed, closed, reset,
}

pub data WorkKind : Type 0 where
  echoes peer_closes resets : WorkKind

-- `bytes` is the whole buffer of 2048 bytes, of which the first `len` count.
pub record WorkItem : Type 0 where
  pub what : WorkKind
  pub conn : ConnId
  pub len : ℕ
  pub bytes : List ℕ

-- sizeof(item.bytes)
abbrev pub item_bytes : ℕ
item_bytes = 2048

-- The fields that the inbound thread owns, and the ring.
pub record Inbound : Type 0 where
  pub ring : SpscRing WorkItem
  pub overflow : List WorkItem
  pub accepted : ℕ
  pub finished : ℕ

-- Past the first `len`, the bytes of `dst` stay.
unfoldable pub copy_item : WorkItem → WorkItem → WorkItem
copy_item dst src = record {
  what = src.what;
  conn = src.conn;
  len = src.len;
  bytes = take src.len src.bytes ++ drop src.len dst.bytes;
}

-- The store into a slot of the ring, and its commit.
unfoldable pub put : ℕ → WorkItem → SpscRing WorkItem → SpscRing WorkItem
put i item ring = commit (fill i (copy_item (ring.items i) item) ring)

spill : WorkItem → Inbound → Inbound
spill item s = record s { overflow = s.overflow ++ item ∷ [] }

enqueue_at : WorkItem → Inbound → Option ℕ → Inbound
unfolding spill
enqueue_at item s none = spill item s
enqueue_at item s (some i) = record s { ring = put i item s.ring }

unfoldable pub enqueue : WorkItem → Inbound → Inbound
unfolding enqueue_at spill
enqueue item s = elim s.overflow [ [] ↦ enqueue_at item s (reserve s.ring) | _ ∷ _ ↦ spill item s ]

-- Each round takes one item, so the items are fuel enough: the list is the front of what is left.
drain : List WorkItem → SpscRing WorkItem → SpscRing WorkItem × List WorkItem
drain [] ring = (ring, [])
drain (item ∷ items) ring = elim (reserve ring) [
  | none ↦ (ring, item ∷ items)
  | some i ↦ drain items (put i item ring)
]

unfoldable pub drain_overflow : Inbound → Inbound
unfolding drain
drain_overflow s =
    let (ring, left) = drain s.overflow s.ring in record s { ring = ring; overflow = left }

-- The item of the bytes from `off` on; `junk` is what the uninitialized buffer holds.
unfoldable pub data_item : List ℕ → ConnId → List ℕ → ℕ → WorkItem
data_item junk conn bytes off =
    let n = min (length bytes - off) item_bytes in
    record {
      what = echoes;
      conn = conn;
      len = u16 n;
      bytes = take n (drop off bytes) ++ drop n junk;
    }

-- A round takes a byte at least, so the number of bytes is fuel enough.
unfoldable pub enqueue_data : List ℕ → ConnId → List ℕ → ℕ → ℕ → Inbound → Inbound
enqueue_data junk conn bytes zero off s = s
enqueue_data junk conn bytes (suc fuel) off s = elim (ltb off (length bytes)) [
  | true ↦
      enqueue_data junk conn bytes fuel (off + min (length bytes - off) item_bytes)
        (enqueue (data_item junk conn bytes off) s)
  | false ↦ s
]

unfoldable pub bare_item : List ℕ → WorkKind → ConnId → WorkItem
bare_item junk what conn = record { what = what; conn = conn; len = 0; bytes = junk }

finish : Inbound → Inbound
finish s = record s { finished = u64 (s.finished + 1) }

unfoldable pub handle : List ℕ → TcpEvent → Inbound → Inbound
unfolding finish
handle junk ev s = elim ev.kind [
  | accepted ↦ record s { accepted = u64 (s.accepted + 1) }
  | payload ↦ enqueue_data junk ev.conn ev.bytes (length ev.bytes) 0 s
  | peer_closed ↦ enqueue (bare_item junk peer_closes ev.conn) s
  | reset ↦ finish (enqueue (bare_item junk resets ev.conn) s)
  | closed ↦ finish s
]

unfoldable pub handle_each : List ℕ → List TcpEvent → Inbound → Inbound
unfolding handle
handle_each junk [] s = s
handle_each junk (ev ∷ evs) s = handle_each junk evs (handle junk ev s)

-- The bursts of all the rx queues, one after the other, through `poll`
unfoldable pub poll_each :
    Dpdk → TcpStack → List ℕ → List (List Mbuf) → Receiver → Inbound → Receiver × Inbound
unfolding handle_each
poll_each d st junk [] r s = (r, s)
poll_each d st junk (burst ∷ bursts) r s =
    let r' = poll d st burst r in poll_each d st junk bursts r' (handle_each junk r'.events s)

-- The body of the loop of `run_inbound`
unfoldable pub inbound_round :
    Dpdk → TcpStack → List ℕ → List (List Mbuf) → Receiver → Inbound → Receiver × Inbound
unfolding poll_each drain_overflow
inbound_round d st junk bursts r s = poll_each d st junk bursts r (drain_overflow s)
