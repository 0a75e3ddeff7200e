-- ===== src/Echo/Inbound/Chunks.antt =====
-- What the events of a poll put into the queue: every byte of every payload, in order.
use dpdk_wrapper_library.Base.{
  ℕ, zero, suc, ◌+◌, ◌-◌, ◌≤◌, ◌<◌, ◌≡◌, refl, ◌∙◌, sym, ap, List, [], ◌∷◌, ◌++◌, arith, length,
  length-append, length-take, length-drop, take, drop, drop-drop, drop_all, take-append_self, min,
  u16, ltb, false, dec_lt, lt→ltb, take_all,
}
use dpdk_wrapper_library.Echo.Inbound.Fifo.{Message, shown, Sized, Waits, enqueue-Waits}
use dpdk_wrapper_library.Echo.Inbound.{
  WorkKind, echoes, peer_closes, resets, item_bytes, Inbound, enqueue, data_item, enqueue_data,
  bare_item, finish, handle,
}
use dpdk_wrapper_library.Tcp.Stack.{
  ConnId, TcpEvent, TcpEventType, accepted, payload, peer_closed, closed, reset,
}
use mathlib.Core.List.{append-nil, append_assoc}

-- A payload in pieces of the size of a work item
abbrev pub chunks : ConnId → ℕ → List ℕ → List Message
chunks conn zero bytes = []
chunks conn (suc fuel) [] = []
chunks conn (suc fuel) (b ∷ bs) =
    record { what = echoes; conn = conn; bytes = take item_bytes (b ∷ bs) }
    ∷ chunks conn fuel (drop item_bytes (b ∷ bs))

unfoldable pub bare : WorkKind → ConnId → Message
bare what conn = record { what = what; conn = conn; bytes = [] }

-- What the outbound thread is to see of an event
unfoldable pub messages : TcpEvent → List Message
unfolding bare
messages ev = elim ev.kind [
  | accepted ↦ []
  | payload ↦ chunks ev.conn (length ev.bytes) ev.bytes
  | peer_closed ↦ bare peer_closes ev.conn ∷ []
  | reset ↦ bare resets ev.conn ∷ []
  | closed ↦ []
]

abbrev pub join_bytes : List Message → List ℕ
join_bytes [] = []
join_bytes (m ∷ ms) = m.bytes ++ join_bytes ms

-- The pieces join to the payload.
pub join_bytes-chunks :
    (conn : ConnId) (fuel : ℕ) (bytes : List ℕ)
    → length bytes ≤ fuel
    → join_bytes (chunks conn fuel bytes) ≡ bytes
join_bytes-chunks conn zero [] h = refl
join_bytes-chunks conn zero (b ∷ bs) h = absurd (omega arith)
join_bytes-chunks conn (suc fuel) [] h = refl
join_bytes-chunks conn (suc fuel) (b ∷ bs) h =
    ap (◌++◌ (take item_bytes (b ∷ bs))) (
      join_bytes-chunks conn fuel (drop item_bytes (b ∷ bs))
        (omega (arith, length-drop item_bytes (b ∷ bs))))
    ∙ take-drop item_bytes (b ∷ bs)
  where
    take-drop : (n : ℕ) (xs : List ℕ) → take n xs ++ drop n xs ≡ xs
    take-drop zero xs = refl
    take-drop (suc n) [] = refl
    take-drop (suc n) (x ∷ xs) = ap (◌∷◌ x) (take-drop n xs)

take-min : (n : ℕ) (xs : List ℕ) → take (min (length xs) n) xs ≡ take n xs
take-min n xs = elim (dec_lt (length xs) n) [
  | yes short ↦
      let m : min (length xs) n ≡ length xs = omega arith in
      rw m (take_all (length xs) xs (omega arith) ∙ sym (take_all n xs (omega arith)))
  | no long ↦ let m : min (length xs) n ≡ n = omega arith in rw m refl
]

module _ (junk : List ℕ) (conn : ConnId) (bytes : List ℕ) where
  -- An item of the loop shows the next piece.
  shown-data_item :
      (off : ℕ)
      → (shown (data_item junk conn bytes off)
          ≡ record { what = echoes; conn = conn; bytes = take item_bytes (drop off bytes) })
        × Sized (data_item junk conn bytes off)
  unfolding data_item
  shown-data_item off =
      let n = min (length bytes - off) item_bytes in
      let piece : List ℕ = take n (drop off bytes) in
      let left = length-drop off bytes in
      let len : length piece ≡ u16 n = omega (arith, length-take n (drop off bytes), left) in
      let same : take n (drop off bytes) ≡ take item_bytes (drop off bytes) =
        ap (λ (k : ℕ). take (min k item_bytes) (drop off bytes)) (sym left)
        ∙ take-min item_bytes (drop off bytes) in
      (
        ap (λ (bs : List ℕ). record { what = echoes; conn = conn; bytes = bs })
            (ap (λ (k : ℕ). take k (piece ++ drop n junk)) (sym len)
              ∙ take-append_self piece (drop n junk)
              ∙ same),
        omega (arith, len, length-append piece (drop n junk)),
      )

  drop-next :
      (o : ℕ) → drop (o + min (length bytes - o) item_bytes) bytes ≡ drop item_bytes (drop o bytes)
  drop-next o = elim (dec_lt (length bytes - o) item_bytes) [
    | yes short ↦
        drop_all (o + min (length bytes - o) item_bytes) bytes (omega arith)
        ∙ sym (drop_all item_bytes (drop o bytes) (omega (arith, length-drop o bytes)))
    | no long ↦
        sym (drop-drop item_bytes o (o + min (length bytes - o) item_bytes) bytes (omega arith))
  ]

  chunks-more :
      (fuel : ℕ) (xs : List ℕ)
      → 0 < length xs
      → chunks conn (suc fuel) xs
        ≡ record { what = echoes; conn = conn; bytes = take item_bytes xs }
          ∷ chunks conn fuel (drop item_bytes xs)
  chunks-more fuel [] h = absurd (omega arith)
  chunks-more fuel (b ∷ bs) h = refl

  -- The loop over a payload puts its pieces behind all that wait.
  enqueue_data-Waits :
      (fuel off taken : ℕ) (ms : List Message) (s : Inbound)
      → Waits taken ms s
      → Waits taken
          (ms ++ chunks conn fuel (drop off bytes))
          (enqueue_data junk conn bytes fuel off s)
  unfolding enqueue_data
  enqueue_data-Waits zero off taken ms s w = rw (append-nil ms) w
  enqueue_data-Waits (suc fuel) off taken ms s w = elim (dec_lt off (length bytes)) [
    | no ended ↦
        let stop : ltb off (length bytes) ≡ false = ground arith in
        rw (enqueue_data, stop, drop_all off bytes (omega arith), append-nil ms) w
    | yes more ↦
        let item = data_item junk conn bytes off in
        let (same, sized) = shown-data_item off in
        let n = min (length bytes - off) item_bytes in
        let next = enqueue-Waits taken item sized ms s w in
        let rest =
          enqueue_data-Waits fuel (off + n) taken (ms ++ shown item ∷ []) (enqueue item s) next in
        let pieces : chunks conn (suc fuel) (drop off bytes)
            ≡ shown item ∷ chunks conn fuel (drop (off + n) bytes) =
          chunks-more fuel (drop off bytes) (omega (arith, length-drop off bytes))
          ∙ ap (λ (m : Message). m ∷ chunks conn fuel (drop item_bytes (drop off bytes))) (sym same)
          ∙ ap (λ (l : List ℕ). shown item ∷ chunks conn fuel l) (sym (drop-next off)) in
        let order : ms ++ chunks conn (suc fuel) (drop off bytes)
            ≡ (ms ++ shown item ∷ []) ++ chunks conn fuel (drop (off + n) bytes) =
          ap (◌++◌ ms) pieces ∙ sym (append_assoc ms (shown item ∷ []) _) in
        rw (enqueue_data, lt→ltb off (length bytes) more, order) rest
  ]

finish-Waits :
    (taken : ℕ) (ms : List Message) (s : Inbound) → Waits taken ms s → Waits taken ms (finish s)
unfolding finish
finish-Waits taken ms s w = record {
  ringed = w.ringed;
  queue = w.queue;
  sized = w.sized;
  order = w.order;
}

accept-Waits :
    (taken : ℕ) (ms : List Message) (s : Inbound) (n : ℕ)
    → Waits taken ms s
    → Waits taken ms (record s { accepted = n })
accept-Waits taken ms s n w = record {
  ringed = w.ringed;
  queue = w.queue;
  sized = w.sized;
  order = w.order;
}

-- One event puts its messages behind all that wait.
pub handle-Waits :
    (junk : List ℕ) (ev : TcpEvent) (taken : ℕ) (ms : List Message) (s : Inbound)
    → Waits taken ms s
    → Waits taken (ms ++ messages ev) (handle junk ev s)
unfolding handle messages bare bare_item
handle-Waits junk ev taken ms s w =
    by_kind ev.kind ev.conn ev.bytes ev.peer_addr ev.peer_port ev.local_port
  where
    by_kind :
        (kind : TcpEventType) (conn : ConnId) (bytes : List ℕ) (a p l : ℕ)
        → Waits taken
            (ms
              ++ messages (record {
                kind = kind;
                conn = conn;
                bytes = bytes;
                peer_addr = a;
                peer_port = p;
                local_port = l;
              }))
            (handle junk
              (record {
                kind = kind;
                conn = conn;
                bytes = bytes;
                peer_addr = a;
                peer_port = p;
                local_port = l;
              })
              s)
    by_kind accepted conn bytes a p l = rw (append-nil ms) (accept-Waits taken ms s _ w)
    by_kind payload conn bytes a p l =
        enqueue_data-Waits junk conn bytes (length bytes) 0 taken ms s w
    by_kind peer_closed conn bytes a p l =
        enqueue-Waits taken (bare_item junk peer_closes conn) (omega arith) ms s w
    by_kind reset conn bytes a p l =
        finish-Waits taken _ _
          (enqueue-Waits taken (bare_item junk resets conn) (omega arith) ms s w)
    by_kind closed conn bytes a p l = rw (append-nil ms) (finish-Waits taken ms s w)
