-- ===== src/Echo/Inbound/Fifo.antt =====
-- The ring and the overflow list together are one queue.
use dpdk_wrapper_library.Base.{
  ℕ, ◌+◌, ◌%◌, ◌≤◌, ◌<◌, ◌≡◌, refl, ◌∙◌, sym, ap, List, [], ◌∷◌, ◌++◌, map, none, some, arith,
  length, length-take, take, drop, take-append_self, inl, inr, ==_refl, dec_lt, ◌⊎◌,
}
use dpdk_wrapper_library.Echo.Inbound.{
  WorkKind, WorkItem, Inbound, copy_item, put, spill, enqueue_at, enqueue, drain, drain_overflow,
}
use dpdk_wrapper_library.Echo.Ring.Queue.{
  Queue, reserve-full, reserve-slot, fill-Queue, commit-Queue,
}
use dpdk_wrapper_library.Echo.Ring.{capacity, SpscRing, reserve, fill}
use dpdk_wrapper_library.Tcp.Stack.{ConnId}
use mathlib.Core.List.{append-nil, append_assoc}

-- What the consumer reads of an item
pub record Message : Type 0 where
  pub what : WorkKind
  pub conn : ConnId
  pub bytes : List ℕ

abbrev pub shown : WorkItem → Message
shown item = record { what = item.what; conn = item.conn; bytes = take item.len item.bytes }

abbrev pub Sized : WorkItem → Type 0
Sized item = item.len ≤ length item.bytes

shown-copy_item : (dst src : WorkItem) → Sized src → shown (copy_item dst src) ≡ shown src
unfolding copy_item
shown-copy_item dst src sized =
    let front : List ℕ = take src.len src.bytes in
    let len : length front ≡ src.len = omega (arith, length-take src.len src.bytes) in
    ap (λ (bs : List ℕ). record { what = src.what; conn = src.conn; bytes = bs })
      (ap (λ (n : ℕ). take n (front ++ drop src.len dst.bytes)) (sym len)
        ∙ take-append_self front (drop src.len dst.bytes))

abbrev pub AllSized : List WorkItem → Type 0
AllSized [] = Unit
AllSized (x ∷ xs) = Sized x × AllSized xs

-- The messages `ms` wait, the oldest first, behind `taken` that were popped: first those in the ring,
-- then those that have spilled.
pub record Waits (taken : ℕ) (ms : List Message) (s : Inbound) : Type 0 where
  pub ringed : List Message
  pub queue : Queue shown s.ring taken ringed
  pub sized : AllSized s.overflow
  pub order : ms ≡ ringed ++ map shown s.overflow

fill_self : (i : ℕ) (x : WorkItem) (ring : SpscRing WorkItem) → (fill i x ring).items i ≡ x
unfolding fill
fill_self i x ring = rw (==_refl i) refl

module _ (ring : SpscRing WorkItem) (taken : ℕ) (ms : List Message)
    (q : Queue shown ring taken ms) where
  -- An item put into the slot that `reserve` gave is the newest of the queue.
  put-Queue :
      (item : WorkItem)
      → Sized item
      → length ms < capacity
      → Queue shown (put ((taken + length ms) % capacity) item ring) taken (ms ++ shown item ∷ [])
  unfolding put fill
  put-Queue item sized room =
      let i = (taken + length ms) % capacity in
      let copied = copy_item (ring.items i) item in
      commit-Queue shown (fill i copied ring) taken ms
        (fill-Queue shown ring taken ms q copied room) (shown item) room
        (ap shown (fill_self i copied ring) ∙ shown-copy_item (ring.items i) item sized)

  -- `reserve` gives the slot behind the newest, or the ring is full.
  reserve-cases :
      ((length ms < capacity) × (reserve ring ≡ some ((taken + length ms) % capacity)))
      ⊎ ((length ms ≡ capacity) × (reserve ring ≡ none))
  reserve-cases = elim (dec_lt (length ms) capacity) [
    | yes room ↦ inl (room, reserve-slot shown ring taken ms q room)
    | no full ↦
        let fits = q.fits in
        let all : length ms ≡ capacity = omega arith in
        inr (all, reserve-full shown ring taken ms q all)
  ]

AllSized-snoc :
    (xs : List WorkItem) (x : WorkItem) → AllSized xs → Sized x → AllSized (xs ++ x ∷ [])
AllSized-snoc [] x a sized = (sized, tt)
AllSized-snoc (y ∷ ys) x (first, rest) sized = (first, AllSized-snoc ys x rest sized)

map-snoc :
    (xs : List WorkItem) (x : WorkItem) → map shown (xs ++ x ∷ []) ≡ map shown xs ++ shown x ∷ []
map-snoc [] x = refl
map-snoc (y ∷ ys) x = ap (◌∷◌ (shown y)) (map-snoc ys x)

module _ (taken : ℕ) (item : WorkItem) (sized : Sized item) where
  spill-Waits :
      (ms : List Message) (s : Inbound)
      → Waits taken ms s
      → Waits taken (ms ++ shown item ∷ []) (spill item s)
  unfolding spill
  spill-Waits ms s w = record {
    ringed = w.ringed;
    queue = w.queue;
    sized = AllSized-snoc s.overflow item w.sized sized;
    order =
        ap (λ (l : List Message). l ++ shown item ∷ []) w.order
        ∙ append_assoc w.ringed (map shown s.overflow) (shown item ∷ [])
        ∙ ap (◌++◌ w.ringed) (sym (map-snoc s.overflow item));
  }

  -- Whether or not the ring has room, the item is behind all that wait.
  pub enqueue-Waits :
      (ms : List Message) (s : Inbound)
      → Waits taken ms s
      → Waits taken (ms ++ shown item ∷ []) (enqueue item s)
  unfolding enqueue enqueue_at
  enqueue-Waits ms s w = fields s.ring s.overflow s.accepted s.finished w
    where
      fields :
          (ring : SpscRing WorkItem) (o : List WorkItem) (a f : ℕ)
          → Waits taken ms (record { ring = ring; overflow = o; accepted = a; finished = f })
          → Waits taken
              (ms ++ shown item ∷ [])
              (enqueue item (record { ring = ring; overflow = o; accepted = a; finished = f }))
      fields ring (x ∷ xs) a f v = spill-Waits ms _ v
      fields ring [] a f v = elim (reserve-cases ring taken v.ringed v.queue) [
        | inl (room, slot) ↦ rw slot (record {
          ringed = v.ringed ++ shown item ∷ [];
          queue = put-Queue ring taken v.ringed v.queue item sized room;
          sized = tt;
          order =
              ap (λ (l : List Message). l ++ shown item ∷ []) (v.order ∙ append-nil v.ringed)
              ∙ sym (append-nil (v.ringed ++ shown item ∷ []));
        })
        | inr (full, refused) ↦ rw refused (spill-Waits ms _ v)
      ]

module _ (taken : ℕ) where
  -- Draining moves items from the overflow into the ring, as many as find room.
  drain-Queue :
      (items : List WorkItem) (ring : SpscRing WorkItem) (ringed : List Message)
      → AllSized items
      → Queue shown ring taken ringed
      → (ringed' : List Message) × Queue shown (drain items ring).0 taken ringed'
        × AllSized (drain items ring).1
        × (ringed ++ map shown items ≡ ringed' ++ map shown (drain items ring).1)
        × (((drain items ring).1 ≡ []) ⊎ (length ringed' ≡ capacity))
  unfolding drain
  drain-Queue [] ring ringed sized q = (ringed, q, tt, refl, inl refl)
  drain-Queue (item ∷ items) ring ringed (first, rest) q =
      elim (reserve-cases ring taken ringed q) [
        | inr (full, refused) ↦ rw (drain, refused) (ringed, q, (first, rest), refl, inr full)
        | inl (room, slot) ↦
            let put' = put-Queue ring taken ringed q item first room in
            let (ringed', q', sized', same, ends) = drain-Queue items _ _ rest put' in
            rw (drain, slot)
              (
                ringed',
                q',
                sized',
                sym (append_assoc ringed (shown item ∷ []) (map shown items)) ∙ same,
                ends,
              )
      ]

  -- Draining changes nothing of what waits nor of its order, and ends with an empty overflow or a
  -- full ring.
  pub drain_overflow-Waits :
      (ms : List Message) (s : Inbound)
      → (w : Waits taken ms s)
      → (v : Waits taken ms (drain_overflow s)) × (((drain_overflow s).overflow ≡ [])
          ⊎ (length v.ringed ≡ capacity))
  unfolding drain_overflow
  drain_overflow-Waits ms s w =
      let (ringed', q', sized', same, ends) =
        drain-Queue s.overflow s.ring w.ringed w.sized w.queue in
      (record { ringed = ringed'; queue = q'; sized = sized'; order = w.order ∙ same }, ends)
