-- ===== src/Echo/Inbound/Tight.antt =====
-- The overflow holds items only while the ring is full.
use dpdk_wrapper_library.Base.{
  ℕ, zero, suc, ◌+◌, ◌-◌, ◌≡◌, refl, List, [], ◌∷◌, Option, none, some, ltb, ◌⊎◌, inl, inr, length,
  min, Bool-cases,
}
use dpdk_wrapper_library.Echo.Inbound.{
  WorkItem, Inbound, item_bytes, enqueue_at, enqueue, spill, drain, drain_overflow, put, data_item,
  enqueue_data, handle, finish,
}
use dpdk_wrapper_library.Echo.Ring.{SpscRing, reserve}
use dpdk_wrapper_library.Tcp.Stack.{
  TcpEvent, TcpEventType, accepted, payload, peer_closed, closed, reset,
}

-- Nothing has spilled, or the ring has no free slot.
abbrev pub Tight : Inbound → Type 0
Tight s = (s.overflow ≡ []) ⊎ (reserve s.ring ≡ none)

Option-cases : (o : Option ℕ) → (o ≡ none) ⊎ ((i : ℕ) × (o ≡ some i))
Option-cases none = inl refl
Option-cases (some i) = inr (i, refl)

drain-Tight :
    (items : List WorkItem) (ring : SpscRing WorkItem)
    → ((drain items ring).1 ≡ []) ⊎ (reserve (drain items ring).0 ≡ none)
unfolding drain
drain-Tight [] ring = inl refl
drain-Tight (item ∷ items) ring = elim (Option-cases (reserve ring)) [
  | inl full ↦ rw (drain, full) (inr full)
  | inr (i, slot) ↦ rw (drain, slot) (drain-Tight items (put i item ring))
]

pub drain_overflow-Tight : (s : Inbound) → Tight (drain_overflow s)
unfolding drain_overflow
drain_overflow-Tight s = drain-Tight s.overflow s.ring

enqueue-Tight : (item : WorkItem) (s : Inbound) → Tight s → Tight (enqueue item s)
unfolding enqueue enqueue_at spill
enqueue-Tight item s tight = fields s.ring s.overflow s.accepted s.finished tight
  where
    by_slot :
        (ring : SpscRing WorkItem) (a f : ℕ) (o : Option ℕ)
        → reserve ring ≡ o
        → Tight
            (enqueue_at item (record { ring = ring; overflow = []; accepted = a; finished = f }) o)
    by_slot ring a f none full = inr full
    by_slot ring a f (some i) slot = inl refl

    fields :
        (ring : SpscRing WorkItem) (o : List WorkItem) (a f : ℕ)
        → Tight (record { ring = ring; overflow = o; accepted = a; finished = f })
        → Tight (enqueue item (record { ring = ring; overflow = o; accepted = a; finished = f }))
    fields ring [] a f t = by_slot ring a f (reserve ring) refl
    fields ring (x ∷ xs) a f (inl e) = cc
    fields ring (x ∷ xs) a f (inr full) = inr full

module _ (junk : List ℕ) where
  enqueue_data-Tight :
      (ev : TcpEvent) (fuel off : ℕ) (s : Inbound)
      → Tight s
      → Tight (enqueue_data junk ev.conn ev.bytes fuel off s)
  unfolding enqueue_data
  enqueue_data-Tight ev zero off s tight = tight
  enqueue_data-Tight ev (suc fuel) off s tight = elim (Bool-cases (ltb off (length ev.bytes))) [
    | inr ended ↦ rw (enqueue_data, ended) tight
    | inl more ↦
        let item = data_item junk ev.conn ev.bytes off in
        rw (enqueue_data, more)
          (enqueue_data-Tight ev fuel (off + min (length ev.bytes - off) item_bytes)
            (enqueue item s) (enqueue-Tight item s tight))
  ]

  pub handle-Tight : (ev : TcpEvent) (s : Inbound) → Tight s → Tight (handle junk ev s)
  unfolding handle finish
  handle-Tight ev s tight = by_kind ev.kind refl
    where
      by_kind : (kind : TcpEventType) → ev.kind ≡ kind → Tight (handle junk ev s)
      by_kind accepted e = rw e tight
      by_kind payload e = rw e (enqueue_data-Tight ev (length ev.bytes) 0 s tight)
      by_kind peer_closed e = rw e (enqueue-Tight _ s tight)
      by_kind reset e = rw e (enqueue-Tight _ s tight)
      by_kind closed e = rw e tight
