-- ===== src/Echo/Ring.antt =====
-- `spsc_ring` of examples/tcp_echo_server.h, with the capacity that the server gives it. The counters
-- are size_t and wrap.
pub mod Queue
pub mod Threads
use dpdk_wrapper_library.Base.{
  ℕ, ◌+◌, ◌-◌, ◌^◌, Option, none, some, bit_and, ◌==◌, if◌then◌else◌, u64,
}

-- ring_type
abbrev pub capacity : ℕ
capacity = 4096

-- `items` is the array: only its first `capacity` places are used.
pub record SpscRing (T : Type 0) : Type 0 where
  pub head : ℕ
  pub tail : ℕ
  pub items : ℕ → T

module _ {T : Type 0} where
  -- The slot to fill, `none` if the ring is full.
  unfoldable pub reserve : SpscRing T → Option ℕ
  reserve r =
      if u64 (r.head + 2 ^ 64 - r.tail) == capacity
      then none
      else some (bit_and r.head (capacity - 1))

  unfoldable pub commit : SpscRing T → SpscRing T
  commit r = record r { head = u64 (r.head + 1) }

  -- The slot of the oldest item, `none` if the ring is empty.
  unfoldable pub front : SpscRing T → Option ℕ
  front r = if r.tail == r.head then none else some (bit_and r.tail (capacity - 1))

  unfoldable pub pop : SpscRing T → SpscRing T
  pop r = record r { tail = u64 (r.tail + 1) }

  -- A store through the pointer that `reserve` gave.
  unfoldable pub fill : ℕ → T → SpscRing T → SpscRing T
  fill i x r = record r { items = λ j. if j == i then x else r.items j }
