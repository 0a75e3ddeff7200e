-- ===== src/Echo/Ring/Threads.antt =====
-- The producer and the consumer of one ring: every interleaving of their accesses to it.
use dpdk_wrapper_library.Base.{
  ℕ, suc, ◌+◌, ◌%◌, ◌≤◌, ◌<◌, ◌≡◌, ◌≢◌, refl, ◌∙◌, sym, ap, List, [], ◌∷◌, ◌++◌, Option, none, some,
  arith, length, length-append, dec_lt,
}
use dpdk_wrapper_library.Echo.Ring.Queue.{
  Queue, reserve-full, reserve-slot, fill-Queue, commit-Queue, front-empty, front-oldest, pop-Queue,
}
use dpdk_wrapper_library.Echo.Ring.{capacity, SpscRing, reserve, commit, front, pop, fill}
use dpdk_wrapper_library.Probe.Walk.{some-injective, none-not-some}
use mathlib.Core.List.{append_assoc}

-- The slot that the producer has reserved, and the one that the consumer looks at
pub record Threads (T : Type 0) : Type 0 where
  pub ring : SpscRing T
  pub filling : Option ℕ
  pub looking : Option ℕ

-- The slot of a busy producer is the one behind the newest item, and that of a busy consumer is
-- the oldest item's.
abbrev Reserved : Option ℕ → ℕ → ℕ → Type 0
Reserved none taken held = Unit
Reserved (some i) taken held = (i ≡ (taken + held) % capacity) × (held < capacity)

abbrev Looked : Option ℕ → ℕ → ℕ → Type 0
Looked none taken held = Unit
Looked (some i) taken held = (i ≡ taken % capacity) × (0 < held)

Looked-more :
    (o : Option ℕ) (taken held more : ℕ) → held ≤ more → Looked o taken held → Looked o taken more
Looked-more none taken held more h l = tt
Looked-more (some i) taken held more h (at, some_held) = (at, omega arith)

Reserved-pop :
    (o : Option ℕ) (taken held : ℕ) → Reserved o taken (suc held) → Reserved o (taken + 1) held
Reserved-pop none taken held l = tt
Reserved-pop (some i) taken held (at, room) = (omega arith, omega arith)

module _ {T : Type 0} where
  unfoldable pub start : T → Threads T
  start junk = record {
    ring = record { head = 0; tail = 0; items = λ _. junk };
    filling = none;
    looking = none;
  }

  -- What was committed, what was popped, and the state that both threads' steps lead to, in any
  -- order. A reserved slot may be written many times before it is committed.
  pub data Reaches (junk : T) : List T → List T → Threads T → Type 0 where
    starts : Reaches junk [] [] (start junk)
    reserves :
        {sent taken : List T} {s : Threads T} (i : ℕ)
        → Reaches junk sent taken s
        → s.filling ≡ none
        → reserve s.ring ≡ some i
        → Reaches junk sent taken (record s { filling = some i })
    fills :
        {sent taken : List T} {s : Threads T} (i : ℕ) (x : T)
        → Reaches junk sent taken s
        → s.filling ≡ some i
        → Reaches junk sent taken (record s { ring = fill i x s.ring })
    commits :
        {sent taken : List T} {s : Threads T} (i : ℕ)
        → Reaches junk sent taken s
        → s.filling ≡ some i
        → Reaches junk
            (sent ++ (s.ring).items i ∷ [])
            taken
            (record s { ring = commit s.ring; filling = none })
    looks :
        {sent taken : List T} {s : Threads T} (i : ℕ)
        → Reaches junk sent taken s
        → s.looking ≡ none
        → front s.ring ≡ some i
        → Reaches junk sent taken (record s { looking = some i })
    pops :
        {sent taken : List T} {s : Threads T} (i : ℕ)
        → Reaches junk sent taken s
        → s.looking ≡ some i
        → Reaches junk sent
            (taken ++ (s.ring).items i ∷ [])
            (record s { ring = pop s.ring; looking = none })

  record Linked (sent taken : List T) (s : Threads T) : Type 0 where
    held : List T
    order : sent ≡ taken ++ held
    queue : Queue (λ (x : T). x) s.ring (length taken) held
    reserved : Reserved s.filling (length taken) (length held)
    looked : Looked s.looking (length taken) (length held)

  front-Looked :
      (r : SpscRing T) (i taken : ℕ) (held : List T)
      → Queue (λ (x : T). x) r taken held
      → front r ≡ some i
      → Looked (some i) taken (length held)
  front-Looked r i taken [] q slot =
      absurd (none-not-some i (sym (front-empty (λ (x : T). x) r taken q) ∙ slot))
  front-Looked r i taken (x ∷ xs) q slot =
      (some-injective i _ (sym slot ∙ (front-oldest (λ (y : T). y) r taken x xs q).0), omega arith)

  uncons : (xs : List T) → 0 < length xs → (x : T) × (rest : List T) × (xs ≡ x ∷ rest)
  uncons [] h = absurd (omega arith)
  uncons (x ∷ xs) h = (x, xs, refl)

  linked :
      {junk : T} {sent taken : List T} {s : Threads T}
      → Reaches junk sent taken s
      → Linked sent taken s
  unfolding start
  linked starts = record {
    held = [];
    order = refl;
    queue = record { fits = omega arith; tail = refl; head = refl; content = tt };
    reserved = tt;
    looked = tt;
  }
  linked (reserves {sent} {taken} {s} i before idle slot) =
      let w = linked before in
      record {
        held = w.held;
        order = w.order;
        queue = w.queue;
        reserved = elim (dec_lt (length w.held) capacity) [
          | yes room ↦ (
            some-injective i _
                (sym slot ∙ reserve-slot (λ (x : T). x) s.ring (length taken) w.held w.queue room),
            room,
          )
          | no full ↦
              let fits = w.queue.fits in
              absurd (
                none-not-some i (
                  sym
                    (reserve-full (λ (x : T). x) s.ring (length taken) w.held w.queue (omega arith))
                  ∙ slot))
        ];
        looked = w.looked;
      }
  linked (fills {sent} {taken} {s} i x before busy) =
      let w = linked before in
      record {
        held = w.held;
        order = w.order;
        queue =
            let slot = rw busy at w.reserved in
            rw (slot.0) (fill-Queue (λ (x : T). x) s.ring (length taken) w.held w.queue x slot.1);
        reserved = w.reserved;
        looked = w.looked;
      }
  linked (commits {sent} {taken} {s} i before busy) =
      let w = linked before in
      let slot = rw busy at w.reserved in
      record {
        held = w.held ++ (s.ring).items i ∷ [];
        order =
            ap (λ (l : List T). l ++ (s.ring).items i ∷ []) w.order
            ∙ append_assoc taken w.held ((s.ring).items i ∷ []);
        queue =
            commit-Queue (λ (x : T). x) s.ring (length taken) w.held w.queue ((s.ring).items i)
              slot.1 (ap (s.ring).items (sym slot.0));
        reserved = tt;
        looked =
            Looked-more s.looking (length taken) (length w.held) _
              (omega (arith, length-append w.held ((s.ring).items i ∷ []))) w.looked;
      }
  linked (looks {sent} {taken} {s} i before idle slot) =
      let w = linked before in
      record {
        held = w.held;
        order = w.order;
        queue = w.queue;
        reserved = w.reserved;
        looked = front-Looked s.ring i (length taken) w.held w.queue slot;
      }
  linked (pops {sent} {taken} {s} i before busy) =
      let w = linked before in
      let at = rw busy at w.looked in
      let (x, rest, split) = uncons w.held at.1 in
      let q : Queue (λ (y : T). y) s.ring (length taken) (x ∷ rest) = rw⁻¹ split w.queue in
      let oldest = (front-oldest (λ (y : T). y) s.ring (length taken) x rest q).1 in
      let item : (s.ring).items i ≡ x = ap (s.ring).items at.0 ∙ oldest in
      let one_more : length (taken ++ (s.ring).items i ∷ []) ≡ length taken + 1 =
        omega (arith, length-append taken ((s.ring).items i ∷ [])) in
      record {
        held = rest;
        order =
            w.order
            ∙ ap (◌++◌ taken) (split ∙ ap (λ (y : T). y ∷ rest) (sym item))
            ∙ sym (append_assoc taken ((s.ring).items i ∷ []) rest);
        queue = rw one_more (pop-Queue (λ (y : T). y) s.ring (length taken) x rest q);
        reserved =
            rw one_more
              (Reserved-pop s.filling (length taken) (length rest) (rw split at w.reserved));
        looked = tt;
      }

  -- Whatever the interleaving of the two threads, what the consumer has popped is what the producer
  -- has committed, in the same order, with nothing lost, doubled or torn, except for at most 4096
  -- items that still wait in the ring; and when both are busy they are at different slots.
  pub Reaches-fifo :
      {junk : T} {sent taken : List T} {s : Threads T}
      → Reaches junk sent taken s
      → ((held : List T) × (sent ≡ taken ++ held) × (length held ≤ capacity))
        × ((i j : ℕ) → s.filling ≡ some i → s.looking ≡ some j → i ≢ j)
  Reaches-fifo {s} run =
      let w = linked run in
      (
        (w.held, w.order, w.queue.fits),
        λ i j busy busy' same.
            let at = rw busy at w.reserved in
            let at' = rw busy' at w.looked in omega (arith, at.0, at.1, at'.0, at'.1),
      )
