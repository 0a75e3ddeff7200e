-- ===== src/Echo/Ring/Queue.antt =====
-- The ring as a queue: what it holds, from the oldest to the newest.
use dpdk_wrapper_library.Base.{
  ℕ, ◌+◌, ◌-◌, ◌%◌, ◌≤◌, ◌<◌, ◌≡◌, refl, ◌∙◌, ap, List, [], ◌∷◌, ◌++◌, none, some, true, false,
  bit_and, ◌==◌, if◌then◌else◌, u64, arith, length, length-append,
}
use dpdk_wrapper_library.Probe.Ring.{Doubling, once, twice, Doubling-Masks, bit_and-remainder}
use dpdk_wrapper_library.Echo.Ring.{capacity, SpscRing, reserve, commit, front, pop, fill}

capacity-Doubling : Doubling capacity
capacity-Doubling =
    twice
      (twice (twice (twice (twice (twice (twice (twice (twice (twice (twice (twice once)))))))))))

pub masked : (n : ℕ) → bit_and n (capacity - 1) ≡ n % capacity
masked n =
    let (q, e) = bit_and-remainder capacity-Doubling n in
    omega (arith, e, (Doubling-Masks capacity-Doubling).below n)

module _ {T B : Type 0} (shown : T → B) where
  -- From the place of number `q` on stand `xs`, as `shown` sees them.
  abbrev pub Content : (ℕ → T) → ℕ → List B → Type 0
  Content items q [] = Unit
  Content items q (x ∷ xs) = (shown (items (q % capacity)) ≡ x) × Content items (q + 1) xs

  -- `taken` items were popped before.
  pub record Queue (r : SpscRing T) (taken : ℕ) (xs : List B) : Type 0 where
    pub fits : length xs ≤ capacity
    pub tail : r.tail ≡ u64 taken
    pub head : r.head ≡ u64 (taken + length xs)
    pub content : Content r.items taken xs

  -- A store outside the places of `xs` is not seen.
  Content-fill :
      (items : ℕ → T) (x : T) (from : ℕ) (xs : List B) (place : ℕ)
      → from + length xs ≤ place
      → place < from + capacity
      → Content items from xs
      → Content (λ j. if j == place % capacity then x else items j) from xs
  Content-fill items x from [] place behind near c = tt
  Content-fill items x from (y ∷ ys) place behind near (first, rest) =
      let apart : (from % capacity) == (place % capacity) ≡ false = ground arith in
      (rw apart first, Content-fill items x (from + 1) ys place (omega arith) (omega arith) rest)

  Content-snoc :
      (items : ℕ → T) (x : B) (from : ℕ) (xs : List B) (place : ℕ)
      → place ≡ from + length xs
      → Content items from xs
      → shown (items (place % capacity)) ≡ x
      → Content items from (xs ++ x ∷ [])
  Content-snoc items x from [] place at c last =
      (ap (λ (n : ℕ). shown (items (n % capacity))) (omega arith) ∙ last, tt)
  Content-snoc items x from (y ∷ ys) place at (first, rest) last =
      (first, Content-snoc items x (from + 1) ys place (omega arith) rest last)

  module _ (r : SpscRing T) (taken : ℕ) (xs : List B) (w : Queue r taken xs) where
    -- A full ring has no slot to fill, and any other has one behind the newest item.
    pub reserve-full : length xs ≡ capacity → reserve r ≡ none
    unfolding reserve
    reserve-full full = ground (arith, w.tail, w.head)

    pub reserve-slot : length xs < capacity → reserve r ≡ some ((taken + length xs) % capacity)
    unfolding reserve
    reserve-slot room = let at = masked r.head in ground (arith, w.tail, w.head)

    -- Filling the slot that `reserve` gave changes nothing yet.
    pub fill-Queue :
        (x : T) → length xs < capacity → Queue (fill ((taken + length xs) % capacity) x r) taken xs
    unfolding fill
    fill-Queue x room = record {
      fits = w.fits;
      tail = w.tail;
      head = w.head;
      content =
          Content-fill r.items x taken xs (taken + length xs) (omega arith) (omega arith) w.content;
    }

    -- To commit is to append what the slot holds.
    pub commit-Queue :
        (x : B)
        → length xs < capacity
        → shown (r.items ((taken + length xs) % capacity)) ≡ x
        → Queue (commit r) taken (xs ++ x ∷ [])
    unfolding commit
    commit-Queue x room holds = record {
      fits = omega (arith, length-append xs (x ∷ []));
      tail = w.tail;
      head = omega (arith, w.head, length-append xs (x ∷ []));
      content = Content-snoc r.items x taken xs (taken + length xs) refl w.content holds;
    }

module _ {T B : Type 0} (shown : T → B) (r : SpscRing T) (taken : ℕ) where
  pub front-empty : Queue shown r taken [] → front r ≡ none
  unfolding front
  front-empty w =
      let same : r.tail == r.head ≡ true = ground (arith, w.tail, w.head) in rw same refl

  module _ (x : B) (xs : List B) (w : Queue shown r taken (x ∷ xs)) where
    -- The front is the oldest item.
    pub front-oldest :
        (front r ≡ some (taken % capacity)) × (shown (r.items (taken % capacity)) ≡ x)
    unfolding front
    front-oldest = let at = masked r.tail in (ground (arith, w.tail, w.head, w.fits), w.content.0)

    pub pop-Queue : Queue shown (pop r) (taken + 1) xs
    unfolding pop
    pop-Queue = record {
      fits = omega (arith, w.fits);
      tail = omega (arith, w.tail);
      head = omega (arith, w.head);
      content = w.content.1;
    }
