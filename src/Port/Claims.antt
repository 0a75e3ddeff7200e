-- ===== src/Port/Claims.antt =====
-- Queue handles: no queue is handed out twice, and none is left over.
use dpdk_wrapper_library.Base.{
  ℕ, zero, suc, ◌+◌, ◌≤◌, ◌<◌, ◌≡◌, refl, ◌∙◌, sym, ap, List, Option, none, some, Bool, true, false,
  leb, arith, inl, inr, ◌⊎◌, Bool-cases, length, get_or, set, length-set, get_or-set_self,
  get_or-set_ne, ℕ_discrete, dec_lt,
}
use dpdk_wrapper_library.Port.{
  Queues, skip_claimed, claim_next, Claim, no_such_queue, already_claimed, claims, claim_by_id,
}

abbrev pub given : Claim → Option ℕ
given (claims i) = some i
given no_such_queue = none
given already_claimed = none

-- Every queue before the cursor is claimed.
abbrev pub Passed : Queues → Type 0
Passed q = (i : ℕ) → i < q.cursor → i < length q.claimed → get_or q.claimed i false ≡ true

-- Where the loop of `claim_next` stops
record Stop (claimed : List Bool) (from to : ℕ) : Type 0 where
  forward : from ≤ to
  skipped : (i : ℕ) → from ≤ i → i < to → get_or claimed i false ≡ true
  open_or_end : (length claimed ≤ to) ⊎ (get_or claimed to false ≡ false)

skip_claimed-Stop :
    (rounds : ℕ) (claimed : List Bool) (from : ℕ)
    → length claimed ≤ rounds + from
    → Stop claimed from (skip_claimed rounds claimed from)
unfolding skip_claimed
skip_claimed-Stop zero claimed from h = record {
  forward = omega arith;
  skipped = λ i l g. absurd (omega arith);
  open_or_end = inl (omega arith);
}
skip_claimed-Stop (suc rounds) claimed from h = elim (Bool-cases (leb (length claimed) from)) [
  | inl past ↦ rw past (record {
    forward = omega arith;
    skipped = λ i l g. absurd (omega arith);
    open_or_end = inl (ground arith);
  })
  | inr inside ↦ elim (Bool-cases (get_or claimed from false)) [
    | inr unclaimed ↦
        rw (inside, unclaimed)
          (record {
            forward = omega arith;
            skipped = λ i l g. absurd (omega arith);
            open_or_end = inr unclaimed;
          })
    | inl taken ↦
        let rest = skip_claimed-Stop rounds claimed (from + 1) (omega arith) in
        rw (inside, taken)
          (record {
            forward = omega (arith, rest.forward);
            skipped = λ i l g. elim (ℕ_discrete from i) [
              | yes e ↦ ap (λ (n : ℕ). get_or claimed n false) (sym e) ∙ taken
              | no ne ↦ rest.skipped i (omega arith) g
            ];
            open_or_end = rest.open_or_end;
          })
  ]
]

-- What a request may do to the queues, where it hands out `o`
pub record Served (q : Queues) (o : Option ℕ) (q' : Queues) : Type 0 where
  pub same_length : length q'.claimed ≡ length q.claimed
  pub grows : (i : ℕ) → get_or q.claimed i false ≡ true → get_or q'.claimed i false ≡ true
  pub fresh :
      (i : ℕ)
      → o ≡ some i
      → (i < length q.claimed)
        × (get_or q.claimed i false ≡ false)
        × (get_or q'.claimed i false ≡ true)
  pub passed : Passed q → Passed q'

set-grows :
    (flags : List Bool) (i j : ℕ)
    → i < length flags
    → get_or flags j false ≡ true
    → get_or (set flags i true) j false ≡ true
set-grows flags i j live h = elim (ℕ_discrete i j) [
  | yes e ↦
      ap (λ (n : ℕ). get_or (set flags i true) n false) (sym e)
      ∙ get_or-set_self flags i true false live
  | no ne ↦ get_or-set_ne flags i j true false ne ∙ h
]

none-not-some : (a : ℕ) → none ≡ some a → ⊥
none-not-some a e = cc

some-injective : (a b : ℕ) → some a ≡ some b → a ≡ b
some-injective a b e = cc

-- Setting the flag of an unclaimed queue, the cursor behind claimed ones
mark-Served :
    (q : Queues) (i cursor : ℕ)
    → i < length q.claimed
    → get_or q.claimed i false ≡ false
    → (Passed q
        → (j : ℕ) → j < cursor
        → j < length q.claimed
        → (get_or q.claimed j false ≡ true) ⊎ (i ≡ j))
    → Served q (some i) (record { claimed = set q.claimed i true; cursor = cursor })
mark-Served q i cursor live clear cause = record {
  same_length = length-set q.claimed i true;
  grows = λ j. set-grows q.claimed i j live;
  fresh = λ j e.
      let same : i ≡ j = some-injective i j e in
      rw (← same) (live, clear, get_or-set_self q.claimed i true false live);
  passed = λ p j below inside. elim (cause p j below (rw (← length-set q.claimed i true) inside)) [
    | inl h ↦ set-grows q.claimed i j live h
    | inr e ↦
        ap (λ (n : ℕ). get_or (set q.claimed i true) n false) (sym e)
        ∙ get_or-set_self q.claimed i true false live
  ];
}

-- Nothing is handed out, and the cursor stops behind claimed queues.
none-Served :
    (q : Queues) (cursor : ℕ)
    → (Passed q → (j : ℕ) → j < cursor → j < length q.claimed → get_or q.claimed j false ≡ true)
    → Served q none (record q { cursor = cursor })
none-Served q cursor cause = record {
  same_length = refl;
  grows = λ j h. h;
  fresh = λ j e. absurd (none-not-some j e);
  passed = cause;
}

-- Behind the cursor and before the stop every queue is claimed.
skipped-Passed :
    (q : Queues) (stop j : ℕ)
    → Stop q.claimed q.cursor stop
    → Passed q
    → j < stop
    → j < length q.claimed
    → get_or q.claimed j false ≡ true
skipped-Passed q stop j s p below inside = elim (dec_lt j q.cursor) [
  | yes old ↦ p j old inside
  | no new ↦ s.skipped j (omega arith) below
]

unclaimed-Stop :
    (q : Queues) (stop : ℕ)
    → Stop q.claimed q.cursor stop
    → stop < length q.claimed
    → get_or q.claimed stop false ≡ false
unclaimed-Stop q stop s inside = elim s.open_or_end [
  | inl out ↦ absurd (omega arith)
  | inr clear ↦ clear
]

pub claim_next-Served : (q : Queues) → Served q (claim_next q).0 (claim_next q).1
unfolding claim_next
claim_next-Served q =
    let cursor = skip_claimed (length q.claimed) q.claimed q.cursor in
    let stop = skip_claimed-Stop (length q.claimed) q.claimed q.cursor (omega arith) in
    elim (Bool-cases (leb (length q.claimed) cursor)) [
      | inl out ↦ rw out (none-Served q cursor λ p j. skipped-Passed q cursor j stop p)
      | inr inside ↦
          let live : cursor < length q.claimed = ground arith in
          rw inside (
            mark-Served q cursor (cursor + 1) live (unclaimed-Stop q cursor stop live)
              λ p j below within. elim (ℕ_discrete cursor j) [
                | yes e ↦ inr e
                | no ne ↦ inl (skipped-Passed q cursor j stop p (omega arith) within)
              ])
    ]

pub claim_by_id-Served :
    (q : Queues) (i : ℕ) → Served q (given (claim_by_id q i).0) (claim_by_id q i).1
unfolding claim_by_id
claim_by_id-Served q i = elim (Bool-cases (leb (length q.claimed) i)) [
  | inl out ↦ rw out (none-Served q q.cursor λ p. p)
  | inr inside ↦ elim (Bool-cases (get_or q.claimed i false)) [
    | inl taken ↦ rw (inside, taken) (none-Served q q.cursor λ p. p)
    | inr clear ↦
        rw (inside, clear)
          (mark-Served q i q.cursor (ground arith) clear λ p j below within. inl (p j below within))
  ]
]

-- An answer of `none` means that the walk has passed every queue.
pub claim_next-all :
    (q : Queues)
    → Passed q
    → (claim_next q).0 ≡ none
    → (i : ℕ) → i < length q.claimed
    → get_or q.claimed i false ≡ true
unfolding claim_next
claim_next-all q p none_left i inside =
    let cursor = skip_claimed (length q.claimed) q.claimed q.cursor in
    let stop = skip_claimed-Stop (length q.claimed) q.claimed q.cursor (omega arith) in
    let past : length q.claimed ≤ cursor = ground arith in
    skipped-Passed q cursor i stop p (omega arith) inside
