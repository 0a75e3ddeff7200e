-- ===== src/Port/Handed.antt =====
-- Sequences of claims: every queue is handed out once.
use dpdk_wrapper_library.Base.{
  ℕ, ◌<◌, ◌≡◌, ◌≢◌, refl, ◌∙◌, ap, List, [], ◌∷◌, Option, none, some, Bool, true, false, arith, inl,
  inr, Bool-cases, Option-cases, length, get_or, length-replicate,
}
use dpdk_wrapper_library.Port.{Queues, new_queues, claim_next, claim_by_id}
use dpdk_wrapper_library.Port.Claims.{
  given, Passed, Served, claim_next-Served, claim_by_id-Served, claim_next-all,
}

-- The two forms of `claim_rx_queue`, which callers may mix
pub data Request : Type 0 where
  next : Request
  by_id : ℕ → Request

abbrev pub serve : Request → Queues → Option ℕ × Queues
serve next q = claim_next q
serve (by_id i) q = (given (claim_by_id q i).0, (claim_by_id q i).1)

abbrev handed : Option ℕ → List ℕ → List ℕ
handed none ids = ids
handed (some i) ids = i ∷ ids

-- The ids that a sequence of requests hands out
abbrev pub serve_all : List Request → Queues → List ℕ
serve_all [] q = []
serve_all (o ∷ os) q = handed (serve o q).0 (serve_all os (serve o q).1)

abbrev pub All {ℓ} : {A : Type ℓ} → (A → Type 0) → List A → Type 0
All P [] = Unit
All P (x ∷ xs) = P x × All P xs

abbrev pub AllDistinct : List ℕ → Type 0
AllDistinct [] = Unit
AllDistinct (x ∷ xs) = All (λ y. x ≢ y) xs × AllDistinct xs

serve-Served : (o : Request) (q : Queues) → Served q (serve o q).0 (serve o q).1
serve-Served next q = claim_next-Served q
serve-Served (by_id i) q = claim_by_id-Served q i

-- An id that is configured and unclaimed
abbrev pub Unclaimed : Queues → ℕ → Type 0
Unclaimed q i = (i < length q.claimed) × (get_or q.claimed i false ≡ false)

All-weaken : (P R : ℕ → Type 0) (ids : List ℕ) → ((i : ℕ) → P i → R i) → All P ids → All R ids
All-weaken P R [] f h = tt
All-weaken P R (i ∷ ids) f h = (f i h.0, All-weaken P R ids f h.1)

Bool-split : (b : Bool) → b ≡ true → b ≡ false → ⊥
Bool-split b h h' = cc

serve_all-Unclaimed :
    (os : List Request) (q : Queues)
    → All (Unclaimed q) (serve_all os q) × AllDistinct (serve_all os q)
serve_all-Unclaimed [] q = (tt, tt)
serve_all-Unclaimed (o ∷ os) q =
    let s = serve-Served o q in
    let (later, distinct) = serve_all-Unclaimed os (serve o q).1 in
    let still : All (Unclaimed q) (serve_all os (serve o q).1) =
      All-weaken (Unclaimed (serve o q).1) (Unclaimed q) _
        (λ i u. (
          rw (← s.same_length) u.0,
          elim (Bool-cases (get_or q.claimed i false)) [
            | inl old ↦ absurd (Bool-split _ (s.grows i old) u.1)
            | inr clear ↦ clear
          ],
        ))
        later in
    elim (Option-cases (serve o q).0) [
      | inl nothing ↦ rw nothing (still, distinct)
      | inr (i, got) ↦
          let (live, clear, now) = s.fresh i got in
          rw got (
            ((live, clear), still),
            (
              All-weaken (Unclaimed (serve o q).1) (λ j. i ≢ j) _
                  (λ j u e.
                    Bool-split _ now (ap (λ (n : ℕ). get_or (serve o q).1.claimed n false) e ∙ u.1))
                  later,
              distinct,
            ),
          )
    ]

length-new_queues : (n : ℕ) → length (new_queues n).claimed ≡ n
unfolding new_queues
length-new_queues n = length-replicate n false

-- Whatever requests of the two forms are mixed on a port with `n` queues, no queue id is handed out
-- twice, and each one that is handed out is below `n`.
pub serve_all-AllDistinct :
    (n : ℕ) (os : List Request)
    → AllDistinct (serve_all os (new_queues n)) × All (λ i. i < n) (serve_all os (new_queues n))
serve_all-AllDistinct n os =
    let (unclaimed, distinct) = serve_all-Unclaimed os (new_queues n) in
    (
      distinct,
      All-weaken (Unclaimed (new_queues n)) (λ i. i < n) _ (λ i u. rw (← length-new_queues n) u.0)
          unclaimed,
    )

-- The queues behind a sequence of requests
abbrev pub after : List Request → Queues → Queues
after [] q = q
after (o ∷ os) q = after os (serve o q).1

after-Passed :
    (os : List Request) (q : Queues)
    → Passed q
    → Passed (after os q) × (length (after os q).claimed ≡ length q.claimed)
after-Passed [] q p = (p, refl)
after-Passed (o ∷ os) q p =
    let s = serve-Served o q in
    let (passed, same) = after-Passed os (serve o q).1 (s.passed p) in
    (passed, same ∙ s.same_length)

new_queues-Passed : (n : ℕ) → Passed (new_queues n)
unfolding new_queues
new_queues-Passed n i below inside = absurd (omega arith)

-- Behind any sequence of requests of the two forms, `claim_next` reports that no queue is left only
-- when every queue of the port has been claimed.
pub claim_next-exhausted :
    (n : ℕ) (os : List Request)
    → (claim_next (after os (new_queues n))).0 ≡ none
    → (i : ℕ) → i < n
    → get_or (after os (new_queues n)).claimed i false ≡ true
claim_next-exhausted n os none_left i below =
    let (passed, same) = after-Passed os (new_queues n) (new_queues-Passed n) in
    claim_next-all (after os (new_queues n)) passed none_left i
      (rw (same, length-new_queues n) below)
