-- ===== src/Burst/Conserved.antt =====
-- No mbuf is lost, freed twice, or freed and sent.
use dpdk_wrapper_library.Base.{
  ℕ, zero, suc, ◌+◌, ◌≤◌, ◌<◌, ◌≡◌, ◌≢◌, refl, ap, List, [], ◌∷◌, ◌++◌, map, none, some, ◌==◌, ltb,
  if◌then◌else◌, arith, length, take, get_or, set, get_or-set_ne, length-set, u16,
}
use dpdk_wrapper_library.Burst.{
  Burst, Gone, destroy_packet, move_packet, move_each, move_burst, destroy_burst, assign_burst,
  max_size, receive_burst, release, release_first, mbufs, send_burst,
}

abbrev pub remove : ℕ → List Burst → List Burst
remove i [] = []
remove zero (b ∷ bs) = bs
remove (suc i) (b ∷ bs) = b ∷ remove i bs

abbrev pub burst_at : List Burst → ℕ → Burst
burst_at bs i = get_or bs i []

-- The mbufs received, the bursts that are alive and what has left, for any sequence of bursts that
-- are received, moved, assigned, sent and destroyed.
pub data Lives : List ℕ → List Burst → Gone → Type 0 where
  begins : Lives [] [] (record { freed = []; sent = [] })
  receives :
      {got : List ℕ} {bs : List Burst} {g : Gone} (rx : ℕ → List ℕ) (max_count : ℕ)
      → Lives got bs g
      → Lives (mbufs (receive_burst rx max_count) ++ got) (receive_burst rx max_count ∷ bs) g
  moves :
      {got : List ℕ} {bs : List Burst} {g : Gone} (i : ℕ)
      → Lives got bs g
      → i < length bs
      → Lives got ((move_burst (burst_at bs i)).0 ∷ set bs i (move_burst (burst_at bs i)).1) g
  assigns :
      {got : List ℕ} {bs : List Burst} {g : Gone} (i j : ℕ)
      → Lives got bs g
      → i < length bs
      → j < length bs
      → i ≢ j
      → Lives got
          (set
            (set bs i (assign_burst (burst_at bs i) (burst_at bs j) g).0)
            j
            (assign_burst (burst_at bs i) (burst_at bs j) g).1)
          (assign_burst (burst_at bs i) (burst_at bs j) g).2
  sends :
      {got : List ℕ} {bs : List Burst} {g : Gone} (i : ℕ) (tx : ℕ → ℕ)
      → Lives got bs g
      → i < length bs
      → Lives got (set bs i (send_burst tx (burst_at bs i) g).1) (send_burst tx (burst_at bs i) g).2
  destroys :
      {got : List ℕ} {bs : List Burst} {g : Gone} (i : ℕ)
      → Lives got bs g
      → i < length bs
      → Lives got (remove i bs) (destroy_burst (burst_at bs i) g)

module _ (m : ℕ) where
  abbrev pub count : List ℕ → ℕ
  count [] = 0
  count (x ∷ xs) = (if x == m then 1 else 0) + count xs

  abbrev pub held : List Burst → ℕ
  held [] = 0
  held (b ∷ bs) = count (mbufs b) + held bs

  count-append : (xs ys : List ℕ) → count (xs ++ ys) ≡ count xs + count ys
  count-append [] ys = omega arith
  count-append (x ∷ xs) ys = omega (arith, count-append xs ys)

  held-set :
      (bs : List Burst) (i : ℕ) (b : Burst)
      → i < length bs
      → held (set bs i b) + count (mbufs (burst_at bs i)) ≡ held bs + count (mbufs b)
  held-set [] i b h = absurd (omega arith)
  held-set (x ∷ xs) zero b h = omega arith
  held-set (x ∷ xs) (suc i) b h = omega (arith, held-set xs i b (omega arith))

  held-remove :
      (bs : List Burst) (i : ℕ)
      → i < length bs
      → held (remove i bs) + count (mbufs (burst_at bs i)) ≡ held bs
  held-remove [] i h = absurd (omega arith)
  held-remove (x ∷ xs) zero h = omega arith
  held-remove (x ∷ xs) (suc i) h = omega (arith, held-remove xs i (omega arith))

  move_each-mbufs : (b : Burst) → ((move_each b).0 ≡ b) × (mbufs (move_each b).1 ≡ [])
  unfolding move_each move_packet
  move_each-mbufs [] = (refl, refl)
  move_each-mbufs (p ∷ ps) = let (same, empty) = move_each-mbufs ps in (ap (◌∷◌ p) same, empty)

  count-destroy_burst :
      (b : Burst) (g : Gone)
      → (count (destroy_burst b g).freed ≡ count g.freed + count (mbufs b))
        × ((destroy_burst b g).sent ≡ g.sent)
  unfolding destroy_burst destroy_packet
  count-destroy_burst [] g = (omega arith, refl)
  count-destroy_burst (none ∷ ps) g = count-destroy_burst ps g
  count-destroy_burst (some x ∷ ps) g =
      let (c, s) = count-destroy_burst ps (record g { freed = g.freed ++ x ∷ [] }) in
      (omega (arith, c, count-append g.freed (x ∷ [])), s)

  count-release_first :
      (n : ℕ) (b : Burst)
      → count (mbufs b) ≡ count (mbufs (take n b)) + count (mbufs (release_first n b))
  unfolding release_first release
  count-release_first zero b = omega arith
  count-release_first (suc n) [] = omega arith
  count-release_first (suc n) (none ∷ ps) = count-release_first n ps
  count-release_first (suc n) (some x ∷ ps) = omega (arith, count-release_first n ps)

  conserved :
      {got : List ℕ} {bs : List Burst} {g : Gone}
      → Lives got bs g
      → count got ≡ held bs + count g.freed + count g.sent
  unfolding move_burst assign_burst send_burst
  conserved begins = refl
  conserved (receives {got} {bs} {g} rx max_count before) =
      omega (arith, conserved before, count-append (mbufs (receive_burst rx max_count)) got)
  conserved (moves {got} {bs} {g} i before h) =
      let b = burst_at bs i in
      let (same, empty) = move_each-mbufs b in
      let left = held-set bs i (move_each b).1 h in
      let now = ap (λ (x : Burst). count (mbufs x)) same in
      let gone = ap count empty in omega (arith, conserved before, left, now, gone)
  conserved (assigns {got} {bs} {g} i j before hi hj apart) =
      let to = burst_at bs i in
      let from = burst_at bs j in
      let (same, empty) = move_each-mbufs from in
      let new = (move_each from).0 in
      let first = held-set bs i new hi in
      let second =
        held-set (set bs i new) j (move_each from).1 (omega (arith, hj, length-set bs i new)) in
      let kept = ap (λ (x : Burst). count (mbufs x)) (get_or-set_ne bs i j new [] apart) in
      let now = ap (λ (x : Burst). count (mbufs x)) same in
      let gone = ap count empty in
      let (c, s) = count-destroy_burst to g in
      let sent = ap count s in
      omega (arith, conserved before, first, second, kept, now, gone, c, sent)
  conserved (sends {got} {bs} {g} i tx before h) =
      let b = burst_at bs i in
      let n = tx (u16 (length b)) in
      let split = count-release_first n b in
      let left = held-set bs i (release_first n b) h in
      omega (arith, conserved before, split, left, count-append g.sent (mbufs (take n b)))
  conserved (destroys {got} {bs} {g} i before h) =
      let (c, s) = count-destroy_burst (burst_at bs i) g in
      let sent = ap count s in omega (arith, conserved before, c, sent, held-remove bs i h)

-- After any sequence of bursts received, moved, assigned, sent and destroyed, each mbuf was received as
-- often as it has been freed, given to the driver, or is still held by a living burst: an mbuf that
-- was received once is never freed twice nor freed after it was sent, and none is lost.
pub Lives-conserved :
    {got : List ℕ} {bs : List Burst} {g : Gone}
    → Lives got bs g
    → (m : ℕ) → count m got ≡ held m bs + count m g.freed + count m g.sent
Lives-conserved run m = conserved m run

length-map : (xs : List ℕ) → length (map some xs) ≡ length xs
length-map [] = refl
length-map (x ∷ xs) = ap suc (length-map xs)

-- With a driver that gives no more mbufs than it is asked for, a burst fits its storage of 32 packets
-- and holds no more than its caller asked for.
pub receive_burst-bounds :
    (rx : ℕ → List ℕ) (max_count : ℕ)
    → ((n : ℕ) → length (rx n) ≤ n)
    → (length (receive_burst rx max_count) ≤ max_size)
      × (length (receive_burst rx max_count) ≤ max_count)
unfolding receive_burst
receive_burst-bounds rx max_count bounded =
    let n = u16 (if ltb max_size max_count then max_size else max_count) in
    let small : (n ≤ max_size) × (n ≤ max_count) = ground arith in
    (
      omega (arith, length-map (rx n), bounded n, small.0),
      omega (arith, length-map (rx n), bounded n, small.1),
    )
