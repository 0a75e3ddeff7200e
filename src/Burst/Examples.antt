-- ===== src/Burst/Examples.antt =====
-- Two mbufs received, the first sent, the rest destroyed after a move.
use dpdk_wrapper_library.Base.{
  ℕ, ◌+◌, ◌≤◌, ◌≡◌, List, [], ◌∷◌, some, none, arith, take, length, length-take,
}
use dpdk_wrapper_library.Burst.Conserved.{
  Lives, begins, receives, moves, sends, destroys, count, held, Lives-conserved,
  receive_burst-bounds,
}
use dpdk_wrapper_library.Burst.{
  Gone, max_size, receive_burst, send_burst, move_burst, destroy_burst,
}

abbrev two : ℕ → List ℕ
two n = take n (11 ∷ 12 ∷ [])

abbrev sent_one : Gone
sent_one = record { freed = []; sent = 11 ∷ [] }

one_sent : Lives (11 ∷ 12 ∷ []) ((none ∷ some 12 ∷ []) ∷ []) sent_one
unfolding receive_burst send_burst
one_sent = sends 0 (λ _. 1) (receives two 32 begins) (omega arith)

all_gone :
    Lives (11 ∷ 12 ∷ []) ((none ∷ none ∷ []) ∷ []) (record { freed = 12 ∷ []; sent = 11 ∷ [] })
unfolding move_burst destroy_burst
all_gone = destroys 0 (moves 0 one_sent (omega arith)) (omega arith)

Lives-conserved_example :
    count 12 (11 ∷ 12 ∷ [])
    ≡ held 12 ((none ∷ none ∷ []) ∷ []) + count 12 (12 ∷ []) + count 12 (11 ∷ [])
Lives-conserved_example = Lives-conserved all_gone 12

two-length : (n : ℕ) → length (two n) ≤ n
two-length n = omega (arith, length-take {A = ℕ} n (11 ∷ 12 ∷ []))

receive_burst-bounds_example :
    (length (receive_burst two 100) ≤ max_size) × (length (receive_burst two 100) ≤ 100)
receive_burst-bounds_example = receive_burst-bounds two 100 two-length
