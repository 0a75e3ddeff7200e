-- ===== src/Runtime/Life/Objects.antt =====
-- Runtime objects: every sequence of operations on them, and what they own.
use dpdk_wrapper_library.Base.{
  ℕ, zero, suc, ◌+◌, ◌<◌, ◌≡◌, ◌≢◌, refl, List, [], ◌∷◌, Option, false, if◌then◌else◌, arith,
  length, get_or, set,
}
use dpdk_wrapper_library.Port.Device.Weights.{total, SetupFree}
use dpdk_wrapper_library.Port.Device.{Call, eal_cleanup, Answers}
use dpdk_wrapper_library.Runtime.Args.{RuntimeParams}
use dpdk_wrapper_library.Runtime.Life.{
  Process, Runtime, RuntimeError, ok, err, new_runtime, destroy_runtime, left_behind, move_runtime,
  add_port, assign_runtime,
}

abbrev pub remove : ℕ → List Runtime → List Runtime
remove i [] = []
remove zero (r ∷ rs) = rs
remove (suc i) (r ∷ rs) = r ∷ remove i rs

abbrev pub runtime_at : List Runtime → ℕ → Runtime
runtime_at rs i = get_or rs i left_behind

-- How often the EAL was brought up, the objects that are alive and the process, for any sequence of
-- constructions, moves, assignments and destructions of runtimes, and of ports added.
pub data Lives (d : Answers) : ℕ → List Runtime → Process → Type 0 where
  begins : Lives d 0 [] (record { exists = false; calls = [] })
  creates :
      {n : ℕ} {rs : List Runtime} {w w' : Process} (params : RuntimeParams) (r : Runtime)
      → Lives d n rs w
      → new_runtime d params w ≡ (ok r, w')
      → Lives d (suc n) (r ∷ rs) w'
  fails :
      {n : ℕ} {rs : List Runtime} {w w' : Process} (params : RuntimeParams) (e : RuntimeError)
      → Lives d n rs w
      → new_runtime d params w ≡ (err e, w')
      → Lives d n rs w'
  moves :
      {n : ℕ} {rs : List Runtime} {w : Process} (i : ℕ)
      → Lives d n rs w
      → i < length rs
      → Lives d n
          ((move_runtime (runtime_at rs i)).0 ∷ set rs i (move_runtime (runtime_at rs i)).1)
          w
  assigns :
      {n : ℕ} {rs : List Runtime} {w : Process} (i j : ℕ)
      → Lives d n rs w
      → i < length rs
      → j < length rs
      → i ≢ j
      → Lives d n
          (set
            (set rs i (assign_runtime (runtime_at rs i) (runtime_at rs j) w).0)
            j
            (assign_runtime (runtime_at rs i) (runtime_at rs j) w).1)
          (assign_runtime (runtime_at rs i) (runtime_at rs j) w).2
  destroys :
      {n : ℕ} {rs : List Runtime} {w : Process} (i : ℕ)
      → Lives d n rs w
      → i < length rs
      → Lives d n (remove i rs) (destroy_runtime (runtime_at rs i) w)
  adds :
      {n : ℕ} {rs : List Runtime} {w : Process} (i id n_rx n_tx : ℕ) (pool : Option ℕ)
      → Lives d n rs w
      → i < length rs
      → Lives d n
          (set rs i (add_port d id n_rx n_tx pool (runtime_at rs i) w).1)
          (add_port d id n_rx n_tx pool (runtime_at rs i) w).2

abbrev pub owns : Runtime → ℕ
owns r = if r.owns_eal then 1 else 0

abbrev pub owners : List Runtime → ℕ
owners [] = 0
owners (r ∷ rs) = owns r + owners rs

abbrev pub cleaning : Call → ℕ
cleaning c = elim c [ eal_cleanup ↦ 1 | _ ↦ 0 ]

abbrev pub cleanups : List Call → ℕ
cleanups calls = total cleaning calls

pub cleaning-SetupFree : SetupFree cleaning
cleaning-SetupFree = record {
  validity = λ i. refl;
  configure = λ i a b. refl;
  adjust = λ i. refl;
  info = λ i. refl;
  rx = λ i q. refl;
  tx = λ i q. refl;
  start = λ i. refl;
}

pub owners-set :
    (rs : List Runtime) (i : ℕ) (r : Runtime)
    → i < length rs
    → owners (set rs i r) + owns (runtime_at rs i) ≡ owners rs + owns r
owners-set [] i r h = absurd (omega arith)
owners-set (q ∷ qs) zero r h = omega arith
owners-set (q ∷ qs) (suc i) r h = omega (arith, owners-set qs i r (omega arith))

pub owners-remove :
    (rs : List Runtime) (i : ℕ)
    → i < length rs
    → owners (remove i rs) + owns (runtime_at rs i) ≡ owners rs
owners-remove [] i h = absurd (omega arith)
owners-remove (q ∷ qs) zero h = omega arith
owners-remove (q ∷ qs) (suc i) h = omega (arith, owners-remove qs i (omega arith))
