-- ===== src/Runtime/Life/Effects.antt =====
-- What each operation on a runtime does to its owner, and to the count of cleanups.
use dpdk_wrapper_library.Base.{
  ℕ, ◌+◌, ◌≡◌, refl, ◌∙◌, sym, ap, List, [], ◌∷◌, ◌++◌, Option, true, false, if◌then◌else◌, arith,
  inl, inr, Bool-cases,
}
use dpdk_wrapper_library.Port.Device.Weights.{total-append, total-new_port}
use dpdk_wrapper_library.Port.Device.{
  Outcome, made, threw, new_port, Call, eal_init, eal_cleanup, Answers, make, Port,
}
use dpdk_wrapper_library.Runtime.Args.{RuntimeParams, build_eal_args}
use dpdk_wrapper_library.Runtime.Life.{
  Process, Runtime, RuntimeError, only_one, eal_init_failed, Result, ok, err, new_runtime,
  destroy_ports, tear_down, drop_ports, destroy_runtime, add_port, added,
}
use dpdk_wrapper_library.Runtime.Life.Objects.{owns, cleaning, cleanups, cleaning-SetupFree}
use dpdk_wrapper_library.Runtime.Life.Order.{cleanups-destroy_ports}

ok-injective : {r r' : Runtime} → ok r ≡ ok r' → r ≡ r'
ok-injective e = cc

ok-not-err : (r : Runtime) (x : RuntimeError) → ok r ≡ err x → ⊥
ok-not-err r x e = cc

pub new_runtime-ok :
    (d : Answers) (params : RuntimeParams) (w w' : Process) (r : Runtime)
    → new_runtime d params w ≡ (ok r, w')
    → (w.exists ≡ false)
      × (w'.exists ≡ true)
      × (owns r ≡ 1)
      × (cleanups w'.calls ≡ cleanups w.calls)
unfolding new_runtime make
new_runtime-ok d params w w' r e = elim (Bool-cases w.exists) [
  | inl taken ↦
      let e' = rw taken at e in
      absurd (ok-not-err r only_one (ap (λ (x : Result Runtime × Process). x.0) (sym e')))
  | inr fresh ↦
      let init = eal_init (build_eal_args params) in
      elim (Bool-cases (d.succeeds w.calls init)) [
        | inr bad ↦
            let e' = rw (fresh, bad) at e in
            absurd
              (ok-not-err r eal_init_failed (ap (λ (x : Result Runtime × Process). x.0) (sym e')))
        | inl good ↦
            let e' = rw (fresh, good) at e in
            let same_r : record { owns_eal = true; ports = [] } ≡ r =
              ok-injective (ap (λ (x : Result Runtime × Process). x.0) e') in
            let same_w : record { exists = true; calls = w.calls ++ init ∷ [] } ≡ w' =
              ap (λ (x : Result Runtime × Process). x.1) e' in
            (
              fresh,
              ap (λ (x : Process). x.exists) (sym same_w),
              ap owns (sym same_r),
              ap (λ (x : Process). cleanups x.calls) (sym same_w)
                  ∙ omega (arith, total-append cleaning w.calls (init ∷ [])),
            )
      ]
]

pub new_runtime-err :
    (d : Answers) (params : RuntimeParams) (w w' : Process) (x : RuntimeError)
    → new_runtime d params w ≡ (err x, w')
    → (w'.exists ≡ w.exists) × (cleanups w'.calls ≡ cleanups w.calls)
unfolding new_runtime make
new_runtime-err d params w w' x e = elim (Bool-cases w.exists) [
  | inl taken ↦
      let e' = rw taken at e in
      let same_w : record { exists = true; calls = w.calls } ≡ w' =
        ap (λ (x : Result Runtime × Process). x.1) e' in
      (
        ap (λ (x : Process). x.exists) (sym same_w) ∙ sym taken,
        ap (λ (x : Process). cleanups x.calls) (sym same_w),
      )
  | inr fresh ↦
      let init = eal_init (build_eal_args params) in
      elim (Bool-cases (d.succeeds w.calls init)) [
        | inl good ↦
            let e' = rw (fresh, good) at e in
            absurd (ok-not-err _ x (ap (λ (y : Result Runtime × Process). y.0) e'))
        | inr bad ↦
            let e' = rw (fresh, bad) at e in
            let same_w : record { exists = false; calls = w.calls ++ init ∷ [] } ≡ w' =
              ap (λ (x : Result Runtime × Process). x.1) e' in
            (
              ap (λ (x : Process). x.exists) (sym same_w) ∙ sym fresh,
              ap (λ (x : Process). cleanups x.calls) (sym same_w)
                  ∙ omega (arith, total-append cleaning w.calls (init ∷ [])),
            )
      ]
]

pub add_port-keeps :
    (d : Answers) (id n_rx n_tx : ℕ) (pool : Option ℕ) (r : Runtime) (w : Process)
    → (owns (add_port d id n_rx n_tx pool r w).1 ≡ owns r)
      × ((add_port d id n_rx n_tx pool r w).2.exists ≡ w.exists)
      × (cleanups (add_port d id n_rx n_tx pool r w).2.calls ≡ cleanups w.calls)
unfolding add_port added
add_port-keeps d id n_rx n_tx pool r w =
    let built = new_port d id n_rx n_tx pool w.calls in
    by_outcome built
      (total-new_port cleaning cleaning-SetupFree d id n_rx n_tx pool w.calls built.1 built.0 refl)
  where
    by_outcome :
        (o : Outcome Port × List Call)
        → cleanups o.1 ≡ cleanups w.calls
        → (owns (added r w o).1 ≡ owns r)
          × ((added r w o).2.exists ≡ w.exists)
          × (cleanups (added r w o).2.calls ≡ cleanups w.calls)
    by_outcome (made p, c) kept = (refl, refl, kept)
    by_outcome (threw y, c) kept = (refl, refl, kept)

-- What goes with a runtime
pub going :
    (r : Runtime) (w : Process)
    → (cleanups (destroy_runtime r w).calls ≡ cleanups w.calls + owns r)
      × ((destroy_runtime r w).exists ≡ (if r.owns_eal then false else w.exists))
unfolding destroy_runtime tear_down drop_ports
going r w = elim (Bool-cases r.owns_eal) [
  | inl owned ↦ rw owned (
    omega (
      arith,
      total-append cleaning (destroy_ports r.ports w.calls) (eal_cleanup ∷ []),
      cleanups-destroy_ports r.ports w.calls,
    ),
    refl,
  )
  | inr other ↦ rw other (omega (arith, cleanups-destroy_ports r.ports w.calls), refl)
]
