-- ===== src/Runtime/Life/Single.antt =====
-- One runtime at a time.
use dpdk_wrapper_library.Base.{
  ℕ, ◌+◌, ◌≤◌, ◌≡◌, refl, ◌∙◌, ap, List, if◌then◌else◌, arith, set, get_or-set_ne, length-set, inl,
  inr, Bool-cases,
}
use dpdk_wrapper_library.Port.Device.{Answers}
use dpdk_wrapper_library.Runtime.Life.{
  Process, Runtime, destroy_runtime, left_behind, move_runtime, add_port, assign_runtime,
}
use dpdk_wrapper_library.Runtime.Life.Effects.{
  new_runtime-ok, new_runtime-err, add_port-keeps, going,
}
use dpdk_wrapper_library.Runtime.Life.Objects.{
  runtime_at, Lives, begins, creates, fails, moves, assigns, destroys, adds, owns, owners, cleanups,
  owners-set, owners-remove,
}

-- A runtime that goes gives back what it owns: the EAL, and the right to exist.
record Balanced (n : ℕ) (rs : List Runtime) (w : Process) : Type 0 where
  alive : owners rs ≡ (if w.exists then 1 else 0)
  cleaned : n ≡ owners rs + cleanups w.calls

balanced :
    {d : Answers} {n : ℕ} {rs : List Runtime} {w : Process} → Lives d n rs w → Balanced n rs w
unfolding move_runtime assign_runtime destroy_runtime
balanced begins = record { alive = refl; cleaned = refl }
balanced {d} (creates {n} {rs} {w} {w'} params r before e) =
    let v = balanced before in
    let (fresh, now, owned, kept) = new_runtime-ok d params w w' r e in
    let alone : owners rs ≡ 0 = v.alive ∙ rw fresh refl in
    record {
      alive = rw now (omega (arith, owned, alone));
      cleaned = omega (arith, v.cleaned, owned, kept);
    }
balanced {d} (fails {n} {rs} {w} {w'} params x before e) =
    let v = balanced before in
    let (same, kept) = new_runtime-err d params w w' x e in
    record { alive = rw same v.alive; cleaned = omega (arith, v.cleaned, kept) }
balanced (moves {n} {rs} {w} i before h) =
    let v = balanced before in
    let left = owners-set rs i left_behind h in
    record { alive = omega (arith, v.alive, left); cleaned = omega (arith, v.cleaned, left) }
balanced (assigns {n} {rs} {w} i j before hi hj apart) =
    let v = balanced before in
    let to = runtime_at rs i in
    let from = runtime_at rs j in
    let first = owners-set rs i from hi in
    let second =
      owners-set (set rs i from) j left_behind (omega (arith, hj, length-set rs i from)) in
    let same : owns (runtime_at (set rs i from) j) ≡ owns from =
      ap owns (get_or-set_ne rs i j from left_behind apart) in
    let gone = going to w in
    record {
      alive = elim (Bool-cases to.owns_eal) [
        | inl owned ↦ ground (arith, v.alive, first, second, same, gone.1, owned)
        | inr other ↦ ground (arith, v.alive, first, second, same, gone.1, other)
      ];
      cleaned = omega (arith, v.cleaned, first, second, same, gone.0);
    }
balanced (destroys {n} {rs} {w} i before h) =
    let v = balanced before in
    let gone = owners-remove rs i h in
    let left = going (runtime_at rs i) w in
    let now = left.1 in
    record {
      alive = elim (Bool-cases (runtime_at rs i).owns_eal) [
        | inl owned ↦ ground (arith, v.alive, gone, now, owned)
        | inr other ↦ ground (arith, v.alive, gone, now, other)
      ];
      cleaned = omega (arith, v.cleaned, gone, left.0);
    }
balanced {d} (adds {n} {rs} {w} i id n_rx n_tx pool before h) =
    let v = balanced before in
    let r = runtime_at rs i in
    let (owned, alive, kept) = add_port-keeps d id n_rx n_tx pool r w in
    let same = owners-set rs i (add_port d id n_rx n_tx pool r w).1 h in
    record {
      alive = rw alive (omega (arith, v.alive, same, owned));
      cleaned = omega (arith, v.cleaned, same, owned, kept);
    }

-- After any sequence of constructions, moves, assignments, destructions and added ports, at most one
-- runtime object owns the EAL, exactly one where the process says that a runtime exists, and the EAL
-- has been cleaned up as often as it was brought up, but for the one that is still owned.
pub Lives-single :
    {d : Answers} {n : ℕ} {rs : List Runtime} {w : Process}
    → Lives d n rs w
    → (owners rs ≤ 1)
      × (owners rs ≡ (if w.exists then 1 else 0))
      × (n ≡ owners rs + cleanups w.calls)
Lives-single run = let v = balanced run in (ground (arith, v.alive), v.alive, v.cleaned)
