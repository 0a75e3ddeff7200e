-- ===== src/Port/Device/Balance.antt =====
-- The invariant of all port objects together.
use dpdk_wrapper_library.Base.{
  ℕ, ◌+◌, ◌≡◌, refl, ◌∙◌, sym, ap, List, Option, none, some, ◌==◌, if◌then◌else◌, arith, set,
  get_or-set_ne, length-set,
}
use dpdk_wrapper_library.Port.Device.Owners.{
  no_port, port_at, Lives, begins, creates, fails, moves, assigns, destroys, count_id, owns, owners,
  closes, stops, owners-set, owners-remove, closes-release_device, closing, stopping,
  closing-SetupFree, stopping-SetupFree,
}
use dpdk_wrapper_library.Port.Device.Setup.{plan, attempt, new_port-attempt, fresh_port}
use dpdk_wrapper_library.Port.Device.Weights.{total-new_port}
use dpdk_wrapper_library.Port.Device.{
  Call, Answers, PortError, Outcome, made, threw, Port, new_port, moved_from, move_port,
  assign_port,
}

record Balanced (id : ℕ) (ids : List ℕ) (ports : List Port) (calls : List Call) : Type 0 where
  closed : count_id id ids ≡ owners id ports + closes id calls
  stopped : stops id calls ≡ closes id calls

module _ (id : ℕ) where
  owns-moved_from : (p : Port) → owns id (moved_from p) ≡ 0
  unfolding moved_from
  owns-moved_from p = refl

  module _ (d : Answers) (i n_rx n_tx : ℕ) (pool : Option ℕ) (calls calls' : List Call) where
    made-eq :
        (p : Port)
        → new_port d i n_rx n_tx pool calls ≡ (made p, calls')
        → p ≡ fresh_port i n_rx n_tx pool
    made-eq p e =
        by_result (attempt d (plan i n_rx n_tx) calls)
          (sym (new_port-attempt d i n_rx n_tx pool calls) ∙ e)
      where
        by_result :
            (r : Option PortError × List Call)
            → ◌≡◌ {A = Outcome Port × List Call}
                (elim r.0 [ none ↦ made (fresh_port i n_rx n_tx pool) | some x ↦ threw x ], r.1)
                (made p, calls')
            → p ≡ fresh_port i n_rx n_tx pool
        by_result (none, c) h = cc
        by_result (some x, c) h = cc

    quiet :
        (o : Outcome Port)
        → new_port d i n_rx n_tx pool calls ≡ (o, calls')
        → (closes id calls' ≡ closes id calls) × (stops id calls' ≡ stops id calls)
    quiet o e = (
      total-new_port (closing id) (closing-SetupFree id) d i n_rx n_tx pool calls calls' o e,
      total-new_port (stopping id) (stopping-SetupFree id) d i n_rx n_tx pool calls calls' o e,
    )

  balanced :
      {d : Answers} {ids : List ℕ} {ports : List Port} {calls : List Call}
      → Lives d ids ports calls
      → Balanced id ids ports calls
  unfolding move_port assign_port
  balanced begins = record { closed = refl; stopped = refl }
  balanced {d} (creates {ids} {ports} {calls} {calls'} i n_rx n_tx pool p before e) =
      let w = balanced before in
      let (c, s) = quiet d i n_rx n_tx pool calls calls' (made p) e in
      let fresh : owns id p ≡ (if i == id then 1 else 0) =
        ap (owns id) (made-eq d i n_rx n_tx pool calls calls' p e) in
      record { closed = omega (arith, w.closed, c, fresh); stopped = s ∙ w.stopped ∙ sym c }
  balanced {d} (fails {ids} {ports} {calls} {calls'} i n_rx n_tx pool x before e) =
      let w = balanced before in
      let (c, s) = quiet d i n_rx n_tx pool calls calls' (threw x) e in
      record { closed = omega (arith, w.closed, c); stopped = s ∙ w.stopped ∙ sym c }
  balanced (moves {ids} {ports} {calls} i before h) =
      let w = balanced before in
      let taken = owners-set id ports i (moved_from (port_at ports i)) h in
      let left = owns-moved_from (port_at ports i) in
      record { closed = omega (arith, w.closed, taken, left); stopped = w.stopped }
  balanced (assigns {ids} {ports} {calls} i j before hi hj apart) =
      let w = balanced before in
      let to = port_at ports i in
      let from = port_at ports j in
      let first = owners-set id ports i from hi in
      let second =
        owners-set id (set ports i from) j (moved_from from)
          (omega (arith, hj, length-set ports i from)) in
      let kept : port_at (set ports i from) j ≡ from = get_or-set_ne ports i j from no_port apart in
      let same : owns id (port_at (set ports i from) j) ≡ owns id from = ap (owns id) kept in
      let left = owns-moved_from from in
      let (c, s) = closes-release_device id to calls in
      record {
        closed = omega (arith, w.closed, first, second, same, left, c);
        stopped = omega (arith, w.stopped, c, s);
      }
  balanced (destroys {ids} {ports} {calls} i before h) =
      let w = balanced before in
      let (c, s) = closes-release_device id (port_at ports i) calls in
      let gone = owners-remove id ports i h in
      record { closed = omega (arith, w.closed, c, gone); stopped = omega (arith, w.stopped, c, s) }

-- After any sequence of constructions, moves, assignments and destructions of port objects, each
-- device has been stopped as often as closed, and it was constructed as often as it has been closed
-- and is still owned by a living object: no move loses a device or closes it twice, and once no object
-- is left, every device that was started is closed.
pub Lives-balanced :
    {d : Answers} {ids : List ℕ} {ports : List Port} {calls : List Call}
    → Lives d ids ports calls
    → (id : ℕ)
    → (count_id id ids ≡ owners id ports + closes id calls) × (stops id calls ≡ closes id calls)
Lives-balanced run id = let w = balanced id run in (w.closed, w.stopped)
