-- ===== src/Runtime/Life/Order.antt =====
-- The order in which a runtime goes.
use dpdk_wrapper_library.Base.{
  ◌≡◌, refl, ◌∙◌, sym, ap, List, [], ◌∷◌, ◌++◌, false, if◌then◌else◌, arith, inl, inr, Bool-cases,
}
use dpdk_wrapper_library.Port.Device.Weights.{total-append}
use dpdk_wrapper_library.Port.Device.{Call, dev_stop, dev_close, eal_cleanup, Port, release_device}
use dpdk_wrapper_library.Runtime.Life.{
  Process, Runtime, destroy_ports, tear_down, drop_ports, destroy_runtime,
}
use mathlib.Core.List.{append-nil, append_assoc}
use dpdk_wrapper_library.Runtime.Life.Objects.{cleaning, cleanups}

-- The calls that bring down the ports
abbrev pub closings : List Port → List Call
closings [] = []
closings (p ∷ ps) =
    (if p.owns_device then dev_stop p.port_id ∷ dev_close p.port_id ∷ [] else []) ++ closings ps

destroy_ports-closings :
    (ps : List Port) (calls : List Call) → destroy_ports ps calls ≡ calls ++ closings ps
unfolding destroy_ports release_device
destroy_ports-closings [] calls = sym (append-nil calls)
destroy_ports-closings (p ∷ ps) calls = elim (Bool-cases p.owns_device) [
  | inl owned ↦ rw owned (destroy_ports-closings ps _ ∙ append_assoc calls _ (closings ps))
  | inr other ↦ rw other (destroy_ports-closings ps calls)
]

cleanups-closings : (ps : List Port) → cleanups (closings ps) ≡ 0
cleanups-closings [] = refl
cleanups-closings (p ∷ ps) = elim (Bool-cases p.owns_device) [
  | inl owned ↦ rw owned (omega (arith, cleanups-closings ps))
  | inr other ↦ rw other (cleanups-closings ps)
]

pub cleanups-destroy_ports :
    (ps : List Port) (calls : List Call) → cleanups (destroy_ports ps calls) ≡ cleanups calls
cleanups-destroy_ports ps calls =
    rw (destroy_ports-closings ps calls)
      (omega (arith, total-append cleaning calls (closings ps), cleanups-closings ps))

-- A runtime that owns the EAL gives every port it owns back in order, each stopped before it is
-- closed, and cleans the EAL up as the last call, after which a runtime may be made again; one that
-- does not own it makes no call for the EAL.
pub destroy_runtime-order :
    (r : Runtime) (w : Process)
    → ((destroy_runtime r w).calls
        ≡ w.calls ++ closings r.ports ++ (if r.owns_eal then eal_cleanup ∷ [] else []))
      × ((destroy_runtime r w).exists ≡ (if r.owns_eal then false else w.exists))
unfolding destroy_runtime tear_down drop_ports
destroy_runtime-order r w = elim (Bool-cases r.owns_eal) [
  | inl owned ↦
      rw owned (
        ap (λ (l : List Call). l ++ eal_cleanup ∷ []) (destroy_ports-closings r.ports w.calls),
        refl,
      )
  | inr other ↦ rw other (destroy_ports-closings r.ports w.calls ∙ sym (append-nil _), refl)
]
