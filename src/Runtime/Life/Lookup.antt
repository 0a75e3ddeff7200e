-- ===== src/Runtime/Life/Lookup.antt =====
-- `runtime::get_port`.
use dpdk_wrapper_library.Base.{
  ℕ, ◌≡◌, ◌≢◌, refl, ap, List, [], ◌∷◌, ◌++◌, true, false, ◌==◌, arith, ◌⊎◌, inl, inr, ℕ_discrete,
}
use dpdk_wrapper_library.Port.Device.{Port}
use dpdk_wrapper_library.Runtime.Life.{Runtime, ok, err, no_such_port, find_port, get_port}

abbrev pub NonePorts : ℕ → List Port → Type 0
NonePorts id [] = Unit
NonePorts id (p ∷ ps) = (p.port_id ≢ id) × NonePorts id ps

-- `p` is the first of `ports` with this id.
pub record First (id : ℕ) (ports : List Port) (p : Port) : Type 0 where
  pub before : List Port
  pub after : List Port
  pub stands : ports ≡ before ++ p ∷ after
  pub named : p.port_id ≡ id
  pub earlier : NonePorts id before

find_port-First :
    (ports : List Port) (id : ℕ)
    → ((p : Port) × First id ports p × (find_port ports id ≡ ok p))
      ⊎ (NonePorts id ports × (find_port ports id ≡ err no_such_port))
unfolding find_port
find_port-First [] id = inr (tt, refl)
find_port-First (p ∷ ps) id = elim (ℕ_discrete p.port_id id) [
  | yes same ↦
      let hit : p.port_id == id ≡ true = ground arith in
      inl (
        p,
        record { before = []; after = ps; stands = refl; named = same; earlier = tt },
        rw hit refl,
      )
  | no other ↦
      let miss : p.port_id == id ≡ false = ground arith in
      elim (find_port-First ps id) [
        | inl (q, f, e) ↦ inl (
          q,
          record {
            before = p ∷ f.before;
            after = f.after;
            stands = ap (◌∷◌ p) f.stands;
            named = f.named;
            earlier = (other, f.earlier);
          },
          rw miss e,
        )
        | inr (none_named, e) ↦ inr ((other, none_named), rw miss e)
      ]
]

-- Either some port of the runtime has this id, and the first of them is found, or none has and the
-- call throws.
pub get_port-First :
    (r : Runtime) (id : ℕ)
    → ((p : Port) × First id r.ports p × (get_port r id ≡ ok p))
      ⊎ (NonePorts id r.ports × (get_port r id ≡ err no_such_port))
unfolding get_port
get_port-First r id = find_port-First r.ports id
