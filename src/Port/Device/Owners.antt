-- ===== src/Port/Device/Owners.antt =====
-- Every device that a port started is stopped and closed once, whatever moves are made of it.
use dpdk_wrapper_library.Base.{
  ℕ, zero, suc, ◌+◌, ◌<◌, ◌≡◌, ◌≢◌, refl, List, [], ◌∷◌, Option, none, false, ◌&&◌, ◌==◌,
  if◌then◌else◌, arith, length, get_or, set, inl, inr, Bool-cases,
}
use dpdk_wrapper_library.Port.Device.Weights.{total, total-append, SetupFree}
use dpdk_wrapper_library.Port.Device.{
  Call, dev_stop, dev_close, Answers, PortError, made, threw, Port, new_port, release_device,
  move_port, assign_port, destroy_port,
}

abbrev pub no_port : Port
no_port = record {
  port_id = 0;
  pool = none;
  rx = record { claimed = []; cursor = 0 };
  tx = record { claimed = []; cursor = 0 };
  ipv4_addr = none;
  owns_device = false;
}

abbrev pub remove : ℕ → List Port → List Port
remove i [] = []
remove zero (p ∷ ps) = ps
remove (suc i) (p ∷ ps) = p ∷ remove i ps

abbrev pub port_at : List Port → ℕ → Port
port_at ports i = get_or ports i no_port

-- The ids of the ports constructed, the objects that are alive, and the calls made, for any sequence
-- of constructions, moves, assignments and destructions.
pub data Lives (d : Answers) : List ℕ → List Port → List Call → Type 0 where
  begins : Lives d [] [] []
  creates :
      {ids : List ℕ} {ports : List Port} {calls calls' : List Call} (id n_rx n_tx : ℕ)
      (pool : Option ℕ) (p : Port)
      → Lives d ids ports calls
      → new_port d id n_rx n_tx pool calls ≡ (made p, calls')
      → Lives d (id ∷ ids) (p ∷ ports) calls'
  fails :
      {ids : List ℕ} {ports : List Port} {calls calls' : List Call} (id n_rx n_tx : ℕ)
      (pool : Option ℕ) (e : PortError)
      → Lives d ids ports calls
      → new_port d id n_rx n_tx pool calls ≡ (threw e, calls')
      → Lives d ids ports calls'
  moves :
      {ids : List ℕ} {ports : List Port} {calls : List Call} (i : ℕ)
      → Lives d ids ports calls
      → i < length ports
      → Lives d ids
          ((move_port (port_at ports i)).0 ∷ set ports i (move_port (port_at ports i)).1)
          calls
  assigns :
      {ids : List ℕ} {ports : List Port} {calls : List Call} (i j : ℕ)
      → Lives d ids ports calls
      → i < length ports
      → j < length ports
      → i ≢ j
      → Lives d ids
          (set
            (set ports i (assign_port (port_at ports i) (port_at ports j) calls).0)
            j
            (assign_port (port_at ports i) (port_at ports j) calls).1)
          (assign_port (port_at ports i) (port_at ports j) calls).2
  destroys :
      {ids : List ℕ} {ports : List Port} {calls : List Call} (i : ℕ)
      → Lives d ids ports calls
      → i < length ports
      → Lives d ids (remove i ports) (destroy_port (port_at ports i) calls)

module _ (id : ℕ) where
  abbrev pub count_id : List ℕ → ℕ
  count_id [] = 0
  count_id (i ∷ is) = (if i == id then 1 else 0) + count_id is

  abbrev pub owns : Port → ℕ
  owns p = if p.owns_device && (p.port_id == id) then 1 else 0

  abbrev pub owners : List Port → ℕ
  owners [] = 0
  owners (p ∷ ps) = owns p + owners ps

  abbrev pub closing : Call → ℕ
  closing c = elim c [ dev_close q ↦ if q == id then 1 else 0 | _ ↦ 0 ]

  abbrev pub stopping : Call → ℕ
  stopping c = elim c [ dev_stop q ↦ if q == id then 1 else 0 | _ ↦ 0 ]

  abbrev pub closes : List Call → ℕ
  closes calls = total closing calls

  abbrev pub stops : List Call → ℕ
  stops calls = total stopping calls

  pub closing-SetupFree : SetupFree closing
  closing-SetupFree = record {
    validity = λ i. refl;
    configure = λ i a b. refl;
    adjust = λ i. refl;
    info = λ i. refl;
    rx = λ i q. refl;
    tx = λ i q. refl;
    start = λ i. refl;
  }

  pub stopping-SetupFree : SetupFree stopping
  stopping-SetupFree = record {
    validity = λ i. refl;
    configure = λ i a b. refl;
    adjust = λ i. refl;
    info = λ i. refl;
    rx = λ i q. refl;
    tx = λ i q. refl;
    start = λ i. refl;
  }

  pub owners-set :
      (ports : List Port) (i : ℕ) (p : Port)
      → i < length ports
      → owners (set ports i p) + owns (port_at ports i) ≡ owners ports + owns p
  owners-set [] i p h = absurd (omega arith)
  owners-set (q ∷ qs) zero p h = omega arith
  owners-set (q ∷ qs) (suc i) p h = omega (arith, owners-set qs i p (omega arith))

  pub owners-remove :
      (ports : List Port) (i : ℕ)
      → i < length ports
      → owners (remove i ports) + owns (port_at ports i) ≡ owners ports
  owners-remove [] i h = absurd (omega arith)
  owners-remove (q ∷ qs) zero h = omega arith
  owners-remove (q ∷ qs) (suc i) h = omega (arith, owners-remove qs i (omega arith))

  pub closes-release_device :
      (p : Port) (calls : List Call)
      → (closes (release_device p calls) ≡ closes calls + owns p)
        × (stops (release_device p calls) ≡ stops calls + owns p)
  unfolding release_device
  closes-release_device p calls = elim (Bool-cases p.owns_device) [
    | inl owned ↦
        let c = total-append closing calls (dev_stop p.port_id ∷ dev_close p.port_id ∷ []) in
        let s = total-append stopping calls (dev_stop p.port_id ∷ dev_close p.port_id ∷ []) in
        rw owned (omega (arith, c), omega (arith, s))
    | inr not_owned ↦ rw not_owned (omega arith, omega arith)
  ]
