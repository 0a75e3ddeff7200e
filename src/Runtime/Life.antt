-- ===== src/Runtime/Life.antt =====
-- The constructor, the moves and the destructor of `runtime`, its pools and its ports, in
-- src/runtime.cpp. The runtime's state is what `g_runtime_exists` and the calls made so far say.
pub mod Objects
pub mod Order
pub mod Effects
pub mod Single
pub mod Lookup
use dpdk_wrapper_library.Base.{
  ℕ, zero, suc, ◌+◌, List, [], ◌∷◌, ◌++◌, Option, none, some, Bool, true, false, ◌==◌,
  if◌then◌else◌, length, Text, codes, to_string,
}
use dpdk_wrapper_library.Port.Device.{
  Call, is_valid_port, pool_create, eal_init, eal_cleanup, Answers, make, PortError, Outcome, made,
  threw, Port, new_port, release_device,
}
use dpdk_wrapper_library.Runtime.Args.{RuntimeParams, build_eal_args}

pub record Process : Type 0 where
  pub exists : Bool
  pub calls : List Call

pub record Runtime : Type 0 where
  pub owns_eal : Bool
  pub ports : List Port

pub data RuntimeError : Type 0 where
  only_one eal_init_failed invalid_port pool_failed no_such_port : RuntimeError
  port_threw : PortError → RuntimeError

pub data Result (A : Type 0) : Type 0 where
  ok : A → Result A
  err : RuntimeError → Result A

unfoldable pub new_runtime : Answers → RuntimeParams → Process → Result Runtime × Process
unfolding make
new_runtime d params w =
    if w.exists
    then (err only_one, w)
    else (let (good, calls) = make d (eal_init (build_eal_args params)) w.calls in
        if good
        then (ok (record { owns_eal = true; ports = [] }), record { exists = true; calls = calls })
        else (err eal_init_failed, record { exists = false; calls = calls }))

-- `ports_.clear()`, or the destructor of the member
unfoldable pub destroy_ports : List Port → List Call → List Call
destroy_ports [] calls = calls
destroy_ports (p ∷ ps) calls = destroy_ports ps (release_device p calls)

-- The ports go first, and the EAL last.
unfoldable pub tear_down : Runtime → Process → Process
unfolding destroy_ports
tear_down r w = record { exists = false; calls = destroy_ports r.ports w.calls ++ eal_cleanup ∷ [] }

-- What the destructor of a runtime without the EAL still does: that of its ports.
unfoldable pub drop_ports : Runtime → Process → Process
unfolding destroy_ports
drop_ports r w = record w { calls = destroy_ports r.ports w.calls }

unfoldable pub destroy_runtime : Runtime → Process → Process
unfolding tear_down drop_ports
destroy_runtime r w = if r.owns_eal then tear_down r w else drop_ports r w

abbrev pub left_behind : Runtime
left_behind = record { owns_eal = false; ports = [] }

-- The new runtime and what is left of `other`
unfoldable pub move_runtime : Runtime → Runtime × Runtime
move_runtime other = (other, left_behind)

-- Assignment to a runtime that is another object; to itself it does nothing. The ports of a runtime
-- without the EAL go when the new ones come.
unfoldable pub assign_runtime : Runtime → Runtime → Process → Runtime × Runtime × Process
unfolding tear_down drop_ports
assign_runtime this other w =
    (other, left_behind, if this.owns_eal then tear_down this w else drop_ports this w)

-- A pool is known by the number of the call that created it.
unfoldable pub create_pool : Answers → Text → Process → Result ℕ × Process
unfolding make
create_pool d name w =
    let (good, calls) = make d (pool_create name) w.calls in
    (if good then ok (length calls) else err pool_failed, record w { calls = calls })

unfoldable pub make_default_pool : Answers → ℕ → Process → Result ℕ × Process
unfolding make create_pool
make_default_pool d id w =
    let (valid, calls) = make d (is_valid_port id) w.calls in
    let w' = record w { calls = calls } in
    if valid
    then create_pool d (codes "PORT_" ++ (to_string id ++ codes "_POOL")) w'
    else (err invalid_port, w')

added : Runtime → Process → Outcome Port × List Call → Result Port × Runtime × Process
added r w (made p, calls) =
    (ok p, record r { ports = r.ports ++ p ∷ [] }, record w { calls = calls })
added r w (threw e, calls) = (err (port_threw e), r, record w { calls = calls })

-- The form with a pool: the new port is the last of the deque.
unfoldable pub add_port :
    Answers → ℕ → ℕ → ℕ → Option ℕ → Runtime → Process → Result Port × Runtime × Process
unfolding added
add_port d id n_rx n_tx pool r w = added r w (new_port d id n_rx n_tx pool w.calls)

-- The form that makes a pool
unfoldable pub add_port_with_pool :
    Answers → ℕ → ℕ → ℕ → Runtime → Process → Result Port × Runtime × Process
unfolding make_default_pool add_port
add_port_with_pool d id n_rx n_tx r w =
    let (pool, w') = make_default_pool d id w in
    elim pool [ ok i ↦ add_port d id n_rx n_tx (some i) r w' | err e ↦ (err e, r, w') ]

find_port : List Port → ℕ → Result Port
find_port [] id = err no_such_port
find_port (p ∷ ps) id = let rest = find_port ps id in if p.port_id == id then ok p else rest

unfoldable pub get_port : Runtime → ℕ → Result Port
unfolding find_port
get_port r id = find_port r.ports id
