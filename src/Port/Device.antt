-- ===== src/Port/Device.antt =====
-- The constructor, the moves and the destructor of `port` in src/port.cpp. What they ask of DPDK is a
-- trace of calls; the answers are a parameter. Lifetimes of pools are left out: a pool is its id.
pub mod Setup
pub mod Weights
pub mod Owners
pub mod Balance
use dpdk_wrapper_library.Base.{
  ℕ, zero, suc, ◌+◌, List, [], ◌∷◌, ◌++◌, Option, none, some, Bool, true, false, not, if◌then◌else◌,
  Text,
}
use dpdk_wrapper_library.Port.{Queues, new_queues, claim_next, Claim, claim_by_id}

-- The calls that can fail, and those that bring down a device or the EAL
pub data Call : Type 0 where
  is_valid_port : ℕ → Call
  dev_configure : ℕ → ℕ → ℕ → Call
  adjust_nb_desc : ℕ → Call
  dev_info_get : ℕ → Call
  rx_queue_setup tx_queue_setup : ℕ → ℕ → Call
  dev_start dev_stop dev_close : ℕ → Call
  pool_create : Text → Call
  eal_init : List Text → Call
  eal_cleanup : Call

-- The answer to a call, given the calls before: does it succeed?
pub record Answers : Type 0 where
  pub succeeds : List Call → Call → Bool

-- `make` asks DPDK and records the call.
unfoldable pub make : Answers → Call → List Call → Bool × List Call
make d c calls = (d.succeeds calls c, calls ++ c ∷ [])

pub data PortError : Type 0 where
  not_a_port configure_failed adjust_failed info_failed start_failed : PortError
  rx_setup_failed tx_setup_failed : ℕ → PortError

pub data Outcome (A : Type 0) : Type 0 where
  made : A → Outcome A
  threw : PortError → Outcome A

pub record Port : Type 0 where
  pub port_id : ℕ
  pub pool : Option ℕ
  pub rx : Queues
  pub tx : Queues
  pub ipv4_addr : Option ℕ
  pub owns_device : Bool

-- A step of the constructor that throws `e` where the call fails
unfoldable pub require :
    {A : Type 0}
    → Answers
    → Call
    → PortError
    → List Call
    → (List Call → Outcome A × List Call)
    → Outcome A × List Call
unfolding make
require d c e calls next =
    let (good, calls') = make d c calls in
    elim good [ true ↦ next calls' | false ↦ (threw e, calls') ]

-- The loops over the queues `q`, `q + 1`, ..., of which `n` are left
unfoldable pub set_up_rx :
    {A : Type 0}
    → Answers
    → ℕ
    → ℕ
    → ℕ
    → List Call
    → (List Call → Outcome A × List Call)
    → Outcome A × List Call
unfolding require
set_up_rx d id zero q calls next = next calls
set_up_rx d id (suc n) q calls next =
    require d (rx_queue_setup id q) (rx_setup_failed q) calls
      (λ calls'. set_up_rx d id n (q + 1) calls' next)

unfoldable pub set_up_tx :
    {A : Type 0}
    → Answers
    → ℕ
    → ℕ
    → ℕ
    → List Call
    → (List Call → Outcome A × List Call)
    → Outcome A × List Call
unfolding require
set_up_tx d id zero q calls next = next calls
set_up_tx d id (suc n) q calls next =
    require d (tx_queue_setup id q) (tx_setup_failed q) calls
      (λ calls'. set_up_tx d id n (q + 1) calls' next)

unfoldable pub new_port : Answers → ℕ → ℕ → ℕ → Option ℕ → List Call → Outcome Port × List Call
unfolding require set_up_rx set_up_tx
new_port d id n_rx n_tx pool calls = require d (is_valid_port id) not_a_port calls λ c₁.
    require d (dev_configure id n_rx n_tx) configure_failed c₁ λ c₂.
      require d (adjust_nb_desc id) adjust_failed c₂ λ c₃.
        require d (dev_info_get id) info_failed c₃ λ c₄. set_up_rx d id n_rx 0 c₄ λ c₅.
          set_up_tx d id n_tx 0 c₅ λ c₆. require d (dev_start id) start_failed c₆ λ c₇. (
            made (record {
              port_id = id;
              pool = pool;
              rx = new_queues n_rx;
              tx = new_queues n_tx;
              ipv4_addr = none;
              owns_device = true;
            }),
            c₇,
          )

-- What a move leaves behind: vectors and the pool are empty, the rest stays.
unfoldable pub moved_from : Port → Port
moved_from p = record p {
  pool = none;
  rx = record (p.rx) { claimed = [] };
  tx = record (p.tx) { claimed = [] };
  owns_device = false;
}

-- The new port and what is left of `other`
unfoldable pub move_port : Port → Port × Port
unfolding moved_from
move_port other = (other, moved_from other)

unfoldable pub release_device : Port → List Call → List Call
release_device p calls =
    if p.owns_device then calls ++ dev_stop p.port_id ∷ dev_close p.port_id ∷ [] else calls

-- The destructor
abbrev pub destroy_port : Port → List Call → List Call
destroy_port p calls = release_device p calls

-- Assignment to a port that is another object; to itself it does nothing.
unfoldable pub assign_port : Port → Port → List Call → Port × Port × List Call
unfolding moved_from release_device
assign_port this other calls = (other, moved_from other, release_device this calls)

-- The queue handles
pub claim_next_rx : Port → Option ℕ × Port
claim_next_rx p = let (q, rx) = claim_next p.rx in (q, record p { rx = rx })

pub claim_next_tx : Port → Option ℕ × Port
claim_next_tx p = let (q, tx) = claim_next p.tx in (q, record p { tx = tx })

unfoldable pub claim_rx_queue : ℕ → Port → Claim × Port
claim_rx_queue id p = let (c, rx) = claim_by_id p.rx id in (c, record p { rx = rx })

unfoldable pub claim_tx_queue : ℕ → Port → Claim × Port
claim_tx_queue id p = let (c, tx) = claim_by_id p.tx id in (c, record p { tx = tx })

pub set_ipv4_address : ℕ → Port → Port
set_ipv4_address addr p = record p { ipv4_addr = some addr }
