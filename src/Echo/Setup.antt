-- ===== src/Echo/Setup.antt =====
-- The constructor of the server of examples/tcp_echo_server.h.
use dpdk_wrapper_library.Base.{
  ℕ, zero, suc, ◌+◌, List, [], ◌∷◌, Option, none, some, Bool, true, false, replicate,
}
use dpdk_wrapper_library.Echo.Inbound.{WorkItem, Inbound}
use dpdk_wrapper_library.Echo.Outbound.{Outbound}
use dpdk_wrapper_library.Echo.Server.{new_inbound}
use dpdk_wrapper_library.Port.Device.{Port, claim_rx_queue, claim_tx_queue}
use dpdk_wrapper_library.Port.{Claim, no_such_queue, already_claimed, claims}
use dpdk_wrapper_library.Tcp.Receiver.State.{Receiver, new_receiver}
use dpdk_wrapper_library.Tcp.Stack.{
  TcpStack, StackError, Result, ok, err, PortInfo, TcpParams, new_stack, take_receiver, take_sender,
  listen,
}

-- What the members hold after the constructor; `rxqs_` has a handle for each queue, null where it was
-- claimed before.
pub record Server : Type 0 where
  pub stack : TcpStack
  pub receiver : Receiver
  pub inbound : Inbound
  pub outbound : Outbound
  pub rxqs : List (Option ℕ)

pub data SetupError : Type 0 where
  queue_missing : SetupError
  stack_threw : StackError → SetupError

pub data Setup (A : Type 0) : Type 0 where
  ready : A → Setup A
  threw : SetupError → Setup A

infixl 5 ◌>>=◌
abbrev ◌>>=◌ : {A B : Type 0} → Setup A → (A → Setup B) → Setup B
ready a >>= f = f a
threw e >>= f = threw e

from_stack : {A : Type 0} → Result A → Setup A
from_stack (ok a) = ready a
from_stack (err e) = threw (stack_threw e)

-- Whether the handle is null, and the port
handle_of : Claim × Port → Setup (Option ℕ × Port)
handle_of (no_such_queue, p) = threw queue_missing
handle_of (already_claimed, p) = ready (none, p)
handle_of (claims id, p) = ready (some id, p)

given : Option ℕ → Bool
given none = false
given (some id) = true

-- The rx queues `q`, `q + 1`, ..., of which `n` are left
claim_all_rx : ℕ → ℕ → Port → Setup (List (Option ℕ) × Port)
unfolding handle_of claim_rx_queue
claim_all_rx zero q p = ready ([], p)
claim_all_rx (suc n) q p = do
  (h, p₁) ← handle_of (claim_rx_queue q p)
  (hs, p₂) ← claim_all_rx n (q + 1) p₁
  ready (h ∷ hs, p₂)

unfoldable pub new_server : WorkItem → PortInfo → Port → ℕ → ℕ → TcpParams → Setup (Server × Port)
unfolding from_stack handle_of given claim_all_rx claim_tx_queue
new_server junk info p n_queues listen_port params = do
  (st₀, slots) ← from_stack (new_stack info params)
  (control, p₁) ← handle_of (claim_tx_queue 0 p)
  st₁ ← from_stack (take_receiver st₀ (given control))
  (data_queue, p₂) ← handle_of (claim_tx_queue 1 p₁)
  st₂ ← from_stack (take_sender st₁ (given data_queue))
  st₃ ← from_stack (listen st₂ listen_port)
  (rxqs, p₃) ← claim_all_rx n_queues 0 p₂
  ready (
    record {
      stack = st₃;
      receiver = new_receiver st₀ slots;
      inbound = new_inbound junk;
      outbound = record {
        sender = record {
          slots = slots;
          world = record { allocs = 0; bursts = 0; rands = 0 };
          trace = [];
        };
        released = replicate params.max_connections 0;
      };
      rxqs = rxqs;
    },
    p₃,
  )
