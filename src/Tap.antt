-- ===== src/Tap.antt =====
-- src/tap_interface.cpp. What it asks of the kernel and of rte_flow is a trace of calls; the answers are
-- a parameter.
pub mod Closed
pub mod Netmask
mod Examples
use dpdk_wrapper_library.Base.{
  ℕ, ◌+◌, ◌-◌, ◌*◌, ◌^◌, List, [], ◌∷◌, ◌++◌, Option, none, some, Bool, true, false, ◌||◌, ltb, leb,
  ◌==◌, if◌then◌else◌, u32, bit_or, length, Text,
}

pub data SystemCall : Type 0 where
  opens_socket closes_socket gets_flags : SystemCall
  sets_address sets_netmask sets_flags : ℕ → SystemCall
  creates_flow : ℕ → ℕ → SystemCall

-- Does a call succeed, given the calls before, and which flags does the kernel report?
pub record Kernel : Type 0 where
  pub succeeds : List SystemCall → SystemCall → Bool
  pub flags : ℕ

pub data TapError : Type 0 where
  bad_name bad_prefix socket_failed address_failed netmask_failed get_flags_failed : TapError
  set_flags_failed flow_failed : TapError

-- IFNAMSIZ
abbrev pub max_name : ℕ
max_name = 16

-- IFF_UP
abbrev pub up_flag : ℕ
up_flag = 1

unfoldable pub netmask : ℕ → ℕ
netmask prefix_len = if prefix_len == 0 then 0 else u32 ((2 ^ 32 - 1) * 2 ^ (32 - prefix_len))

-- A throw, and the destructor of `socket_fd` on the way out
unfoldable pub leave : Option TapError → List SystemCall → Option TapError × List SystemCall
leave result calls = (result, calls ++ closes_socket ∷ [])

-- An ioctl on the socket, and what is done when it succeeds
unfoldable pub control :
    Kernel
    → SystemCall
    → TapError
    → List SystemCall
    → (List SystemCall → Option TapError × List SystemCall)
    → Option TapError × List SystemCall
unfolding leave
control k c e calls next = elim (k.succeeds calls c) [
  | true ↦ next (calls ++ c ∷ [])
  | false ↦ leave (some e) (calls ++ c ∷ [])
]

-- With the socket open
unfoldable pub set_up : Kernel → ℕ → ℕ → List SystemCall → Option TapError × List SystemCall
unfolding control leave netmask
set_up k addr prefix_len calls = control k (sets_address addr) address_failed calls λ c₁.
    control k (sets_netmask (netmask prefix_len)) netmask_failed c₁ λ c₂.
      control k gets_flags get_flags_failed c₂ λ c₃.
        control k (sets_flags (bit_or k.flags up_flag)) set_flags_failed c₃ λ c₄. leave none c₄

-- `none` is success.
unfoldable pub configure_kernel_interface :
    Kernel → Text → ℕ → ℕ → List SystemCall → Option TapError × List SystemCall
unfolding set_up
configure_kernel_interface k ifname addr prefix_len calls =
    if length ifname == 0 || leb max_name (length ifname)
    then (some bad_name, calls)
    else if ltb 32 prefix_len
    then (some bad_prefix, calls)
    else elim (k.succeeds calls opens_socket) [
      | true ↦ set_up k addr prefix_len (calls ++ opens_socket ∷ [])
      | false ↦ (some socket_failed, calls ++ opens_socket ∷ [])
    ]

unfoldable pub steer_rx_to_queue :
    Kernel → ℕ → ℕ → List SystemCall → Option TapError × List SystemCall
steer_rx_to_queue k port_id queue_id calls =
    let c = creates_flow port_id queue_id in
    (if k.succeeds calls c then none else some flow_failed, calls ++ c ∷ [])
