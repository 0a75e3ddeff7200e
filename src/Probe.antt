-- ===== src/Probe.antt =====
-- What the open-addressing tables of src/arp.cpp and src/tcp_stack.cpp share: their power-of-two
-- size, and the walk from a home slot to the key that is looked for or to an empty slot (key 0).
pub mod Ring
pub mod Walk
pub mod Runs
pub mod Gap
use dpdk_wrapper_library.Base.{
  ℕ, zero, suc, ◌+◌, ◌*◌, Option, none, some, ◌||◌, bit_and, leb, ◌==◌, if◌then◌else◌,
}

double_until : ℕ → ℕ → ℕ → ℕ
double_until zero n p = p
double_until (suc fuel) n p = let rest = double_until fuel n (p * 2) in if leb n p then p else rest

-- std::bit_ceil: `n` doublings reach every `n`.
unfoldable pub bit_ceil : ℕ → ℕ
unfolding double_until
bit_ceil n = double_until n n 1

-- `for (i = home;; i = (i + 1) & mask)`, up to a slot that holds `k` or is empty. `none` means that
-- the fuel ran out.
unfoldable pub probe : (ℕ → ℕ) → ℕ → ℕ → ℕ → ℕ → Option ℕ
probe key mask zero i k = none
probe key mask (suc fuel) i k =
    let rest = probe key mask fuel (bit_and (i + 1) mask) k in
    if key i == k || key i == 0 then some i else rest
