-- ===== src/Tap/Netmask.antt =====
-- The netmask of a prefix.
use dpdk_wrapper_library.Base.{false, ℕ, zero, suc, ◌+◌, ◌-◌, ◌^◌, ◌≤◌, ◌≡◌, refl, arith, ◌==◌}
use dpdk_wrapper_library.Tap.{netmask}
use native.Mathlib.Numerals.{unary_clauses}

power-positive : (n : ℕ) → 1 ≤ 2 ^ n
power-positive zero = omega arith
power-positive (suc n) = simp unary_clauses (omega (arith, power-positive n))

power_mono : (n k : ℕ) → 2 ^ n ≤ 2 ^ (n + k)
power_mono n zero = simp unary_clauses (omega arith)
power_mono n (suc k) = simp unary_clauses (omega (arith, power_mono n k))

-- The mask of a prefix of at most 32 bits has the ones in front and a zero for each bit of the host
-- part, a prefix of no bits included.
pub netmask-hosts :
    (prefix_len : ℕ) → prefix_len ≤ 32 → netmask prefix_len + 2 ^ (32 - prefix_len) ≡ 2 ^ 32
unfolding netmask
netmask-hosts zero h = refl
netmask-hosts (suc n) h =
    let hosts = 2 ^ (32 - suc n) in
    let some_host = power-positive (32 - suc n) in
    let sum : 32 - suc n + n ≡ 31 = omega arith in
    let half : hosts ≤ 2 ^ 31 = rw sum at (power_mono (32 - suc n) n) in
    let some_bits : suc n == 0 ≡ false = ground arith in
    rw (netmask, some_bits) (omega (arith, some_host, half))
