-- ===== src/Arp/Fresh.antt =====
-- The neighbor table as its constructor leaves it.
use dpdk_wrapper_library.Arp.Table.{occupied, IsTable}
use dpdk_wrapper_library.Arp.{no_neighbor, new_table}
use dpdk_wrapper_library.Base.{
  ℕ, zero, suc, ◌*◌, ◌<◌, ◌≡◌, refl, if◌then◌else◌, arith, ltb, length, get_or, replicate,
  length-replicate,
}
use dpdk_wrapper_library.Probe.Ring.{bit_ceil-Doubling, bit_ceil-reaches}
use dpdk_wrapper_library.Probe.{bit_ceil}

occupied-replicate : (n : ℕ) → occupied (replicate n no_neighbor) ≡ 0
occupied-replicate zero = refl
occupied-replicate (suc n) = omega (arith, occupied-replicate n)

ip-replicate : (n i : ℕ) → (get_or (replicate n no_neighbor) i no_neighbor).ip ≡ 0
ip-replicate zero i = refl
ip-replicate (suc n) zero = refl
ip-replicate (suc n) (suc i) = ip-replicate n i

pub new_table-IsTable : (capacity : ℕ) → IsTable (new_table capacity)
unfolding new_table
new_table-IsTable capacity =
    let wanted = if ltb (capacity * 2) 2 then 2 else capacity * 2 in
    let n = bit_ceil wanted in
    let size : length (replicate n no_neighbor) ≡ n = length-replicate n no_neighbor in
    let enough : capacity < wanted = ground arith in
    record {
      power = rw size (bit_ceil-Doubling wanted);
      masked = rw size refl;
      counted = occupied-replicate n;
      room = omega arith;
      spare = rw size (omega (arith, enough, bit_ceil-reaches wanted));
      filed = λ i full. absurd (full (ip-replicate n i));
    }
