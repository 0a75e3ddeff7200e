-- ===== src/Arp/Examples.antt =====
-- A neighbor table that learns one address, and one ARP request that is answered.
use dpdk_wrapper_library.Arp.Fresh.{new_table-IsTable}
use dpdk_wrapper_library.Arp.Learning.{Learned, learn-Learned}
use dpdk_wrapper_library.Arp.Merge.{Updated, update_if_present-Updated, Kept, handle_arp-Kept}
use dpdk_wrapper_library.Arp.Table.{find_slot-stops}
use dpdk_wrapper_library.Arp.{
  new_table, learn, find_slot, update_if_present, handle_arp, read32, replied, build_arp,
}
use dpdk_wrapper_library.Base.{ℕ, ◌≡◌, some, arith, refl, ◌==◌, ◌∷◌, [], ◌++◌, replicate}
use dpdk_wrapper_library.Packet.{EtherAddr, Mbuf, World}
use dpdk_wrapper_library.Tcp.Samples.{driver}

abbrev mac : EtherAddr
mac = record { b0 = 2; b1 = 0; b2 = 0; b3 = 0; b4 = 0; b5 = 1 }

learn-Learned_example : Learned (new_table 4) 0x0a000002 mac (learn (new_table 4) 0x0a000002 mac)
learn-Learned_example =
    learn-Learned (new_table 4) 0x0a000002 mac (new_table-IsTable 4) (λ e. absurd (omega arith))

find_slot-stops_example : (s : ℕ) × (find_slot (new_table 4) 0x0a000002 ≡ some s)
find_slot-stops_example = find_slot-stops (new_table 4) (new_table-IsTable 4) 0x0a000002

-- An ARP request of 10.0.0.2 for 10.0.0.1
abbrev request : Mbuf
request = record {
  bytes =
      replicate 12 0
      ++ (0x08 ∷ 0x06 ∷ 0 ∷ 1 ∷ 8 ∷ 0 ∷ 6 ∷ 4 ∷ 0 ∷ 1 ∷ 2 ∷ 0 ∷ 0 ∷ 0 ∷ 0 ∷ 1 ∷ 10 ∷ 0 ∷ 0 ∷ 2 ∷ [])
      ++ (replicate 6 0 ++ (10 ∷ 0 ∷ 0 ∷ 1 ∷ []));
  tail = [];
  nb_segs = 1;
  l2_len = 0;
  l3_len = 0;
}

abbrev start : World
start = record { allocs = 0; bursts = 0; rands = 0 }

answered : (handle_arp driver start request mac 0x0a000001 (new_table 4)).result ≡ replied
unfolding handle_arp new_table build_arp
answered = refl

update_if_present-Updated_example :
    Updated (new_table 4) 0x0a000002 mac (update_if_present (new_table 4) 0x0a000002 mac)
update_if_present-Updated_example =
    update_if_present-Updated (new_table 4) 0x0a000002 mac (new_table-IsTable 4)

handle_arp-Kept_example :
    Kept
      (new_table 4)
      (read32 request.bytes 28)
      (read32 request.bytes 38 == 0x0a000001)
      (handle_arp driver start request mac 0x0a000001 (new_table 4)).neighbors
handle_arp-Kept_example =
    handle_arp-Kept driver start request mac 0x0a000001 (new_table 4) (new_table-IsTable 4)
