-- ===== src/Tcp/FlowTable/Examples.antt =====
-- A flow table with two flows, one of which goes.
use dpdk_wrapper_library.Probe.{bit_ceil, probe}
use dpdk_wrapper_library.Base.{ℕ, suc, ◌≡◌, ◌≢◌, refl, List, [], ◌∷◌, ◌==◌, if◌then◌else◌, arith}
use dpdk_wrapper_library.Tcp.FlowTable.History.{
  new-IsTable, FlowChange, comes, goes, run, meaning, Fits, run-new,
}
use dpdk_wrapper_library.Tcp.FlowTable.Map.{find-insert, insert-IsTable, find-erase}
use dpdk_wrapper_library.Tcp.FlowTable.Table.{IsTable}
use dpdk_wrapper_library.Tcp.FlowTable.{FlowTable, npos, new, home, find, insert, erase}

abbrev two_flows : FlowTable
two_flows = insert (insert (new 2) 5 0) 9 1

abbrev come_and_go : List FlowChange
come_and_go = comes 5 0 ∷ comes 9 1 ∷ goes 5 ∷ []

two_flows-find : find (erase two_flows 5) 9 ≡ 1
unfolding erase insert new find probe bit_ceil home
two_flows-find = refl

nonzero : (n : ℕ) → suc n ≢ 0
nonzero n e = absurd (omega arith)

one_flow-IsTable : IsTable (insert (new 2) 5 0)
unfolding new bit_ceil
one_flow-IsTable = insert-IsTable (new 2) (new-IsTable 2) 5 0 (nonzero 4) (omega arith)

two_flows-IsTable : IsTable two_flows
unfolding new bit_ceil insert probe home
two_flows-IsTable =
    insert-IsTable (insert (new 2) 5 0) one_flow-IsTable 9 1 (nonzero 8) (omega arith)

find-insert_example :
    find (insert (insert (new 2) 5 0) 9 1) 9 ≡ (if 9 == 9 then 1 else find (insert (new 2) 5 0) 9)
unfolding new bit_ceil insert probe home
find-insert_example =
    find-insert (insert (new 2) 5 0) one_flow-IsTable 9 1 (nonzero 8) (omega arith) 9 (nonzero 8)

find-erase_example :
    IsTable (erase two_flows 5)
    × (find (erase two_flows 5) 9 ≡ (if 5 == 9 then npos else find two_flows 9))
find-erase_example = find-erase two_flows two_flows-IsTable 5 (nonzero 4) 9 (nonzero 8)

run-new_example : find (run (new 2) come_and_go) 9 ≡ meaning (λ _. npos) come_and_go 9
unfolding new bit_ceil insert erase Fits probe home
run-new_example =
    run-new 2 come_and_go (nonzero 4, omega arith, (nonzero 8, omega arith, (nonzero 4, tt))) 9
      (nonzero 8)
