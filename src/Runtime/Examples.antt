-- ===== src/Runtime/Examples.antt =====
-- A runtime with one port, on a DPDK that grants everything but a third tx queue.
use dpdk_wrapper_library.Base.{
  ◌+◌, ◌≤◌, ◌≡◌, refl, List, [], ◌∷◌, ◌++◌, none, some, true, false, not, arith, codes, to_string,
  ◌==◌, if◌then◌else◌, ◌⊎◌,
}
use dpdk_wrapper_library.Port.Device.Balance.{Lives-balanced}
use dpdk_wrapper_library.Port.Device.Owners
use dpdk_wrapper_library.Port.Device.Owners.{count_id, owners, closes, stops, port_at}
use dpdk_wrapper_library.Port.Device.Setup.{plan, attempt, fresh_port, new_port-attempt}
use dpdk_wrapper_library.Port.Device.{
  Call, eal_cleanup, tx_queue_setup, Answers, tx_setup_failed, made, threw, Port, new_port,
  move_port, destroy_port,
}
use dpdk_wrapper_library.Runtime.Args.Reader.{scan, read_args, announced}
use dpdk_wrapper_library.Runtime.Args.Reader.RoundTrip.{read_args-build_eal_args}
use dpdk_wrapper_library.Runtime.Args.{
  RuntimeParams, build_eal_args, primary, append_repeated, append_flag, append_opt,
  append_iova_mode, append_proc_type, append_opt_number, proc_type_text,
}
use dpdk_wrapper_library.Runtime.Life.Lookup.{First, NonePorts, get_port-First}
use dpdk_wrapper_library.Runtime.Life.Objects
use dpdk_wrapper_library.Runtime.Life.Objects.{cleanups}
use dpdk_wrapper_library.Runtime.Life.Order.{closings, destroy_runtime-order}
use dpdk_wrapper_library.Runtime.Life.Single.{Lives-single}
use dpdk_wrapper_library.Runtime.Life.{
  Process, Runtime, ok, err, no_such_port, new_runtime, destroy_runtime, get_port,
}

abbrev answers : Answers
answers = record { succeeds = λ calls c. elim c [ tx_queue_setup id q ↦ not (q == 2) | _ ↦ true ] }

-- The constructor stops at the queue that the driver refuses.
third_queue : (new_port answers 0 1 3 none []).0 ≡ threw (tx_setup_failed 2)
unfolding new_port
third_queue = refl

new_port-attempt_example : new_port answers 0 1 3 none [] ≡ (
  elim (attempt answers (plan 0 1 3) []).0 [
    | none ↦ made (fresh_port 0 1 3 none)
    | some e ↦ threw e
  ],
  (attempt answers (plan 0 1 3) []).1,
)
new_port-attempt_example = new_port-attempt answers 0 1 3 none []

abbrev one_port : Port
one_port = fresh_port 7 1 1 none

abbrev after_setup : List Call
after_setup = (new_port answers 7 1 1 none []).1

-- One port is constructed, moved and destroyed where it now is.
moved_port :
    Owners.Lives answers (7 ∷ []) ((move_port one_port).1 ∷ []) (destroy_port one_port after_setup)
unfolding new_port move_port
moved_port =
    Owners.destroys 0
      (Owners.moves 0 (Owners.creates 7 1 1 none one_port Owners.begins refl) (omega arith))
      (omega arith)

Lives-balanced_example :
    (count_id 7 (7 ∷ [])
      ≡ owners 7 ((move_port one_port).1 ∷ []) + closes 7 (destroy_port one_port after_setup))
    × (stops 7 (destroy_port one_port after_setup) ≡ closes 7 (destroy_port one_port after_setup))
Lives-balanced_example = Lives-balanced moved_port 7

abbrev params : RuntimeParams
params = record {
  program_name = codes "app";
  core_list = some (codes "0-3");
  main_lcore = none;
  n_memory_channels = some 4;
  legacy_mem_mb = none;
  socket_mem = none;
  socket_limit = none;
  huge_dir = none;
  file_prefix = none;
  proc_type = some primary;
  iova_mode = none;
  log_level = none;
  no_huge = some true;
  no_pci = some false;
  in_memory = none;
  pci_allow = [];
  pci_block = [];
  vdevs = codes "net_ring0" ∷ codes "net_tap0" ∷ [];
  extra_args = [];
}

printed :
    build_eal_args params
    ≡ codes "app"
      ∷ codes "-l"
      ∷ codes "0-3"
      ∷ codes "-n"
      ∷ codes "4"
      ∷ codes "--proc-type"
      ∷ codes "primary"
      ∷ codes "--no-huge"
      ∷ codes "--vdev"
      ∷ codes "net_ring0"
      ∷ codes "--vdev"
      ∷ codes "net_tap0"
      ∷ []
unfolding build_eal_args to_string append_repeated append_flag append_opt append_iova_mode
    append_proc_type append_opt_number proc_type_text
printed = refl

read_args-build_eal_args_example :
    read_args (build_eal_args params) ≡ scan none [] (announced params)
read_args-build_eal_args_example = read_args-build_eal_args params

abbrev started : Process
started = (new_runtime answers params (record { exists = false; calls = [] })).1

abbrev runtime : Runtime
runtime = record { owns_eal = true; ports = [] }

one_runtime : Objects.Lives answers 1 (runtime ∷ []) started
unfolding new_runtime
one_runtime = Objects.creates params runtime Objects.begins refl

Lives-single_example :
    (Objects.owners (runtime ∷ []) ≤ 1)
    × (Objects.owners (runtime ∷ []) ≡ (if started.exists then 1 else 0))
    × (1 ≡ Objects.owners (runtime ∷ []) + cleanups started.calls)
Lives-single_example = Lives-single one_runtime

abbrev with_port : Runtime
with_port = record { owns_eal = true; ports = one_port ∷ [] }

destroy_runtime-order_example :
    ((destroy_runtime with_port started).calls
      ≡ started.calls
        ++ closings with_port.ports
        ++ (if with_port.owns_eal then eal_cleanup ∷ [] else []))
    × ((destroy_runtime with_port started).exists
        ≡ (if with_port.owns_eal then false else started.exists))
destroy_runtime-order_example = destroy_runtime-order with_port started

get_port-First_example :
    ((p : Port) × First 7 with_port.ports p × (get_port with_port 7 ≡ ok p))
    ⊎ (NonePorts 7 with_port.ports × (get_port with_port 7 ≡ err no_such_port))
get_port-First_example = get_port-First with_port 7
