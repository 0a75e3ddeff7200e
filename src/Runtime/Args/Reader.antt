-- ===== src/Runtime/Args/Reader.antt =====
-- A reader of EAL arguments.
pub mod RoundTrip
use dpdk_wrapper_library.Base.{
  ℕ, ◌≡◌, refl, ◌∙◌, sym, ap, List, [], ◌∷◌, ◌++◌, Option, none, some, Bool, true, false,
  if◌then◌else◌, Text, codes, same_text, read_number, read_number-to_string, to_string,
}
use dpdk_wrapper_library.Runtime.Args.{
  EalProcType, primary, secondary, auto_detect, EalIovaMode, pa, va, RuntimeParams, append_opt,
  append_opt_number, append_flag, append_repeated, proc_type_text, iova_mode_text, append_proc_type,
  append_iova_mode, valued_args, build_eal_args,
}
use mathlib.Core.List.{append-nil, append_assoc}

pub data Flag : Type 0 where
  is_core_list is_main_lcore is_channels is_memory is_socket_mem is_socket_limit is_huge_dir
        is_file_prefix is_proc_type is_iova_mode is_log_level is_no_huge is_no_pci is_in_memory
        is_allow is_block is_vdev unknown :
      Flag

flag_of : Text → Flag
flag_of f =
    if same_text f (codes "-l")
    then is_core_list
    else if same_text f (codes "--main-lcore")
    then is_main_lcore
    else if same_text f (codes "-n")
    then is_channels
    else if same_text f (codes "-m")
    then is_memory
    else if same_text f (codes "--socket-mem")
    then is_socket_mem
    else if same_text f (codes "--socket-limit")
    then is_socket_limit
    else if same_text f (codes "--huge-dir")
    then is_huge_dir
    else if same_text f (codes "--file-prefix")
    then is_file_prefix
    else if same_text f (codes "--proc-type")
    then is_proc_type
    else if same_text f (codes "--iova-mode")
    then is_iova_mode
    else if same_text f (codes "--log-level")
    then is_log_level
    else if same_text f (codes "--no-huge")
    then is_no_huge
    else if same_text f (codes "--no-pci")
    then is_no_pci
    else if same_text f (codes "--in-memory")
    then is_in_memory
    else if same_text f (codes "-a")
    then is_allow
    else if same_text f (codes "-b")
    then is_block
    else if same_text f (codes "--vdev")
    then is_vdev
    else unknown

read_proc_type : Text → EalProcType
read_proc_type v =
    if same_text v (codes "primary")
    then primary
    else if same_text v (codes "secondary")
    then secondary
    else auto_detect

read_iova_mode : Text → EalIovaMode
read_iova_mode v = if same_text v (codes "va") then va else pa

-- An option that takes a value
set_value : Flag → Text → RuntimeParams → RuntimeParams
unfolding read_proc_type read_iova_mode
set_value f v p = elim f [
  | is_core_list ↦ record p { core_list = some v }
  | is_main_lcore ↦ record p { main_lcore = some (read_number v) }
  | is_channels ↦ record p { n_memory_channels = some (read_number v) }
  | is_memory ↦ record p { legacy_mem_mb = some (read_number v) }
  | is_socket_mem ↦ record p { socket_mem = some v }
  | is_socket_limit ↦ record p { socket_limit = some v }
  | is_huge_dir ↦ record p { huge_dir = some v }
  | is_file_prefix ↦ record p { file_prefix = some v }
  | is_proc_type ↦ record p { proc_type = some (read_proc_type v) }
  | is_iova_mode ↦ record p { iova_mode = some (read_iova_mode v) }
  | is_log_level ↦ record p { log_level = some v }
  | is_allow ↦ record p { pci_allow = p.pci_allow ++ v ∷ [] }
  | is_block ↦ record p { pci_block = p.pci_block ++ v ∷ [] }
  | is_vdev ↦ record p { vdevs = p.vdevs ++ v ∷ [] }
  | _ ↦ p
]

-- The options of a command line onto `p`, where an option may be waiting for its value; `none` where
-- one is not known or lacks its value.
pub scan : Option Flag → List Text → RuntimeParams → Option RuntimeParams
unfolding flag_of set_value
scan none [] p = some p
scan (some f) [] p = none
scan (some f) (v ∷ rest) p = scan none rest (set_value f v p)
scan none (t ∷ rest) p = elim (flag_of t) [
  | is_no_huge ↦ scan none rest (record p { no_huge = some true })
  | is_no_pci ↦ scan none rest (record p { no_pci = some true })
  | is_in_memory ↦ scan none rest (record p { in_memory = some true })
  | unknown ↦ none
  | f ↦ scan (some f) rest p
]

abbrev named : Text → RuntimeParams
named name = record {
  program_name = name;
  core_list = none;
  main_lcore = none;
  n_memory_channels = none;
  legacy_mem_mb = none;
  socket_mem = none;
  socket_limit = none;
  huge_dir = none;
  file_prefix = none;
  proc_type = none;
  iova_mode = none;
  log_level = none;
  no_huge = none;
  no_pci = none;
  in_memory = none;
  pci_allow = [];
  pci_block = [];
  vdevs = [];
  extra_args = [];
}

pub read_args : List Text → Option RuntimeParams
unfolding scan
read_args [] = none
read_args (name ∷ args) = scan none args (named name)

-- There is no way to say that a flag is off.
abbrev pub announced_flag : Option Bool → Option Bool
announced_flag none = none
announced_flag (some b) = if b then some true else none

-- What the arguments say of the parameters, the extra arguments aside
abbrev pub announced : RuntimeParams → RuntimeParams
announced p = record p {
  no_huge = announced_flag p.no_huge;
  no_pci = announced_flag p.no_pci;
  in_memory = announced_flag p.in_memory;
  extra_args = [];
}
