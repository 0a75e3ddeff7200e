-- ===== src/Runtime/Args.antt =====
-- `build_eal_args` of src/runtime.cpp.
pub mod Reader
use dpdk_wrapper_library.Base.{
  ℕ, List, [], ◌∷◌, ◌++◌, Option, none, some, Bool, true, false, ◌&&◌, if◌then◌else◌, Text, codes,
  to_string,
}

pub data EalProcType : Type 0 where
  primary secondary auto_detect : EalProcType

pub data EalIovaMode : Type 0 where
  pa va : EalIovaMode

pub record RuntimeParams : Type 0 where
  pub program_name : Text
  pub core_list : Option Text
  pub main_lcore : Option ℕ
  pub n_memory_channels : Option ℕ
  pub legacy_mem_mb : Option ℕ
  pub socket_mem : Option Text
  pub socket_limit : Option Text
  pub huge_dir : Option Text
  pub file_prefix : Option Text
  pub proc_type : Option EalProcType
  pub iova_mode : Option EalIovaMode
  pub log_level : Option Text
  pub no_huge : Option Bool
  pub no_pci : Option Bool
  pub in_memory : Option Bool
  pub pci_allow : List Text
  pub pci_block : List Text
  pub vdevs : List Text
  pub extra_args : List Text

-- The two forms of append_opt
unfoldable pub append_opt : List Text → Text → Option Text → List Text
append_opt args flag none = args
append_opt args flag (some value) = args ++ flag ∷ value ∷ []

unfoldable pub append_opt_number : List Text → Text → Option ℕ → List Text
append_opt_number args flag none = args
append_opt_number args flag (some value) = args ++ flag ∷ to_string value ∷ []

unfoldable pub append_flag : List Text → Text → Option Bool → List Text
append_flag args flag none = args
append_flag args flag (some value) = if value then args ++ flag ∷ [] else args

unfoldable pub append_repeated : List Text → Text → List Text → List Text
append_repeated args flag [] = args
append_repeated args flag (v ∷ vs) = append_repeated (args ++ flag ∷ v ∷ []) flag vs

unfoldable pub proc_type_text : EalProcType → Text
proc_type_text primary = codes "primary"
proc_type_text secondary = codes "secondary"
proc_type_text auto_detect = codes "auto"

unfoldable pub iova_mode_text : EalIovaMode → Text
iova_mode_text pa = codes "pa"
iova_mode_text va = codes "va"

unfoldable pub append_proc_type : List Text → Option EalProcType → List Text
append_proc_type args none = args
append_proc_type args (some t) = args ++ codes "--proc-type" ∷ proc_type_text t ∷ []

unfoldable pub append_iova_mode : List Text → Option EalIovaMode → List Text
append_iova_mode args none = args
append_iova_mode args (some m) = args ++ codes "--iova-mode" ∷ iova_mode_text m ∷ []

-- The options with a value, in the order of the source
unfoldable pub valued_args : RuntimeParams → List Text
valued_args p =
    let a₁ = append_opt (p.program_name ∷ []) (codes "-l") p.core_list in
    let a₂ = append_opt_number a₁ (codes "--main-lcore") p.main_lcore in
    let a₃ = append_opt_number a₂ (codes "-n") p.n_memory_channels in
    let a₄ = append_opt_number a₃ (codes "-m") p.legacy_mem_mb in
    let a₅ = append_opt a₄ (codes "--socket-mem") p.socket_mem in
    let a₆ = append_opt a₅ (codes "--socket-limit") p.socket_limit in
    let a₇ = append_opt a₆ (codes "--huge-dir") p.huge_dir in
    let a₈ = append_opt a₇ (codes "--file-prefix") p.file_prefix in
    let a₉ = append_proc_type a₈ p.proc_type in
    let b₁ = append_iova_mode a₉ p.iova_mode in append_opt b₁ (codes "--log-level") p.log_level

unfoldable pub build_eal_args : RuntimeParams → List Text
unfolding valued_args
build_eal_args p =
    let b₂ = valued_args p in
    let b₃ = append_flag b₂ (codes "--no-huge") p.no_huge in
    let b₄ = append_flag b₃ (codes "--no-pci") p.no_pci in
    let b₅ = append_flag b₄ (codes "--in-memory") p.in_memory in
    let b₆ = append_repeated b₅ (codes "-a") p.pci_allow in
    let b₇ = append_repeated b₆ (codes "-b") p.pci_block in
    let b₈ = append_repeated b₇ (codes "--vdev") p.vdevs in b₈ ++ p.extra_args
