-- ===== src/Runtime/Args/Reader/RoundTrip.antt =====
-- What the reader reads of the arguments that `build_eal_args` prints.
use dpdk_wrapper_library.Base.{
  ℕ, ◌≡◌, refl, ◌∙◌, ap, List, [], ◌∷◌, ◌++◌, Option, none, some, Bool, true, false, Text, codes,
  read_number, read_number-to_string, to_string,
}
use dpdk_wrapper_library.Runtime.Args.{
  EalProcType, primary, secondary, auto_detect, EalIovaMode, pa, va, RuntimeParams, append_opt,
  append_opt_number, append_flag, append_repeated, proc_type_text, iova_mode_text, append_proc_type,
  append_iova_mode, valued_args, build_eal_args,
}
use mathlib.Core.List.{append-nil, append_assoc}
use dpdk_wrapper_library.Runtime.Args.Reader.{
  flag_of, read_proc_type, read_iova_mode, set_value, scan, named, read_args, announced_flag,
  announced,
}

-- The arguments so far have been read as `p`.
abbrev Reads : List Text → RuntimeParams → Type 0
Reads args p = (rest : List Text) → read_args (args ++ rest) ≡ scan none rest p

module _ (args : List Text) (flag : Text) (p : RuntimeParams) (reads : Reads args p) where
  append_opt-Reads :
      (o : Option Text) (put : Option Text → RuntimeParams)
      → p ≡ put none
      → ((v : Text) (rest : List Text)
          → scan none (flag ∷ v ∷ rest) p ≡ scan none rest (put (some v)))
      → Reads (append_opt args flag o) (put o)
  unfolding append_opt
  append_opt-Reads none put same step rest = reads rest ∙ ap (scan none rest) same
  append_opt-Reads (some v) put same step rest =
      ap read_args (append_assoc args (flag ∷ v ∷ []) rest) ∙ reads (flag ∷ v ∷ rest) ∙ step v rest

  append_opt_number-Reads :
      (o : Option ℕ) (put : Option ℕ → RuntimeParams)
      → p ≡ put none
      → ((v : Text) (rest : List Text)
          → scan none (flag ∷ v ∷ rest) p ≡ scan none rest (put (some (read_number v))))
      → Reads (append_opt_number args flag o) (put o)
  unfolding append_opt_number
  append_opt_number-Reads none put same step rest = reads rest ∙ ap (scan none rest) same
  append_opt_number-Reads (some n) put same step rest =
      ap read_args (append_assoc args (flag ∷ to_string n ∷ []) rest)
      ∙ reads (flag ∷ to_string n ∷ rest)
      ∙ step (to_string n) rest
      ∙ ap (λ (m : ℕ). scan none rest (put (some m))) (read_number-to_string n)

  append_flag-Reads :
      (o : Option Bool) (put : Option Bool → RuntimeParams)
      → p ≡ put none
      → ((rest : List Text) → scan none (flag ∷ rest) p ≡ scan none rest (put (some true)))
      → Reads (append_flag args flag o) (put (announced_flag o))
  unfolding append_flag
  append_flag-Reads none put same step rest = reads rest ∙ ap (scan none rest) same
  append_flag-Reads (some false) put same step rest = reads rest ∙ ap (scan none rest) same
  append_flag-Reads (some true) put same step rest =
      ap read_args (append_assoc args (flag ∷ []) rest) ∙ reads (flag ∷ rest) ∙ step rest

append_repeated-Reads :
    (flag : Text) (put : List Text → RuntimeParams)
    → ((vs : List Text) (v : Text) (rest : List Text)
        → scan none (flag ∷ v ∷ rest) (put vs) ≡ scan none rest (put (vs ++ v ∷ [])))
    → (args vs ws : List Text) → Reads args (put vs)
    → Reads (append_repeated args flag ws) (put (vs ++ ws))
unfolding append_repeated
append_repeated-Reads flag put step args vs [] reads = rw (append-nil vs) reads
append_repeated-Reads flag put step args vs (w ∷ ws) reads =
    let more : Reads (args ++ flag ∷ w ∷ []) (put (vs ++ w ∷ [])) = λ rest.
      ap read_args (append_assoc args (flag ∷ w ∷ []) rest)
      ∙ reads (flag ∷ w ∷ rest)
      ∙ step vs w rest in
    rw⁻¹ (append_assoc vs (w ∷ []) ws)
      (append_repeated-Reads flag put step (args ++ flag ∷ w ∷ []) (vs ++ w ∷ []) ws more)

append_proc_type-Reads :
    (args : List Text) (o : Option EalProcType) (p : RuntimeParams)
    → p.proc_type ≡ none
    → Reads args p
    → Reads (append_proc_type args o) (record p { proc_type = o })
unfolding append_proc_type proc_type_text scan flag_of set_value read_proc_type
append_proc_type-Reads args none p fresh reads rest =
    reads rest ∙ ap (λ (o : Option EalProcType). scan none rest (record p { proc_type = o })) fresh
append_proc_type-Reads args (some t) p fresh reads rest =
    ap read_args (append_assoc args _ rest)
    ∙ reads (codes "--proc-type" ∷ proc_type_text t ∷ rest)
    ∙ known t
  where
    known :
        (u : EalProcType)
        → scan none (codes "--proc-type" ∷ proc_type_text u ∷ rest) p
          ≡ scan none rest (record p { proc_type = some u })
    known primary = refl
    known secondary = refl
    known auto_detect = refl

append_iova_mode-Reads :
    (args : List Text) (o : Option EalIovaMode) (p : RuntimeParams)
    → p.iova_mode ≡ none
    → Reads args p
    → Reads (append_iova_mode args o) (record p { iova_mode = o })
unfolding append_iova_mode iova_mode_text scan flag_of set_value read_iova_mode
append_iova_mode-Reads args none p fresh reads rest =
    reads rest ∙ ap (λ (o : Option EalIovaMode). scan none rest (record p { iova_mode = o })) fresh
append_iova_mode-Reads args (some m) p fresh reads rest =
    ap read_args (append_assoc args _ rest)
    ∙ reads (codes "--iova-mode" ∷ iova_mode_text m ∷ rest)
    ∙ known m
  where
    known :
        (u : EalIovaMode)
        → scan none (codes "--iova-mode" ∷ iova_mode_text u ∷ rest) p
          ≡ scan none rest (record p { iova_mode = some u })
    known pa = refl
    known va = refl

module _ (p : RuntimeParams) where
  abbrev valued : RuntimeParams
  valued = record p {
    no_huge = none;
    no_pci = none;
    in_memory = none;
    pci_allow = [];
    pci_block = [];
    vdevs = [];
    extra_args = [];
  }

  valued_args-Reads : Reads (valued_args p) valued
  unfolding valued_args scan flag_of set_value read_args
  valued_args-Reads =
      let n = p.program_name in
      let p₀ = named n in
      let r₀ : Reads (n ∷ []) p₀ = λ rest. refl in
      let a₁ = append_opt (n ∷ []) (codes "-l") p.core_list in
      let p₁ : RuntimeParams = record p₀ { core_list = p.core_list } in
      let r₁ : Reads a₁ p₁ =
        append_opt-Reads (n ∷ []) (codes "-l") p₀ r₀ p.core_list
          (λ (o : Option Text). record p₀ { core_list = o }) refl (λ v rest. refl) in
      let a₂ = append_opt_number a₁ (codes "--main-lcore") p.main_lcore in
      let p₂ : RuntimeParams = record p₁ { main_lcore = p.main_lcore } in
      let r₂ : Reads a₂ p₂ =
        append_opt_number-Reads a₁ (codes "--main-lcore") p₁ r₁ p.main_lcore
          (λ (o : Option ℕ). record p₁ { main_lcore = o }) refl (λ v rest. refl) in
      let a₃ = append_opt_number a₂ (codes "-n") p.n_memory_channels in
      let p₃ : RuntimeParams = record p₂ { n_memory_channels = p.n_memory_channels } in
      let r₃ : Reads a₃ p₃ =
        append_opt_number-Reads a₂ (codes "-n") p₂ r₂ p.n_memory_channels
          (λ (o : Option ℕ). record p₂ { n_memory_channels = o }) refl (λ v rest. refl) in
      let a₄ = append_opt_number a₃ (codes "-m") p.legacy_mem_mb in
      let p₄ : RuntimeParams = record p₃ { legacy_mem_mb = p.legacy_mem_mb } in
      let r₄ : Reads a₄ p₄ =
        append_opt_number-Reads a₃ (codes "-m") p₃ r₃ p.legacy_mem_mb
          (λ (o : Option ℕ). record p₃ { legacy_mem_mb = o }) refl (λ v rest. refl) in
      let a₅ = append_opt a₄ (codes "--socket-mem") p.socket_mem in
      let p₅ : RuntimeParams = record p₄ { socket_mem = p.socket_mem } in
      let r₅ : Reads a₅ p₅ =
        append_opt-Reads a₄ (codes "--socket-mem") p₄ r₄ p.socket_mem
          (λ (o : Option Text). record p₄ { socket_mem = o }) refl (λ v rest. refl) in
      let a₆ = append_opt a₅ (codes "--socket-limit") p.socket_limit in
      let p₆ : RuntimeParams = record p₅ { socket_limit = p.socket_limit } in
      let r₆ : Reads a₆ p₆ =
        append_opt-Reads a₅ (codes "--socket-limit") p₅ r₅ p.socket_limit
          (λ (o : Option Text). record p₅ { socket_limit = o }) refl (λ v rest. refl) in
      let a₇ = append_opt a₆ (codes "--huge-dir") p.huge_dir in
      let p₇ : RuntimeParams = record p₆ { huge_dir = p.huge_dir } in
      let r₇ : Reads a₇ p₇ =
        append_opt-Reads a₆ (codes "--huge-dir") p₆ r₆ p.huge_dir
          (λ (o : Option Text). record p₆ { huge_dir = o }) refl (λ v rest. refl) in
      let a₈ = append_opt a₇ (codes "--file-prefix") p.file_prefix in
      let p₈ : RuntimeParams = record p₇ { file_prefix = p.file_prefix } in
      let r₈ : Reads a₈ p₈ =
        append_opt-Reads a₇ (codes "--file-prefix") p₇ r₇ p.file_prefix
          (λ (o : Option Text). record p₇ { file_prefix = o }) refl (λ v rest. refl) in
      let a₉ = append_proc_type a₈ p.proc_type in
      let p₉ : RuntimeParams = record p₈ { proc_type = p.proc_type } in
      let r₉ : Reads a₉ p₉ = append_proc_type-Reads a₈ p.proc_type p₈ refl r₈ in
      let b₁ = append_iova_mode a₉ p.iova_mode in
      let q₁ : RuntimeParams = record p₉ { iova_mode = p.iova_mode } in
      let s₁ : Reads b₁ q₁ = append_iova_mode-Reads a₉ p.iova_mode p₉ refl r₉ in
      append_opt-Reads b₁ (codes "--log-level") q₁ s₁ p.log_level
        (λ (o : Option Text). record q₁ { log_level = o }) refl (λ v rest. refl)

  -- The arguments that the EAL gets, read back, give every parameter that is set, a flag only if it
  -- is on, and then what the extra arguments say.
  pub read_args-build_eal_args : read_args (build_eal_args p) ≡ scan none p.extra_args (announced p)
  unfolding build_eal_args scan flag_of set_value
  read_args-build_eal_args =
      let b₂ = valued_args p in
      let b₃ = append_flag b₂ (codes "--no-huge") p.no_huge in
      let q₃ : RuntimeParams = record valued { no_huge = announced_flag p.no_huge } in
      let s₃ : Reads b₃ q₃ =
        append_flag-Reads b₂ (codes "--no-huge") valued valued_args-Reads p.no_huge
          (λ (o : Option Bool). record valued { no_huge = o }) refl (λ rest. refl) in
      let b₄ = append_flag b₃ (codes "--no-pci") p.no_pci in
      let q₄ : RuntimeParams = record q₃ { no_pci = announced_flag p.no_pci } in
      let s₄ : Reads b₄ q₄ =
        append_flag-Reads b₃ (codes "--no-pci") q₃ s₃ p.no_pci
          (λ (o : Option Bool). record q₃ { no_pci = o }) refl (λ rest. refl) in
      let b₅ = append_flag b₄ (codes "--in-memory") p.in_memory in
      let q₅ : RuntimeParams = record q₄ { in_memory = announced_flag p.in_memory } in
      let s₅ : Reads b₅ q₅ =
        append_flag-Reads b₄ (codes "--in-memory") q₄ s₄ p.in_memory
          (λ (o : Option Bool). record q₄ { in_memory = o }) refl (λ rest. refl) in
      let b₆ = append_repeated b₅ (codes "-a") p.pci_allow in
      let q₆ : RuntimeParams = record q₅ { pci_allow = p.pci_allow } in
      let s₆ : Reads b₆ q₆ =
        append_repeated-Reads (codes "-a") (λ (l : List Text). record q₅ { pci_allow = l })
          (λ vs v rest. refl) b₅ [] p.pci_allow s₅ in
      let b₇ = append_repeated b₆ (codes "-b") p.pci_block in
      let q₇ : RuntimeParams = record q₆ { pci_block = p.pci_block } in
      let s₇ : Reads b₇ q₇ =
        append_repeated-Reads (codes "-b") (λ (l : List Text). record q₆ { pci_block = l })
          (λ vs v rest. refl) b₆ [] p.pci_block s₆ in
      let s₈ : Reads (append_repeated b₇ (codes "--vdev") p.vdevs) (announced p) =
        append_repeated-Reads (codes "--vdev") (λ (l : List Text). record q₇ { vdevs = l })
          (λ vs v rest. refl) b₇ [] p.vdevs s₇ in
      s₈ p.extra_args
