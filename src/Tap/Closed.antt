-- ===== src/Tap/Closed.antt =====
-- The ioctl socket is closed on every path.
use dpdk_wrapper_library.Base.{
  ℕ, ◌≡◌, refl, List, [], ◌∷◌, ◌++◌, Option, none, some, true, false, ◌||◌, ltb, leb, ◌==◌, length,
  Text, ◌⊎◌, inl, inr, Bool-cases, bit_or,
}
use dpdk_wrapper_library.Tap.{
  SystemCall, opens_socket, closes_socket, gets_flags, sets_address, sets_netmask, sets_flags,
  Kernel, TapError, bad_name, bad_prefix, socket_failed, address_failed, netmask_failed,
  get_flags_failed, set_flags_failed, up_flag, netmask, max_name, leave, control, set_up,
  configure_kernel_interface,
}
use mathlib.Core.List.{append_assoc}

-- The four ioctls of a configuration, and the error of each
abbrev pub ioctls : Kernel → ℕ → ℕ → List SystemCall
ioctls k addr prefix_len =
    sets_address addr
    ∷ sets_netmask (netmask prefix_len)
    ∷ gets_flags
    ∷ sets_flags (bit_or k.flags up_flag)
    ∷ []

-- How a configuration ends that got as far as the socket: it is opened first and closed last, and in
-- between stands a front of the four ioctls, all of them if there is no error.
pub record Enclosed (k : Kernel) (addr prefix_len : ℕ) (calls : List SystemCall)
    (r : Option TapError × List SystemCall) : Type 0 where
  pub made : List SystemCall
  pub rest : List SystemCall
  pub shape : r.1 ≡ calls ++ opens_socket ∷ (made ++ closes_socket ∷ [])
  pub front : ioctls k addr prefix_len ≡ made ++ rest
  pub all : r.0 ≡ none → rest ≡ []

not-none : (e : TapError) → some e ≡ none → ⊥
not-none e h = cc

module _ (k : Kernel) (addr prefix_len : ℕ) (calls : List SystemCall) where
  failed-Enclosed :
      (e : TapError) (made rest trace : List SystemCall)
      → ioctls k addr prefix_len ≡ made ++ rest
      → trace ≡ calls ++ opens_socket ∷ (made ++ closes_socket ∷ [])
      → Enclosed k addr prefix_len calls (some e, trace)
  failed-Enclosed e made rest trace front shape = record {
    made = made;
    rest = rest;
    shape = shape;
    front = front;
    all = λ h. absurd (not-none e h);
  }

  whole-Enclosed :
      (trace : List SystemCall)
      → trace ≡ calls ++ opens_socket ∷ (ioctls k addr prefix_len ++ closes_socket ∷ [])
      → Enclosed k addr prefix_len calls (none, trace)
  whole-Enclosed trace shape = record {
    made = ioctls k addr prefix_len;
    rest = [];
    shape = shape;
    front = refl;
    all = λ h. refl;
  }

  control_good :
      (c : SystemCall) (e : TapError) (before : List SystemCall)
      (next : List SystemCall → Option TapError × List SystemCall)
      → k.succeeds before c ≡ true
      → control k c e before next ≡ next (before ++ c ∷ [])
  unfolding control
  control_good c e before next good = rw (control, good) refl

  control_bad :
      (c : SystemCall) (e : TapError) (before : List SystemCall)
      (next : List SystemCall → Option TapError × List SystemCall)
      → k.succeeds before c ≡ false
      → control k c e before next ≡ leave (some e) (before ++ c ∷ [])
  unfolding control
  control_bad c e before next bad = rw (control, bad) refl

  ends :
      {r r' : Option TapError × List SystemCall}
      → r ≡ r'
      → Enclosed k addr prefix_len calls r'
      → Enclosed k addr prefix_len calls r
  ends same enclosed = rw same enclosed

  set_up-Enclosed :
      Enclosed k addr prefix_len calls (set_up k addr prefix_len (calls ++ opens_socket ∷ []))
  unfolding set_up control leave
  set_up-Enclosed =
      let i₁ = sets_address addr in
      let i₂ = sets_netmask (netmask prefix_len) in
      let i₃ = gets_flags in
      let i₄ = sets_flags (bit_or k.flags up_flag) in
      let c₀ = calls ++ opens_socket ∷ [] in
      let c₁ = c₀ ++ i₁ ∷ [] in
      let c₂ = c₁ ++ i₂ ∷ [] in
      let c₃ = c₂ ++ i₃ ∷ [] in
      let n₄ : List SystemCall → Option TapError × List SystemCall = λ c. leave none c in
      let n₃ : List SystemCall → Option TapError × List SystemCall =
        λ c. control k i₄ set_flags_failed c n₄ in
      let n₂ : List SystemCall → Option TapError × List SystemCall =
        λ c. control k i₃ get_flags_failed c n₃ in
      let n₁ : List SystemCall → Option TapError × List SystemCall =
        λ c. control k i₂ netmask_failed c n₂ in
      elim (Bool-cases (k.succeeds c₀ i₁)) [
        | inr bad ↦ ends (control_bad i₁ address_failed c₀ n₁ bad) (
            failed-Enclosed address_failed (i₁ ∷ []) (i₂ ∷ i₃ ∷ i₄ ∷ []) _ refl
              (simp append_assoc refl))
        | inl good₁ ↦
            ends (control_good i₁ address_failed c₀ n₁ good₁)
              (elim (Bool-cases (k.succeeds c₁ i₂)) [
                | inr bad ↦ ends (control_bad i₂ netmask_failed c₁ n₂ bad) (
                    failed-Enclosed netmask_failed (i₁ ∷ i₂ ∷ []) (i₃ ∷ i₄ ∷ []) _ refl
                      (simp append_assoc refl))
                | inl good₂ ↦
                    ends (control_good i₂ netmask_failed c₁ n₂ good₂)
                      (elim (Bool-cases (k.succeeds c₂ i₃)) [
                        | inr bad ↦ ends (control_bad i₃ get_flags_failed c₂ n₃ bad) (
                            failed-Enclosed get_flags_failed (i₁ ∷ i₂ ∷ i₃ ∷ []) (i₄ ∷ []) _ refl
                              (simp append_assoc refl))
                        | inl good₃ ↦
                            ends (control_good i₃ get_flags_failed c₂ n₃ good₃)
                              (elim (Bool-cases (k.succeeds c₃ i₄)) [
                                | inr bad ↦ ends (control_bad i₄ set_flags_failed c₃ n₄ bad) (
                                    failed-Enclosed set_flags_failed (ioctls k addr prefix_len) [] _
                                      refl (simp append_assoc refl))
                                | inl good₄ ↦ ends (control_good i₄ set_flags_failed c₃ n₄ good₄) (
                                    whole-Enclosed ((c₃ ++ i₄ ∷ []) ++ closes_socket ∷ [])
                                      (simp append_assoc refl))
                              ])
                      ])
              ])
      ]

-- A configuration either fails before a socket is open, with no call but the attempt to open one, or
-- it opens the socket first and closes it last, whichever ioctl fails, and if it succeeds all four
-- ioctls were made in order, the address before the netmask and the flags read before they are set.
pub configure_kernel_interface-Enclosed :
    (k : Kernel) (ifname : Text) (addr prefix_len : ℕ) (calls : List SystemCall)
    → let r = configure_kernel_interface k ifname addr prefix_len calls in
      ((r ≡ (some bad_name, calls)) ⊎ (r ≡ (some bad_prefix, calls)))
      ⊎ ((r ≡ (some socket_failed, calls ++ opens_socket ∷ []))
          ⊎ Enclosed k addr prefix_len calls r)
unfolding configure_kernel_interface
configure_kernel_interface-Enclosed k ifname addr prefix_len calls =
    elim (Bool-cases (length ifname == 0 || leb max_name (length ifname))) [
      | inl bad ↦ inl (inl (rw bad refl))
      | inr name ↦ elim (Bool-cases (ltb 32 prefix_len)) [
        | inl bad ↦ inl (inr (rw (name, bad) refl))
        | inr prefix_ok ↦ elim (Bool-cases (k.succeeds calls opens_socket)) [
          | inr bad ↦ inr (inl (rw (name, prefix_ok, bad) refl))
          | inl good ↦
              inr (inr (rw (name, prefix_ok, good) (set_up-Enclosed k addr prefix_len calls)))
        ]
      ]
    ]
