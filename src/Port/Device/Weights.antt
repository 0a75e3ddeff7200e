-- ===== src/Port/Device/Weights.antt =====
-- Calls counted by a weight, and the constructor of `port`, which adds none where its calls weigh
-- nothing.
use dpdk_wrapper_library.Base.{
  ℕ, zero, suc, ◌+◌, ◌≡◌, refl, sym, ap, ◌∙◌, List, [], ◌∷◌, ◌++◌, Option, arith, inl, inr,
  Bool-cases,
}
use dpdk_wrapper_library.Port.Device.Setup.{Step, rx_plan, tx_plan, plan, attempt, new_port-attempt}
use dpdk_wrapper_library.Port.Device.{
  Call, is_valid_port, dev_configure, adjust_nb_desc, dev_info_get, rx_queue_setup, tx_queue_setup,
  dev_start, Answers, make, Outcome, Port, new_port,
}

module _ (weight : Call → ℕ) where
  abbrev pub total : List Call → ℕ
  total [] = 0
  total (c ∷ cs) = weight c + total cs

  pub total-append : (xs ys : List Call) → total (xs ++ ys) ≡ total xs + total ys
  total-append [] ys = omega arith
  total-append (x ∷ xs) ys = omega (arith, total-append xs ys)

  abbrev Silent : List Step → Type 0
  Silent [] = Unit
  Silent (s ∷ ss) = (weight s.call ≡ 0) × Silent ss

  Silent-append : (xs ys : List Step) → Silent xs → Silent ys → Silent (xs ++ ys)
  Silent-append [] ys q r = r
  Silent-append (x ∷ xs) ys (s, q) r = (s, Silent-append xs ys q r)

  total-attempt :
      (d : Answers) (steps : List Step) (calls : List Call)
      → Silent steps
      → total (attempt d steps calls).1 ≡ total calls
  unfolding attempt make
  total-attempt d [] calls silent = refl
  total-attempt d (s ∷ ss) calls (none_added, silent) =
      let more = total-append calls (s.call ∷ []) in
      elim (Bool-cases (d.succeeds calls s.call)) [
        | inl good ↦
            rw good
              (omega (arith, total-attempt d ss (calls ++ s.call ∷ []) silent, more, none_added))
        | inr bad ↦ rw bad (omega (arith, more, none_added))
      ]

  -- The calls of the constructor weigh nothing.
  pub record SetupFree : Type 0 where
    pub validity : (i : ℕ) → weight (is_valid_port i) ≡ 0
    pub configure : (i a b : ℕ) → weight (dev_configure i a b) ≡ 0
    pub adjust : (i : ℕ) → weight (adjust_nb_desc i) ≡ 0
    pub info : (i : ℕ) → weight (dev_info_get i) ≡ 0
    pub rx : (i q : ℕ) → weight (rx_queue_setup i q) ≡ 0
    pub tx : (i q : ℕ) → weight (tx_queue_setup i q) ≡ 0
    pub start : (i : ℕ) → weight (dev_start i) ≡ 0

  module _ (free : SetupFree) where
    rx_plan-Silent : (i n q : ℕ) → Silent (rx_plan i n q)
    unfolding rx_plan
    rx_plan-Silent i zero q = tt
    rx_plan-Silent i (suc n) q = (free.rx i q, rx_plan-Silent i n (q + 1))

    tx_plan-Silent : (i n q : ℕ) → Silent (tx_plan i n q)
    unfolding tx_plan
    tx_plan-Silent i zero q = tt
    tx_plan-Silent i (suc n) q = (free.tx i q, tx_plan-Silent i n (q + 1))

    plan-Silent : (i n_rx n_tx : ℕ) → Silent (plan i n_rx n_tx)
    unfolding plan
    plan-Silent i n_rx n_tx =
        let tx_start =
          Silent-append (tx_plan i n_tx 0) _ (tx_plan-Silent i n_tx 0) (free.start i, tt) in
        let queues = Silent-append (rx_plan i n_rx 0) _ (rx_plan-Silent i n_rx 0) tx_start in
        (free.validity i, (free.configure i n_rx n_tx, (free.adjust i, (free.info i, queues))))

    -- Whether or not it throws, the constructor adds nothing to the count.
    pub total-new_port :
        (d : Answers) (i n_rx n_tx : ℕ) (pool : Option ℕ) (calls calls' : List Call)
        (o : Outcome Port)
        → new_port d i n_rx n_tx pool calls ≡ (o, calls')
        → total calls' ≡ total calls
    total-new_port d i n_rx n_tx pool calls calls' o e =
        let same : (attempt d (plan i n_rx n_tx) calls).1 ≡ calls' =
          ap (λ (x : Outcome Port × List Call). x.1)
            (sym (new_port-attempt d i n_rx n_tx pool calls) ∙ e) in
        ap total (sym same) ∙ total-attempt d (plan i n_rx n_tx) calls (plan-Silent i n_rx n_tx)
