-- ===== src/Port/Device/Setup.antt =====
-- The constructor of `port` against the list of the calls that it plans.
use dpdk_wrapper_library.Base.{
  ℕ, zero, suc, ◌+◌, ◌≡◌, refl, ◌∙◌, sym, List, [], ◌∷◌, ◌++◌, Option, none, some, true, false, inl,
  inr, Bool-cases,
}
use dpdk_wrapper_library.Port.Device.{
  Call, is_valid_port, dev_configure, adjust_nb_desc, dev_info_get, rx_queue_setup, tx_queue_setup,
  dev_start, Answers, make, PortError, not_a_port, configure_failed, adjust_failed, info_failed,
  start_failed, rx_setup_failed, tx_setup_failed, Outcome, made, threw, Port, require, set_up_rx,
  set_up_tx, new_port,
}
use dpdk_wrapper_library.Port.{new_queues}

-- A call and what is thrown where it fails
pub record Step : Type 0 where
  pub call : Call
  pub error : PortError

unfoldable pub rx_plan : ℕ → ℕ → ℕ → List Step
rx_plan id zero q = []
rx_plan id (suc n) q =
    record { call = rx_queue_setup id q; error = rx_setup_failed q } ∷ rx_plan id n (q + 1)

unfoldable pub tx_plan : ℕ → ℕ → ℕ → List Step
tx_plan id zero q = []
tx_plan id (suc n) q =
    record { call = tx_queue_setup id q; error = tx_setup_failed q } ∷ tx_plan id n (q + 1)

unfoldable pub plan : ℕ → ℕ → ℕ → List Step
unfolding rx_plan tx_plan
plan id n_rx n_tx =
    record { call = is_valid_port id; error = not_a_port }
    ∷ record { call = dev_configure id n_rx n_tx; error = configure_failed }
    ∷ record { call = adjust_nb_desc id; error = adjust_failed }
    ∷ record { call = dev_info_get id; error = info_failed }
    ∷ (rx_plan id n_rx 0
        ++ (tx_plan id n_tx 0 ++ record { call = dev_start id; error = start_failed } ∷ []))

-- The steps in turn, up to the first that fails, with the calls made
unfoldable pub attempt : Answers → List Step → List Call → Option PortError × List Call
unfolding make
attempt d [] calls = (none, calls)
attempt d (s ∷ steps) calls =
    let (good, calls') = make d s.call calls in
    elim good [ true ↦ attempt d steps calls' | false ↦ (some s.error, calls') ]

abbrev pub fresh_port : ℕ → ℕ → ℕ → Option ℕ → Port
fresh_port id n_rx n_tx pool = record {
  port_id = id;
  pool = pool;
  rx = new_queues n_rx;
  tx = new_queues n_tx;
  ipv4_addr = none;
  owns_device = true;
}

module _ {A : Type 0} (d : Answers) where
  abbrev continue :
      Option PortError × List Call → (List Call → Outcome A × List Call) → Outcome A × List Call
  continue (none, calls) next = next calls
  continue (some e, calls) next = (threw e, calls)

  continue-same :
      (r : Option PortError × List Call) (f g : List Call → Outcome A × List Call)
      → ((c : List Call) → f c ≡ g c)
      → continue r f ≡ continue r g
  continue-same (none, calls) f g same = same calls
  continue-same (some e, calls) f g same = refl

  attempt-append :
      (xs ys : List Step) (calls : List Call) (next : List Call → Outcome A × List Call)
      → continue (attempt d (xs ++ ys) calls) next
        ≡ continue (attempt d xs calls) (λ c. continue (attempt d ys c) next)
  unfolding attempt make
  attempt-append [] ys calls next = refl
  attempt-append (s ∷ xs) ys calls next = elim (Bool-cases (d.succeeds calls s.call)) [
    | inl good ↦ rw good (attempt-append xs ys (calls ++ s.call ∷ []) next)
    | inr bad ↦ rw bad refl
  ]

  require-attempt :
      (s : Step) (rest : List Step) (calls : List Call)
      (next after : List Call → Outcome A × List Call)
      → ((c : List Call) → next c ≡ continue (attempt d rest c) after)
      → require d s.call s.error calls next ≡ continue (attempt d (s ∷ rest) calls) after
  unfolding attempt make require
  require-attempt s rest calls next after same = elim (Bool-cases (d.succeeds calls s.call)) [
    | inl good ↦ rw good (same (calls ++ s.call ∷ []))
    | inr bad ↦ rw bad refl
  ]

  set_up_rx-attempt :
      (id n q : ℕ) (calls : List Call) (next : List Call → Outcome A × List Call)
      → set_up_rx d id n q calls next ≡ continue (attempt d (rx_plan id n q) calls) next
  unfolding set_up_rx rx_plan attempt
  set_up_rx-attempt id zero q calls next = refl
  set_up_rx-attempt id (suc n) q calls next =
      require-attempt (record { call = rx_queue_setup id q; error = rx_setup_failed q })
        (rx_plan id n (q + 1)) calls _ next (λ c. set_up_rx-attempt id n (q + 1) c next)

  set_up_tx-attempt :
      (id n q : ℕ) (calls : List Call) (next : List Call → Outcome A × List Call)
      → set_up_tx d id n q calls next ≡ continue (attempt d (tx_plan id n q) calls) next
  unfolding set_up_tx tx_plan attempt
  set_up_tx-attempt id zero q calls next = refl
  set_up_tx-attempt id (suc n) q calls next =
      require-attempt (record { call = tx_queue_setup id q; error = tx_setup_failed q })
        (tx_plan id n (q + 1)) calls _ next (λ c. set_up_tx-attempt id n (q + 1) c next)

module _ (d : Answers) (id n_rx n_tx : ℕ) (pool : Option ℕ) where
  ends : List Call → Outcome Port × List Call
  ends calls = (made (fresh_port id n_rx n_tx pool), calls)

  start_step : Step
  start_step = record { call = dev_start id; error = start_failed }

  queues-attempt :
      (calls : List Call)
      → set_up_rx d id n_rx 0 calls
          (λ c₅. set_up_tx d id n_tx 0 c₅ λ c₆. require d (dev_start id) start_failed c₆ ends)
        ≡ continue d
            (attempt d (rx_plan id n_rx 0 ++ (tx_plan id n_tx 0 ++ start_step ∷ [])) calls)
            ends
  unfolding start_step attempt
  queues-attempt calls =
      set_up_rx-attempt d id n_rx 0 calls _
      ∙ continue-same d (attempt d (rx_plan id n_rx 0) calls) _ _ (λ c₅.
        set_up_tx-attempt d id n_tx 0 c₅ _
        ∙ continue-same d (attempt d (tx_plan id n_tx 0) c₅) _ _
            (λ c₆. require-attempt d start_step [] c₆ ends ends (λ c. refl))
        ∙ sym (attempt-append d (tx_plan id n_tx 0) (start_step ∷ []) c₅ ends))
      ∙ sym (attempt-append d (rx_plan id n_rx 0) (tx_plan id n_tx 0 ++ start_step ∷ []) calls ends)

  continue-ends :
      (r : Option PortError × List Call)
      → continue d r ends
        ≡ (elim r.0 [ none ↦ made (fresh_port id n_rx n_tx pool) | some e ↦ threw e ], r.1)
  unfolding ends
  continue-ends (none, calls) = refl
  continue-ends (some e, calls) = refl

-- The constructor makes the planned calls in order up to the first that fails: it throws the error of
-- that call and makes none behind it, and if none fails it yields a port that owns its device and has
-- the queues that were asked for, none of them claimed.
pub new_port-attempt :
    (d : Answers) (id n_rx n_tx : ℕ) (pool : Option ℕ) (calls : List Call)
    → new_port d id n_rx n_tx pool calls ≡ (
      elim (attempt d (plan id n_rx n_tx) calls).0 [
        | none ↦ made (fresh_port id n_rx n_tx pool)
        | some e ↦ threw e
      ],
      (attempt d (plan id n_rx n_tx) calls).1,
    )
unfolding new_port plan ends start_step
new_port-attempt d id n_rx n_tx pool calls =
    require-attempt d (record { call = is_valid_port id; error = not_a_port }) _ calls _
      (ends d id n_rx n_tx pool)
      (λ c₁.
        require-attempt d (record { call = dev_configure id n_rx n_tx; error = configure_failed }) _
          c₁ _ (ends d id n_rx n_tx pool)
          (λ c₂.
            require-attempt d (record { call = adjust_nb_desc id; error = adjust_failed }) _ c₂ _
              (ends d id n_rx n_tx pool)
              (λ c₃.
                require-attempt d (record { call = dev_info_get id; error = info_failed }) _ c₃ _
                  (ends d id n_rx n_tx pool) (queues-attempt d id n_rx n_tx pool))))
    ∙ continue-ends d id n_rx n_tx pool (attempt d (plan id n_rx n_tx) calls)
