-- ===== src/Probe/Runs.antt =====
-- Where the keys of a probing table stand: no walk from a key's home to its slot passes an empty
-- slot, and no key stands twice.
use dpdk_wrapper_library.Base.{
  ℕ, zero, suc, ◌+◌, ◌-◌, ◌<◌, ◌≡◌, ◌≢◌, sym, ap, ◌∙◌, some, true, false, ◌||◌, bit_and, ◌==◌,
  arith, inl, inr, Bool-cases, ℕ_discrete,
}
use dpdk_wrapper_library.Probe.Ring.{Masks}
use dpdk_wrapper_library.Probe.Walk.{
  none-not-some, some-injective, probe-some, ahead, next, bit_and-next,
}
use dpdk_wrapper_library.Probe.{probe}

-- `home` is the slot where the walk for a key starts, `key` the key at a slot.
pub record Runs (n : ℕ) (home key : ℕ → ℕ) : Type 0 where
  pub full :
      (p q : ℕ)
      → p < n
      → q < n
      → key p ≢ 0
      → ahead n (home (key p)) q < ahead n (home (key p)) p
      → key q ≢ 0
  pub unique : (p q : ℕ) → p < n → q < n → key p ≢ 0 → key p ≡ key q → p ≡ q

module _ (n : ℕ) (masks : Masks n) (key : ℕ → ℕ) (k : ℕ) where
  -- A walk reaches the key if neither it nor an empty slot comes before.
  probe-reaches :
      (fuel i p : ℕ)
      → i < n
      → p < n
      → key p ≡ k
      → ((q : ℕ) → q < n → ahead n i q < ahead n i p → (key q ≢ k) × (key q ≢ 0))
      → ahead n i p < fuel
      → probe key (n - 1) fuel i k ≡ some p
  unfolding probe next
  probe-reaches zero i p h h' has passed near = absurd (omega arith)
  probe-reaches (suc fuel) i p h h' has passed near = elim (ℕ_discrete i p) [
    | yes here ↦
        let stop : key i == k || key i == 0 ≡ true = ground (arith, ap key here) in
        rw stop (ap some here)
    | no apart ↦
        let (other, full) = passed i h (ground arith) in
        let go : key i == k || key i == 0 ≡ false = ground arith in
        let step = bit_and-next n masks i h in
        rw go (
          probe-reaches fuel (bit_and (i + 1) (n - 1)) p (masks.below (i + 1)) h' has
            (λ q below before. passed q below (ground (arith, step))) (ground (arith, step)))
  ]

  -- What a walk passed before it stopped
  pub probe-passes :
      (fuel i s q : ℕ)
      → i < n
      → q < n
      → probe key (n - 1) fuel i k ≡ some s
      → ahead n i q < ahead n i s
      → key q ≢ 0
  unfolding probe next
  probe-passes zero i s q h h' e before = absurd (none-not-some s e)
  probe-passes (suc fuel) i s q h h' e before = elim (Bool-cases (key i == k || key i == 0)) [
    | inl stop ↦ let here : i ≡ s = some-injective i s (rw stop at e) in absurd (ground arith)
    | inr go ↦ elim (ℕ_discrete i q) [
      | yes same ↦ ground (arith, ap key same)
      | no apart ↦
          let rest = rw go at e in
          let inside =
            (probe-some n masks key k fuel (bit_and (i + 1) (n - 1)) s (masks.below (i + 1))
              rest).0 in
          let away : i ≢ s = λ same. ground (arith, same) in
          probe-passes fuel (bit_and (i + 1) (n - 1)) s q (masks.below (i + 1)) h' rest
            (ground (arith, bit_and-next n masks i h))
    ]
  ]

module _ (n : ℕ) (masks : Masks n) (home key : ℕ → ℕ) (home_below : (k : ℕ) → home k < n)
    (w : Runs n home key) where
  -- The walk for a key in the table ends at its slot.
  pub probe-Runs : (p k : ℕ) → p < n → key p ≡ k → k ≢ 0 → probe key (n - 1) n (home k) k ≡ some p
  probe-Runs p k below has some_key =
      let full : key p ≢ 0 = λ e. some_key (sym has ∙ e) in
      let start : home (key p) ≡ home k = ap home has in
      probe-reaches n masks key k n (home k) p (home_below k) below has
        (λ q inside before. (
          λ same. let twice = w.unique p q below inside full (has ∙ sym same) in ground arith,
          w.full p q below inside full (rw start before),
        ))
        (ground (arith, home_below k))
