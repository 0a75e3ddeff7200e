-- ===== src/Probe/Walk.antt =====
-- The walk of a probing table: it ends where there is an empty slot, and how one store changes it.
use dpdk_wrapper_library.Base.{
  ℕ, zero, suc, ◌+◌, ◌-◌, ◌<◌, ◌≡◌, ◌≢◌, refl, ◌∙◌, sym, ap, none, some, true, false, ◌||◌, bit_and,
  leb, ◌==◌, if◌then◌else◌, arith, ◌⊎◌, inl, inr, Bool-cases, Option-cases, ℕ_discrete,
}
use dpdk_wrapper_library.Probe.Ring.{Masks}
use dpdk_wrapper_library.Probe.{probe}

pub some-injective : (a b : ℕ) → some a ≡ some b → a ≡ b
some-injective a b e = cc

pub none-not-some : (a : ℕ) → none ≡ some a → ⊥
none-not-some a e = cc

-- How far `j` lies ahead of `i` on a ring of `n`
abbrev pub ahead : ℕ → ℕ → ℕ → ℕ
ahead n i j = if leb i j then j - i else j + n - i

unfoldable pub next : ℕ → ℕ → ℕ
next n i = if i + 1 == n then 0 else i + 1

module _ (n : ℕ) (masks : Masks n) where
  pub bit_and-next : (i : ℕ) → i < n → bit_and (i + 1) (n - 1) ≡ next n i
  unfolding next
  bit_and-next i h = elim (ℕ_discrete (i + 1) n) [
    | yes e ↦ ground (arith, ap (λ (m : ℕ). bit_and m (n - 1)) e, masks.wraps)
    | no ne ↦ ground (arith, masks.same (i + 1) (omega arith))
  ]

  module _ (key : ℕ → ℕ) (k : ℕ) where
    -- A walk that runs out of fuel has passed occupied slots only.
    probe-none :
        (fuel i j : ℕ)
        → i < n
        → j < n
        → probe key (n - 1) fuel i k ≡ none
        → ahead n i j < fuel
        → key j ≢ 0
    unfolding probe next
    probe-none zero i j h h' e near = absurd (omega arith)
    probe-none (suc fuel) i j h h' e near = elim (Bool-cases (key i == k || key i == 0)) [
      | inl stop ↦ absurd (none-not-some i (sym (rw stop at e)))
      | inr go ↦ elim (ℕ_discrete i j) [
        | yes same ↦ ground (arith, ap key same)
        | no apart ↦
            let rest = rw go at e in
            probe-none fuel (bit_and (i + 1) (n - 1)) j (masks.below (i + 1)) h' rest
              (ground (arith, bit_and-next i h))
      ]
    ]

    -- With a slot for each round, the walk stops if a slot is empty.
    pub probe-stops :
        (i hole : ℕ)
        → i < n
        → hole < n
        → key hole ≡ 0
        → (s : ℕ) × (probe key (n - 1) n i k ≡ some s)
    probe-stops i hole h h' empty = elim (Option-cases (probe key (n - 1) n i k)) [
      | inl out ↦ absurd (probe-none n i hole h h' out (ground arith) empty)
      | inr stop ↦ stop
    ]

    -- Where it stops
    pub probe-some :
        (fuel i s : ℕ)
        → i < n
        → probe key (n - 1) fuel i k ≡ some s
        → (s < n) × ((key s ≡ k) ⊎ (key s ≡ 0))
    unfolding probe
    probe-some zero i s h e = absurd (none-not-some s e)
    probe-some (suc fuel) i s h e = elim (Bool-cases (key i == k || key i == 0)) [
      | inl stop ↦
          let here : i ≡ s = some-injective i s (rw stop at e) in
          (
            omega arith,
            elim (ℕ_discrete (key s) k) [
              | yes found ↦ inl found
              | no other ↦ inr (ground (arith, ap key here))
            ],
          )
      | inr go ↦ probe-some fuel (bit_and (i + 1) (n - 1)) s (masks.below (i + 1)) (rw go at e)
    ]

-- Two tables whose keys agree outside slot `p`
module _ (key key' : ℕ → ℕ) (mask p : ℕ) (agree : (j : ℕ) → j ≢ p → key' j ≡ key j) where
  -- A walk that stops elsewhere does not pass `p` if that slot was empty.
  pub probe-elsewhere :
      (fuel i k s : ℕ)
      → key p ≡ 0
      → s ≢ p
      → probe key mask fuel i k ≡ some s
      → probe key' mask fuel i k ≡ some s
  unfolding probe
  probe-elsewhere zero i k s empty ne e = absurd (none-not-some s e)
  probe-elsewhere (suc fuel) i k s empty ne e = elim (ℕ_discrete i p) [
    | yes at_p ↦
        let stop : key i == k || key i == 0 ≡ true = ground (arith, ap key at_p) in
        absurd (ne (sym (some-injective i s (rw stop at e)) ∙ at_p))
    | no off_p ↦ elim (Bool-cases (key i == k || key i == 0)) [
      | inl stop ↦
          let stop' : key' i == k || key' i == 0 ≡ true = rw (agree i off_p) stop in
          rw stop' (rw stop at e)
      | inr go ↦
          let go' : key' i == k || key' i == 0 ≡ false = rw (agree i off_p) go in
          rw go' (probe-elsewhere fuel (bit_and (i + 1) mask) k s empty ne (rw go at e))
    ]
  ]

  -- A walk that stopped at `p` still does once `p` holds its key.
  pub probe-at :
      (fuel i k : ℕ)
      → key' p ≡ k
      → probe key mask fuel i k ≡ some p
      → probe key' mask fuel i k ≡ some p
  unfolding probe
  probe-at zero i k has e = absurd (none-not-some p e)
  probe-at (suc fuel) i k has e = elim (ℕ_discrete i p) [
    | yes at_p ↦
        let stop : key' i == k || key' i == 0 ≡ true = ground (arith, ap key' at_p) in
        rw stop (ap some at_p)
    | no off_p ↦ elim (Bool-cases (key i == k || key i == 0)) [
      | inl stop ↦ absurd (off_p (some-injective i p (rw stop at e)))
      | inr go ↦
          let go' : key' i == k || key' i == 0 ≡ false = rw (agree i off_p) go in
          rw go' (probe-at fuel (bit_and (i + 1) mask) k has (rw go at e))
    ]
  ]

-- Equal keys, equal walks
pub probe-same :
    (key key' : ℕ → ℕ) (mask : ℕ)
    → ((j : ℕ) → key' j ≡ key j)
    → (fuel i k : ℕ) → probe key' mask fuel i k ≡ probe key mask fuel i k
unfolding probe
probe-same key key' mask same zero i k = refl
probe-same key key' mask same (suc fuel) i k =
    rw (same i, probe-same key key' mask same fuel (bit_and (i + 1) mask) k) refl
