-- ===== src/Probe/Gap.antt =====
-- The backward shift on slots: slot `i` is to become empty, its key counts no more, and every slot up
-- to `j` has been looked at.
use dpdk_wrapper_library.Base.{ℕ, ◌≤◌, ◌<◌, ◌≡◌, ◌≢◌, sym, ap, ◌∙◌, arith, ℕ_discrete}
use dpdk_wrapper_library.Probe.Runs.{Runs}
use dpdk_wrapper_library.Probe.Walk.{ahead, next}

pub record Gap (n : ℕ) (home key : ℕ → ℕ) (i j e : ℕ) : Type 0 where
  pub full :
      (p q : ℕ)
      → p < n
      → q < n
      → p ≢ i
      → q ≢ i
      → key p ≢ 0
      → ahead n (home (key p)) q < ahead n (home (key p)) p
      → key q ≢ 0
  pub unique : (p q : ℕ) → p < n → q < n → p ≢ i → q ≢ i → key p ≢ 0 → key p ≡ key q → p ≡ q
  -- A key whose walk passes `i` stands at `j` or later.
  pub late :
      (p : ℕ)
      → p < n
      → p ≢ i
      → key p ≢ 0
      → ahead n (home (key p)) i < ahead n (home (key p)) p
      → ahead n i j ≤ ahead n i p
  pub gap_below : i < n
  pub scan_below : j < n
  pub end_below : e < n
  pub scan_ne : j ≢ i
  pub end_ne : e ≢ i
  pub ends : key e ≡ 0
  pub near : ahead n i j ≤ ahead n i e

module _ (n : ℕ) (home key : ℕ → ℕ) (home_below : (k : ℕ) → home k < n) where
  -- To empty a slot of a table in order is to start the scan behind it.
  pub Runs-Gap :
      (i e : ℕ)
      → Runs n home key
      → i < n
      → e < n
      → key i ≢ 0
      → key e ≡ 0
      → Gap n home key i (next n i) e
  unfolding next
  Runs-Gap i e w below inside full empty =
      let apart : e ≢ i = λ same. full (sym (ap key same) ∙ empty) in
      record {
        full = λ p q hp hq _ _ has before. w.full p q hp hq has before;
        unique = λ p q hp hq _ _ has same. w.unique p q hp hq has same;
        late = λ p hp ne _ _. ground arith;
        gap_below = below;
        scan_below = ground arith;
        end_below = inside;
        scan_ne = ground arith;
        end_ne = apart;
        ends = empty;
        near = ground arith;
      }

  module _ (i j e : ℕ) (w : Gap n home key i j e) where
    before_end : key j ≢ 0 → ahead n i j < ahead n i e
    before_end full =
        let apart : e ≢ j = λ same. full (sym (ap key same) ∙ w.ends) in
        ground (arith, w.near, w.gap_below, w.scan_below, w.end_below)

    -- The scan goes on past a key that may stay.
    pub Gap-stay :
        key j ≢ 0
        → (ahead n (home (key j)) i < ahead n (home (key j)) j → ⊥)
        → Gap n home key i (next n j) e
    unfolding next
    Gap-stay full stay =
        let more = before_end full in
        let hi = w.gap_below in
        let hj = w.scan_below in
        let he = w.end_below in
        record {
          full = w.full;
          unique = w.unique;
          late = λ p hp ne has passes.
              let before = w.late p hp ne has passes in
              elim (ℕ_discrete p j) [
                | yes same ↦ absurd (stay (rw same at passes))
                | no apart ↦ ground arith
              ];
          gap_below = w.gap_below;
          scan_below = ground arith;
          end_below = w.end_below;
          scan_ne = ground arith;
          end_ne = w.end_ne;
          ends = w.ends;
          near = ground arith;
        }

    module _ (key' : ℕ → ℕ) (agree : (p : ℕ) → p ≢ i → key' p ≡ key p) where
      -- A key that must not stay moves to the gap, and leaves one.
      pub Gap-move :
          key j ≢ 0
          → ahead n (home (key j)) i < ahead n (home (key j)) j
          → key' i ≡ key j
          → Gap n home key' j (next n j) e
      unfolding next
      Gap-move full move moved =
          let more = before_end full in
          let hi = w.gap_below in
          let hj = w.scan_below in
          let he = w.end_below in
          let ne = w.scan_ne in
          let apart : e ≢ j = λ same. full (sym (ap key same) ∙ w.ends) in
          record {
            full = λ p q hp hq p_ne q_ne has before. elim (ℕ_discrete q i) [
              | yes same ↦ λ empty. full (sym moved ∙ ap key' (sym same) ∙ empty)
              | no q_off ↦ λ empty. elim (ℕ_discrete p i) [
                | yes at_i ↦
                    let key_p : key' p ≡ key j = ap key' at_i ∙ moved in
                    let closer = rw (key_p, at_i) at before in
                    w.full j q hj hq ne q_off full (omega (arith, closer))
                      (sym (agree q q_off) ∙ empty)
                | no p_off ↦
                    w.full p q hp hq p_off q_off (rw (agree p p_off) at has)
                      (rw (agree p p_off) at before) (sym (agree q q_off) ∙ empty)
              ]
            ];
            unique = λ p q hp hq p_ne q_ne has same. elim (ℕ_discrete p i) [
              | yes p_at ↦ elim (ℕ_discrete q i) [
                | yes q_at ↦ p_at ∙ sym q_at
                | no q_off ↦
                    let again = sym moved ∙ ap key' (sym p_at) ∙ same ∙ agree q q_off in
                    absurd (q_ne (sym (w.unique j q hj hq ne q_off full again)))
              ]
              | no p_off ↦ elim (ℕ_discrete q i) [
                | yes q_at ↦
                    let again = sym (agree p p_off) ∙ same ∙ ap key' q_at ∙ moved in
                    absurd (p_ne (w.unique p j hp hj p_off ne (rw (agree p p_off) at has) again))
                | no q_off ↦
                    w.unique p q hp hq p_off q_off (rw (agree p p_off) at has)
                      (sym (agree p p_off) ∙ same ∙ agree q q_off)
              ]
            ];
            late = λ p hp p_ne _ _. ground arith;
            gap_below = hj;
            scan_below = ground arith;
            end_below = he;
            scan_ne = ground arith;
            end_ne = apart;
            ends = agree e w.end_ne ∙ w.ends;
            near = ground arith;
          }

      -- At an empty slot the scan is over: the gap may be emptied.
      pub Gap-close : key j ≡ 0 → key' i ≡ 0 → Runs n home key'
      Gap-close stop empty =
          let off : (p : ℕ) → key' p ≢ 0 → p ≢ i = λ p has same. has (ap key' same ∙ empty) in
          let kept : (p : ℕ) → key' p ≢ 0 → key p ≢ 0 = λ p has e. has (agree p (off p has) ∙ e) in
          record {
            full = λ p q hp hq has before.
                let start = rw (agree p (off p has)) at before in
                elim (ℕ_discrete q i) [
                  | yes same ↦
                      let passes = rw same at start in
                      let later = w.late p hp (off p has) (kept p has) passes in
                      let apart : p ≢ j = λ at_j. kept p has (ap key at_j ∙ stop) in
                      absurd (
                        w.full p j hp w.scan_below (off p has) w.scan_ne (kept p has)
                          (ground (arith, home_below (key p), w.gap_below, w.scan_below)) stop)
                  | no q_off ↦ λ e.
                      w.full p q hp hq (off p has) q_off (kept p has) start
                        (sym (agree q q_off) ∙ e)
                ];
            unique = λ p q hp hq has same.
                let has' : key' q ≢ 0 = λ e. has (same ∙ e) in
                w.unique p q hp hq (off p has) (off q has') (kept p has)
                  (sym (agree p (off p has)) ∙ same ∙ agree q (off q has'));
          }
