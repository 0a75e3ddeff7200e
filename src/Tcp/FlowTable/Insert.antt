-- ===== src/Tcp/FlowTable/Insert.antt =====
-- Insertion: the table stays in order, and every other entry keeps its slot.
use dpdk_wrapper_library.Base.{
  ℕ, suc, ◌-◌, ◌<◌, ◌≡◌, ◌≢◌, refl, ◌∙◌, sym, ap, some, arith, length, set, length-set,
  get_or-set_self, get_or-set_ne, ℕ_discrete,
}
use dpdk_wrapper_library.Probe.Runs.{Runs, probe-passes}
use dpdk_wrapper_library.Probe.Walk.{some-injective}
use dpdk_wrapper_library.Tcp.FlowTable.Table.{
  occupied, occupied-set, IsTable, home_below, ring, walk-some, walk-At, walk-masked,
}
use dpdk_wrapper_library.Tcp.FlowTable.{
  Entry, empty_entry, FlowTable, entry_at, key_at, home, walk, store, insert_at, insert,
}

module _ (t : FlowTable) (w : IsTable t) (k v s : ℕ) (some_key : k ≢ 0)
    (stop : walk t k ≡ some s) where
  abbrev entered : Entry
  entered = record { key = k; value = v }

  abbrev pub inserted : FlowTable
  inserted = record t { entries = set t.entries s entered }

  inside : s < length t.entries
  inside = (walk-some t w k s stop).0

  pub insert-stored : insert t k v ≡ inserted
  unfolding insert insert_at store
  insert-stored = rw stop refl

  pub entry_at_self : entry_at inserted s ≡ entered
  entry_at_self = get_or-set_self t.entries s entered empty_entry inside

  key_at_self : key_at inserted s ≡ k
  key_at_self = ap (λ (x : Entry). x.key) entry_at_self

  pub entry_at-ne : (p : ℕ) → p ≢ s → entry_at inserted p ≡ entry_at t p
  entry_at-ne p ne = get_or-set_ne t.entries s p entered empty_entry (λ e. ne (sym e))

  key_at-ne : (p : ℕ) → p ≢ s → key_at inserted p ≡ key_at t p
  key_at-ne p ne = ap (λ (x : Entry). x.key) (entry_at-ne p ne)

  -- The key stands nowhere else.
  pub elsewhere : (p : ℕ) → p < length t.entries → p ≢ s → key_at t p ≢ k
  elsewhere p hp ne has = ne (some-injective p s (sym (walk-At t w k p hp has some_key) ∙ stop))

  Runs-inserted : Runs (length t.entries) (home t) (key_at inserted)
  Runs-inserted =
      let n = length t.entries in
      record {
        full = λ p q hp hq has before. elim (ℕ_discrete q s) [
          | yes q_at ↦ λ e. some_key (sym key_at_self ∙ ap (key_at inserted) (sym q_at) ∙ e)
          | no q_off ↦ λ e. elim (ℕ_discrete p s) [
            | yes p_at ↦
                let key_p : key_at inserted p ≡ k = ap (key_at inserted) p_at ∙ key_at_self in
                let walked = rw (key_p, p_at) at before in
                probe-passes n (ring t w) (key_at t) k n (home t k) s q (home_below t w k) hq
                  (sym (walk-masked t w k) ∙ stop) walked (sym (key_at-ne q q_off) ∙ e)
            | no p_off ↦
                w.runs.full p q hp hq (λ z. has (key_at-ne p p_off ∙ z))
                  (rw (key_at-ne p p_off) at before) (sym (key_at-ne q q_off) ∙ e)
          ]
        ];
        unique = λ p q hp hq has same. elim (ℕ_discrete p s) [
          | yes p_at ↦ elim (ℕ_discrete q s) [
            | yes q_at ↦ p_at ∙ sym q_at
            | no q_off ↦ absurd (
                elsewhere q hq q_off
                  (sym (key_at-ne q q_off) ∙ sym same ∙ ap (key_at inserted) p_at ∙ key_at_self))
          ]
          | no p_off ↦ elim (ℕ_discrete q s) [
            | yes q_at ↦ absurd (
                elsewhere p hp p_off
                  (sym (key_at-ne p p_off) ∙ same ∙ ap (key_at inserted) q_at ∙ key_at_self))
            | no q_off ↦
                w.runs.unique p q hp hq (λ z. has (key_at-ne p p_off ∙ z))
                  (sym (key_at-ne p p_off) ∙ same ∙ key_at-ne q q_off)
          ]
        ];
      }

  pub IsTable-inserted : suc (occupied t.entries) < length t.entries → IsTable inserted
  unfolding home
  IsTable-inserted room =
      let len = length-set t.entries s entered in
      record {
        power = rw len w.power;
        masked = w.masked ∙ ap (λ (m : ℕ). m - 1) (sym len);
        runs = rw len Runs-inserted;
        spare = let counted = occupied-set t.entries s entered inside in ground (arith, len);
      }
