-- ===== src/Tcp/FlowTable/History.antt =====
-- A fresh flow table, and any sequence of flows that come and go on it.
use dpdk_wrapper_library.Base.{
  ℕ, zero, suc, ◌*◌, ◌≤◌, ◌<◌, ◌≡◌, ◌≢◌, refl, ◌∙◌, sym, ap, List, [], ◌∷◌, max, ◌==◌,
  if◌then◌else◌, arith, length, get_or, replicate, length-replicate,
}
use dpdk_wrapper_library.Probe.Ring.{bit_ceil-Doubling, bit_ceil-reaches}
use dpdk_wrapper_library.Probe.{bit_ceil}
use dpdk_wrapper_library.Tcp.FlowTable.Map.{
  insert-IsTable, length-insert, find-insert, erase-IsTable, length-erase, find-erase,
}
use dpdk_wrapper_library.Tcp.FlowTable.Table.{occupied, IsTable, find-missing}
use dpdk_wrapper_library.Tcp.FlowTable.{empty_entry, FlowTable, npos, new, find, insert, erase}

occupied-replicate : (n : ℕ) → occupied (replicate n empty_entry) ≡ 0
occupied-replicate zero = refl
occupied-replicate (suc n) = omega (arith, occupied-replicate n)

key-replicate : (n i : ℕ) → (get_or (replicate n empty_entry) i empty_entry).key ≡ 0
key-replicate zero i = refl
key-replicate (suc n) zero = refl
key-replicate (suc n) (suc i) = key-replicate n i

pub new-IsTable : (capacity : ℕ) → IsTable (new capacity)
unfolding new
new-IsTable capacity =
    let wanted = max (capacity * 2) 2 in
    let n = bit_ceil wanted in
    let size : length (replicate n empty_entry) ≡ n = length-replicate n empty_entry in
    record {
      power = rw size (bit_ceil-Doubling wanted);
      masked = rw size refl;
      runs = record {
        full = λ p q _ _ has _. absurd (has (key-replicate n p));
        unique = λ p q _ _ has _. absurd (has (key-replicate n p));
      };
      spare = rw (size, occupied-replicate n) (omega (arith, bit_ceil-reaches wanted));
    }

length-new : (capacity : ℕ) → capacity * 2 ≤ length (new capacity).entries
unfolding new
length-new capacity =
    let wanted = max (capacity * 2) 2 in
    rw (length-replicate (bit_ceil wanted) empty_entry) (omega (arith, bit_ceil-reaches wanted))

-- A fresh table finds no key.
find-new : (capacity k : ℕ) → k ≢ 0 → find (new capacity) k ≡ npos
unfolding new
find-new capacity k some_key =
    find-missing (new capacity) (new-IsTable capacity) k
      (λ p _ has. let n = bit_ceil (max (capacity * 2) 2) in some_key (sym has ∙ key-replicate n p))

-- A flow comes, with its slot, or goes.
pub data FlowChange : Type 0 where
  comes : ℕ → ℕ → FlowChange
  goes : ℕ → FlowChange

unfoldable pub change : FlowTable → FlowChange → FlowTable
change t (comes k v) = insert t k v
change t (goes k) = erase t k

unfoldable pub run : FlowTable → List FlowChange → FlowTable
unfolding change
run t [] = t
run t (c ∷ cs) = run (change t c) cs

-- The finite map the table stands for
unfoldable pub update : (ℕ → ℕ) → FlowChange → ℕ → ℕ
update m (comes k v) q = if k == q then v else m q
update m (goes k) q = if k == q then npos else m q

unfoldable pub meaning : (ℕ → ℕ) → List FlowChange → ℕ → ℕ
unfolding update
meaning m [] q = m q
meaning m (c ∷ cs) q = meaning (update m c) cs q

-- Keys are not 0, and a flow comes only where fewer than `capacity` slots are in use.
unfoldable pub Fits : ℕ → FlowTable → List FlowChange → Type 0
unfolding change
Fits capacity t [] = Unit
Fits capacity t (comes k v ∷ cs) =
    (k ≢ 0) × (occupied t.entries < capacity) × Fits capacity (insert t k v) cs
Fits capacity t (goes k ∷ cs) = (k ≢ 0) × Fits capacity (erase t k) cs

run-find :
    (capacity : ℕ) (cs : List FlowChange) (t : FlowTable) (m : ℕ → ℕ)
    → IsTable t
    → capacity * 2 ≤ length t.entries
    → ((q : ℕ) → q ≢ 0 → find t q ≡ m q)
    → Fits capacity t cs
    → (q : ℕ) → q ≢ 0
    → find (run t cs) q ≡ meaning m cs q
unfolding run change meaning update Fits
run-find capacity [] t m w size same fits q some_q = same q some_q
run-find capacity (comes k v ∷ cs) t m w size same (some_key, less, fits) q some_q =
    let room : suc (occupied t.entries) < length t.entries = omega (arith, size, less) in
    run-find capacity cs (insert t k v) (update m (comes k v))
      (insert-IsTable t w k v some_key room) (rw (length-insert t w k v some_key room) size)
      (λ p some_p.
        find-insert t w k v some_key room p some_p
        ∙ ap (λ (x : ℕ). if k == p then v else x) (same p some_p))
      fits q some_q
run-find capacity (goes k ∷ cs) t m w size same (some_key, fits) q some_q =
    run-find capacity cs (erase t k) (update m (goes k)) (erase-IsTable t w k some_key)
      (rw (length-erase t w k some_key) size)
      (λ p some_p.
        (find-erase t w k some_key p some_p).1
        ∙ ap (λ (x : ℕ). if k == p then npos else x) (same p some_p))
      fits q some_q

-- After any sequence of insertions and deletions on a table made for `capacity` flows, of keys other
-- than 0 and with fewer than `capacity` slots in use whenever one is inserted, `find` gives for every
-- key other than 0 the value last inserted for it and not deleted since, and npos if there is none.
pub run-new :
    (capacity : ℕ) (cs : List FlowChange)
    → Fits capacity (new capacity) cs
    → (q : ℕ) → q ≢ 0
    → find (run (new capacity) cs) q ≡ meaning (λ _. npos) cs q
run-new capacity cs fits q some_q =
    run-find capacity cs (new capacity) (λ _. npos) (new-IsTable capacity) (length-new capacity)
      (find-new capacity) fits q some_q
