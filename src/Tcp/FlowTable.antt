-- ===== src/Tcp/FlowTable.antt =====
-- `flow_table` of src/tcp_stack.cpp: connection lookup by open addressing with linear probing and
-- backward-shift deletion. A walk has the number of slots for fuel.
pub mod Table
pub mod Erase
pub mod Insert
pub mod Map
pub mod History
mod Examples
use dpdk_wrapper_library.Base.{
  ℕ, zero, suc, ◌+◌, ◌-◌, ◌*◌, ◌/◌, ◌^◌, List, Option, none, some, Bool, ◌&&◌, ◌||◌, bit_and,
  bit_or, bit_xor, max, ltb, leb, ◌==◌, if◌then◌else◌, u64, length, get_or, set, replicate,
}
use dpdk_wrapper_library.Probe.{bit_ceil, probe}

pub record Entry : Type 0 where
  pub key : ℕ
  pub value : ℕ

abbrev pub empty_entry : Entry
empty_entry = record { key = 0; value = 0 }

pub record FlowTable : Type 0 where
  pub entries : List Entry
  pub mask : ℕ

-- UINT32_MAX
abbrev pub npos : ℕ
npos = 2 ^ 32 - 1

unfoldable pub new : ℕ → FlowTable
new capacity =
    let n = bit_ceil (max (capacity * 2) 2) in
    record { entries = replicate n empty_entry; mask = n - 1 }

unfoldable pub key : ℕ → ℕ → ℕ → ℕ
key peer_ip peer_port local_port =
    bit_or (bit_or (peer_ip * 2 ^ 32) (peer_port * 2 ^ 16)) local_port

abbrev pub entry_at : FlowTable → ℕ → Entry
entry_at t i = get_or t.entries i empty_entry

abbrev pub key_at : FlowTable → ℕ → ℕ
key_at t i = (entry_at t i).key

pub home : FlowTable → ℕ → ℕ
home t k = let h = u64 (k * 0x9e3779b97f4a7c15) in bit_and (bit_xor h (h / 2 ^ 32)) t.mask

-- The slot where the walk for `k` stops.
unfoldable pub walk : FlowTable → ℕ → Option ℕ
walk t k = probe (key_at t) t.mask (length t.entries) (home t k) k

value_or_npos : FlowTable → ℕ → Option ℕ → ℕ
value_or_npos t k none = npos
value_or_npos t k (some i) = if key_at t i == k then (entry_at t i).value else npos

unfoldable pub find : FlowTable → ℕ → ℕ
unfolding walk value_or_npos
find t k = value_or_npos t k (walk t k)

store : FlowTable → ℕ → Entry → FlowTable
store t i e = record t { entries = set t.entries i e }

insert_at : FlowTable → ℕ → ℕ → Option ℕ → FlowTable
unfolding store
insert_at t k v none = t
insert_at t k v (some i) = store t i (record { key = k; value = v })

unfoldable pub insert : FlowTable → ℕ → ℕ → FlowTable
unfolding walk insert_at
insert t k v = insert_at t k v (walk t k)

-- May the entry at `j`, whose home is `h`, stay there when slot `i` becomes empty?
stays : ℕ → ℕ → ℕ → Bool
stays i j h = if leb i j then ltb i h && leb h j else ltb i h || leb h j

-- The backward shift: `i` is the hole, `j` the slot looked at.
shift : ℕ → FlowTable → ℕ → ℕ → FlowTable
unfolding store stays
shift zero t i j = t
shift (suc fuel) t i j =
    let kept = stays i j (home t (key_at t j)) in
    let rest =
      shift fuel (if kept then t else store t i (entry_at t j)) (if kept then i else j)
        (bit_and (j + 1) t.mask) in
    if key_at t j == 0 then store t i empty_entry else rest

erase_at : FlowTable → ℕ → Option ℕ → FlowTable
unfolding shift
erase_at t k none = t
erase_at t k (some i) =
    if key_at t i == k then shift (length t.entries) t i (bit_and (i + 1) t.mask) else t

unfoldable pub erase : FlowTable → ℕ → FlowTable
unfolding walk erase_at
erase t k = erase_at t k (walk t k)
