-- ===== src/Port.antt =====
-- include/port.h and src/port.cpp: queue configuration, and the claims of queue handles.
-- A queue handle is its id; the null shared_ptr is `none`.
mod Examples
pub mod Claims
pub mod Handed
pub mod Device
use dpdk_wrapper_library.Base.{
  ℕ, zero, suc, ◌+◌, ◌-◌, List, [], ◌∷◌, ◌++◌, Option, none, some, Bool, true, false, not, leb,
  if◌then◌else◌, length, get_or, set, replicate,
}

-- One kind of queue of a port: `rx_claimed_` with `next_rx_claim_`, or the same for tx. The queue
-- vector has an entry for each flag.
pub record Queues : Type 0 where
  pub claimed : List Bool
  pub cursor : ℕ

unfoldable pub new_queues : ℕ → Queues
new_queues n = record { claimed = replicate n false; cursor = 0 }

-- The loop of `claim_next`, a round for each queue behind the cursor.
unfoldable pub skip_claimed : ℕ → List Bool → ℕ → ℕ
skip_claimed zero claimed cursor = cursor
skip_claimed (suc rounds) claimed cursor =
    let next = skip_claimed rounds claimed (cursor + 1) in
    if leb (length claimed) cursor
    then cursor
    else if get_or claimed cursor false
    then next
    else cursor

unfoldable pub claim_next : Queues → Option ℕ × Queues
unfolding skip_claimed
claim_next q =
    let cursor = skip_claimed (length q.claimed) q.claimed q.cursor in
    if leb (length q.claimed) cursor
    then (none, record q { cursor = cursor })
    else (some cursor, record { claimed = set q.claimed cursor true; cursor = cursor + 1 })

-- A queue id that is not configured throws.
pub data Claim : Type 0 where
  no_such_queue : Claim
  already_claimed : Claim
  claims : ℕ → Claim

unfoldable pub claim_by_id : Queues → ℕ → Claim × Queues
claim_by_id q id =
    if leb (length q.claimed) id
    then (no_such_queue, q)
    else if get_or q.claimed id false
    then (already_claimed, q)
    else (claims id, record q { claimed = set q.claimed id true })
