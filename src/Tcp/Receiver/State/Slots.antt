-- ===== src/Tcp/Receiver/State/Slots.antt =====
-- What the small operations of `tcp_receiver::impl` do to the slots and to the events.
use dpdk_wrapper_library.Base.{
  ℕ, ◌<◌, ◌≡◌, ◌≢◌, true, arith, length, length-set, get_or-set_self, get_or-set_ne,
}
use dpdk_wrapper_library.Tcp.Connection.{TcpConnection, fresh_connection}
use dpdk_wrapper_library.Tcp.Receiver.State.{Receiver, slot, modify, queue_ack}

module _ (idx : ℕ) (r : Receiver) where
  pub length-modify :
      (f : TcpConnection → TcpConnection) → length (modify idx f r).slots ≡ length r.slots
  length-modify f = length-set r.slots idx (f (slot r idx))

  pub slot-modify_self :
      (f : TcpConnection → TcpConnection)
      → idx < length r.slots
      → slot (modify idx f r) idx ≡ f (slot r idx)
  slot-modify_self f h = get_or-set_self r.slots idx (f (slot r idx)) fresh_connection h

  pub slot-modify_ne :
      (f : TcpConnection → TcpConnection) (j : ℕ) → idx ≢ j → slot (modify idx f r) j ≡ slot r j
  slot-modify_ne f j ne = get_or-set_ne r.slots idx j (f (slot r idx)) fresh_connection ne

  pub length-queue_ack : length (queue_ack idx r).slots ≡ length r.slots
  unfolding queue_ack
  length-queue_ack = ground (arith, length-modify (λ c. record c { ack_pending = true }))

  pub events-queue_ack : (queue_ack idx r).events ≡ r.events
  unfolding queue_ack
  events-queue_ack = ground arith

  -- Only `ack_pending` changes, and is set.
  pub slot-queue_ack :
      idx < length r.slots → slot (queue_ack idx r) idx ≡ record (slot r idx) { ack_pending = true }
  unfolding queue_ack
  slot-queue_ack h = ground (arith, slot-modify_self (λ c. record c { ack_pending = true }) h)

  pub slot-queue_ack_ne : (j : ℕ) → idx ≢ j → slot (queue_ack idx r) j ≡ slot r j
  unfolding queue_ack
  slot-queue_ack_ne j ne =
      ground (arith, slot-modify_ne (λ c. record c { ack_pending = true }) j ne)
