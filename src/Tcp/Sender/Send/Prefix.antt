-- ===== src/Tcp/Sender/Send/Prefix.antt =====
-- `send` puts a prefix of its bytes on the wire, in order, and returns its length.
use mathlib.Core.List.{append_assoc, append-nil}
use dpdk_wrapper_library.Base.{
  ℕ, zero, suc, ◌+◌, ◌≤◌, ◌<◌, ◌≡◌, refl, ◌∙◌, sym, ap, List, [], ◌∷◌, ◌++◌, true, false, not, ◌&&◌,
  ltb, if◌then◌else◌, arith, length, take, drop, u32, inl, inr, Bool-cases, length-set,
  get_or-set_self,
}
use dpdk_wrapper_library.Packet.{Mbuf, Dpdk}
use dpdk_wrapper_library.Tcp.Connection.{TcpConnection, fresh_connection}
use dpdk_wrapper_library.Tcp.Sender.Send.Chains.{
  payloads, between, between-append, Chain, end_after, Sent, Chain-Sent,
}
use dpdk_wrapper_library.Tcp.Sender.Send.{
  Job, Batch, max_burst, send_burst, end_of_sent, send_batch,
}
use dpdk_wrapper_library.Tcp.Sender.State.{
  Effect, stores_snd_nxt, stores_out_flags, transmits, Sender, conn_slot, store_snd_nxt,
}
use dpdk_wrapper_library.Tcp.Stack.{ConnId}

-- The frames on the wire
abbrev pub wire : List Effect → List Mbuf
wire [] = []
wire (transmits ms ∷ es) = ms ++ wire es
wire (stores_snd_nxt v ∷ es) = wire es
wire (stores_out_flags v ∷ es) = wire es

pub wire-append : (xs ys : List Effect) → wire (xs ++ ys) ≡ wire xs ++ wire ys
wire-append [] ys = refl
wire-append (transmits ms ∷ xs) ys =
    rw (wire-append xs ys) (sym (append_assoc ms (wire xs) (wire ys)))
wire-append (stores_snd_nxt v ∷ xs) ys = wire-append xs ys
wire-append (stores_out_flags v ∷ xs) ys = wire-append xs ys

pub payloads-append : (xs ys : List Mbuf) → payloads (xs ++ ys) ≡ payloads xs ++ payloads ys
payloads-append [] ys = refl
payloads-append (x ∷ xs) ys =
    rw (payloads-append xs ys) (sym (append_assoc (drop 54 x.bytes) (payloads xs) (payloads ys)))

-- rte_eth_tx_burst takes no more packets than it is offered.
abbrev pub TxBounded : Dpdk → Type 0
TxBounded d = (call n : ℕ) → d.tx_burst call n ≤ n

-- From `done` to `done'`: the bytes in between have gone out, and `snd_nxt` points behind them.
pub record Moved (j : Job) (conn : ConnId) (s : Sender) (done : ℕ) (s' : Sender) (done' : ℕ)
    : Type 0 where
  pub forward : done ≤ done'
  pub limited : done' ≤ j.limit
  pub bytes : payloads (wire s'.trace) ≡ payloads (wire s.trace) ++ between j.bytes done done'
  pub snd_nxt : (conn_slot s' conn).snd_nxt ≡ u32 (j.base + done')
  pub same_slots : length s'.slots ≡ length s.slots
  pub same_mss : (conn_slot s' conn).send_mss ≡ (conn_slot s conn).send_mss

pub Moved-trans :
    {j : Job} {conn : ConnId} {s s' s'' : Sender} {a b c : ℕ}
    → Moved j conn s a s' b
    → Moved j conn s' b s'' c
    → Moved j conn s a s'' c
Moved-trans {j} {conn} {s} {s'} {s''} {a} {b} {c} m n = record {
  forward = omega (arith, m.forward, n.forward);
  limited = n.limited;
  bytes =
      n.bytes
      ∙ rw (m.bytes, append_assoc)
          (ap (◌++◌ (payloads (wire s.trace))) (between-append j.bytes a b c m.forward n.forward));
  snd_nxt = n.snd_nxt;
  same_slots = n.same_slots ∙ m.same_slots;
  same_mss = n.same_mss ∙ m.same_mss;
}

module _ (conn : ConnId) (s : Sender) (v : ℕ) where
  pub store_snd_nxt-wire : wire (store_snd_nxt conn v s).trace ≡ wire s.trace
  unfolding store_snd_nxt
  store_snd_nxt-wire = wire-append s.trace (stores_snd_nxt v ∷ []) ∙ append-nil (wire s.trace)

  pub store_snd_nxt-length : length (store_snd_nxt conn v s).slots ≡ length s.slots
  unfolding store_snd_nxt
  store_snd_nxt-length = length-set s.slots conn.slot _

  pub store_snd_nxt-slot :
      conn.slot < length s.slots
      → conn_slot (store_snd_nxt conn v s) conn ≡ record (conn_slot s conn) { snd_nxt = v }
  unfolding store_snd_nxt
  store_snd_nxt-slot h = get_or-set_self s.slots conn.slot _ fresh_connection h

module _ (d : Dpdk) (ms : List Mbuf) (s : Sender) where
  pub send_burst-wire :
      wire (send_burst d ms s).1.trace
      ≡ wire s.trace ++ take (d.tx_burst s.world.bursts (length ms)) ms
  unfolding send_burst
  send_burst-wire =
      wire-append s.trace (transmits (take (d.tx_burst s.world.bursts (length ms)) ms) ∷ [])
      ∙ ap (◌++◌ (wire s.trace)) (append-nil _)

module _ (d : Dpdk) (j : Job) (conn : ConnId) (bounded : TxBounded d) where
  end_of_sent-end_after :
      (b : Batch) (sent done : ℕ) → end_of_sent b sent done ≡ end_after done b.seg_end sent
  unfolding end_of_sent
  end_of_sent-end_after b zero done = refl
  end_of_sent-end_after b (suc k) done = ground arith

  module _ (b : Batch) (done : ℕ) (s : Sender) (chain : Chain j done b.segs b.seg_end b.off)
      (low : done ≤ j.limit) (live : conn.slot < length s.slots) where
    -- How many segments the NIC takes
    abbrev taken : ℕ
    taken = d.tx_burst s.world.bursts (length b.segs)

    after_taken : Sent j done b.segs b.seg_end b.off taken
    after_taken =
        Chain-Sent j done b.segs b.seg_end b.off taken chain
          (bounded s.world.bursts (length b.segs))

    abbrev published : Sender
    published = store_snd_nxt conn (u32 (j.base + b.off)) s

    abbrev bursted : Sender
    bursted = (send_burst d b.segs published).1

    bursted-bytes :
        payloads (wire bursted.trace)
        ≡ payloads (wire s.trace) ++ between j.bytes done (end_after done b.seg_end taken)
    unfolding store_snd_nxt
    bursted-bytes =
        ap payloads (send_burst-wire d b.segs published)
        ∙ payloads-append (wire published.trace) _
        ∙ ap (λ (ms : List Mbuf). payloads ms ++ payloads (take taken b.segs))
            (store_snd_nxt-wire conn s (u32 (j.base + b.off)))
        ∙ ap (◌++◌ (payloads (wire s.trace))) after_taken.carried

    bursted-length : length bursted.slots ≡ length s.slots
    unfolding send_burst
    bursted-length = store_snd_nxt-length conn s (u32 (j.base + b.off))

    bursted-snd_nxt : (conn_slot bursted conn).snd_nxt ≡ u32 (j.base + b.off)
    unfolding send_burst
    bursted-snd_nxt =
        ap (λ (c : TcpConnection). c.snd_nxt)
          (store_snd_nxt-slot conn s (u32 (j.base + b.off)) live)

    bursted-mss : (conn_slot bursted conn).send_mss ≡ (conn_slot s conn).send_mss
    unfolding send_burst
    bursted-mss =
        ap (λ (c : TcpConnection). c.send_mss)
          (store_snd_nxt-slot conn s (u32 (j.base + b.off)) live)

    -- What the body of the loop does, by whether the NIC took everything
    send_batch-lem : send_batch d j conn b done s ≡ (
        if ltb taken (length b.segs)
        then (
          false,
          end_of_sent b taken done,
          store_snd_nxt conn (u32 (j.base + end_of_sent b taken done)) bursted,
        )
        else (not (ltb (length b.segs) max_burst && ltb b.off j.limit), b.off, bursted))
    unfolding send_batch send_burst store_snd_nxt
    send_batch-lem = refl

    pub send_batch-Moved :
        let (again, done', s') = send_batch d j conn b done s in
        Moved j conn s done s' done' × (again ≡ true → done + length b.segs ≤ done')
    send_batch-Moved = elim (Bool-cases (ltb taken (length b.segs))) [
      | inl some_left ↦
          let stop = end_of_sent b taken done in
          let same : stop ≡ end_after done b.seg_end taken = end_of_sent-end_after b taken done in
          rw (send_batch-lem, some_left)
            (
              record {
                forward = omega (arith, after_taken.progress, same);
                limited = omega (arith, after_taken.below, after_taken.limited low, same);
                bytes =
                    ap payloads (store_snd_nxt-wire conn bursted (u32 (j.base + stop)))
                    ∙ rw same bursted-bytes;
                snd_nxt =
                    ap (λ (c : TcpConnection). c.snd_nxt)
                      (store_snd_nxt-slot conn bursted (u32 (j.base + stop))
                        (rw bursted-length live));
                same_slots =
                    store_snd_nxt-length conn bursted (u32 (j.base + stop)) ∙ bursted-length;
                same_mss =
                    ap (λ (c : TcpConnection). c.send_mss)
                      (store_snd_nxt-slot conn bursted (u32 (j.base + stop))
                        (rw bursted-length live))
                    ∙ bursted-mss;
              },
              λ h. cc,
            )
      | inr all_gone ↦
          let every : taken ≡ length b.segs =
            ground (arith, bounded s.world.bursts (length b.segs)) in
          let same : end_after done b.seg_end taken ≡ b.off = after_taken.all every in
          rw (send_batch-lem, all_gone)
            (
              record {
                forward = omega (arith, after_taken.progress, same);
                limited = after_taken.limited low;
                bytes =
                    bursted-bytes
                    ∙ ap (λ (n : ℕ). payloads (wire s.trace) ++ between j.bytes done n) same;
                snd_nxt = bursted-snd_nxt;
                same_slots = bursted-length;
                same_mss = bursted-mss;
              },
              λ h. omega (arith, after_taken.progress, same, every),
            )
    ]
