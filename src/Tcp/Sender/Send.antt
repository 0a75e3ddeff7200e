-- ===== src/Tcp/Sender/Send.antt =====
-- `tcp_sender::send` of src/tcp_stack.cpp: segmentation, bursts, and what is done with the rest.
pub mod Chains
pub mod Prefix
pub mod Total
use dpdk_wrapper_library.Base.{
  ℕ, zero, suc, ◌+◌, ◌-◌, List, [], ◌∷◌, ◌++◌, Option, none, some, Bool, true, false, not, ◌&&◌,
  min, ltb, ◌==◌, if◌then◌else◌, u32, bit_or, length, get_or, take, drop,
}
use dpdk_wrapper_library.Packet.{Mbuf, Dpdk, World}
use dpdk_wrapper_library.Tcp.Connection.{TcpConnection, window_space}
use dpdk_wrapper_library.Tcp.Segment.{SegmentAddr, Content, build_segment, ack_flag, psh_flag}
use dpdk_wrapper_library.Tcp.Sender.State.{
  Sender, transmits, conn_slot, store_snd_nxt, sendable, data_addr,
}
use dpdk_wrapper_library.Tcp.Stack.{TcpStack, ConnId}

-- packet_burst::max_size
abbrev pub max_burst : ℕ
max_burst = 32

-- What stays fixed through a call.
pub record Job : Type 0 where
  pub addr : SegmentAddr
  pub base : ℕ
  pub ack : ℕ
  pub window : ℕ
  pub mss : ℕ
  pub limit : ℕ
  pub bytes : List ℕ

-- `segs` with `seg_end`, the final `off`, and the thread's calls so far
pub record Batch : Type 0 where
  pub segs : List Mbuf
  pub seg_end : List ℕ
  pub off : ℕ
  pub world : World

unfoldable pub seg_len : Job → ℕ → ℕ
seg_len j off = min j.mss (j.limit - off)

unfoldable pub data_content : Job → ℕ → Content
data_content j off =
    let len = seg_len j off in
    record {
      seq = u32 (j.base + off);
      ack = j.ack;
      flags = bit_or ack_flag (if off + len == j.limit then psh_flag else 0);
      window = j.window;
      payload = take len (drop off j.bytes);
      mss_option = 0;
    }

-- At most `room` more segments; an exhausted pool ends the batch.
unfoldable pub build_batch : Dpdk → Job → ℕ → ℕ → World → Batch
build_batch d j zero off w = record { segs = []; seg_end = []; off = off; world = w }
build_batch d j (suc room) off w = elim (ltb off j.limit) [
  | true ↦
      let (pkt, w') = build_segment d w j.addr (data_content j off) in
      elim pkt [
        | none ↦ record { segs = []; seg_end = []; off = off; world = w' }
        | some m ↦
            let next = off + seg_len j off in
            let rest = build_batch d j room next w' in
            record rest { segs = m ∷ rest.segs; seg_end = next ∷ rest.seg_end }
      ]
  | false ↦ record { segs = []; seg_end = []; off = off; world = w }
]

-- `send_burst`: the packets that the driver takes, and how many.
unfoldable pub send_burst : Dpdk → List Mbuf → Sender → ℕ × Sender
send_burst d pkts s =
    let sent = d.tx_burst s.world.bursts (length pkts) in
    (
      sent,
      record s {
        world = record (s.world) { bursts = s.world.bursts + 1 };
        trace = s.trace ++ transmits (take sent pkts) ∷ [];
      },
    )

-- `sent > 0 ? seg_end[sent - 1] : done`
unfoldable pub end_of_sent : Batch → ℕ → ℕ → ℕ
end_of_sent b sent done = if ltb 0 sent then get_or b.seg_end (sent - 1) 0 else done

-- The body of the outer loop behind a batch of at least one segment. The result is whether the
-- loop goes on, and `done`.
unfoldable pub send_batch : Dpdk → Job → ConnId → Batch → ℕ → Sender → Bool × ℕ × Sender
send_batch d j conn b done s =
    let n = length b.segs in
    let published = store_snd_nxt conn (u32 (j.base + b.off)) s in
    let (sent, s') = send_burst d b.segs published in
    if ltb sent n
    then (let done' = end_of_sent b sent done in
        (false, done', store_snd_nxt conn (u32 (j.base + done')) s'))
    else (not (ltb n max_burst && ltb b.off j.limit), b.off, s')

-- `none` means that the fuel ran out.
unfoldable pub send_loop : Dpdk → Job → ConnId → ℕ → ℕ → Sender → Option (ℕ × Sender)
send_loop d j conn zero done s = none
send_loop d j conn (suc fuel) done s = elim (ltb done j.limit) [
  | false ↦ some (done, s)
  | true ↦
      let b = build_batch d j max_burst done s.world in
      let s₁ = record s { world = b.world } in
      elim (length b.segs) [
        | zero ↦ some (done, s₁)
        | suc _ ↦
            let (again, done', s₂) = send_batch d j conn b done s₁ in
            elim again [ true ↦ send_loop d j conn fuel done' s₂ | false ↦ some (done', s₂) ]
      ]
]

unfoldable pub job_of : TcpStack → TcpConnection → List ℕ → Job
job_of st c bytes = record {
  addr = data_addr st c;
  base = c.snd_nxt;
  ack = c.rcv_nxt;
  window = st.params.receive_window;
  mss = c.send_mss;
  limit = min (length bytes) (window_space c.send_window c.snd_nxt);
  bytes = bytes;
}

-- A round sends a byte at least or is the last, so a round more than `limit` is enough.
unfoldable pub send : Dpdk → TcpStack → ConnId → List ℕ → Sender → Option (ℕ × Sender)
send d st conn bytes s =
    if length bytes == 0
    then some (0, s)
    else if not (sendable st s conn)
    then some (0, s)
    else let j = job_of st (conn_slot s conn) bytes in
      if j.limit == 0 then some (0, s) else send_loop d j conn (suc j.limit) 0 s
