-- ===== src/Tcp/Sender/Send/Chains.antt =====
-- A batch of `send`: consecutive segments, none longer than the MSS.
use dpdk_wrapper_library.Base.{
  ℕ, zero, suc, ◌+◌, ◌-◌, ◌≤◌, ◌<◌, ◌≡◌, refl, ◌∙◌, sym, ap, List, [], ◌∷◌, ◌++◌, some, false, min,
  ltb, arith, length, get_or, take, drop, u32, inl, inr, Option-cases, lt→ltb, dec_lt, drop-drop,
  take-append-take,
}
use dpdk_wrapper_library.Arp.{read32}
use dpdk_wrapper_library.Packet.{Mbuf, Dpdk, World, get}
use dpdk_wrapper_library.Tcp.Segment.Layout.{fill_segment-frame}
use dpdk_wrapper_library.Tcp.Segment.{SegmentAddr, Content, build_segment, fill_segment}
use dpdk_wrapper_library.Tcp.Sender.Send.{Job, seg_len, data_content, build_batch}

-- The TCP payload of a frame without options
abbrev pub payload_of : Mbuf → List ℕ
payload_of m = drop 54 m.bytes

abbrev pub payloads : List Mbuf → List ℕ
payloads [] = []
payloads (m ∷ ms) = payload_of m ++ payloads ms

-- The bytes from `a` to `b`
abbrev pub between : List ℕ → ℕ → ℕ → List ℕ
between xs a b = take (b - a) (drop a xs)

-- `segs` carry the bytes from `off` on, one behind the other and with the sequence numbers of their
-- positions, and `seg_end` holds their ends.
abbrev pub Chain : Job → ℕ → List Mbuf → List ℕ → ℕ → Type 0
Chain j off [] [] last = last ≡ off
Chain j off (m ∷ ms) (e ∷ es) last =
    (off < e)
    × (e ≤ off + j.mss)
    × (e ≤ j.limit)
    × (payload_of m ≡ between j.bytes off e)
    × (read32 m.bytes 38 ≡ u32 (j.base + off))
    × Chain j e ms es last
Chain j off _ _ last = ⊥

Carried : Content → Mbuf → Type 0
Carried c m = (payload_of m ≡ c.payload) × (read32 m.bytes 38 ≡ u32 c.seq)

build_segment-Carried :
    (d : Dpdk) (w : World) (a : SegmentAddr) (c : Content) (m : Mbuf)
    → (build_segment d w a c).0 ≡ some m
    → c.mss_option ≡ 0
    → Carried c m
unfolding build_segment get read32 Carried
build_segment-Carried d w a c m e plain = elim (Option-cases (d.alloc w.allocs)) [
  | inl empty ↦ absurd (ground arith)
  | inr (tail, got) ↦
      let fresh : Mbuf = record { bytes = []; tail = tail; nb_segs = 1; l2_len = 0; l3_len = 0 } in
      let filled : fill_segment d a c fresh ≡ some m = rw got at e in
      let exact = fill_segment-frame d a c fresh refl plain filled in
      (rw exact, rw exact (omega arith))
]

module _ (d : Dpdk) (j : Job) (some_mss : 0 < j.mss) where
  -- `room` segments at most, up to the limit
  pub build_batch-Chain :
      (room off : ℕ) (w : World)
      → off ≤ j.limit
      → let b = build_batch d j room off w in
        Chain j off b.segs b.seg_end b.off × (length b.segs ≤ room)
  unfolding build_batch data_content seg_len Carried
  build_batch-Chain zero off w h = (refl, omega arith)
  build_batch-Chain (suc room) off w h = elim (dec_lt off j.limit) [
    | no done ↦
        let stop : ltb off j.limit ≡ false = ground arith in
        rw (stop, build_batch) (refl, omega arith)
    | yes more ↦ elim (Option-cases (build_segment d w j.addr (data_content j off)).0) [
      | inl empty ↦ rw (lt→ltb _ _ more, build_batch, empty) (refl, omega arith)
      | inr (m, got) ↦
          let c = build_segment-Carried d w j.addr (data_content j off) m got refl in
          let rest =
            build_batch-Chain room (off + min j.mss (j.limit - off))
              (build_segment d w j.addr (data_content j off)).1 (omega arith) in
          let width : off + min j.mss (j.limit - off) - off ≡ min j.mss (j.limit - off) =
            omega arith in
          rw (lt→ltb _ _ more, build_batch, got)
            (
              (
                omega arith,
                omega arith,
                omega arith,
                c.0 ∙ ap (λ (n : ℕ). take n (drop off j.bytes)) (sym width),
                c.1 ∙ omega arith,
                rest.0,
              ),
              omega arith,
            )
    ]
  ]

-- The end of the k-th segment, counted from 1
abbrev pub end_after : ℕ → List ℕ → ℕ → ℕ
end_after off es zero = off
end_after off es (suc k) = get_or es k 0

end_after-suc :
    (off e : ℕ) (es : List ℕ) (k : ℕ) → end_after off (e ∷ es) (suc k) ≡ end_after e es k
end_after-suc off e es zero = refl
end_after-suc off e es (suc k) = refl

pub between-append :
    (xs : List ℕ) (a b c : ℕ) → a ≤ b → b ≤ c → between xs a b ++ between xs b c ≡ between xs a c
between-append xs a b c h h' =
    ap (λ (ys : List ℕ). between xs a b ++ take (c - b) ys)
      (sym (drop-drop (b - a) a b xs (omega arith)))
    ∙ take-append-take (b - a) (c - b) (c - a) (drop a xs) (omega arith)

pub between_nil : (xs : List ℕ) (a : ℕ) → between xs a a ≡ []
between_nil xs a = let e : a - a ≡ 0 = omega arith in rw e

-- What is known when the NIC has taken `k` segments of a chain
pub record Sent (j : Job) (off : ℕ) (ms : List Mbuf) (es : List ℕ) (last k : ℕ) : Type 0 where
  pub carried : payloads (take k ms) ≡ between j.bytes off (end_after off es k)
  pub progress : off + k ≤ end_after off es k
  pub below : end_after off es k ≤ last
  pub limited : off ≤ j.limit → last ≤ j.limit
  pub all : k ≡ length ms → end_after off es k ≡ last

pub Chain-Sent :
    (j : Job) (off : ℕ) (ms : List Mbuf) (es : List ℕ) (last k : ℕ)
    → Chain j off ms es last
    → k ≤ length ms
    → Sent j off ms es last k
Chain-Sent j off [] [] last zero c h = record {
  carried = sym (between_nil j.bytes off);
  progress = omega arith;
  below = omega arith;
  limited = λ l. omega arith;
  all = λ _. sym c;
}
Chain-Sent j off [] [] last (suc k) c h = absurd (omega arith)
Chain-Sent j off (m ∷ ms) (e ∷ es) last zero c h =
    let rest = Chain-Sent j e ms es last zero c.5 (omega arith) in
    record {
      carried = sym (between_nil j.bytes off);
      progress = omega arith;
      below = omega arith;
      limited = λ l. omega (arith, rest.limited);
      all = λ h. absurd (omega arith);
    }
Chain-Sent j off (m ∷ ms) (e ∷ es) last (suc k) c h =
    let rest = Chain-Sent j e ms es last k c.5 (omega arith) in
    let same = end_after-suc off e es k in
    record {
      carried =
          rw (c.3, rest.carried, same)
            (between-append j.bytes off e (end_after e es k) (omega arith) (omega arith));
      progress = rw same (omega arith);
      below = rw same (omega arith);
      limited = λ l. omega (arith, rest.limited);
      all = λ h. same ∙ rest.all (omega arith);
    }
Chain-Sent j off [] (e ∷ es) last k c h = absurd c
Chain-Sent j off (m ∷ ms) [] last k c h = absurd c
