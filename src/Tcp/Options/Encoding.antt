-- ===== src/Tcp/Options/Encoding.antt =====
-- The options of a TCP header as a list, and `parse_mss_option` on their encoding.
use dpdk_wrapper_library.Base.{
  ℕ, zero, suc, ◌+◌, ◌^◌, ◌≤◌, ◌<◌, ◌≡◌, List, [], ◌∷◌, ◌++◌, ◌≢◌, ◌==◌, ◌⊎◌, if◌then◌else◌, arith,
  length, be16, length-append,
}
use dpdk_wrapper_library.Tcp.Options.{
  default_peer_mss, byte, is_malformed, mss_at, scan_options, parse_mss_option,
}

pub data TcpOption : Type 0 where
  nop : TcpOption
  mss : ℕ → TcpOption
  other : ℕ → List ℕ → TcpOption

abbrev pub encode : TcpOption → List ℕ
encode nop = 1 ∷ []
encode (mss v) = 2 ∷ 4 ∷ be16 v
encode (other kind body) = kind ∷ (length body + 2) ∷ body

-- An option that the source treats as some other kind, and that a length byte can describe
abbrev pub IsOption : TcpOption → Type 0
IsOption nop = Unit {0}
IsOption (mss v) = v < 2 ^ 16
IsOption (other kind body) = (2 ≤ kind) × (length body + 2 < 256) × ((kind ≢ 2) ⊎ (length body ≢ 2))

abbrev pub AreOptions : List TcpOption → Type 0
AreOptions [] = Unit {0}
AreOptions (o ∷ os) = IsOption o × AreOptions os

abbrev pub encode_all : List TcpOption → List ℕ → List ℕ
encode_all [] tail = tail
encode_all (o ∷ os) tail = encode o ++ encode_all os tail

-- The value of the first MSS option; 0 and no announcement count as 536.
abbrev pub announced : List TcpOption → ℕ
announced [] = default_peer_mss
announced (nop ∷ os) = announced os
announced (mss v ∷ os) = if v == 0 then default_peer_mss else v
announced (other kind body ∷ os) = announced os

-- From offset `i` on, the `len` bytes of `opt` are `rest`.
record Suffix (opt : List ℕ) (len i : ℕ) (rest : List ℕ) : Type 0 where
  room : len ≡ i + length rest
  at : (k : ℕ) → byte opt (i + k) ≡ byte rest k

byte-behind : (xs ys : List ℕ) (k : ℕ) → byte (xs ++ ys) (length xs + k) ≡ byte ys k
byte-behind [] ys k = ground arith
byte-behind (x ∷ xs) ys k = ground (arith, byte-behind xs ys k)

Suffix-advance :
    {opt : List ℕ} {len i : ℕ} (xs ys : List ℕ)
    → Suffix opt len i (xs ++ ys)
    → Suffix opt len (i + length xs) ys
Suffix-advance {opt} {len} {i} xs ys s = record {
  room = omega (arith, length-append xs ys, s.room);
  at = λ k. ground (arith, s.at (length xs + k), byte-behind xs ys k);
}

scan_options-encode_all :
    (fuel : ℕ) (opt : List ℕ) (len i : ℕ) (os : List TcpOption) (pad : List ℕ)
    → AreOptions os
    → len < fuel + i
    → Suffix opt len i (encode_all os pad)
    → (pad ≡ []) ⊎ (byte pad 0 ≡ 0)
    → scan_options fuel opt len i ≡ announced os
unfolding scan_options is_malformed mss_at
scan_options-encode_all zero opt len i os pad ok enough s stop = absurd (omega (arith, s.room))
scan_options-encode_all (suc fuel) opt len i [] pad ok enough s stop =
    ground (arith, s.at 0, s.room)
scan_options-encode_all (suc fuel) opt len i (nop ∷ os) pad ok enough s stop = ground (
  arith,
  s.at 0,
  s.room,
  scan_options-encode_all fuel opt len (i + 1) os pad ok.1 (omega arith)
      (Suffix-advance (encode nop) (encode_all os pad) s) stop,
)
scan_options-encode_all (suc fuel) opt len i (mss v ∷ os) pad ok enough s stop =
    ground (arith, s.at 0, s.at 1, s.at 2, s.at 3, s.room)
scan_options-encode_all (suc fuel) opt len i (other kind body ∷ os) pad ok enough s stop = ground (
  arith,
  s.at 0,
  s.at 1,
  s.room,
  length-append body (encode_all os pad),
  scan_options-encode_all fuel opt len (i + (length body + 2)) os pad ok.1 (omega arith)
      (advance (encode (other kind body)) (omega arith) s) stop,
)
  where
    advance :
        (xs : List ℕ) {j : ℕ}
        → j ≡ length xs
        → Suffix opt len i (xs ++ encode_all os pad)
        → Suffix opt len (i + j) (encode_all os pad)
    advance xs e t = rw e (Suffix-advance xs (encode_all os pad) t)

-- Whatever well-formed options the header holds, up to an end-of-list option or the end of the header, the
-- result is what the first MSS option announces, and 536 where none does or it announces 0.
pub parse_mss_option-encode_all :
    (os : List TcpOption) (pad : List ℕ)
    → AreOptions os
    → (pad ≡ []) ⊎ (byte pad 0 ≡ 0)
    → parse_mss_option (encode_all os pad) (length (encode_all os pad)) ≡ announced os
unfolding parse_mss_option
parse_mss_option-encode_all os pad ok stop =
    let bs = encode_all os pad in
    scan_options-encode_all (suc (length bs)) bs (length bs) 0 os pad ok (omega arith)
      (record { room = omega arith; at = λ k. ground arith }) stop
