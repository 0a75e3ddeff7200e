-- ===== src/Tcp/Sums.antt =====
-- The checksums of RFC 1071 for the driver of the tests, as rte_ip.h documents its helpers.
use dpdk_wrapper_library.Arp.{read16}
use dpdk_wrapper_library.Base.{
  ℕ, zero, suc, ◌+◌, ◌-◌, ◌*◌, ◌%◌, ◌^◌, ◌<◌, ◌≡◌, refl, ◌∙◌, sym, ap, List, [], ◌∷◌, ◌++◌, true,
  ◌==◌, arith, bit_and, length, length-append, get_or, take, take_all, drop, be16, of_be16, u8, ◌/◌,
}
use dpdk_wrapper_library.Packet.{Dpdk}
use dpdk_wrapper_library.Tcp.Receiver.Frame.RoundTrip.{Checksums}
use dpdk_wrapper_library.Tcp.Receiver.Frame.{tcp_checksum_ok}
use dpdk_wrapper_library.Tcp.Samples.{driver}

-- The 16-bit words in network order, an odd byte padded
unfoldable pub words : List ℕ → ℕ
words [] = 0
words (a ∷ []) = a * 256
words (a ∷ b ∷ bs) = of_be16 a b + words bs

-- The one's complement sum: the carries come back in.
unfoldable pub fold : ℕ → ℕ
fold zero = 0
fold (suc n) = suc (n % 65535)

unfoldable pub header_len : List ℕ → ℕ
header_len ip = bit_and (get_or ip 0 0) 0x0f * 4

-- Addresses, protocol and the length of the segment
unfoldable pub pseudo_header : List ℕ → ℕ
pseudo_header ip =
    let h = take 20 ip in words (take 8 (drop 12 h)) + get_or h 9 0 + (read16 h 2 - header_len h)

abbrev pub rfc_driver : Dpdk
rfc_driver = record driver {
  ipv4_cksum = λ ip. 65535 - fold (words (take (header_len ip) ip));
  udptcp_cksum =
      λ ip l4. 65535 - fold (words (take (read16 ip 2 - header_len ip) l4) + pseudo_header ip);
  phdr_cksum = pseudo_header;
  raw_cksum = λ bs sum. words bs + sum;
  raw_cksum_reduce = fold;
}

words-append : (k : ℕ) (xs ys : List ℕ) → length xs ≡ k + k → words (xs ++ ys) ≡ words xs + words ys
unfolding words
words-append k [] ys e = omega arith
words-append k (a ∷ []) ys e = absurd (omega arith)
words-append zero (a ∷ b ∷ xs) ys e = absurd (omega arith)
words-append (suc k) (a ∷ b ∷ xs) ys e = omega (arith, words-append k xs ys (omega arith))

-- A checksum in its place, which was zero, brings the sum to all-ones.
words-checksum :
    (k : ℕ) (pre suf : List ℕ) (sum : ℕ)
    → length pre ≡ k + k
    → sum < 65536
    → words (pre ++ (be16 sum ++ suf)) ≡ words (pre ++ (0 ∷ 0 ∷ suf)) + sum
unfolding words
words-checksum k pre suf sum e small =
    omega (arith, words-append k pre (be16 sum ++ suf) e, words-append k pre (0 ∷ 0 ∷ suf) e)

fold-complement : (n : ℕ) → fold (n + (65535 - fold n)) ≡ 65535
unfolding fold
fold-complement zero = refl
fold-complement (suc n) =
    let up : suc n + (65535 - suc (n % 65535)) ≡ suc (n + 65534 - n % 65535) = omega arith in
    ap fold up ∙ last
  where
    last : suc ((n + 65534 - n % 65535) % 65535) ≡ 65535
    last = omega arith

complement-small : (n : ℕ) → 65535 - n < 65536
complement-small n = omega arith

-- With the checksum of what holds a zero in its place, the sum comes out all-ones.
fold-checksum :
    (k : ℕ) (pre suf : List ℕ) (more : ℕ)
    → length pre ≡ k + k
    → let sum = 65535 - fold (words (pre ++ (0 ∷ 0 ∷ suf)) + more) in
      fold (words (pre ++ (be16 sum ++ suf)) + more) ≡ 65535
fold-checksum k pre suf more e =
    let before = words (pre ++ (0 ∷ 0 ∷ suf)) + more in
    let sum = 65535 - fold before in
    let after : words (pre ++ (be16 sum ++ suf)) + more ≡ before + sum =
      omega (arith, words-checksum k pre suf sum e (complement-small (fold before))) in
    ap fold after ∙ fold-complement before

first-take : (bs : List ℕ) → get_or (take 20 bs) 0 0 ≡ get_or bs 0 0
first-take [] = refl
first-take (b ∷ bs) = refl

first-append : (pre ys : List ℕ) → 0 < length pre → get_or (pre ++ ys) 0 0 ≡ get_or pre 0 0
first-append [] ys h = absurd (omega arith)
first-append (x ∷ xs) ys h = refl

header_len-version : (ip : List ℕ) → get_or ip 0 0 ≡ 0x45 → header_len ip ≡ 20
unfolding header_len
header_len-version ip e = rw e refl

header_len-pre :
    (ip pre ys : List ℕ)
    → length pre ≡ 10
    → get_or pre 0 0 ≡ 0x45
    → take 20 ip ≡ pre ++ ys
    → header_len ip ≡ 20
header_len-pre ip pre ys h version e = header_len-version ip (
    sym (first-take ip)
    ∙ ap (λ (bs : List ℕ). get_or bs 0 0) e
    ∙ first-append pre ys (omega arith)
    ∙ version)

pseudo_header-same :
    (ip ip' : List ℕ) → take 20 ip ≡ take 20 ip' → pseudo_header ip ≡ pseudo_header ip'
unfolding pseudo_header
pseudo_header-same ip ip' e =
    ap (λ (h : List ℕ). words (take 8 (drop 12 h)) + get_or h 9 0 + (read16 h 2 - header_len h)) e

module _ (pre suf : List ℕ) where
  ipv4_cksum-header :
      (bs ys : List ℕ)
      → length pre ≡ 10
      → get_or pre 0 0 ≡ 0x45
      → take 20 bs ≡ pre ++ ys
      → rfc_driver.ipv4_cksum bs ≡ 65535 - fold (words (pre ++ ys) + 0)
  ipv4_cksum-header bs ys h version e =
      ap (λ (n : ℕ). 65535 - fold (words (take n bs))) (header_len-pre bs pre ys h version e)
      ∙ ap (λ (l : List ℕ). 65535 - fold (words l)) e
      ∙ ap (λ (n : ℕ). 65535 - fold n) (omega arith)

  ipv4_verifies-rfc :
      (bs bs' : List ℕ)
      → length pre ≡ 10
      → get_or pre 0 0 ≡ 0x45
      → take 20 bs ≡ pre ++ (0 ∷ 0 ∷ suf)
      → take 20 bs' ≡ pre ++ (be16 (rfc_driver.ipv4_cksum bs) ++ suf)
      → rfc_driver.ipv4_cksum bs' ≡ 0
  ipv4_verifies-rfc bs bs' h version e e' =
      let cksum = ipv4_cksum-header bs (0 ∷ 0 ∷ suf) h version e in
      let ones = fold-checksum 5 pre suf 0 h in
      ipv4_cksum-header bs' (be16 (rfc_driver.ipv4_cksum bs) ++ suf) h version e'
      ∙ ap (λ (sum : ℕ). 65535 - fold (words (pre ++ (be16 sum ++ suf)) + 0)) cksum
      ∙ ap (λ (n : ℕ). 65535 - n) ones

  tcp_verifies-rfc :
      (ip ip' : List ℕ)
      → take 20 ip ≡ take 20 ip'
      → length pre ≡ 16
      → get_or ip 0 0 ≡ 0x45
      → read16 ip 2 ≡ 38 + length suf
      → let sum = rfc_driver.udptcp_cksum ip (pre ++ (0 ∷ 0 ∷ suf)) in
        tcp_checksum_ok rfc_driver ip' (pre ++ (be16 sum ++ suf)) (18 + length suf) ≡ true
  unfolding tcp_checksum_ok
  tcp_verifies-rfc ip ip' e h version n =
      let len : read16 ip 2 - header_len ip ≡ 18 + length suf =
        omega (arith, header_len-version ip version) in
      let whole : (a b : ℕ) → take (18 + length suf) (pre ++ (a ∷ b ∷ suf)) ≡ pre ++ (a ∷ b ∷ suf) =
        λ a b. take_all _ _ (omega (arith, length-append pre (a ∷ b ∷ suf))) in
      let sum = 65535 - fold (words (pre ++ (0 ∷ 0 ∷ suf)) + pseudo_header ip) in
      let cksum : rfc_driver.udptcp_cksum ip (pre ++ (0 ∷ 0 ∷ suf)) ≡ sum =
        ap (λ (k : ℕ). 65535 - fold (words (take k (pre ++ (0 ∷ 0 ∷ suf))) + pseudo_header ip)) len
        ∙ ap (λ (l : List ℕ). 65535 - fold (words l + pseudo_header ip)) (whole 0 0) in
      let ones = fold-checksum 8 pre suf (pseudo_header ip) h in
      rw (cksum, whole (u8 (sum / 2 ^ 8)) (u8 sum), sym (pseudo_header-same ip ip' e))
        (ap (λ (n : ℕ). n == 65535) ones)

-- The helpers keep their promises.
pub rfc_driver-Checksums : Checksums rfc_driver
rfc_driver-Checksums = record {
  ipv4_verifies =
      λ bs bs' pre suf h _ version e e'. ipv4_verifies-rfc pre suf bs bs' h version e e';
  tcp_verifies = λ ip ip' pre suf e h version n. tcp_verifies-rfc pre suf ip ip' e h version n;
}
