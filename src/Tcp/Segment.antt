-- ===== src/Tcp/Segment.antt =====
-- Segments of src/tcp_stack.cpp: built by `build_segment`, and as parsed by `process_tcp`.
pub mod Layout
use dpdk_wrapper_library.Base.{
  ℕ, ◌+◌, ◌/◌, ◌^◌, List, [], ◌∷◌, Option, none, some, Bool, if◌then◌else◌, ◌==◌, ◌>>=◌, u8, u16,
  has_bits, bit_or,
}
use dpdk_wrapper_library.Headers.{
  build_ethernet_header, build_ipv4_header, build_tcp_header, finalize_ipv4_header,
  finalize_tcp_header,
}
use dpdk_wrapper_library.Packet.{EtherAddr, Mbuf, Dpdk, World, get, append, append_payload, write}

abbrev pub fin_flag : ℕ
fin_flag = 1

abbrev pub syn_flag : ℕ
syn_flag = 2

abbrev pub rst_flag : ℕ
rst_flag = 4

abbrev pub psh_flag : ℕ
psh_flag = 8

abbrev pub ack_flag : ℕ
ack_flag = 16

pub record SegmentAddr : Type 0 where
  pub src_mac : EtherAddr
  pub dst_mac : EtherAddr
  pub src_ip : ℕ
  pub dst_ip : ℕ
  pub src_port : ℕ
  pub dst_port : ℕ

-- What goes into a segment besides its addresses.
pub record Content : Type 0 where
  pub seq : ℕ
  pub ack : ℕ
  pub flags : ℕ
  pub window : ℕ
  pub payload : List ℕ
  pub mss_option : ℕ

-- The MSS option, and `data_off` for a header of 24 bytes
append_mss : ℕ → ℕ → Mbuf → Option Mbuf
append_mss tcp mss_option pkt = if mss_option == 0 then some pkt else do
  (off, m) ← append pkt 4
  some (
      write (tcp + 12) (0x60 ∷ [])
        (write off (2 ∷ 4 ∷ u8 (mss_option / 2 ^ 8) ∷ u8 mss_option ∷ []) m))

append_data : List ℕ → Mbuf → Option Mbuf
append_data [] pkt = some pkt
append_data (x ∷ xs) pkt = append_payload pkt (x ∷ xs) >>= λ r. some r.1

unfoldable pub fill_segment : Dpdk → SegmentAddr → Content → Mbuf → Option Mbuf
unfolding append_mss append_data
fill_segment d a c pkt = do
  (_, framed) ← build_ethernet_header pkt a.dst_mac a.src_mac 0x0800
  (ip, routed) ← build_ipv4_header framed a.src_ip a.dst_ip 6 64 0
  (tcp, m) ← build_tcp_header routed a.src_port a.dst_port c.seq c.ack c.flags c.window
  m' ← append_mss tcp c.mss_option m
  full ← append_data c.payload m'
  some (finalize_tcp_header d (finalize_ipv4_header d full ip) ip tcp)

unfoldable pub build_segment : Dpdk → World → SegmentAddr → Content → Option Mbuf × World
unfolding get
build_segment d w a c = let (pkt, w') = get d w in (pkt >>= fill_segment d a c, w')

-- A received segment. `payload` is the `len` bytes from the payload pointer on.
pub record Segment : Type 0 where
  pub src_mac : EtherAddr
  pub src_ip : ℕ
  pub src_port : ℕ
  pub dst_port : ℕ
  pub seq : ℕ
  pub ack : ℕ
  pub flags : ℕ
  pub window : ℕ
  pub payload : List ℕ
  pub len : ℕ
  pub options : List ℕ

unfoldable pub has : Segment → ℕ → Bool
has seg f = has_bits seg.flags f
