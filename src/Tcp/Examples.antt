-- ===== src/Tcp/Examples.antt =====
-- Concrete runs of the TCP code, and the theorems about it at them.
use dpdk_wrapper_library.Arp.{read16}
use dpdk_wrapper_library.Tcp.Sums.{
  rfc_driver, rfc_driver-Checksums, words, fold, header_len, pseudo_header,
}
use dpdk_wrapper_library.Tcp.Samples.{receiver, zero_mac, driver, stack, connection, sender, handle}
use dpdk_wrapper_library.Base.{
  none, false, ℕ, ◌+◌, ◌*◌, ◌^◌, ◌≡◌, ◌≤◌, ◌<◌, refl, zero, suc, List, [], ◌∷◌, ◌++◌, some, true,
  inl, inr, arith, length, replicate, has_bits, u32,
}
use dpdk_wrapper_library.Headers.{
  build_ethernet_header, build_ipv4_header, build_tcp_header, finalize_ipv4_header,
  finalize_tcp_header,
}
use dpdk_wrapper_library.Packet.{
  Mbuf, append, write, append_payload, set_l2_len, set_l3_len, packet_length,
}
use dpdk_wrapper_library.Tcp.Connection.Window.{window_space-positions}
use dpdk_wrapper_library.Tcp.Connection.{window_space}
use dpdk_wrapper_library.Tcp.Receiver.Frame.Resets.{Quiet, route-Quiet}
use dpdk_wrapper_library.Tcp.Sender.Close.Release.{close-refuses}
use dpdk_wrapper_library.Tcp.Sender.State.{sendable}
use dpdk_wrapper_library.Tcp.Stack.Listening.{IsPortSet, Listened, listen-Listened}
use dpdk_wrapper_library.Tcp.Stack.{contains, listen}
use dpdk_wrapper_library.Tcp.Connection.Sequence.{seq_gt-positions}
use dpdk_wrapper_library.Tcp.Connection.{seq_gt}
use dpdk_wrapper_library.Tcp.Options.Encoding.{nop, mss, other, parse_mss_option-encode_all}
use dpdk_wrapper_library.Tcp.Options.Scan.{parse_mss_option-lem}
use dpdk_wrapper_library.Tcp.Options.{parse_mss_option, scan_options, byte}
use dpdk_wrapper_library.Tcp.Receiver.Ack.Una.{process_ack-snd_una}
use dpdk_wrapper_library.Tcp.Receiver.Ack.{process_ack}
use dpdk_wrapper_library.Tcp.Receiver.Data.Delivery.{process_data-Delivers}
use dpdk_wrapper_library.Tcp.Receiver.Data.Sequence.{AreNear, process_all, process_all-reached}
use dpdk_wrapper_library.Tcp.Receiver.Data.Stream.{bytes_of}
use dpdk_wrapper_library.Tcp.Receiver.Data.{process_data, can_receive}
use dpdk_wrapper_library.Tcp.Receiver.Dispatch.Machine.{process_segment-Advances}
use dpdk_wrapper_library.Tcp.Receiver.Dispatch.Transitions.{Advances}
use dpdk_wrapper_library.Tcp.Receiver.Dispatch.{process_segment}
use dpdk_wrapper_library.Tcp.Receiver.Frame.RoundTrip.{Fits, received, process-fill_segment}
use dpdk_wrapper_library.Tcp.Receiver.Frame.{route, process}
use dpdk_wrapper_library.Tcp.Receiver.Poll.Bounds.{IsIdle, before_flush, poll-bounds}
use dpdk_wrapper_library.Tcp.Receiver.Poll.{poll}
use dpdk_wrapper_library.Tcp.Receiver.State.{slot}
use dpdk_wrapper_library.Tcp.Segment.Layout.{frame}
use dpdk_wrapper_library.Tcp.Segment.{SegmentAddr, Content, Segment, has, fill_segment}
use dpdk_wrapper_library.Tcp.Sender.Close.Order.{Announces, close-Announces}
use dpdk_wrapper_library.Tcp.Sender.Close.{close}
use dpdk_wrapper_library.Tcp.Sender.Send.Total.{Delivered, send-Delivered}
use dpdk_wrapper_library.Tcp.Sender.Send.{send}
use dpdk_wrapper_library.Tcp.Sender.State.{Sender, conn_slot, lookup}

-- Positions 3 to 6 of a stream whose byte at a position is the position
abbrev segment : Segment
segment = record {
  src_mac = zero_mac;
  src_ip = 1;
  src_port = 5000;
  dst_port = 80;
  seq = 103;
  ack = 1005;
  flags = 16;
  window = 100;
  payload = 3 ∷ 4 ∷ 5 ∷ 6 ∷ [];
  len = 4;
  options = [];
}

process_data-Delivers_example :
    ((slot (process_data 0 segment receiver) 0).rcv_nxt_local ≡ 107)
    × (bytes_of 0 (process_data 0 segment receiver).events ≡ 5 ∷ 6 ∷ [])
unfolding can_receive has has_bits
process_data-Delivers_example =
    process_data-Delivers (λ i. i) 100 3 5 0 segment receiver (omega arith) refl
      (record { seq_at = refl; bytes_at = refl }) (omega arith) (omega arith) refl refl

send-Delivered_example :
    (done : ℕ) × (s' : Sender) × (send driver stack handle (1 ∷ 2 ∷ 3 ∷ 4 ∷ 5 ∷ 6 ∷ []) sender
      ≡ some (done, s'))
    × Delivered (conn_slot sender handle) handle (1 ∷ 2 ∷ 3 ∷ 4 ∷ 5 ∷ 6 ∷ []) sender s' done
send-Delivered_example =
    send-Delivered driver stack handle (1 ∷ 2 ∷ 3 ∷ 4 ∷ 5 ∷ 6 ∷ []) sender (λ call n. omega arith)
      (omega arith) (omega arith) (omega arith)

process_segment-Advances_example :
    Advances 0 receiver (process_segment driver stack 0 segment receiver)
process_segment-Advances_example =
    process_segment-Advances driver stack 0 segment receiver (omega arith)

abbrev runt : Mbuf
runt = record { bytes = 1 ∷ 2 ∷ []; tail = []; nb_segs = 1; l2_len = 0; l3_len = 0 }

poll-bounds_example :
    IsIdle (poll driver stack (runt ∷ runt ∷ []) receiver)
    × (length (poll driver stack (runt ∷ runt ∷ []) receiver).events ≤ 3 * 2)
    × (length (before_flush driver stack (runt ∷ runt ∷ []) receiver).control ≤ 2)
poll-bounds_example =
    poll-bounds driver stack (runt ∷ runt ∷ []) receiver
      (record { control = refl; ack_list = refl })

process_ack-snd_una_example : (slot (process_ack 0 segment receiver).1 0).snd_una ≡ 1005
process_ack-snd_una_example =
    process_ack-snd_una 0 segment receiver (omega arith) 1000 5 0 10 refl refl refl (omega arith)
      (omega arith) (omega arith)

close-Announces_example :
    (bursts : List (List Mbuf)) × Announces connection sender.trace bursts
      (close driver stack handle sender).trace
unfolding lookup has_bits
close-Announces_example =
    close-Announces driver stack handle sender connection (λ call n. omega arith) refl refl

parse_mss_option-encode_all_example :
    parse_mss_option (1 ∷ 3 ∷ 3 ∷ 7 ∷ 2 ∷ 4 ∷ 5 ∷ 180 ∷ 0 ∷ 0 ∷ []) 10 ≡ 1460
parse_mss_option-encode_all_example =
    parse_mss_option-encode_all (nop ∷ other 3 (7 ∷ []) ∷ mss 1460 ∷ []) (0 ∷ 0 ∷ [])
      (tt, ((omega arith, omega arith, inl (λ e. absurd (omega arith))), (omega arith, tt)))
      (inr refl)

abbrev announcement : List ℕ
announcement = 2 ∷ 4 ∷ 5 ∷ 180 ∷ []

announcement-bytes : (j : ℕ) → byte announcement j < 256
announcement-bytes zero = omega arith
announcement-bytes (suc zero) = omega arith
announcement-bytes (suc (suc zero)) = omega arith
announcement-bytes (suc (suc (suc zero))) = omega arith
announcement-bytes (suc (suc (suc (suc j)))) = omega arith

parse_mss_option-lem_example :
    (scan_options 9 (announcement ++ 1 ∷ []) 4 0 ≡ parse_mss_option announcement 4)
    × (1 ≤ parse_mss_option announcement 4)
    × (parse_mss_option announcement 4 < 2 ^ 16)
parse_mss_option-lem_example =
    parse_mss_option-lem 9 announcement (1 ∷ []) announcement-bytes (omega arith)

seq_gt-positions_example : seq_gt (u32 (4294967290 + 10)) (u32 (4294967290 + 3)) ≡ true
seq_gt-positions_example = seq_gt-positions 4294967290 10 3 (omega arith) (omega arith)

abbrev data_addr : SegmentAddr
data_addr = record {
  src_mac = zero_mac;
  dst_mac = zero_mac;
  src_ip = 0x0a000002;
  dst_ip = 0x0a000001;
  src_port = 5000;
  dst_port = 80;
}

abbrev data_content : Content
data_content = record {
  seq = 103;
  ack = 1005;
  flags = 24;
  window = 100;
  payload = 9 ∷ [];
  mss_option = 0;
}

abbrev fresh : Mbuf
fresh = record { bytes = []; tail = replicate 64 0; nb_segs = 1; l2_len = 0; l3_len = 0 }

-- What the checksums of RFC 1071 come to
abbrev filled : Mbuf
filled = record {
  bytes = frame data_addr data_content 41 26317 31289;
  tail = replicate 9 0;
  nb_segs = 1;
  l2_len = 14;
  l3_len = 20;
}

data_content-Fits : Fits data_addr data_content
data_content-Fits = record {
  src_ip = omega arith;
  dst_ip = omega arith;
  src_port = omega arith;
  dst_port = omega arith;
  seq = omega arith;
  ack = omega arith;
  window = omega arith;
  payload = omega arith;
}

filled-fill_segment : fill_segment rfc_driver data_addr data_content fresh ≡ some filled
unfolding fill_segment append write append_payload set_l2_len set_l3_len packet_length
    build_ethernet_header build_ipv4_header build_tcp_header finalize_ipv4_header
    finalize_tcp_header words fold header_len pseudo_header read16
filled-fill_segment = refl

process-fill_segment_example :
    process rfc_driver stack filled receiver
    ≡ route rfc_driver stack (received data_addr data_content) receiver
process-fill_segment_example =
    process-fill_segment rfc_driver stack data_addr data_content fresh filled filled receiver
      rfc_driver-Checksums data_content-Fits refl refl filled-fill_segment refl refl refl
      (λ e. absurd (omega arith))

abbrev reset_segment : Segment
reset_segment = record segment { flags = 4 }

route-Quiet_example : Quiet receiver (route driver stack reset_segment receiver)
unfolding has has_bits
route-Quiet_example = route-Quiet driver stack reset_segment receiver refl

stack-IsPortSet : IsPortSet stack.listening
unfolding contains
stack-IsPortSet = record { no_repeats = (refl, tt); room = omega arith }

listen-Listened_example : Listened stack 443 (listen stack 443)
listen-Listened_example = listen-Listened stack 443 stack-IsPortSet

window_space-positions_example : window_space (105 * 2 ^ 32 + 50) 120 ≡ 35
window_space-positions_example =
    window_space-positions 100 5 50 20 (omega arith) (omega arith) (omega arith)

close-refuses_example :
    (lookup stack (close driver stack handle sender) handle ≡ none)
    × (sendable stack (close driver stack handle sender) handle ≡ false)
close-refuses_example =
    close-refuses driver stack handle sender (λ call n. omega arith) (omega arith) (omega arith)

-- Positions 7 and 8
abbrev tail_segment : Segment
tail_segment = record segment { seq = 107; payload = 7 ∷ 8 ∷ []; len = 2 }

abbrev pieces : List (ℕ × Segment)
pieces = (3, segment) ∷ (3, segment) ∷ (7, tail_segment) ∷ []

pieces-AreNear : AreNear (λ i. i) 100 5 pieces
unfolding has has_bits
pieces-AreNear = (
  record { seq_at = refl; bytes_at = refl },
  refl,
  omega arith,
  omega arith,
  (
    record { seq_at = refl; bytes_at = refl },
    refl,
    omega arith,
    omega arith,
    (record { seq_at = refl; bytes_at = refl }, refl, omega arith, omega arith, tt),
  ),
)

process_all-reached_example :
    ((slot (process_all 0 pieces receiver) 0).rcv_nxt_local ≡ 109)
    × (bytes_of 0 (process_all 0 pieces receiver).events ≡ 5 ∷ 6 ∷ 7 ∷ 8 ∷ [])
unfolding can_receive
process_all-reached_example =
    process_all-reached (λ i. i) 100 5 0 pieces receiver (omega arith) refl refl pieces-AreNear
