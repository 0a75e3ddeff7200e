-- ===== src/Tcp/Options.antt =====
-- parse_mss_option of src/tcp_stack.cpp.
pub mod Scan
pub mod Encoding
use dpdk_wrapper_library.Base.{
  ℕ, zero, suc, ◌+◌, ◌*◌, ◌^◌, List, Bool, true, false, not, ◌&&◌, ◌||◌, ltb, leb, ◌==◌,
  if◌then◌else◌, length, get_or, of_be16,
}

abbrev pub default_peer_mss : ℕ
default_peer_mss = 536

abbrev pub opt_end : ℕ
opt_end = 0

abbrev pub opt_nop : ℕ
opt_nop = 1

abbrev pub opt_mss : ℕ
opt_mss = 2

abbrev pub opt_mss_len : ℕ
opt_mss_len = 4

abbrev pub byte : List ℕ → ℕ → ℕ
byte opt i = get_or opt i 0

-- The rest of the option at `i` does not fit in the `len` bytes, so the loop stops.
unfoldable pub is_malformed : List ℕ → ℕ → ℕ → Bool
is_malformed opt len i =
    leb len (i + 1) || ltb (byte opt (i + 1)) 2 || ltb len (i + byte opt (i + 1))

-- `(opt[i + 2] << 8) | opt[i + 3]`, where 0 stands for no announcement
unfoldable pub mss_at : List ℕ → ℕ → ℕ
mss_at opt i =
    let mss = of_be16 (byte opt (i + 2)) (byte opt (i + 3)) in
    if mss == 0 then default_peer_mss else mss

-- The loop, a round for each option.
unfoldable pub scan_options : ℕ → List ℕ → ℕ → ℕ → ℕ
scan_options zero opt len i = default_peer_mss
scan_options (suc fuel) opt len i =
    let next =
      scan_options fuel opt len (if byte opt i == opt_nop then i + 1 else i + byte opt (i + 1)) in
    if leb len i
    then default_peer_mss
    else if byte opt i == opt_end
    then default_peer_mss
    else if byte opt i == opt_nop
    then next
    else if is_malformed opt len i
    then default_peer_mss
    else if byte opt i == opt_mss && byte opt (i + 1) == opt_mss_len
    then mss_at opt i
    else next

-- `opt` is the memory from the pointer on. Every round moves on by a byte at least, so a round more
-- than there are bytes is enough.
unfoldable pub parse_mss_option : List ℕ → ℕ → ℕ
parse_mss_option opt len = scan_options (suc len) opt len 0
