-- ===== src/Tcp/Options/Scan.antt =====
-- The loop of `parse_mss_option`: its end, its bounds, and what it finds.
use dpdk_wrapper_library.Base.{
  ℕ, zero, suc, ◌+◌, ◌^◌, ◌≤◌, ◌<◌, ◌≡◌, refl, ◌∙◌, List, [], ◌∷◌, ◌++◌, arith, length,
}
use dpdk_wrapper_library.Tcp.Options.{byte, is_malformed, mss_at, scan_options, parse_mss_option}

-- More fuel than there are bytes left changes nothing, so the loop ends by itself.
pub scan_options-fuel :
    (fuel fuel' : ℕ) (opt : List ℕ) (len i : ℕ)
    → len < fuel + i
    → len < fuel' + i
    → scan_options fuel opt len i ≡ scan_options fuel' opt len i
unfolding scan_options is_malformed
scan_options-fuel zero zero opt len i h h' = refl
scan_options-fuel zero (suc fuel') opt len i h h' = ground arith
scan_options-fuel (suc fuel) zero opt len i h h' = ground arith
scan_options-fuel (suc fuel) (suc fuel') opt len i h h' = ground (
  arith,
  scan_options-fuel fuel fuel' opt len (i + 1),
  scan_options-fuel fuel fuel' opt len (i + byte opt (i + 1)),
)

-- The result is never 0, and fits 16 bits.
pub scan_options-bounds :
    (fuel : ℕ) (opt : List ℕ) (len i : ℕ)
    → ((j : ℕ) → byte opt j < 256)
    → (1 ≤ scan_options fuel opt len i) × (scan_options fuel opt len i < 2 ^ 16)
unfolding scan_options mss_at
scan_options-bounds zero opt len i bytes = omega arith
scan_options-bounds (suc fuel) opt len i bytes = ground (
  arith,
  bytes (i + 2),
  bytes (i + 3),
  scan_options-bounds fuel opt len (i + 1) bytes,
  scan_options-bounds fuel opt len (i + byte opt (i + 1)) bytes,
)

byte-append : (opt junk : List ℕ) (i : ℕ) → i < length opt → byte (opt ++ junk) i ≡ byte opt i
byte-append [] junk i h = absurd (omega arith)
byte-append (x ∷ opt) junk zero h = refl
byte-append (x ∷ opt) junk (suc i) h = byte-append opt junk i (omega arith)

-- What lies behind the `len` bytes is not read.
pub scan_options-append :
    (fuel : ℕ) (opt junk : List ℕ) (i : ℕ)
    → scan_options fuel (opt ++ junk) (length opt) i ≡ scan_options fuel opt (length opt) i
unfolding scan_options is_malformed mss_at
scan_options-append zero opt junk i = refl
scan_options-append (suc fuel) opt junk i = ground (
  arith,
  byte-append opt junk i,
  byte-append opt junk (i + 1),
  byte-append opt junk (i + 2),
  byte-append opt junk (i + 3),
  scan_options-append fuel opt junk (i + 1),
  scan_options-append fuel opt junk (i + byte opt (i + 1)),
)

-- With any fuel that suffices, on memory of which only `len` bytes belong to the header, the result
-- is that of the header alone; and a header of bytes yields a value from 1 to 65535.
pub parse_mss_option-lem :
    (fuel : ℕ) (opt junk : List ℕ)
    → ((j : ℕ) → byte opt j < 256)
    → length opt < fuel
    → (scan_options fuel (opt ++ junk) (length opt) 0 ≡ parse_mss_option opt (length opt))
      × (1 ≤ parse_mss_option opt (length opt))
      × (parse_mss_option opt (length opt) < 2 ^ 16)
unfolding parse_mss_option
parse_mss_option-lem fuel opt junk bytes enough =
    let bounds = scan_options-bounds (suc (length opt)) opt (length opt) 0 bytes in
    (
      scan_options-append fuel opt junk 0
          ∙ scan_options-fuel fuel (suc (length opt)) opt (length opt) 0 (omega arith)
              (omega arith),
      bounds.0,
      bounds.1,
    )
