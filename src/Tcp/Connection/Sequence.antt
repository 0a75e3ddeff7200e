-- ===== src/Tcp/Connection/Sequence.antt =====
-- The comparisons of src/tcp_connection.h on positions in a stream, and the packed window.
use dpdk_wrapper_library.Base.{ℕ, ◌+◌, ◌^◌, ◌≤◌, ◌<◌, ◌≡◌, ltb, u32, arith}
use dpdk_wrapper_library.Tcp.Connection.{seq_gt}

-- Positions `a` and `b` that are less than half the sequence space apart compare as they stand in
-- the stream, wherever the stream's base lies and however often the numbers have wrapped.
pub seq_gt-positions :
    (base a b : ℕ)
    → a ≤ b + 2 ^ 31
    → b < a + 2 ^ 31
    → seq_gt (u32 (base + a)) (u32 (base + b)) ≡ ltb b a
unfolding seq_gt
seq_gt-positions base a b near near' = ground arith
