-- ===== src/Tcp/Connection/Window.antt =====
-- The room in the peer's window, on positions in a stream.
use dpdk_wrapper_library.Base.{ℕ, ◌+◌, ◌-◌, ◌*◌, ◌^◌, ◌<◌, ◌≡◌, u32, arith}
use dpdk_wrapper_library.Tcp.Connection.{window_una, window_size, window_space}

-- When the peer has acknowledged up to position `u` and its window has `wnd` bytes, and `snd_nxt`
-- stands at position `n`, less than half the sequence space from the window's right edge, the room
-- is what is left up to that edge, and 0 once `snd_nxt` is at it or behind it.
pub window_space-positions :
    (base u wnd n : ℕ)
    → wnd < 2 ^ 32
    → n < u + wnd + 2 ^ 31
    → u + wnd < n + 2 ^ 31
    → window_space (u32 (base + u) * 2 ^ 32 + wnd) (u32 (base + n)) ≡ u + wnd - n
unfolding window_space window_una window_size
window_space-positions base u wnd n word near near' = ground arith
