-- ===== src/Tcp/Receiver/Data/Stream.antt =====
-- The peer's byte stream as a function of the position, and the bytes that events hand over.
use mathlib.Core.List.{append_assoc}
use dpdk_wrapper_library.Base.{
  ℕ, zero, suc, ◌+◌, ◌-◌, ◌≡◌, refl, ap, List, [], ◌∷◌, ◌++◌, Bool, true, false, ◌&&◌, ◌==◌,
  if◌then◌else◌, arith, length, drop, u32, sym, inl, inr, Bool-cases,
}
use dpdk_wrapper_library.Tcp.Segment.{Segment}
use dpdk_wrapper_library.Tcp.Stack.{TcpEvent, TcpEventType, payload}

-- `n` bytes of the stream from position `a` on
abbrev pub stream : (ℕ → ℕ) → ℕ → ℕ → List ℕ
stream s a zero = []
stream s a (suc n) = s a ∷ stream s (suc a) n

pub length-stream : (s : ℕ → ℕ) (a n : ℕ) → length (stream s a n) ≡ n
length-stream s a zero = refl
length-stream s a (suc n) = ap suc (length-stream s (suc a) n)

pub drop-stream : (s : ℕ → ℕ) (k a n : ℕ) → drop k (stream s a n) ≡ stream s (k + a) (n - k)
drop-stream s zero a n = ground arith
drop-stream s (suc k) a zero = ground arith
drop-stream s (suc k) a (suc n) = ground (arith, drop-stream s k (suc a) n)

pub stream-append :
    (s : ℕ → ℕ) (a m b n k : ℕ)
    → b ≡ a + m
    → k ≡ m + n
    → stream s a m ++ stream s b n ≡ stream s a k
stream-append s a zero b n k p q = ground arith
stream-append s a (suc m) b n zero p q = absurd (omega arith)
stream-append s a (suc m) b n (suc k) p q =
    ap (◌∷◌ (s a)) (stream-append s (suc a) m b n k (omega arith) (omega arith))

abbrev pub is_payload : TcpEventType → Bool
is_payload payload = true
is_payload kind = false

-- The bytes of the `payload` events of slot `idx`, in order
abbrev pub bytes_of : ℕ → List TcpEvent → List ℕ
bytes_of idx [] = []
bytes_of idx (e ∷ es) =
    if is_payload e.kind && e.conn.slot == idx then e.bytes ++ bytes_of idx es else bytes_of idx es

-- The segment carries the stream's bytes from position `a` on, in a sequence space that starts
-- at `base`.
pub record Carries (s : ℕ → ℕ) (base a : ℕ) (seg : Segment) : Type 0 where
  pub seq_at : seg.seq ≡ u32 (base + a)
  pub bytes_at : seg.payload ≡ stream s a seg.len

pub bytes_of-append :
    (idx : ℕ) (xs ys : List TcpEvent) → bytes_of idx (xs ++ ys) ≡ bytes_of idx xs ++ bytes_of idx ys
bytes_of-append idx [] ys = refl
bytes_of-append idx (e ∷ xs) ys = elim (Bool-cases (is_payload e.kind && e.conn.slot == idx)) [
  | inl yes' ↦ rw (yes', bytes_of-append idx xs ys) (sym (append_assoc e.bytes _ _))
  | inr no' ↦ rw (no', bytes_of-append idx xs ys)
]
