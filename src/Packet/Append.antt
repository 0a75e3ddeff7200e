-- ===== src/Packet/Append.antt =====
-- A region that is appended and then filled.
use dpdk_wrapper_library.Base.{
  ℕ, ◌+◌, ◌-◌, ◌^◌, ◌≡◌, refl, ◌∙◌, ap, List, [], ◌++◌, some, false, arith, length, take, drop,
  length-append, length-take, take-append_self, drop_all, Bool-cases, Option-cases, inl, inr, ltb,
}
use mathlib.Core.List.{append-nil}
use dpdk_wrapper_library.Packet.{Mbuf, append, write, append_payload}

-- `src` fills the whole region that was appended.
pub append-write :
    (m : Mbuf) (n : ℕ) (src : List ℕ) {off : ℕ} {m' : Mbuf}
    → append m n ≡ some (off, m')
    → length src ≡ n
    → (off ≡ length m.bytes) × ((write off src m').bytes ≡ m.bytes ++ src)
unfolding append write
append-write m n src {off} {m'} done fits =
    let at : off ≡ length m.bytes = ground arith in
    let grown : m'.bytes ≡ m.bytes ++ take n m.tail = ground arith in
    let behind : drop (length m.bytes + length src) (m.bytes ++ take n m.tail) ≡ [] =
      drop_all (length m.bytes + length src) (m.bytes ++ take n m.tail)
        (omega (arith, length-append m.bytes (take n m.tail), length-take n m.tail)) in
    (at, rw (at, grown, take-append_self, behind, append-nil) refl)

pub append_payload-lem :
    (m : Mbuf) (payload : List ℕ) {off : ℕ} {m' : Mbuf}
    → append_payload m payload ≡ some (off, m')
    → m'.bytes ≡ m.bytes ++ payload
unfolding append_payload
append_payload-lem m payload {off} {m'} done =
    elim (Bool-cases (ltb (2 ^ 16 - 1) (length payload))) [
      | inl long ↦ cc
      | inr short ↦ elim (Option-cases (append m (length payload))) [
        | inl full ↦ absurd (ground arith)
        | inr ((at, grown), e) ↦
            ap (λ (x : Mbuf). x.bytes) (filled at grown e short)
            ∙ (append-write m (length payload) payload e refl).1
      ]
    ]
  where
    filled :
        (at : ℕ) (grown : Mbuf)
        → append m (length payload) ≡ some (at, grown)
        → ltb (2 ^ 16 - 1) (length payload) ≡ false
        → m' ≡ write at payload grown
    filled at grown e short = ground arith
