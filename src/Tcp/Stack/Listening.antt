-- ===== src/Tcp/Stack/Listening.antt =====
-- The set of listening ports: no port twice, at most sixteen, and a call adds its port alone.
use dpdk_wrapper_library.Base.{
  ℕ, ◌≤◌, ◌≡◌, refl, ◌∙◌, sym, ap, List, [], ◌∷◌, ◌++◌, true, false, ◌||◌, ◌==◌, arith, inl, inr,
  Bool-cases, length, length-append, ℕ_discrete,
}
use dpdk_wrapper_library.Tcp.Stack.{
  TcpStack, too_many_ports, Result, ok, err, contains, listen, max_ports,
}

-- No port stands twice.
abbrev pub NoRepeats : List ℕ → Type 0
NoRepeats [] = Unit
NoRepeats (p ∷ ps) = (contains ps p ≡ false) × NoRepeats ps

pub record IsPortSet (ports : List ℕ) : Type 0 where
  pub no_repeats : NoRepeats ports
  pub room : length ports ≤ max_ports

contains-append : (ps : List ℕ) (p q : ℕ) → contains (ps ++ p ∷ []) q ≡ contains ps q || p == q
unfolding contains
contains-append [] p q = ground arith
contains-append (x ∷ ps) p q = ground (arith, contains-append ps p q)

NoRepeats-append :
    (ps : List ℕ) (p : ℕ) → NoRepeats ps → contains ps p ≡ false → NoRepeats (ps ++ p ∷ [])
unfolding contains
NoRepeats-append [] p h new = (refl, tt)
NoRepeats-append (x ∷ ps) p h new =
    let apart : (x == p) ≡ false = ground arith in
    let rest : contains ps p ≡ false = ground arith in
    (contains-append ps p x ∙ ground arith, NoRepeats-append ps p h.1 rest)

known_alone :
    (ps : List ℕ) (p : ℕ) → contains ps p ≡ true → (q : ℕ) → contains ps q ≡ contains ps q || p == q
known_alone ps p known q = elim (ℕ_discrete p q) [
  | yes e ↦ let has_q : contains ps q ≡ true = ap (contains ps) (sym e) ∙ known in rw has_q refl
  | no ne ↦ ground arith
]

-- The outcome of a call: the ports are still a set, to which `p` alone is added; or there are sixteen
-- others already.
abbrev pub Listened : TcpStack → ℕ → Result TcpStack → Type 0
Listened s p (ok s') =
    IsPortSet s'.listening × ((q : ℕ) → contains s'.listening q ≡ contains s.listening q || p == q)
Listened s p (err e) =
    (e ≡ too_many_ports) × (length s.listening ≡ max_ports) × (contains s.listening p ≡ false)

-- From a stack whose ports are a set of at most sixteen, `listen` either keeps them one and makes its
-- own port, and no other, a listening one, or fails because there are sixteen others.
pub listen-Listened : (s : TcpStack) (p : ℕ) → IsPortSet s.listening → Listened s p (listen s p)
unfolding listen
listen-Listened s p w = elim (Bool-cases (contains s.listening p)) [
  | inl known ↦ rw known (w, known_alone s.listening p known)
  | inr new ↦ elim (Bool-cases (length s.listening == max_ports)) [
    | inl full ↦ rw (new, full) (refl, ground arith, new)
    | inr free ↦
        rw (new, free)
          (
            record {
              no_repeats = NoRepeats-append s.listening p w.no_repeats new;
              room = ground (arith, w.room, length-append s.listening (p ∷ []));
            },
            contains-append s.listening p,
          )
  ]
]
