-- ===== src/Echo/Progress.antt =====
-- Turns of the two threads at the ring bring the outbound thread all that waits.
use dpdk_wrapper_library.Base.{
  ℕ, Option, ◌≤◌, ◌+◌, ◌%◌, ◌≡◌, refl, ◌∙◌, sym, ap, List, [], ◌∷◌, ◌++◌, map, none, some, arith,
  length, length-append, ◌⊎◌, inl, inr,
}
use dpdk_wrapper_library.Echo.Inbound.Fifo.{Message, shown, AllSized, Waits, drain_overflow-Waits}
use dpdk_wrapper_library.Echo.Inbound.{WorkItem, Inbound, drain_overflow}
use dpdk_wrapper_library.Echo.Ring.Queue.{Queue, front-empty, front-oldest, pop-Queue}
use dpdk_wrapper_library.Echo.Ring.{capacity, front, pop}
use dpdk_wrapper_library.Echo.Server.{Serves, served}
use dpdk_wrapper_library.Echo.Streams.{all_messages}
use dpdk_wrapper_library.Tcp.Stack.{TcpEvent}

-- Where the outbound thread is when the inbound thread has drained: in the loop of `send` over an item,
-- or back at the ring
pub data Turn : Type 0 where
  busy back : Turn

abbrev pub times_back : List Turn → ℕ
times_back [] = 0
times_back (busy ∷ turns) = times_back turns
times_back (back ∷ turns) = 1 + times_back turns

take_front : Inbound → Option ℕ → List Message × Inbound
take_front s none = ([], s)
take_front s (some i) = (shown ((s.ring).items i) ∷ [], record s { ring = pop s.ring })

-- A drain by the inbound thread, and a take where the outbound thread is back
cycle : Turn → Inbound → List Message × Inbound
unfolding take_front
cycle busy s = ([], drain_overflow s)
cycle back s = let drained = drain_overflow s in take_front drained (front drained.ring)

-- What the turns take, and what they leave
unfoldable pub cycles : List Turn → Inbound → List Message × Inbound
unfolding cycle
cycles [] s = ([], s)
cycles (turn ∷ turns) s =
    let (taken, s₁) = cycle turn s in let (more, s₂) = cycles turns s₁ in (taken ++ more, s₂)

cons-not-nil : (x : Message) (xs : List Message) → x ∷ xs ≡ [] → ⊥
cons-not-nil x xs e = cc

cons-injective : (x y : Message) (xs ys : List Message) → x ∷ xs ≡ y ∷ ys → (x ≡ y) × (xs ≡ ys)
cons-injective x y xs ys e = (cc, cc)

append_nil : (xs ys : List Message) → [] ≡ xs ++ ys → (xs ≡ []) × (ys ≡ [])
append_nil [] ys e = (refl, sym e)
append_nil (x ∷ xs) ys e = absurd (cons-not-nil x (xs ++ ys) (sym e))

map_nil : (xs : List WorkItem) → map shown xs ≡ [] → xs ≡ []
map_nil [] e = refl
map_nil (x ∷ xs) e = absurd (cons-not-nil (shown x) (map shown xs) e)

-- Where the overflow is drained as far as it goes, the oldest message can be taken.
take_next :
    (taken : ℕ) (x : Message) (ms : List Message) (s : Inbound) (ringed : List Message)
    → Queue shown s.ring taken ringed
    → AllSized s.overflow
    → x ∷ ms ≡ ringed ++ map shown s.overflow
    → (s.overflow ≡ []) ⊎ (length ringed ≡ capacity)
    → (i : ℕ) × (front s.ring ≡ some i)
      × (shown ((s.ring).items i) ≡ x)
      × Waits (taken + 1) ms (record s { ring = pop s.ring })
take_next taken x ms s [] q sized order (inl spilled) =
    absurd (cons-not-nil x ms (order ∙ ap (map shown) spilled))
take_next taken x ms s [] q sized order (inr full) = absurd (omega arith)
take_next taken x ms s (y ∷ rest) q sized order ready =
    let (same, others) = cons-injective x y ms (rest ++ map shown s.overflow) order in
    let (at, oldest) = front-oldest shown s.ring taken y rest q in
    (
      taken % capacity,
      at,
      oldest ∙ sym same,
      record {
        ringed = rest;
        queue = pop-Queue shown s.ring taken y rest q;
        sized = sized;
        order = others;
      },
    )

-- What the turns took is what waited, and nothing is left.
record Emptied (ms : List Message) (r : List Message × Inbound) : Type 0 where
  pub took : r.0 ≡ ms
  pub nothing_spilled : r.1.overflow ≡ []
  pub nothing_ringed : front r.1.ring ≡ none

drained_out :
    (taken : ℕ) (s : Inbound) → Waits taken [] s → (front s.ring ≡ none) × (s.overflow ≡ [])
drained_out taken s w =
    let (nothing, left) = append_nil w.ringed (map shown s.overflow) w.order in
    (front-empty shown s.ring taken (rw⁻¹ nothing w.queue), map_nil s.overflow left)

cycles-Emptied :
    (turns : List Turn) (taken : ℕ) (ms : List Message) (s : Inbound)
    → Waits taken ms s
    → length ms ≤ times_back turns
    → Emptied ms (cycles turns s)
unfolding cycles cycle take_front
cycles-Emptied [] taken [] s w enough =
    let (idle, empty) = drained_out taken s w in
    record { took = refl; nothing_spilled = empty; nothing_ringed = idle }
cycles-Emptied [] taken (x ∷ ms) s w enough = absurd (omega arith)
cycles-Emptied (busy ∷ turns) taken ms s w enough =
    cycles-Emptied turns taken ms (drain_overflow s) (drain_overflow-Waits taken ms s w).0 enough
cycles-Emptied (back ∷ turns) taken [] s w enough =
    let (v, _) = drain_overflow-Waits taken [] s w in
    let s₁ = drain_overflow s in
    rw ((drained_out taken s₁ v).0) (cycles-Emptied turns taken [] s₁ v (omega arith))
cycles-Emptied (back ∷ turns) taken (x ∷ ms) s w enough =
    let (v, ready) = drain_overflow-Waits taken (x ∷ ms) s w in
    let s₁ = drain_overflow s in
    let (i, slot, item, next) = take_next taken x ms s₁ v.ringed v.queue v.sized v.order ready in
    let s₂ = record s₁ { ring = pop s₁.ring } in
    let rest = cycles-Emptied turns (taken + 1) ms s₂ next (omega arith) in
    rw slot (record {
      took = ap (λ (m : Message). m ∷ (cycles turns s₂).0) item ∙ ap (◌∷◌ x) rest.took;
      nothing_spilled = rest.nothing_spilled;
      nothing_ringed = rest.nothing_ringed;
    })

-- From every state that any order of the steps of the two threads reaches, if no event comes in
-- between: once the outbound thread has come back to the ring as often as there are messages not yet
-- taken, with a drain by the inbound thread before each time and any number of further drains while
-- it is busy sending, it has taken all of these, in order, and the overflow and the ring are empty.
-- That `send` lets it come back so often is a condition and not a result.
pub Serves-cycles :
    {item : WorkItem} {junk : List ℕ} {evs : List TcpEvent} {taken : List Message} {s : Inbound}
    (turns : List Turn)
    → Serves item junk evs taken s
    → length (all_messages evs) ≤ length taken + times_back turns
    → let (more, s') = cycles turns s in
      (all_messages evs ≡ taken ++ more) × (s'.overflow ≡ []) × (front s'.ring ≡ none)
Serves-cycles {taken = taken} {s = s} turns run enough =
    let w = served run in
    let left : length w.left ≤ times_back turns =
      omega (arith, ap length w.order, length-append taken w.left) in
    let r = cycles-Emptied turns (length taken) w.left s w.waits left in
    (w.order ∙ ap (◌++◌ taken) (sym r.took), r.nothing_spilled, r.nothing_ringed)
