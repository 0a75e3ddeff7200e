-- ===== src/Echo/Server.antt =====
-- The two threads of examples/tcp_echo_server.h together: from the events of the polls to what the
-- outbound thread gets.
use dpdk_wrapper_library.Base.{
  ℕ, ◌+◌, ◌≡◌, refl, ◌∙◌, sym, ap, List, [], ◌∷◌, ◌++◌, some, arith, length, length-append, map,
}
use dpdk_wrapper_library.Echo.Inbound.Chunks.{messages, handle-Waits}
use dpdk_wrapper_library.Echo.Inbound.Fifo.{Message, shown, Waits, drain_overflow-Waits}
use dpdk_wrapper_library.Echo.Inbound.{WorkItem, Inbound, drain_overflow, handle}
use dpdk_wrapper_library.Echo.Streams.{
  received, carried, carried-append, all_messages, all_messages-snoc, carried-all_messages,
}
use dpdk_wrapper_library.Echo.Ring.Queue.{Queue, front-empty, front-oldest, pop-Queue}
use dpdk_wrapper_library.Echo.Ring.{front, pop}
use dpdk_wrapper_library.Probe.Walk.{some-injective, none-not-some}
use dpdk_wrapper_library.Tcp.Stack.{ConnId, TcpEvent}
use mathlib.Core.List.{append_assoc}

-- The constructor's ring, overflow and counters
unfoldable pub new_inbound : WorkItem → Inbound
new_inbound junk = record {
  ring = record { head = 0; tail = 0; items = λ _. junk };
  overflow = [];
  accepted = 0;
  finished = 0;
}

-- What was handled, what the outbound thread has taken from the ring, and the state, for any order of
-- the steps of both threads.
pub data Serves (item : WorkItem) (junk : List ℕ)
    : List TcpEvent → List Message → Inbound → Type 0 where
  starts : Serves item junk [] [] (new_inbound item)
  handles :
      {evs : List TcpEvent} {taken : List Message} {s : Inbound} (ev : TcpEvent)
      → Serves item junk evs taken s
      → Serves item junk (evs ++ ev ∷ []) taken (handle junk ev s)
  drains :
      {evs : List TcpEvent} {taken : List Message} {s : Inbound}
      → Serves item junk evs taken s
      → Serves item junk evs taken (drain_overflow s)
  takes :
      {evs : List TcpEvent} {taken : List Message} {s : Inbound} (i : ℕ)
      → Serves item junk evs taken s
      → front s.ring ≡ some i
      → Serves item junk evs
          (taken ++ shown ((s.ring).items i) ∷ [])
          (record s { ring = pop s.ring })

pub record Served (evs : List TcpEvent) (taken : List Message) (s : Inbound) : Type 0 where
  pub left : List Message
  pub waits : Waits (length taken) left s
  pub order : all_messages evs ≡ taken ++ left

pub served :
    {item : WorkItem} {junk : List ℕ} {evs : List TcpEvent} {taken : List Message} {s : Inbound}
    → Serves item junk evs taken s
    → Served evs taken s
unfolding new_inbound all_messages
served starts = record {
  left = [];
  waits = record {
    ringed = [];
    queue = record { fits = omega arith; tail = refl; head = refl; content = tt };
    sized = tt;
    order = refl;
  };
  order = refl;
}
served {junk} (handles {evs} {taken} {s} ev before) =
    let w = served before in
    record {
      left = w.left ++ messages ev;
      waits = handle-Waits junk ev (length taken) w.left s w.waits;
      order =
          all_messages-snoc evs ev
          ∙ ap (λ (l : List Message). l ++ messages ev) w.order
          ∙ append_assoc taken w.left (messages ev);
    }
served (drains {evs} {taken} {s} before) =
    let w = served before in
    record {
      left = w.left;
      waits = (drain_overflow-Waits (length taken) w.left s w.waits).0;
      order = w.order;
    }
served (takes {evs} {taken} {s} i before slot) =
    let w = served before in take_oldest w.left w.waits w.order w.waits.ringed refl
  where
    take_oldest :
        (ms : List Message) (v : Waits (length taken) ms s) (o : all_messages evs ≡ taken ++ ms)
        (ringed : List Message)
        → v.ringed ≡ ringed
        → Served evs (taken ++ shown ((s.ring).items i) ∷ []) (record s { ring = pop s.ring })
    take_oldest ms v o [] e =
        let q : Queue shown s.ring (length taken) [] = rw⁻¹ e v.queue in
        absurd (none-not-some i (sym (front-empty shown s.ring (length taken) q) ∙ slot))
    take_oldest ms v o (x ∷ rest) e =
        let q : Queue shown s.ring (length taken) (x ∷ rest) = rw⁻¹ e v.queue in
        let (at, oldest) = front-oldest shown s.ring (length taken) x rest q in
        let item : shown ((s.ring).items i) ≡ x =
          ap (λ (k : ℕ). shown ((s.ring).items k)) (some-injective i _ (sym slot ∙ at)) ∙ oldest in
        let one_more : length (taken ++ shown ((s.ring).items i) ∷ []) ≡ length taken + 1 =
          omega (arith, length-append taken (shown ((s.ring).items i) ∷ [])) in
        record {
          left = rest ++ map shown s.overflow;
          waits = record {
            ringed = rest;
            queue = rw one_more (pop-Queue shown s.ring (length taken) x rest q);
            sized = v.sized;
            order = refl;
          };
          order =
              o
              ∙ ap (◌++◌ taken) (v.order ∙ ap (λ (l : List Message). l ++ map shown s.overflow) e)
              ∙ ap (λ (m : Message). taken ++ (m ∷ (rest ++ map shown s.overflow))) (sym item)
              ∙ sym (
                  append_assoc taken (shown ((s.ring).items i) ∷ [])
                    (rest ++ map shown s.overflow));
        }

-- In any order of the steps of the two threads, what the outbound thread has taken is, in order, the
-- front of the messages of all the events handled, and the bytes it has taken for a connection are a
-- front of the bytes received on it, none lost, doubled or out of order; what is left waits in the
-- ring or in the overflow.
pub Serves-order :
    {item : WorkItem} {junk : List ℕ} {evs : List TcpEvent} {taken : List Message} {s : Inbound}
    → Serves item junk evs taken s
    → (left : List Message) × (all_messages evs ≡ taken ++ left)
      × Waits (length taken) left s
      × ((c : ConnId) → received c evs ≡ carried c taken ++ carried c left)
Serves-order {evs} {taken} run =
    let w = served run in
    (
      w.left,
      w.order,
      w.waits,
      λ c.
          sym (carried-all_messages c evs) ∙ ap (carried c) w.order ∙ carried-append c taken w.left,
    )
