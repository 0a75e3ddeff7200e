-- ===== src/Echo/Outbound/Once.antt =====
-- A connection is closed once, however often the peer's FIN and its resets ask for it.
use dpdk_wrapper_library.Base.{
  ◌<◌, ◌≡◌, ◌≢◌, refl, ◌∙◌, List, [], ◌∷◌, true, false, ◌==◌, arith, length, get_or,
  get_or-set_self, get_or-set_ne, inl, inr, Bool-cases,
}
use dpdk_wrapper_library.Echo.Outbound.{Outbound, close_once}
use dpdk_wrapper_library.Packet.{Dpdk}
use dpdk_wrapper_library.Tcp.Sender.Close.{close}
use dpdk_wrapper_library.Tcp.Stack.{TcpStack, ConnId}

module _ (d : Dpdk) (st : TcpStack) where
  -- Requests to close, one after the other
  abbrev pub close_each : List ConnId → Outbound → Outbound
  close_each [] o = o
  close_each (c ∷ cs) o = close_each cs (close_once d st c o)

  abbrev pub AllApart : ConnId → List ConnId → Type 0
  AllApart conn [] = Unit
  AllApart conn (c ∷ cs) = (c.slot ≢ conn.slot) × AllApart conn cs

  released_self :
      (conn : ConnId) (o : Outbound)
      → conn.slot < length o.released
      → get_or (close_once d st conn o).released conn.slot 0 ≡ conn.generation
  unfolding close_once
  released_self conn o live = elim (Bool-cases (get_or o.released conn.slot 0 == conn.generation)) [
    | inl same ↦ rw same (ground arith)
    | inr other ↦ rw other (get_or-set_self o.released conn.slot conn.generation 0 live)
  ]

  released-other :
      (conn c : ConnId) (o : Outbound)
      → c.slot ≢ conn.slot
      → get_or (close_once d st c o).released conn.slot 0 ≡ get_or o.released conn.slot 0
  unfolding close_once
  released-other conn c o apart = elim (Bool-cases (get_or o.released c.slot 0 == c.generation)) [
    | inl same ↦ rw same refl
    | inr other ↦ rw other (get_or-set_ne o.released c.slot conn.slot c.generation 0 apart)
  ]

  released-each :
      (conn : ConnId) (cs : List ConnId) (o : Outbound)
      → AllApart conn cs
      → get_or (close_each cs o).released conn.slot 0 ≡ get_or o.released conn.slot 0
  released-each conn [] o apart = refl
  released-each conn (c ∷ cs) o (first, rest) =
      released-each conn cs (close_once d st c o) rest ∙ released-other conn c o first

  -- On a slot that the server keeps account of, the first request for a generation that is not yet
  -- released calls `close`, and a second request for the same handle changes nothing, whatever was
  -- closed on other slots in between.
  pub close_once-again :
      (conn : ConnId) (cs : List ConnId) (o : Outbound)
      → conn.slot < length o.released
      → get_or o.released conn.slot 0 ≢ conn.generation
      → AllApart conn cs
      → ((close_once d st conn o).sender ≡ close d st conn o.sender)
        × (close_once d st conn (close_each cs (close_once d st conn o))
            ≡ close_each cs (close_once d st conn o))
  unfolding close_once
  close_once-again conn cs o live fresh apart =
      let first : get_or o.released conn.slot 0 == conn.generation ≡ false = ground arith in
      let after = close_each cs (close_once d st conn o) in
      let again : get_or after.released conn.slot 0 ≡ conn.generation =
        released-each conn cs (close_once d st conn o) apart ∙ released_self conn o live in
      let stop : get_or after.released conn.slot 0 == conn.generation ≡ true = ground arith in
      (rw first refl, second after stop)
    where
      second :
          (x : Outbound)
          → get_or x.released conn.slot 0 == conn.generation ≡ true
          → close_once d st conn x ≡ x
      second x stop = rw stop refl
