-- ===== src/Node/Connections.antt =====
-- crates/waku-node/src/runtime.rs: what `handle_event` does as connections open and close: the
-- connections that are counted per IP address, and the peers that are connected. What happens
-- when the application no longer takes events is in Node.Machine.
use rs_waku.Prelude.{
  ℕ, ◌+◌, ◌-◌, List, [], ◌∷◌, Bool, true, false, not, Option, none, some, if◌then◌else◌, filter,
  ltb, eqb,
}
use mathlib.Core.Option
use rs_waku.Prelude.Eq.{Eq, ◌==◌, contains}
use rs_waku.Prelude.Assoc.{Assoc, lookup, insert, remove}

-- What a handler asks of the swarm and of the application.
pub data Action (Peer : Type 0) : Type 0 where
  disconnect : Peer → Action Peer
  send_metadata : Peer → Action Peer
  peer_connected : Peer → Action Peer
  peer_disconnected : Peer → Action Peer

pub record Connections (Peer Ip : Type 0) : Type 0 where
  pub ip_counts : Assoc Ip ℕ
  pub connected : List Peer

pub data ConnectionEvent (Peer Ip : Type 0) : Type 0 where
  established : Peer → Option Ip → ConnectionEvent Peer Ip
  closed : Peer → Option Ip → ConnectionEvent Peer Ip

module _ {Peer : Type 0} ⦃e : Eq Peer⦄ where
  -- `HashSet::insert` and `HashSet::remove`
  abbrev pub add_peer : Peer → List Peer → List Peer
  add_peer peer peers = if contains peers peer then peers else peer ∷ peers

  abbrev pub drop_peer : Peer → List Peer → List Peer
  drop_peer peer peers = filter (λ p. not (p == peer)) peers

module _ {Ip : Type 0} ⦃f : Eq Ip⦄ where
  abbrev pub count_of : Ip → Assoc Ip ℕ → ℕ
  count_of ip counts = Option.get_or (lookup ip counts) 0

  -- The guard: whether the connection is refused, and the counts it leaves.
  unfoldable pub admit : ℕ → Option Ip → Assoc Ip ℕ → Bool × Assoc Ip ℕ
  admit limit none counts = (true, counts)
  admit limit (some ip) counts =
      let count = count_of ip counts + 1 in
      if not (ltb 0 limit)
      then (true, counts)
      else if ltb limit count
      then (false, insert ip (count - 1) counts)
      else (true, insert ip count counts)

  unfoldable pub release : Option Ip → Assoc Ip ℕ → Assoc Ip ℕ
  release none counts = counts
  release (some ip) counts = elim (lookup ip counts) [
    | none ↦ counts
    | some count ↦ if eqb (count - 1) 0 then remove ip counts else insert ip (count - 1) counts
  ]

module _ {Peer Ip : Type 0} ⦃e : Eq Peer⦄ ⦃f : Eq Ip⦄ where
  unfoldable pub on_established :
      ℕ → Peer → Option Ip → Connections Peer Ip → Connections Peer Ip × List (Action Peer)
  unfolding admit
  on_established limit peer ip s =
      let (admitted, counts) = admit limit ip s.ip_counts in
      if admitted
      then (
        record { ip_counts = counts; connected = add_peer peer s.connected },
        send_metadata peer ∷ peer_connected peer ∷ [],
      )
      else (record { ip_counts = counts; connected = s.connected }, disconnect peer ∷ [])

  unfoldable pub on_closed :
      Peer → Option Ip → Connections Peer Ip → Connections Peer Ip × List (Action Peer)
  unfolding release
  on_closed peer ip s = (
    record { ip_counts = release ip s.ip_counts; connected = drop_peer peer s.connected },
    peer_disconnected peer ∷ [],
  )

  unfoldable pub on_connection :
      ℕ → ConnectionEvent Peer Ip → Connections Peer Ip → Connections Peer Ip × List (Action Peer)
  unfolding on_established on_closed
  on_connection limit (established peer ip) s = on_established limit peer ip s
  on_connection limit (closed peer ip) s = on_closed peer ip s

  unfoldable pub run :
      ℕ → List (ConnectionEvent Peer Ip) → Connections Peer Ip → Connections Peer Ip
  unfolding on_connection
  run limit [] s = s
  run limit (event ∷ rest) s = run limit rest (on_connection limit event s).0
