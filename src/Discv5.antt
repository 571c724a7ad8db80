-- ===== src/Discv5.antt =====
-- crates/waku-discv5/src/lib.rs: what the node writes into its own ENR and reads from those of others, and
-- the discovery task of crates/waku-node/src/runtime.rs. The enr crate is a record of its calls; the time
-- between two queries is left out.
pub mod LocalEnr
pub mod Dialing
pub mod Service
pub mod EnrBytes
mod Examples
use mathlib.Core.Option
use rs_waku.Prelude.{
  ℕ, List, [], ◌∷◌, ◌++◌, Bool, true, false, Option, none, some, if◌then◌else◌, eqb,
}
use rs_waku.Prelude.Bytes.{Bytes, codes}
use rs_waku.Prelude.Eq.{Eq, ◌==◌, contains}
use rs_waku.Prelude.Assoc.{Assoc}
use rs_waku.Prelude.Outcome.{Result, ok, err, ◌>>=◌, map_err}
use rs_waku.Enr.{EnrError, RelayShards, new, to_indices_list, from_indices_list, from_bit_vector}
use rs_waku.Node.PeerBook.{remember_enr}

-- What is set in a builder of the enr crate.
pub record Builder : Type 0 where
  pub ip4 : Option ℕ
  pub udp4 : Option ℕ
  pub tcp4 : Option ℕ
  pub values : Assoc Bytes Bytes

-- The calls of the enr crate and of libp2p. `get_decodable` is `none` for a missing key, and `peer_id` is
-- that of the record's public key, if it is one of secp256k1.
pub record EnrCalls (Enr Key Peer : Type 0) : Type 0 where
  pub build : Key → Builder → Result Bytes Enr
  pub ip4 : Enr → Option ℕ
  pub tcp4 : Enr → Option ℕ
  pub get_decodable : Enr → Bytes → Option (Result Bytes Bytes)
  pub peer_id : Enr → Option Peer
  pub describe : EnrError → Bytes

abbrev pub enr_key_rs : Bytes
enr_key_rs = codes "rs"

abbrev pub enr_key_rsv : Bytes
enr_key_rsv = codes "rsv"

pub data Protocol (Peer : Type 0) : Type 0 where
  ip4 : ℕ → Protocol Peer
  tcp : ℕ → Protocol Peer
  p2p : Peer → Protocol Peer

abbrev pub Multiaddr : Type 0 → Type 0
Multiaddr Peer = List (Protocol Peer)

pub record DiscoveredPeer (Enr Peer : Type 0) : Type 0 where
  pub peer_id : Peer
  pub addrs : List (Multiaddr Peer)
  pub shards : RelayShards
  pub enr : Enr

pub data DiscoveryError : Type 0 where
  enr_build : Bytes → DiscoveryError
  init_failed : Bytes → DiscoveryError
  discv5_failed : Bytes → DiscoveryError

pub record DiscoveryConfig (Enr Key : Type 0) : Type 0 where
  pub listen_ip : ℕ
  pub udp_port : ℕ
  pub tcp_port : Option ℕ
  pub external_ip : Option ℕ
  pub cluster_id : ℕ
  pub shards : List ℕ
  pub bootstrap : List Enr
  pub key : Option Key

-- `Ipv4Addr::LOCALHOST`, as a word.
abbrev pub localhost : ℕ
localhost = 2130706433

-- `.ok()`
abbrev pub to_option : {E A : Type 0} → Result E A → Option A
to_option (ok a) = some a
to_option (err e) = none

module _ {Enr Key Peer : Type 0} (c : EnrCalls Enr Key Peer) where
  unfoldable pub build_waku_enr : Key → DiscoveryConfig Enr Key → Result DiscoveryError Enr
  build_waku_enr key config = do
    rs_bytes ← elim (to_indices_list (new config.cluster_id config.shards)) [
      | ok bytes ↦ ok bytes
      | err e ↦ err (enr_build (c.describe e))
    ]
    map_err enr_build (
        c.build key (record {
          ip4 = some (Option.get_or config.external_ip config.listen_ip);
          udp4 = some config.udp_port;
          tcp4 = config.tcp_port;
          values = (enr_key_rs, rs_bytes) ∷ [];
        }))

  -- The second field, which is read where the first is missing or cannot be decoded.
  unfoldable pub shards_of_bit_vector : Enr → Option RelayShards
  shards_of_bit_vector enr = elim (c.get_decodable enr enr_key_rsv) [
    | some (ok bytes) ↦ to_option (from_bit_vector bytes)
    | some (err e) ↦ none
    | none ↦ none
  ]

  unfoldable pub enr_relay_shards : Enr → Option RelayShards
  unfolding shards_of_bit_vector
  enr_relay_shards enr = elim (c.get_decodable enr enr_key_rs) [
    | some (ok bytes) ↦ to_option (from_indices_list bytes)
    | some (err e) ↦ shards_of_bit_vector enr
    | none ↦ shards_of_bit_vector enr
  ]

  -- The predicate of `discover`.
  unfoldable pub is_in_cluster : ℕ → Enr → Bool
  unfolding enr_relay_shards
  is_in_cluster cluster enr = elim (enr_relay_shards enr) [
    | none ↦ false
    | some rs ↦ eqb rs.cluster_id cluster
  ]

  abbrev pub dialable :
      Option Peer
      → Option RelayShards
      → Option ℕ
      → Option ℕ
      → Enr
      → Option (DiscoveredPeer Enr Peer)
  dialable (some peer) (some shards) (some ip) (some port) enr = some (record {
    peer_id = peer;
    addrs = (ip4 ip ∷ tcp port ∷ p2p peer ∷ []) ∷ [];
    shards = shards;
    enr = enr;
  })
  dialable _ _ _ _ enr = none

  unfoldable pub enr_to_dialable : Enr → Option (DiscoveredPeer Enr Peer)
  unfolding enr_relay_shards
  enr_to_dialable enr = dialable (c.peer_id enr) (enr_relay_shards enr) (c.ip4 enr) (c.tcp4 enr) enr

-- The state of the discovery task, and the addresses that it has asked the node to dial, in order.
pub record Discovered (Enr Peer : Type 0) : Type 0 where
  pub known : List Peer
  pub peer_book : List Enr
  pub dials : List (Multiaddr Peer)

abbrev pub nothing_known : {Enr Peer : Type 0} → Discovered Enr Peer
nothing_known = record { known = []; peer_book = []; dials = [] }

module _ {Enr Key Peer NodeId : Type 0} ⦃e : Eq Peer⦄ ⦃f : Eq NodeId⦄ (c : EnrCalls Enr Key Peer)
    (node_id : Enr → NodeId) where
  unfoldable pub dial_discovered :
      Discovered Enr Peer → DiscoveredPeer Enr Peer → Discovered Enr Peer
  dial_discovered s peer =
      let book = remember_enr node_id s.peer_book peer.enr in
      if contains s.known peer.peer_id then record s { peer_book = book } else record {
        known = peer.peer_id ∷ s.known;
        peer_book = book;
        dials = s.dials ++ peer.addrs;
      }

  -- One ENR of the bootstrap list.
  unfoldable pub bootstrap_one : Discovered Enr Peer → Enr → Discovered Enr Peer
  unfolding dial_discovered
  bootstrap_one s enr =
      let remembered = record s { peer_book = remember_enr node_id s.peer_book enr } in
      elim (enr_to_dialable c enr) [
        | none ↦ remembered
        | some peer ↦ dial_discovered remembered peer
      ]

  -- One ENR that a query returns; those that cannot be dialed are left out.
  unfoldable pub discovered_one : Discovered Enr Peer → Enr → Discovered Enr Peer
  unfolding dial_discovered
  discovered_one s enr = elim (enr_to_dialable c enr) [
    | none ↦ s
    | some peer ↦ dial_discovered s peer
  ]

  -- The bootstrap list, and then what the queries return, one after the other.
  unfoldable pub bootstrap_all : Discovered Enr Peer → List Enr → Discovered Enr Peer
  unfolding bootstrap_one
  bootstrap_all s [] = s
  bootstrap_all s (enr ∷ rest) = bootstrap_all (bootstrap_one s enr) rest

  unfoldable pub discovered_all : Discovered Enr Peer → List Enr → Discovered Enr Peer
  unfolding discovered_one
  discovered_all s [] = s
  discovered_all s (enr ∷ rest) = discovered_all (discovered_one s enr) rest

  -- `discovery_loop`, until the channel of commands is closed.
  unfoldable pub discovery_loop : List Enr → List Enr → Discovered Enr Peer
  unfolding bootstrap_all discovered_all
  discovery_loop bootstrap found = discovered_all (bootstrap_all nothing_known bootstrap) found
