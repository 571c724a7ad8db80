-- ===== src/Discv5/Service.antt =====
-- crates/waku-discv5/src/lib.rs: `Discovery`, the discv5 service with the node's ENR. The service of the
-- discv5 crate is a parameter, with the calls that are made of it.
use rs_waku.Prelude.{
  ℕ, ◌≡◌, refl, sym, ap, ◌∙◌, List, [], ◌∷◌, Bool, true, Option, none, some, All, eqb_iff, below,
  filter_map,
}
use mathlib.Core.Option
use mathlib.Core.Option.{some-injective}
use mathlib.Core.Path.{subst}
use rs_waku.Prelude.Outcome.{Result, ok, ◌>>=◌, map_err, ok-injective, >>=-eq-ok, map_err-eq-ok}
use rs_waku.Prelude.Bytes.{Bytes}
use rs_waku.Preset.{twn}
use rs_waku.Enr.{RelayShards}
use rs_waku.Discv5.{
  EnrCalls, DiscoveryError, init_failed, discv5_failed, DiscoveryConfig, DiscoveredPeer,
  build_waku_enr, enr_relay_shards, is_in_cluster, dialable, enr_to_dialable, localhost, ip4, tcp,
  p2p,
}

-- The service: made, fed with records, started, and asked. `find_node` is a query for records that satisfy
-- a predicate, at most as many as are asked for.
pub record ServiceCalls (Enr Key S : Type 0) : Type 0 where
  pub generate : Key
  pub create : Enr → Key → ℕ → ℕ → Result Bytes S
  pub add_enr : S → Enr → S
  pub start : S → Result Bytes S
  pub local_enr : S → Enr
  pub find_node : S → (Enr → Bool) → ℕ → Result Bytes (List Enr)

pub record Discovery (S : Type 0) : Type 0 where
  pub discv5 : S
  pub cluster_id : ℕ

-- `DiscoveryConfig::new` and its builders
abbrev pub new_config : {Enr Key : Type 0} → ℕ → DiscoveryConfig Enr Key
new_config udp_port = record {
  listen_ip = localhost;
  udp_port = udp_port;
  tcp_port = none;
  external_ip = none;
  cluster_id = twn.cluster_id;
  shards = below twn.shard_count;
  bootstrap = [];
  key = none;
}

abbrev pub with_cluster :
    {Enr Key : Type 0} → ℕ → List ℕ → DiscoveryConfig Enr Key → DiscoveryConfig Enr Key
with_cluster cluster_id shards config = record config { cluster_id = cluster_id; shards = shards }

abbrev pub with_bootstrap :
    {Enr Key : Type 0} → List Enr → DiscoveryConfig Enr Key → DiscoveryConfig Enr Key
with_bootstrap bootstrap config = record config { bootstrap = bootstrap }

module _ {Enr Key Peer S : Type 0} (c : EnrCalls Enr Key Peer) (d : ServiceCalls Enr Key S) where
  -- Records that the service refuses are left out.
  abbrev pub add_all : S → List Enr → S
  add_all s [] = s
  add_all s (enr ∷ rest) = add_all (d.add_enr s enr) rest

  -- `Discovery::new`
  unfoldable pub new_discovery : DiscoveryConfig Enr Key → Result DiscoveryError (Discovery S)
  new_discovery config = do
    let key = Option.get_or config.key d.generate
    local_enr ← build_waku_enr c key config
    discv5 ← map_err init_failed (d.create local_enr key config.listen_ip config.udp_port)
    ok (record { discv5 = add_all discv5 config.bootstrap; cluster_id = config.cluster_id })

  unfoldable pub start : Discovery S → Result DiscoveryError (Discovery S)
  start s = do discv5 ← map_err discv5_failed (d.start s.discv5); ok (record s { discv5 = discv5 })

  unfoldable pub discover : Discovery S → Result DiscoveryError (List Enr)
  discover s = map_err discv5_failed (d.find_node s.discv5 (is_in_cluster c s.cluster_id) 16)

  unfoldable pub discover_dialable :
      Discovery S → Result DiscoveryError (List (DiscoveredPeer Enr Peer))
  unfolding discover
  discover_dialable s = do enrs ← discover s; ok (filter_map (enr_to_dialable c) enrs)

module _ {Enr Key Peer : Type 0} (c : EnrCalls Enr Key Peer) where
  -- A peer to dial is of a cluster, and its one address has what its ENR says and ends in its peer id.
  abbrev pub IsOfCluster : ℕ → DiscoveredPeer Enr Peer → Type 0
  IsOfCluster cluster peer =
      (peer.shards.cluster_id ≡ cluster)
      × (c.peer_id peer.enr ≡ some peer.peer_id)
      × (ip : ℕ) × (port : ℕ) × (c.ip4 peer.enr ≡ some ip)
      × (c.tcp4 peer.enr ≡ some port)
      × (peer.addrs ≡ (ip4 ip ∷ tcp port ∷ p2p peer.peer_id ∷ []) ∷ [])

  -- What a peer to dial was made of.
  dialable-parts :
      (o : Option Peer) (r : Option RelayShards) (i t : Option ℕ) (enr : Enr)
      (peer : DiscoveredPeer Enr Peer)
      → dialable c o r i t enr ≡ some peer
      → (o ≡ some peer.peer_id)
        × (r ≡ some peer.shards)
        × (peer.enr ≡ enr)
        × (ip : ℕ) × (port : ℕ) × (i ≡ some ip)
        × (t ≡ some port)
        × (peer.addrs ≡ (ip4 ip ∷ tcp port ∷ p2p peer.peer_id ∷ []) ∷ [])
  dialable-parts (some p) (some rs) (some ip) (some port) enr peer h =
      rw (sym (some-injective _ peer h)) (refl, refl, refl, ip, port, refl, refl, refl)
  dialable-parts none r i t enr peer h = cc
  dialable-parts (some p) none i t enr peer h = cc
  dialable-parts (some p) (some rs) none t enr peer h = cc
  dialable-parts (some p) (some rs) (some ip) none enr peer h = cc

  dialable-IsOfCluster :
      (cluster : ℕ) (enr : Enr) (peer : DiscoveredPeer Enr Peer)
      → is_in_cluster c cluster enr ≡ true
      → enr_to_dialable c enr ≡ some peer
      → IsOfCluster cluster peer
  unfolding is_in_cluster enr_to_dialable
  dialable-IsOfCluster cluster enr peer h q =
      let (p, r, e, ip, port, i, t, a) =
        dialable-parts (c.peer_id enr) (enr_relay_shards c enr) (c.ip4 enr) (c.tcp4 enr) enr peer
          q in
      (
        (eqb_iff peer.shards.cluster_id cluster).0 (rw (is_in_cluster, r) at h),
        ap c.peer_id e ∙ p,
        ip,
        port,
        ap c.ip4 e ∙ i,
        ap c.tcp4 e ∙ t,
        a,
      )

  filter_map-IsOfCluster :
      (cluster : ℕ) (enrs : List Enr)
      → All (λ enr. is_in_cluster c cluster enr ≡ true) enrs
      → All (IsOfCluster cluster) (filter_map (enr_to_dialable c) enrs)
  filter_map-IsOfCluster cluster [] h = tt
  filter_map-IsOfCluster cluster (enr ∷ rest) h =
      place (enr_to_dialable c enr) (λ peer q. dialable-IsOfCluster cluster enr peer h.0 q)
        (filter_map-IsOfCluster cluster rest h.1)
    where
      others : List (DiscoveredPeer Enr Peer)
      others = filter_map (enr_to_dialable c) rest

      place :
          (o : Option (DiscoveredPeer Enr Peer))
          → ((peer : DiscoveredPeer Enr Peer) → o ≡ some peer → IsOfCluster cluster peer)
          → All (IsOfCluster cluster) others
          → All (IsOfCluster cluster) (elim o [ none ↦ others | some peer ↦ peer ∷ others ])
      place none f k = k
      place (some peer) f k = (f peer refl, k)

module _ {Enr Key Peer S : Type 0} (c : EnrCalls Enr Key Peer) (d : ServiceCalls Enr Key S) where
  cluster_kept :
      (config : DiscoveryConfig Enr Key) (made started : Discovery S)
      → new_discovery c d config ≡ ok made
      → start c d made ≡ ok started
      → started.cluster_id ≡ config.cluster_id
  unfolding new_discovery start
  cluster_kept config made started m s =
      let (enr, b, m2) =
        >>=-eq-ok (build_waku_enr c (Option.get_or config.key d.generate) config) _ m in
      let (service, b2, m3) =
        >>=-eq-ok
          (map_err init_failed
            (d.create enr (Option.get_or config.key d.generate) config.listen_ip config.udp_port))
          _ m2 in
      let (after, b3, s2) = >>=-eq-ok (map_err discv5_failed (d.start made.discv5)) _ s in cc

  -- What a discovery service that was made and started finds to dial is only of the cluster of its
  -- configuration: each peer has the shards of that cluster, the peer id of its ENR's key, and one
  -- address, with the ENR's IP address, TCP port and that peer id. The discv5 service returns only records
  -- that satisfy the predicate of a query.
  pub discover_dialable-IsOfCluster :
      (config : DiscoveryConfig Enr Key) (made started : Discovery S)
      (peers : List (DiscoveredPeer Enr Peer))
      → ((s : S) (p : Enr → Bool) (n : ℕ) (found : List Enr)
          → d.find_node s p n ≡ ok found
          → All (λ enr. p enr ≡ true) found)
      → new_discovery c d config ≡ ok made
      → start c d made ≡ ok started
      → discover_dialable c d started ≡ ok peers
      → All (IsOfCluster c config.cluster_id) peers
  unfolding discover_dialable discover
  discover_dialable-IsOfCluster config made started peers law m s f =
      let (enrs, found, same) =
        >>=-eq-ok (discover c d started) (λ enrs. ok (filter_map (enr_to_dialable c) enrs)) f in
      let of_service : All (IsOfCluster c started.cluster_id)
          (filter_map (enr_to_dialable c) enrs) =
        filter_map-IsOfCluster c started.cluster_id enrs (
          law started.discv5 (is_in_cluster c started.cluster_id) 16 enrs (
            map_err-eq-ok discv5_failed
              (d.find_node started.discv5 (is_in_cluster c started.cluster_id) 16) found)) in
      subst (λ k. All (IsOfCluster c k) peers) (cluster_kept config made started m s)
        (subst (All (IsOfCluster c started.cluster_id)) (ok-injective same) of_service)
