-- ===== src/Node/Start.antt =====
-- crates/waku-node/src/runtime.rs: the configuration of a node and `spawn`. The swarm, DNS and the discv5
-- service are parameters; `build_swarm` and `listen_on` return their errors as texts.
pub mod Sound
pub mod Handshake
mod Examples
use rs_waku.Prelude.{
  ℕ, ◌^◌, ◌%◌, ◌≡◌, ◌<◌, refl, List, [], ◌∷◌, ◌++◌, map, Bool, true, false, not, Option, none, some,
  is_empty, below, if◌then◌else◌, arith,
}
use rs_waku.Prelude.Bytes.{Bytes, codes}
use rs_waku.Prelude.Eq.{Eq}
use rs_waku.Prelude.Outcome.{Result, ok, err, ◌>>=◌, map_err, >>=-eq-ok}
use rs_waku.Preset.{twn}
use rs_waku.Store.{Table}
use rs_waku.Discv5.{
  EnrCalls, DiscoveryError, enr_build, init_failed, discv5_failed, DiscoveryConfig, Discovered,
  nothing_known, bootstrap_all,
}
use rs_waku.Discv5.Service.{ServiceCalls, Discovery, new_config, new_discovery, start}
use rs_waku.Discv5.Service
use rs_waku.Node.Handle.{NodeError, build, listen}
use rs_waku.Node.Messages.{WakuMetadata}
use rs_waku.Node.Requests.{Pending}
use rs_waku.Node.RateLimit
use rs_waku.Node.RateLimit.{RateLimiter}
use rs_waku.Node.Serving.{Metrics}
use rs_waku.Node.Loop.{LoopState, Setting}
use rs_waku.Node.Machine.{Machine}

pub record DiscoverySettings (Enr : Type 0) : Type 0 where
  pub udp_port : ℕ
  pub advertised_ip : ℕ
  pub advertised_tcp_port : ℕ
  pub bootstrap : List Enr
  pub dns_bootstrap : List Bytes

pub record NodeConfig (Keypair Addr Enr : Type 0) : Type 0 where
  pub keypair : Keypair
  pub listen_addrs : List Addr
  pub idle_timeout_secs : ℕ
  pub cluster_id : ℕ
  pub shards : List ℕ
  pub discovery : Option (DiscoverySettings Enr)
  pub store : Option Table
  pub max_connections : ℕ
  pub ip_colocation_limit : ℕ

module _ {Keypair Addr Enr : Type 0} where
  -- `NodeConfig::new`, with the key that is generated.
  abbrev pub new : Keypair → NodeConfig Keypair Addr Enr
  new generated = record {
    keypair = generated;
    listen_addrs = [];
    idle_timeout_secs = 60;
    cluster_id = twn.cluster_id;
    shards = below twn.shard_count;
    discovery = none;
    store = none;
    max_connections = 300;
    ip_colocation_limit = 20;
  }

  abbrev pub with_listen_addr : Addr → NodeConfig Keypair Addr Enr → NodeConfig Keypair Addr Enr
  with_listen_addr addr config = record config { listen_addrs = config.listen_addrs ++ addr ∷ [] }

  abbrev pub with_cluster : ℕ → List ℕ → NodeConfig Keypair Addr Enr → NodeConfig Keypair Addr Enr
  with_cluster cluster_id shards config = record config { cluster_id = cluster_id; shards = shards }

  -- A cluster id and a shard keep their value as `u32`.
  abbrev pub local_metadata : NodeConfig Keypair Addr Enr → WakuMetadata
  local_metadata config = record { cluster_id = some config.cluster_id; shards = config.shards }

-- `DiscoveryError::to_string`
abbrev pub discovery_error_text : DiscoveryError → Bytes
discovery_error_text (enr_build e) = codes "ENR build failed: " ++ e
discovery_error_text (init_failed e) = codes "discv5 init failed: " ++ e
discovery_error_text (discv5_failed e) = codes "discv5 error: " ++ e

-- What `spawn` calls: the builder of the swarm, `listen_on`, the secret key as a key of the enr crate, the
-- resolver of the system (`none` where it cannot be built), and `resolve_enrtree`.
pub record SpawnCalls (Keypair Addr Enr Key Peer : Type 0) : Type 0 where
  pub build_swarm : NodeConfig Keypair Addr Enr → Result Bytes Peer
  pub listen_on : Addr → Result Bytes (Unit {0})
  pub secp256k1_key : Keypair → Result Bytes Key
  pub has_resolver : Bool
  pub resolve_enrtree : Bytes → Result Bytes (List Enr)

-- `RateLimiters::default`: ten requests a second, where a second is 10^9 units of time.
abbrev pub default_limit : {Peer : Type 0} → RateLimiter Peer
default_limit = RateLimit.new 10 1000000000

-- `Metrics::new`
abbrev pub new_metrics : Metrics
new_metrics = record {
  relay_messages = 0;
  store_queries = 0;
  lightpush_requests = 0;
  filter_pushes = 0;
  rate_limited = 0;
}

-- The state of `run` before its first turn.
abbrev pub new_loop :
    {Peer Ip Addr Enr RequestId Reply : Type 0} → LoopState Peer Ip Addr Enr RequestId Reply
new_loop = record {
  connections = record { ip_counts = []; connected = [] };
  filters = [];
  store_limit = default_limit;
  lightpush_limit = default_limit;
  pending = record { store_queries = []; lightpush = []; peer_exchange = []; filter = [] };
  peer_book = [];
  metrics = new_metrics;
  listen_addrs = [];
}

-- A node that was spawned: the loop and the tasks beside it, and the discovery service with its bootstrap
-- list, if there is one.
pub record Node (Peer Ip Addr Enr RequestId Reply S : Type 0) : Type 0 where
  pub peer_id : Peer
  pub machine : Machine Peer Ip Addr Enr RequestId Reply
  pub discovery : Option (Discovery S × List Enr)
  pub discv5_enr : Option Enr

module _ {Keypair Addr Enr Key Peer : Type 0} (calls : SpawnCalls Keypair Addr Enr Key Peer) where
  -- The loop over `listen_addrs`.
  unfoldable pub listen_all : List Addr → Result NodeError (Unit {0})
  listen_all [] = ok tt
  listen_all (addr ∷ rest) = do listening ← map_err listen (calls.listen_on addr); listen_all rest

  -- `resolve_dns_bootstrap`: an address that fails is left out.
  unfoldable pub resolve_dns_bootstrap : List Bytes → List Enr
  resolve_dns_bootstrap [] = []
  resolve_dns_bootstrap (url ∷ rest) =
      let others = resolve_dns_bootstrap rest in
      if not calls.has_resolver
      then []
      else elim (calls.resolve_enrtree url) [ ok enrs ↦ enrs ++ others | err e ↦ others ]

  -- The bootstrap ENRs of the settings, with those of DNS.
  unfoldable pub bootstrap_of : DiscoverySettings Enr → List Enr
  bootstrap_of settings =
      if not (is_empty settings.dns_bootstrap)
      then settings.bootstrap ++ resolve_dns_bootstrap settings.dns_bootstrap
      else settings.bootstrap

  -- The configuration of the discovery service.
  abbrev pub discovery_config :
      NodeConfig Keypair Addr Enr → Key → DiscoverySettings Enr → DiscoveryConfig Enr Key
  discovery_config config key settings =
      record (Service.with_cluster config.cluster_id config.shards (new_config settings.udp_port)) {
        key = some key;
        external_ip = some settings.advertised_ip;
        tcp_port = some settings.advertised_tcp_port;
        bootstrap = bootstrap_of settings;
      }

module _ {Keypair Addr Enr Key Peer S : Type 0} (calls : SpawnCalls Keypair Addr Enr Key Peer)
    (c : EnrCalls Enr Key Peer) (d : ServiceCalls Enr Key S) where
  -- The part of `spawn` that starts the discovery.
  unfoldable pub start_discovery :
      NodeConfig Keypair Addr Enr
      → DiscoverySettings Enr
      → Result NodeError (Discovery S × List Enr)
  unfolding bootstrap_of
  start_discovery config settings = do
    key ← map_err build (calls.secp256k1_key config.keypair)
    made ←
        map_err (λ e. build (discovery_error_text e))
          (new_discovery c d (discovery_config calls config key settings))
    started ← map_err (λ e. build (discovery_error_text e)) (start c d made)
    ok (started, bootstrap_of calls settings)

  abbrev pub start_optional :
      NodeConfig Keypair Addr Enr
      → Option (DiscoverySettings Enr)
      → Result NodeError (Option (Discovery S × List Enr))
  start_optional config none = ok none
  start_optional config (some settings) = do
    discovery ← start_discovery config settings
    ok (some discovery)

  abbrev pub enr_of : Option (Discovery S × List Enr) → Option Enr
  enr_of none = none
  enr_of (some (discovery, bootstrap)) = some (d.local_enr discovery.discv5)

  unfoldable pub spawn :
      {Ip RequestId Reply : Type 0}
      → NodeConfig Keypair Addr Enr
      → Result NodeError (Node Peer Ip Addr Enr RequestId Reply S)
  unfolding listen_all start_discovery
  spawn config = do
    peer_id ← map_err build (calls.build_swarm config)
    listening ← listen_all calls config.listen_addrs
    discovery ← start_optional config config.discovery
    ok (record {
      peer_id = peer_id;
      machine = record {
        loop = new_loop;
        table = config.store;
        tasks = [];
        is_running = true;
        has_consumer = true;
        sent = [];
      };
      discovery = discovery;
      discv5_enr = enr_of discovery;
    })

-- The arguments of `run` that are of the configuration.
abbrev pub setting_of :
    {Keypair Addr Enr : Type 0} → NodeConfig Keypair Addr Enr → Setting Addr Enr → Setting Addr Enr
setting_of config c = record c {
  store = config.store;
  local_cluster = config.cluster_id;
  local_meta = local_metadata config;
  ip_limit = config.ip_colocation_limit;
}
