-- ===== src/Wakunode.antt =====
-- wakunode/src: how main.rs resolves each setting from the command line, the file of config.rs and the
-- defaults, and what it configures from them. The parsers of addresses and of ENRs are parameters; paths
-- are texts.
pub mod Precedence
pub mod KeyFile
pub mod Main
mod Examples
mod MainExamples
use mathlib.Core.Option
use rs_waku.Prelude.{
  ℕ, zero, suc, ◌+◌, List, [], ◌∷◌, ◌++◌, Bool, true, false, ◌||◌, ◌&&◌, not, Option, none, some,
  is_empty, if◌then◌else◌, filter_map, below,
}
use rs_waku.Prelude.Bytes.{Bytes}
use rs_waku.Preset.{twn}
use rs_waku.Discv5.{localhost}
use rs_waku.Node.Start.{DiscoverySettings}

pub record Cli (Addr : Type 0) : Type 0 where
  pub cluster_id : Option ℕ
  pub shards : List ℕ
  pub tcp_port : Option ℕ
  pub staticnodes : List Addr
  pub discv5 : Bool
  pub discv5_udp_port : Option ℕ
  pub ext_ip : Option ℕ
  pub bootstrap_enrs : List Bytes
  pub dns_discovery : Bool
  pub dns_discovery_urls : List Bytes
  pub store : Bool
  pub rest_port : Option ℕ
  pub max_connections : Option ℕ
  pub ip_colocation_limit : Option ℕ
  pub store_path : Option Bytes
  pub node_key_file : Option Bytes

pub record FileConfig : Type 0 where
  pub cluster_id : Option ℕ
  pub shard : List ℕ
  pub tcp_port : Option ℕ
  pub staticnode : List Bytes
  pub discv5_discovery : Option Bool
  pub discv5_udp_port : Option ℕ
  pub ext_ip : Option Bytes
  pub discv5_bootstrap_node : List Bytes
  pub dns_discovery : Option Bool
  pub dns_discovery_url : List Bytes
  pub store : Option Bool
  pub store_path : Option Bytes
  pub node_key_file : Option Bytes
  pub rest_port : Option ℕ
  pub max_connections : Option ℕ
  pub ip_colocation_limit : Option ℕ

-- `FileConfig::default`
abbrev pub empty_file : FileConfig
empty_file = record {
  cluster_id = none;
  shard = [];
  tcp_port = none;
  staticnode = [];
  discv5_discovery = none;
  discv5_udp_port = none;
  ext_ip = none;
  discv5_bootstrap_node = [];
  dns_discovery = none;
  dns_discovery_url = [];
  store = none;
  store_path = none;
  node_key_file = none;
  rest_port = none;
  max_connections = none;
  ip_colocation_limit = none;
}

pub data StoreChoice : Type 0 where
  at_path : Bytes → StoreChoice
  in_memory : StoreChoice
  no_store : StoreChoice

-- What `main` configures.
pub record Settings (Addr Enr : Type 0) : Type 0 where
  pub cluster_id : ℕ
  pub shards : List ℕ
  pub tcp_port : ℕ
  pub staticnodes : List Addr
  pub max_connections : ℕ
  pub ip_colocation_limit : ℕ
  pub node_key_file : Option Bytes
  pub discovery : Option (DiscoverySettings Enr)
  pub store : StoreChoice
  pub rest_port : Option ℕ

-- The parsers.
pub record Parsers (Addr Enr : Type 0) : Type 0 where
  pub parse_ip : Bytes → Option ℕ
  pub parse_addr : Bytes → Option Addr
  pub parse_enr : Bytes → Option Enr

abbrev pub or_else : {A : Type 0} → Option A → Option A → Option A
or_else (some a) b = some a
or_else none b = b

abbrev pub and_then : {A B : Type 0} → Option A → (A → Option B) → Option B
and_then none f = none
and_then (some a) f = f a

abbrev pub if_empty : {A : Type 0} → List A → List A → List A
if_empty xs ys = if not (is_empty xs) then xs else ys

unfoldable pub store_choice : Option Bytes → Bool → Option ℕ → StoreChoice
store_choice (some path) enabled rest_port = at_path path
store_choice none true rest_port = in_memory
store_choice none false (some port) = in_memory
store_choice none false none = no_store

module _ {Addr Enr : Type 0} (p : Parsers Addr Enr) where
  unfoldable pub discovery_of :
      Bool → Bool → List Bytes → List Bytes → ℕ → ℕ → ℕ → Option (DiscoverySettings Enr)
  discovery_of discv5 dns_discovery bootstrap_enrs urls udp_port ext_ip tcp_port =
      if discv5 || (dns_discovery || not (is_empty bootstrap_enrs))
      then some (record {
        udp_port = udp_port;
        advertised_ip = ext_ip;
        advertised_tcp_port = tcp_port;
        bootstrap = filter_map p.parse_enr bootstrap_enrs;
        dns_bootstrap =
            if dns_discovery && is_empty urls then twn.dns_discovery_enrtree ∷ [] else urls;
      })
      else none

  -- The settings, as `main` resolves them.
  unfoldable pub resolve : Cli Addr → FileConfig → Settings Addr Enr
  unfolding store_choice discovery_of
  resolve cli file =
      let cluster_id = Option.get_or (or_else cli.cluster_id file.cluster_id) twn.cluster_id in
      let tcp_port = Option.get_or (or_else cli.tcp_port file.tcp_port) 60000 in
      let udp_port = Option.get_or (or_else cli.discv5_udp_port file.discv5_udp_port) 9000 in
      let ext_ip = Option.get_or (or_else cli.ext_ip (and_then file.ext_ip p.parse_ip)) localhost in
      let discv5 = cli.discv5 || Option.get_or file.discv5_discovery false in
      let dns_discovery = cli.dns_discovery || Option.get_or file.dns_discovery false in
      let store_enabled = cli.store || Option.get_or file.store false in
      let rest_port = or_else cli.rest_port file.rest_port in
      let shard_src = if_empty cli.shards file.shard in
      record {
        cluster_id = cluster_id;
        shards = if is_empty shard_src then below twn.shard_count else shard_src;
        tcp_port = tcp_port;
        staticnodes = if_empty cli.staticnodes (filter_map p.parse_addr file.staticnode);
        max_connections = Option.get_or (or_else cli.max_connections file.max_connections) 300;
        ip_colocation_limit =
            Option.get_or (or_else cli.ip_colocation_limit file.ip_colocation_limit) 20;
        node_key_file = or_else cli.node_key_file file.node_key_file;
        discovery =
            discovery_of discv5 dns_discovery
              (if_empty cli.bootstrap_enrs file.discv5_bootstrap_node)
              (if_empty cli.dns_discovery_urls file.dns_discovery_url) udp_port ext_ip tcp_port;
        store = store_choice (or_else cli.store_path file.store_path) store_enabled rest_port;
        rest_port = rest_port;
      }
