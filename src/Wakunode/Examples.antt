-- ===== src/Wakunode/Examples.antt =====
-- The settings of a concrete command line and file.
use rs_waku.Prelude.{◌≡◌, refl, [], ◌∷◌, true, false, none, some}
use rs_waku.Prelude.Bytes.{Bytes, codes}
use rs_waku.Wakunode.{Cli, FileConfig, empty_file, Parsers, store_choice, resolve, in_memory}
use mathlib.Core.Option
use rs_waku.Prelude.{◌↔◌}
use rs_waku.Wakunode.{at_path, no_store}
use rs_waku.Wakunode.Precedence.{filled, resolve-filled}

abbrev parsers : Parsers Bytes Bytes
parsers = record { parse_ip = λ s. none; parse_addr = λ s. some s; parse_enr = λ s. some s }

abbrev cli : Cli Bytes
cli = record {
  cluster_id = none;
  shards = 3 ∷ [];
  tcp_port = some 30303;
  staticnodes = [];
  discv5 = false;
  discv5_udp_port = none;
  ext_ip = none;
  bootstrap_enrs = [];
  dns_discovery = true;
  dns_discovery_urls = [];
  store = false;
  rest_port = none;
  max_connections = none;
  ip_colocation_limit = none;
  store_path = none;
  node_key_file = none;
}

abbrev file : FileConfig
file = record empty_file {
  tcp_port = some 1;
  staticnode = codes "/ip4/1.2.3.4/tcp/1" ∷ [];
  ext_ip = some (codes "nowhere");
  rest_port = some 8645;
}

settings_of_both : (resolve parsers cli file).tcp_port ≡ 30303
unfolding resolve
settings_of_both = refl

store_for_rest : (resolve parsers cli file).store ≡ in_memory
unfolding resolve store_choice
store_for_rest = refl

resolve-filled_example :
    let f = filled parsers cli file in
    let s = resolve parsers cli file in
    (resolve parsers f empty_file ≡ s)
    × (s.cluster_id ≡ Option.get_or f.cluster_id 1)
    × (s.tcp_port ≡ Option.get_or f.tcp_port 60000)
    × (s.max_connections ≡ Option.get_or f.max_connections 300)
    × (s.ip_colocation_limit ≡ Option.get_or f.ip_colocation_limit 20)
    × ((s.store ≡ at_path (codes "db")) ↔ (f.store_path ≡ some (codes "db")))
    × ((s.store ≡ no_store) ↔ ((f.store_path ≡ none) × (f.store ≡ false) × (f.rest_port ≡ none)))
    × ((s.discovery ≡ none)
        ↔ ((f.discv5 ≡ false) × (f.dns_discovery ≡ false) × (f.bootstrap_enrs ≡ [])))
resolve-filled_example = resolve-filled parsers cli file (codes "db")
