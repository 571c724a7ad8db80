-- ===== src/Wakunode/Precedence.antt =====
-- The command line wins over the file, which fills in what is unset.
use mathlib.Core.Option
use mathlib.Core.Option.{some-injective}
use rs_waku.Prelude.Bytes.{Bytes}
use rs_waku.Prelude.{
  ℕ, ◌≡◌, ◌↔◌, ap, arith, refl, List, [], ◌∷◌, Bool, true, false, ◌||◌, Option, none, some,
  filter_map,
}
use rs_waku.Wakunode.{
  Cli, FileConfig, empty_file, Parsers, or_else, and_then, if_empty, resolve, store_choice,
  discovery_of, at_path, in_memory, no_store,
}

module _ {Addr Enr : Type 0} (p : Parsers Addr Enr) where
  -- The command line with each flag that is left unset filled in from the file.
  abbrev pub filled : Cli Addr → FileConfig → Cli Addr
  filled cli file = record {
    cluster_id = or_else cli.cluster_id file.cluster_id;
    shards = if_empty cli.shards file.shard;
    tcp_port = or_else cli.tcp_port file.tcp_port;
    staticnodes = if_empty cli.staticnodes (filter_map p.parse_addr file.staticnode);
    discv5 = cli.discv5 || Option.get_or file.discv5_discovery false;
    discv5_udp_port = or_else cli.discv5_udp_port file.discv5_udp_port;
    ext_ip = or_else cli.ext_ip (and_then file.ext_ip p.parse_ip);
    bootstrap_enrs = if_empty cli.bootstrap_enrs file.discv5_bootstrap_node;
    dns_discovery = cli.dns_discovery || Option.get_or file.dns_discovery false;
    dns_discovery_urls = if_empty cli.dns_discovery_urls file.dns_discovery_url;
    store = cli.store || Option.get_or file.store false;
    rest_port = or_else cli.rest_port file.rest_port;
    max_connections = or_else cli.max_connections file.max_connections;
    ip_colocation_limit = or_else cli.ip_colocation_limit file.ip_colocation_limit;
    store_path = or_else cli.store_path file.store_path;
    node_key_file = or_else cli.node_key_file file.node_key_file;
  }

  or_else-none : {A : Type 0} (o : Option A) → or_else o none ≡ o
  or_else-none none = refl
  or_else-none (some a) = refl

  or_false : (b : Bool) → (b || false) ≡ b
  or_false true = refl
  or_false false = refl

  if_empty-nil : {A : Type 0} (xs : List A) → if_empty xs [] ≡ xs
  if_empty-nil [] = refl
  if_empty-nil (x ∷ xs) = refl

  -- A node that is started with a file has the settings of one that is started without a file and with the
  -- unset flags filled in.
  resolve_alike :
      (cli : Cli Addr) (file : FileConfig)
      → resolve p (filled cli file) empty_file ≡ resolve p cli file
  unfolding resolve
  resolve_alike cli file =
      let f = filled cli file in
      rw
        (
          or_else-none f.cluster_id,
          or_else-none f.tcp_port,
          or_else-none f.discv5_udp_port,
          or_else-none f.ext_ip,
          or_false f.discv5,
          or_false f.dns_discovery,
          or_false f.store,
          or_else-none f.rest_port,
          if_empty-nil f.shards,
          if_empty-nil f.staticnodes,
          or_else-none f.max_connections,
          or_else-none f.ip_colocation_limit,
          or_else-none f.node_key_file,
          if_empty-nil f.bootstrap_enrs,
          if_empty-nil f.dns_discovery_urls,
          or_else-none f.store_path,
        )
        refl

  store_at :
      (o : Option Bytes) (b : Bool) (r : Option ℕ) (path : Bytes)
      → (store_choice o b r ≡ at_path path) ↔ (o ≡ some path)
  unfolding store_choice
  store_at (some q) b r path = (λ h. ap some (path_in h), λ h. ap at_path (some-injective _ _ h))
    where
      path_in : at_path q ≡ at_path path → q ≡ path
      path_in h = ap (λ x. elim x [ at_path y ↦ y | in_memory ↦ q | no_store ↦ q ]) h
  store_at none true r path = ground arith
  store_at none false (some n) path = ground arith
  store_at none false none path = ground arith

  store_none :
      (o : Option Bytes) (b : Bool) (r : Option ℕ)
      → (store_choice o b r ≡ no_store) ↔ ((o ≡ none) × (b ≡ false) × (r ≡ none))
  unfolding store_choice
  store_none (some q) b r = ground arith
  store_none none true r = ground arith
  store_none none false (some n) = ground arith
  store_none none false none = ground arith

  -- A node that is started with a file has the settings of a node that is started without one and with
  -- the flags that are unset filled in from the file: no flag that is set is overridden, and a value of the
  -- file that cannot be parsed counts as absent. Where both are unset, the cluster is 1, the TCP port
  -- 60000, and the limits are 300 connections and 20 of an address. The store is a file exactly if a path
  -- is set, and there is none exactly if neither a path nor the store nor a REST port is. Discovery is off
  -- exactly if neither discv5 nor DNS discovery is set and there are no bootstrap ENRs.
  pub resolve-filled :
      (cli : Cli Addr) (file : FileConfig) (path : Bytes)
      → let f = filled cli file in
        let s = resolve p cli file in
        (resolve p f empty_file ≡ s)
        × (s.cluster_id ≡ Option.get_or f.cluster_id 1)
        × (s.tcp_port ≡ Option.get_or f.tcp_port 60000)
        × (s.max_connections ≡ Option.get_or f.max_connections 300)
        × (s.ip_colocation_limit ≡ Option.get_or f.ip_colocation_limit 20)
        × ((s.store ≡ at_path path) ↔ (f.store_path ≡ some path))
        × ((s.store ≡ no_store)
            ↔ ((f.store_path ≡ none) × (f.store ≡ false) × (f.rest_port ≡ none)))
        × ((s.discovery ≡ none)
            ↔ ((f.discv5 ≡ false) × (f.dns_discovery ≡ false) × (f.bootstrap_enrs ≡ [])))
  unfolding resolve discovery_of
  resolve-filled cli file path =
      let f = filled cli file in
      (
        resolve_alike cli file,
        refl,
        refl,
        refl,
        refl,
        store_at f.store_path f.store f.rest_port path,
        store_none f.store_path f.store f.rest_port,
        discovery_none f.discv5 f.dns_discovery f.bootstrap_enrs f.dns_discovery_urls _ _ _,
      )
    where
      discovery_none :
          (a b : Bool) (enrs urls : List Bytes) (udp ip tcp : ℕ)
          → (discovery_of p a b enrs urls udp ip tcp ≡ none)
            ↔ ((a ≡ false) × (b ≡ false) × (enrs ≡ []))
      discovery_none true b enrs urls udp ip tcp = ground arith
      discovery_none false true enrs urls udp ip tcp = ground arith
      discovery_none false false [] urls udp ip tcp = ground arith
      discovery_none false false (x ∷ xs) urls udp ip tcp = ground arith
