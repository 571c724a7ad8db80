-- ===== src/Discv5/LocalEnr.antt =====
-- What others read from the ENR that the node builds.
use mathlib.Core.Option
use rs_waku.Prelude.{
  ℕ, ◌≡◌, false, refl, sym, ◌∙◌, List, [], ◌∷◌, true, false, some, ltb, length, All, arith,
  Bool-cases, inl, inr,
}
use rs_waku.Prelude.Bytes.{Bytes, IsU16, codes}
use rs_waku.Prelude.Eq.{contains, list_eq, nat_eq}
use rs_waku.Prelude.Assoc.{lookup}
use rs_waku.Prelude.Outcome.{ok, map_err-eq-ok, Result-cases, ok-injective}
use rs_waku.Enr.{RelayShards, new, to_indices_list, from_indices_list}
use rs_waku.Enr.Shards.{All-new}
use rs_waku.Enr.Indices.{from_indices_list-to_indices_list}
use rs_waku.Discv5.{
  enr_build, Builder, EnrCalls, DiscoveryConfig, ip4, tcp, p2p, enr_key_rs, build_waku_enr,
  enr_relay_shards, is_in_cluster, enr_to_dialable,
}

-- The keys of a record that the enr crate sets itself, or that are set by other methods of the builder.
abbrev pub reserved : List Bytes
reserved =
    codes "id"
    ∷ codes "secp256k1"
    ∷ codes "ed25519"
    ∷ codes "ip"
    ∷ codes "ip6"
    ∷ codes "tcp"
    ∷ codes "tcp6"
    ∷ codes "udp"
    ∷ codes "udp6"
    ∷ codes "quic"
    ∷ codes "quic6"
    ∷ []

-- A record that is built has what was set in its builder, and of the other keys the reserved ones only.
pub record IsFaithful {Enr Key Peer : Type 0} (c : EnrCalls Enr Key Peer) : Type 0 where
  pub built :
      (key : Key) (b : Builder) (enr : Enr)
      → c.build key b ≡ ok enr
      → (c.ip4 enr ≡ b.ip4)
        × (c.tcp4 enr ≡ b.tcp4)
        × ((name : Bytes)
            → contains reserved name ≡ false
            → c.get_decodable enr name ≡ Option.map ok (lookup name b.values))

to_indices_list-count :
    (rs : RelayShards) (bytes : Bytes)
    → to_indices_list rs ≡ ok bytes
    → ltb 255 (length rs.shards) ≡ false
unfolding to_indices_list
to_indices_list-count rs bytes h = elim (Bool-cases (ltb 255 (length rs.shards))) [
  | inl b ↦ cc (rw (to_indices_list, b) at h)
  | inr b ↦ b
]

module _ {Enr Key Peer : Type 0} (c : EnrCalls Enr Key Peer) (law : IsFaithful c) where
  relay_shards-read :
      (enr : Enr) (rs : RelayShards) (bytes : Bytes)
      → c.get_decodable enr enr_key_rs ≡ some (ok bytes)
      → from_indices_list bytes ≡ ok rs
      → enr_relay_shards c enr ≡ some rs
  unfolding enr_relay_shards
  relay_shards-read enr rs bytes h k = rw (enr_relay_shards, h, k) refl

  abbrev builder_of : DiscoveryConfig Enr Key → Bytes → Builder
  builder_of config bytes = record {
    ip4 = some (Option.get_or config.external_ip config.listen_ip);
    udp4 = some config.udp_port;
    tcp4 = config.tcp_port;
    values = (enr_key_rs, bytes) ∷ [];
  }

  build_parts :
      (key : Key) (config : DiscoveryConfig Enr Key) (enr : Enr)
      → build_waku_enr c key config ≡ ok enr
      → (bytes : Bytes) × (to_indices_list (new config.cluster_id config.shards) ≡ ok bytes)
        × (c.build key (builder_of config bytes) ≡ ok enr)
  unfolding build_waku_enr
  build_parts key config enr h =
      elim (Result-cases (to_indices_list (new config.cluster_id config.shards))) [
        | inl (bytes, q) ↦ (
          bytes,
          q,
          map_err-eq-ok enr_build (c.build key (builder_of config bytes))
              (rw (build_waku_enr, q) at h),
        )
        | inr (e, q) ↦ cc (rw (build_waku_enr, q) at h)
      ]

  -- The list that the builder is given decodes to the shards.
  decodes :
      (config : DiscoveryConfig Enr Key) (bytes : Bytes)
      → to_indices_list (new config.cluster_id config.shards) ≡ ok bytes
      → IsU16 config.cluster_id
      → All IsU16 config.shards
      → from_indices_list bytes ≡ ok (new config.cluster_id config.shards)
  unfolding new
  decodes config bytes h u us =
      let rs = new config.cluster_id config.shards in
      let (own, e, k) = from_indices_list-to_indices_list rs (record {
        cluster_id = u;
        shards = All-new IsU16 config.cluster_id config.shards us;
        count = ground (arith, to_indices_list-count rs bytes h);
      }) in
      rw (ok-injective (sym h ∙ e)) k

  own_shards :
      (key : Key) (config : DiscoveryConfig Enr Key) (enr : Enr) (bytes : Bytes)
      → c.build key (builder_of config bytes) ≡ ok enr
      → from_indices_list bytes ≡ ok (new config.cluster_id config.shards)
      → enr_relay_shards c enr ≡ some (new config.cluster_id config.shards)
  unfolding lookup
  own_shards key config enr bytes b d =
      relay_shards-read enr (new config.cluster_id config.shards) bytes
        ((law.built key (builder_of config bytes) enr b).2 enr_key_rs refl) d

  in_own_cluster :
      (cluster : ℕ) (shards : List ℕ) (enr : Enr)
      → enr_relay_shards c enr ≡ some (new cluster shards)
      → is_in_cluster c cluster enr ≡ true
  unfolding is_in_cluster new
  in_own_cluster cluster shards enr h = rw (is_in_cluster, h) (ground arith)

  dialable_with :
      (enr : Enr) (peer : Peer) (rs : RelayShards) (ip port : ℕ)
      → c.peer_id enr ≡ some peer
      → enr_relay_shards c enr ≡ some rs
      → c.ip4 enr ≡ some ip
      → c.tcp4 enr ≡ some port
      → enr_to_dialable c enr
        ≡ some (record {
          peer_id = peer;
          addrs = (ip4 ip ∷ tcp port ∷ p2p peer ∷ []) ∷ [];
          shards = rs;
          enr = enr;
        })
  unfolding enr_to_dialable
  dialable_with enr peer rs ip port p q i t = rw (enr_to_dialable, p, q, i, t) refl

  -- The ENR that a node builds, with a TCP port, is in the node's cluster for others, and is dialed at the
  -- external address, or else the one that is listened on, with that port, the peer id of its key, and the
  -- shards that the node is configured with, sorted and without duplicates. The cluster and the shards
  -- are 16-bit numbers, and the record keeps what is set in its builder.
  pub build_waku_enr-enr_to_dialable :
      (key : Key) (config : DiscoveryConfig Enr Key) (enr : Enr) (port : ℕ) (peer : Peer)
      → build_waku_enr c key config ≡ ok enr
      → config.tcp_port ≡ some port
      → c.peer_id enr ≡ some peer
      → IsU16 config.cluster_id
      → All IsU16 config.shards
      → (is_in_cluster c config.cluster_id enr ≡ true)
        × (enr_to_dialable c enr
            ≡ some (record {
              peer_id = peer;
              addrs =
                  (ip4 (Option.get_or config.external_ip config.listen_ip)
                    ∷ tcp port
                    ∷ p2p peer
                    ∷ [])
                  ∷ [];
              shards = new config.cluster_id config.shards;
              enr = enr;
            }))
  build_waku_enr-enr_to_dialable key config enr port peer h t p u us =
      let (bytes, listed, made) = build_parts key config enr h in
      let facts = law.built key (builder_of config bytes) enr made in
      let shards = own_shards key config enr bytes made (decodes config bytes listed u us) in
      (
        in_own_cluster config.cluster_id config.shards enr shards,
        dialable_with enr peer (new config.cluster_id config.shards)
            (Option.get_or config.external_ip config.listen_ip) port p shards facts.0 (facts.1 ∙ t),
      )
