-- ===== src/Rest/Status.antt =====
-- The handlers of crates/waku-rest/src/lib.rs that report on the node. JSON and the text of
-- Prometheus are left out, and so is the conversion of a count to `f64`.
use rs_waku.Prelude.{
  ℕ, ◌≡◌, ◌+◌, List, [], ◌∷◌, ◌++◌, map, Bool, true, Option, none, some, length, if◌then◌else◌, ap,
  arith,
}
use rs_waku.Prelude.{◌∙◌, Bool}
use rs_waku.Prelude.Bytes.{Bytes, codes}
use rs_waku.Prelude.Eq.{Eq, ◌==◌, list_eq, nat_eq}
use rs_waku.Node.Serving.{Metrics}
use rs_waku.Node.Loop.{LoopState, SwarmEvent, Setting, run}
use rs_waku.Node.Replies.{replies, is_served_query, is_served_push, is_refusal}
use rs_waku.Node.Accounting.{run-IsCounted}
use rs_waku.Node.Start.{new_loop}
use rs_waku.Rest.Handlers.{AppState}

-- What the handle of a node reports; addresses, ENRs and peer ids are given as texts.
pub record NodeReport (N : Type 0) : Type 0 where
  pub connected_peers : N → List Bytes
  pub listen_addresses : N → List Bytes
  pub discv5_enr : N → Option Bytes
  pub peer_id : N → Bytes
  pub metrics : N → Metrics

pub record InfoResponse : Type 0 where
  pub listen_addresses : List Bytes
  pub enr_uri : Option Bytes
  pub peer_id : Bytes

pub record HealthResponse : Type 0 where
  pub node_health : Bytes
  pub connected_peers : ℕ

pub record AdminPeer : Type 0 where
  pub peer_id : Bytes
  pub connected : Bool

-- A gauge or a counter.
pub record Family : Type 0 where
  pub name : Bytes
  pub help : Bytes
  pub value : ℕ

abbrev pub family : Bytes → Bytes → ℕ → Family
family name help value = record { name = name; help = help; value = value }

-- The counters, in the order of the handler.
unfoldable pub counters : Metrics → List Family
counters snap =
    family (codes "rs_waku_relay_messages_total") (codes "Relay messages accepted")
      snap.relay_messages
    ∷ family (codes "rs_waku_store_queries_total") (codes "Store queries served") snap.store_queries
    ∷ family (codes "rs_waku_lightpush_requests_total") (codes "Lightpush requests served")
        snap.lightpush_requests
    ∷ family (codes "rs_waku_filter_pushes_total") (codes "Filter pushes sent") snap.filter_pushes
    ∷ family (codes "rs_waku_rate_limited_total") (codes "Requests rejected by rate limiting")
        snap.rate_limited
    ∷ []

unfoldable pub store_gauge : Option ℕ → List Family
store_gauge none = []
store_gauge (some count) =
    family (codes "rs_waku_stored_messages") (codes "Messages in the store") count ∷ []

module _ {N : Type 0} (node : NodeReport N) where
  unfoldable pub version : AppState N → Bytes
  version s = s.version

  unfoldable pub health : AppState N → HealthResponse
  health s = record {
    node_health = codes "Ready";
    connected_peers = length (node.connected_peers s.node);
  }

  unfoldable pub info : AppState N → InfoResponse
  info s = record {
    listen_addresses = node.listen_addresses s.node;
    enr_uri = node.discv5_enr s.node;
    peer_id = node.peer_id s.node;
  }

  unfoldable pub admin_peers : AppState N → List AdminPeer
  admin_peers s = map (λ p. record { peer_id = p; connected = true }) (node.connected_peers s.node)

  -- What is registered; `stored` is the count of the store, 0 where the database fails.
  unfoldable pub metrics : AppState N → Option ℕ → List Family
  unfolding counters store_gauge
  metrics s stored =
      family (codes "rs_waku_connected_peers") (codes "Currently connected peers")
          (length (node.connected_peers s.node))
        ∷ store_gauge stored
      ++ counters (node.metrics s.node)

-- The value of the first of a name.
abbrev pub value_of : Bytes → List Family → ℕ
value_of name [] = 0
value_of name (f ∷ rest) =
    let later = value_of name rest in if f.name == name then f.value else later

from_zero : (n : ℕ) → 0 + n ≡ n
from_zero n = omega arith

module _ {Peer Ip Addr Enr RequestId Reply : Type 0} ⦃e : Eq Peer⦄ ⦃f : Eq Ip⦄ ⦃g : Eq RequestId⦄
    (c : Setting Addr Enr) where
  -- Whatever the loop of a node that was started takes in, the metrics endpoint then reports as many store
  -- queries and light pushes served as were answered other than with status 429, and as many refusals as
  -- were answered with it.
  pub metrics-run :
      (node : NodeReport (LoopState Peer Ip Addr Enr RequestId Reply))
      (s : AppState (LoopState Peer Ip Addr Enr RequestId Reply))
      (turns : List (Bool × SwarmEvent Peer Ip Addr RequestId)) (stored : Option ℕ)
      → s.node ≡ (run c new_loop turns).0
      → ((x : LoopState Peer Ip Addr Enr RequestId Reply) → node.metrics x ≡ x.metrics)
      → (value_of (codes "rs_waku_store_queries_total") (metrics node s stored)
          ≡ replies {Reply = Reply} is_served_query (run c new_loop turns).1)
        × (value_of (codes "rs_waku_lightpush_requests_total") (metrics node s stored)
            ≡ replies {Reply = Reply} is_served_push (run c new_loop turns).1)
        × (value_of (codes "rs_waku_rate_limited_total") (metrics node s stored)
            ≡ replies {Reply = Reply} is_refusal (run c new_loop turns).1)
  unfolding metrics counters store_gauge
  metrics-run node s turns none q reads =
      let same =
        reads s.node ∙ ap (λ (x : LoopState Peer Ip Addr Enr RequestId Reply). x.metrics) q in
      let (queries, pushes, refusals) = run-IsCounted c new_loop turns in
      (
        ap (λ (x : Metrics). x.store_queries) same ∙ queries ∙ from_zero _,
        ap (λ (x : Metrics). x.lightpush_requests) same ∙ pushes ∙ from_zero _,
        ap (λ (x : Metrics). x.rate_limited) same ∙ refusals ∙ from_zero _,
      )
  metrics-run node s turns (some n) q reads =
      let same =
        reads s.node ∙ ap (λ (x : LoopState Peer Ip Addr Enr RequestId Reply). x.metrics) q in
      let (queries, pushes, refusals) = run-IsCounted c new_loop turns in
      (
        ap (λ (x : Metrics). x.store_queries) same ∙ queries ∙ from_zero _,
        ap (λ (x : Metrics). x.lightpush_requests) same ∙ pushes ∙ from_zero _,
        ap (λ (x : Metrics). x.rate_limited) same ∙ refusals ∙ from_zero _,
      )
