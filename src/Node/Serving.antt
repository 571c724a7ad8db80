-- ===== src/Node/Serving.antt =====
-- crates/waku-node/src/runtime.rs and metrics.rs: the requests that the node answers, and its counters.
-- `Swarm` is the record of libp2p's calls; the protobuf encoding and ENR codec are parameters.
use mathlib.Core.Option
use rs_waku.Prelude.{
  ℕ, ◌+◌, List, [], ◌∷◌, map, Bool, not, Option, none, some, if◌then◌else◌, eqb, take, length,
}
use rs_waku.Prelude.Bytes.{Bytes, codes}
use rs_waku.Prelude.Eq.{Eq}
use rs_waku.Prelude.Outcome.{ok, err}
use rs_waku.Message.{WakuMessage}
use rs_waku.Store.{StoreError, Table}
use rs_waku.Store.Query.{query}
use rs_waku.Store.Wire
use rs_waku.Store.Wire.{StoreQueryRequest, StoreQueryResponse}
use rs_waku.Node.RateLimit.{RateLimiter, allow}
use rs_waku.Node.Inbound.{RelayAction, store_put, filter_push, deliver}
use rs_waku.Node.Messages.{
  WakuMetadata, LightpushRequest, LightpushResponse, lightpush_ok, lightpush_error, PeerExchangeRpc,
  requested, response_rpc,
}
use rs_waku.Node.Requests.{Swarm}

-- The counters, `MetricsSnapshot`; they wrap at 2^64, which no run reaches.
pub record Metrics : Type 0 where
  pub relay_messages : ℕ
  pub store_queries : ℕ
  pub lightpush_requests : ℕ
  pub filter_pushes : ℕ
  pub rate_limited : ℕ

abbrev pub relay_message : Metrics → Metrics
relay_message m = record m { relay_messages = m.relay_messages + 1 }

abbrev pub store_query : Metrics → Metrics
store_query m = record m { store_queries = m.store_queries + 1 }

abbrev pub lightpush_request : Metrics → Metrics
lightpush_request m = record m { lightpush_requests = m.lightpush_requests + 1 }

abbrev pub filter_pushes_add : ℕ → Metrics → Metrics
filter_pushes_add n m = record m { filter_pushes = m.filter_pushes + n }

abbrev pub rate_limited : Metrics → Metrics
rate_limited m = record m { rate_limited = m.rate_limited + 1 }

-- What the relay handler counts beside its actions: a message that is delivered, and its pushes.
abbrev pub count_relay : {Peer : Type 0} → List (RelayAction Peer) → Metrics → Metrics
count_relay [] m = m
count_relay (store_put topic msg time ∷ rest) m = count_relay rest m
count_relay (filter_push peers topic msg ∷ rest) m =
    count_relay rest (filter_pushes_add (length peers) m)
count_relay (deliver shard msg id ∷ rest) m = count_relay rest (relay_message m)

-- `StoreQueryResponse { .. }` without messages.
abbrev pub store_refusal : Bytes → ℕ → Bytes → StoreQueryResponse
store_refusal id code desc = record {
  request_id = id;
  status_code = some code;
  status_desc = some desc;
  messages = [];
  pagination_cursor = none;
}

abbrev pub serve_store :
    (StoreError → Bytes) → Option Table → StoreQueryRequest → StoreQueryResponse
serve_store describe none req = store_refusal req.request_id 503 (codes "store not enabled")
serve_store describe (some table) req = Wire.serve describe (query table) req

unfoldable pub serve_lightpush :
    {Addr : Type 0} → Swarm Addr → (WakuMessage → Bytes) → LightpushRequest → LightpushResponse
serve_lightpush swarm encode req = elim req.message [
  | none ↦ lightpush_error req.request_id 400 (codes "missing message")
  | some message ↦ elim (swarm.publish req.pubsub_topic (encode message)) [
    | ok id ↦ lightpush_ok req.request_id (swarm.mesh_peers req.pubsub_topic)
    | err e ↦ lightpush_error req.request_id 503 e
  ]
]

-- The ENRs of the answer to a peer exchange.
unfoldable pub serve_peer_exchange :
    {Enr : Type 0} → (Enr → Bytes) → List Enr → PeerExchangeRpc → PeerExchangeRpc
serve_peer_exchange enr_to_bytes book request =
    response_rpc (map enr_to_bytes (take (Option.get_or (requested request) 0) book))

-- The cluster that a peer's metadata names, if it is another one.
unfoldable pub mismatch : ℕ → WakuMetadata → Option ℕ
mismatch local_cluster response = elim response.cluster_id [
  | none ↦ none
  | some theirs ↦ if not (eqb theirs local_cluster) then some theirs else none
]

module _ {Peer : Type 0} ⦃e : Eq Peer⦄ where
  -- The handlers' guard: the limiter and the counters after it, and whether the request is served.
  unfoldable pub limited :
      (Metrics → Metrics)
      → RateLimiter Peer
      → Peer
      → ℕ
      → Metrics
      → RateLimiter Peer × Metrics × Bool
  limited served limiter peer now m =
      let (after, allowed) = allow limiter peer now in
      (after, if not allowed then rate_limited m else served m, allowed)
