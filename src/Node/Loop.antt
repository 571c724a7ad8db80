-- ===== src/Node/Loop.antt =====
-- crates/waku-node/src/runtime.rs: `handle_event`, with the state of the loop that it changes and what it
-- sends. The events go to the application until it is gone; `deliver_all` is what is sent then.
use rs_waku.Prelude.{
  ℕ, List, [], ◌∷◌, ◌++◌, map, Bool, true, false, ◌&&◌, not, Option, none, some, if◌then◌else◌,
}
use rs_waku.Prelude.Bytes.{Bytes, codes}
use rs_waku.Prelude.Eq.{Eq}
use rs_waku.Prelude.Int.{ℤ}
use rs_waku.Message.{WakuMessage}
use rs_waku.Relay.{MessageAcceptance}
use rs_waku.Store.{StoreError, Table}
use rs_waku.Store.Wire.{StoreQueryRequest, StoreQueryResponse}
use rs_waku.Node.Messages.{
  WakuMetadata, LightpushRequest, LightpushResponse, lightpush_error, PeerExchangeRpc, MessagePush,
  FilterPushResponse,
}
use rs_waku.Node.Requests.{Swarm, Pending, Response, Effect, on_response}
use rs_waku.Node.Filters.{
  FilterSubscribeRequest, FilterSubscribeResponse, Registry, apply_filter_request,
}
use rs_waku.Node.Connections
use rs_waku.Node.Connections.{Connections, ConnectionEvent, Action, on_connection}
use rs_waku.Node.RateLimit.{RateLimiter}
use rs_waku.Node.Inbound.{RelayAction, store_put, filter_push, deliver, on_relay_message}
use rs_waku.Node.Serving.{
  Metrics, store_query, lightpush_request, count_relay, store_refusal, serve_store, serve_lightpush,
  serve_peer_exchange, mismatch, limited,
}

pub record LoopState (Peer Ip Addr Enr RequestId Reply : Type 0) : Type 0 where
  pub connections : Connections Peer Ip
  pub filters : Registry Peer
  pub store_limit : RateLimiter Peer
  pub lightpush_limit : RateLimiter Peer
  pub pending : Pending RequestId Reply
  pub peer_book : List Enr
  pub metrics : Metrics
  pub listen_addrs : List Addr

-- The swarm's events; a handler that reads the clock has its time. `other` is ignored.
pub data SwarmEvent (Peer Ip Addr RequestId : Type 0) : Type 0 where
  new_listen_addr : Addr → SwarmEvent Peer Ip Addr RequestId
  connection : ConnectionEvent Peer Ip → SwarmEvent Peer Ip Addr RequestId
  relay_message : Bytes → Bytes → Bytes → Peer → ℤ → ℤ → SwarmEvent Peer Ip Addr RequestId
  metadata_request : Peer → SwarmEvent Peer Ip Addr RequestId
  metadata_response : Peer → WakuMetadata → SwarmEvent Peer Ip Addr RequestId
  store_request : Peer → StoreQueryRequest → ℕ → SwarmEvent Peer Ip Addr RequestId
  lightpush_event : Peer → LightpushRequest → ℕ → SwarmEvent Peer Ip Addr RequestId
  peer_exchange_event : PeerExchangeRpc → SwarmEvent Peer Ip Addr RequestId
  filter_event : Peer → FilterSubscribeRequest → SwarmEvent Peer Ip Addr RequestId
  filter_push_event : MessagePush → SwarmEvent Peer Ip Addr RequestId
  response_event : Response RequestId → SwarmEvent Peer Ip Addr RequestId
  other : SwarmEvent Peer Ip Addr RequestId

-- The answer to a request of a peer.
pub data PeerReply : Type 0 where
  metadata_reply : WakuMetadata → PeerReply
  store_reply : StoreQueryResponse → PeerReply
  lightpush_reply : LightpushResponse → PeerReply
  peer_exchange_reply : PeerExchangeRpc → PeerReply
  filter_reply : FilterSubscribeResponse → PeerReply
  filter_push_reply : FilterPushResponse → PeerReply

-- What the handler sends: to the swarm, to the application or to a command that waits.
pub data Output (Peer Addr Reply : Type 0) : Type 0 where
  send_response : PeerReply → Output Peer Addr Reply
  listening : Addr → Output Peer Addr Reply
  connection_action : Action Peer → Output Peer Addr Reply
  relay_action : RelayAction Peer → Output Peer Addr Reply
  report : Bytes → Peer → MessageAcceptance → Output Peer Addr Reply
  disconnect : Peer → Output Peer Addr Reply
  metadata_mismatch : Peer → ℕ → Output Peer Addr Reply
  filter_message : Option Bytes → WakuMessage → Output Peer Addr Reply
  settled : Effect Peer Reply → Output Peer Addr Reply

-- What goes to the application, over `evt_tx`.
abbrev pub is_notice : {Peer : Type 0} → Action Peer → Bool
is_notice (Connections.disconnect peer) = false
is_notice (Connections.send_metadata peer) = false
is_notice (Connections.peer_connected peer) = true
is_notice (Connections.peer_disconnected peer) = true

abbrev pub is_delivery : {Peer : Type 0} → RelayAction Peer → Bool
is_delivery (store_put topic message time) = false
is_delivery (filter_push peers topic message) = false
is_delivery (deliver shard message id) = true

abbrev pub is_event : {Peer Addr Reply : Type 0} → Output Peer Addr Reply → Bool
is_event (send_response reply) = false
is_event (listening address) = true
is_event (connection_action action) = is_notice action
is_event (relay_action action) = is_delivery action
is_event (report id peer acceptance) = false
is_event (disconnect peer) = false
is_event (metadata_mismatch peer theirs) = true
is_event (filter_message topic message) = true
is_event (settled effect) = false

-- What is sent of a handler's outputs, and whether it returns `Ok`: without a consumer it returns `Err`
-- at its first event, and what comes after is not sent.
unfoldable pub deliver_all :
    {Peer Addr Reply : Type 0}
    → Bool
    → List (Output Peer Addr Reply)
    → List (Output Peer Addr Reply) × Bool
deliver_all has_consumer [] = ([], true)
deliver_all has_consumer (output ∷ rest) =
    let (sent, done) = deliver_all has_consumer rest in
    if is_event output && not has_consumer then ([], false) else (output ∷ sent, done)

-- The arguments of `handle_event` that it only reads, and the code that it calls.
pub record Setting (Addr Enr : Type 0) : Type 0 where
  pub sha256 : Bytes → Bytes
  pub try_decode : Bytes → Option WakuMessage
  pub encode : WakuMessage → Bytes
  pub swarm : Swarm Addr
  pub enr_to_bytes : Enr → Bytes
  pub describe : StoreError → Bytes
  pub store : Option Table
  pub local_cluster : ℕ
  pub local_meta : WakuMetadata
  pub ip_limit : ℕ

abbrev pub has_store : Option Table → Bool
has_store none = false
has_store (some t) = true

module _ {Peer Ip Addr Enr RequestId Reply : Type 0} ⦃e : Eq Peer⦄ ⦃f : Eq Ip⦄ ⦃g : Eq RequestId⦄
    (c : Setting Addr Enr) where
  unfoldable pub on_store_request :
      LoopState Peer Ip Addr Enr RequestId Reply
      → Peer
      → StoreQueryRequest
      → ℕ
      → LoopState Peer Ip Addr Enr RequestId Reply × List (Output Peer Addr Reply)
  unfolding limited
  on_store_request s peer request now =
      let (limiter, counters, allowed) = limited store_query s.store_limit peer now s.metrics in
      (
        record s { store_limit = limiter; metrics = counters },
        send_response (
              store_reply (
                if allowed
                then serve_store c.describe c.store request
                else store_refusal request.request_id 429 (codes "rate limited")))
            ∷ [],
      )

  unfoldable pub on_lightpush :
      LoopState Peer Ip Addr Enr RequestId Reply
      → Peer
      → LightpushRequest
      → ℕ
      → LoopState Peer Ip Addr Enr RequestId Reply × List (Output Peer Addr Reply)
  unfolding limited
  on_lightpush s peer request now =
      let (limiter, counters, allowed) =
        limited lightpush_request s.lightpush_limit peer now s.metrics in
      (
        record s { lightpush_limit = limiter; metrics = counters },
        send_response (
              lightpush_reply (
                if allowed
                then serve_lightpush c.swarm c.encode request
                else lightpush_error request.request_id 429 (codes "rate limited")))
            ∷ [],
      )

  unfoldable pub handle_event :
      LoopState Peer Ip Addr Enr RequestId Reply
      → SwarmEvent Peer Ip Addr RequestId
      → LoopState Peer Ip Addr Enr RequestId Reply × List (Output Peer Addr Reply)
  unfolding on_store_request on_lightpush mismatch
  handle_event s (new_listen_addr address) =
      (record s { listen_addrs = s.listen_addrs ++ address ∷ [] }, listening address ∷ [])
  handle_event s (connection event) =
      let (connections, actions) = on_connection c.ip_limit event s.connections in
      (record s { connections = connections }, map connection_action actions)
  handle_event s (relay_message topic bytes id source now rx_time) =
      let (actions, acceptance) =
        on_relay_message c.sha256 c.try_decode (has_store c.store) s.filters now rx_time topic bytes
          id in
      (
        record s { metrics = count_relay actions s.metrics },
        map relay_action actions ++ report id source acceptance ∷ [],
      )
  handle_event s (metadata_request peer) = (s, send_response (metadata_reply c.local_meta) ∷ [])
  handle_event s (metadata_response peer response) = (
    s,
    elim (mismatch c.local_cluster response) [
      | none ↦ []
      | some theirs ↦ disconnect peer ∷ metadata_mismatch peer theirs ∷ []
    ],
  )
  handle_event s (store_request peer request now) = on_store_request s peer request now
  handle_event s (lightpush_event peer request now) = on_lightpush s peer request now
  handle_event s (peer_exchange_event request) = (
    s,
    send_response (peer_exchange_reply (serve_peer_exchange c.enr_to_bytes s.peer_book request))
        ∷ [],
  )
  handle_event s (filter_event peer request) =
      let (filters, response) = apply_filter_request s.filters peer request in
      (record s { filters = filters }, send_response (filter_reply response) ∷ [])
  handle_event s (filter_push_event request) = (
    s,
    elim request.waku_message [ none ↦ [] | some m ↦ filter_message request.pubsub_topic m ∷ [] ]
        ++ send_response (filter_push_reply (record { status_code = 200 })) ∷ [],
  )
  handle_event s (response_event response) =
      let (pending, effects) = on_response s.pending response in
      (record s { pending = pending }, map settled effects)
  handle_event s other = (s, [])

  -- The turns of the loop, each with whether the application still takes events: where it does not, the first
  -- event that is to be sent to it ends the loop.
  unfoldable pub run :
      LoopState Peer Ip Addr Enr RequestId Reply
      → List (Bool × SwarmEvent Peer Ip Addr RequestId)
      → LoopState Peer Ip Addr Enr RequestId Reply × List (Output Peer Addr Reply)
  unfolding handle_event deliver_all
  run s [] = (s, [])
  run s ((has_consumer, event) ∷ rest) =
      let (next, outputs) = handle_event s event in
      let (sent, done) = deliver_all has_consumer outputs in
      let (last, more) = run next rest in if done then (last, sent ++ more) else (next, sent)
