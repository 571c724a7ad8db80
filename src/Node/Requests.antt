-- ===== src/Node/Requests.antt =====
-- crates/waku-node/src/runtime.rs: the commands of a `NodeHandle`, `handle_command`, and the requests that
-- wait for their responses. The swarm is a record of the calls that are made of it, and the id that
-- `send_request` gives is an argument.
use rs_waku.Prelude.{ℕ, List, [], ◌∷◌, Bool, none, some, if◌then◌else◌, eqb, length}
use rs_waku.Prelude.Bytes.{Bytes, codes}
use rs_waku.Prelude.Eq.{Eq}
use rs_waku.Prelude.Assoc.{Assoc, lookup, insert, remove}
use rs_waku.Prelude.Outcome.{Result, ok, err}
use rs_waku.Shard.{ShardId}
use rs_waku.Message.{WakuMessage}
use rs_waku.Relay.{shard_topic}
use rs_waku.Store.Wire.{StoreQueryRequest, StoreQueryResponse}
use rs_waku.Node.Filters.{FilterSubscribeRequest, FilterSubscribeResponse}
use rs_waku.Node.Messages.{LightpushRequest, LightpushResponse, PeerExchangeRpc, query_rpc}

-- The calls of libp2p. `subscribe` says whether the topic is new, and an error is its text.
pub record Swarm (Addr : Type 0) : Type 0 where
  pub subscribe : Bytes → Result Bytes Bool
  pub publish : Bytes → Bytes → Result Bytes Bytes
  pub dial : Addr → Result Bytes (Unit {0})
  pub mesh_peers : Bytes → ℕ

pub data Command (Peer Addr Reply : Type 0) : Type 0 where
  subscribe : ShardId → Reply → Command Peer Addr Reply
  publish : ShardId → WakuMessage → Reply → Command Peer Addr Reply
  dial : Addr → Reply → Command Peer Addr Reply
  store_query : Peer → StoreQueryRequest → Reply → Command Peer Addr Reply
  light_push : Peer → LightpushRequest → Reply → Command Peer Addr Reply
  peer_exchange : Peer → ℕ → Reply → Command Peer Addr Reply
  filter_subscribe : Peer → FilterSubscribeRequest → Reply → Command Peer Addr Reply
  shutdown : Command Peer Addr Reply

pub data Answer : Type 0 where
  subscribed : Result Bytes (Unit {0}) → Answer
  published : Result Bytes Bytes → Answer
  dialed : Result Bytes (Unit {0}) → Answer
  store_answer : Result Bytes StoreQueryResponse → Answer
  lightpush_answer : Result Bytes LightpushResponse → Answer
  peer_exchange_answer : Result Bytes PeerExchangeRpc → Answer
  filter_answer : Result Bytes FilterSubscribeResponse → Answer

pub data Request : Type 0 where
  store_request : StoreQueryRequest → Request
  lightpush_request : LightpushRequest → Request
  peer_exchange_request : PeerExchangeRpc → Request
  filter_request : FilterSubscribeRequest → Request

-- What a command or a response makes the node do: answer a reply, or send a request.
pub data Effect (Peer Reply : Type 0) : Type 0 where
  answer : Reply → Answer → Effect Peer Reply
  send_request : Peer → Request → Effect Peer Reply

pub record Pending (RequestId Reply : Type 0) : Type 0 where
  pub store_queries : Assoc RequestId Reply
  pub lightpush : Assoc RequestId Reply
  pub peer_exchange : Assoc RequestId Reply
  pub filter : Assoc RequestId Reply

-- A response, or the text of an outbound failure.
pub data Response (RequestId : Type 0) : Type 0 where
  store_response : RequestId → Result Bytes StoreQueryResponse → Response RequestId
  lightpush_response : RequestId → Result Bytes LightpushResponse → Response RequestId
  peer_exchange_response : RequestId → Result Bytes PeerExchangeRpc → Response RequestId
  filter_response : RequestId → Result Bytes FilterSubscribeResponse → Response RequestId

-- `.map(|_| ())`
abbrev pub forget : Result Bytes Bool → Result Bytes (Unit {0})
forget (ok b) = ok tt
forget (err e) = err e

-- The id as 32 bytes.
unfoldable pub message_hash_of : Result Bytes Bytes → Result Bytes Bytes
message_hash_of (err e) = err e
message_hash_of (ok id) =
    if eqb (length id) 32 then ok id else err (codes "gossipsub returned a non-32-byte message id")

module _ {Peer Addr RequestId Reply : Type 0} ⦃e : Eq RequestId⦄ (swarm : Swarm Addr)
    (encode : WakuMessage → Bytes) where
  -- The check that `publish` makes of the id in a debug build only is left out.
  unfoldable pub handle_command :
      Pending RequestId Reply
      → RequestId
      → Command Peer Addr Reply
      → Pending RequestId Reply × List (Effect Peer Reply)
  unfolding message_hash_of
  handle_command pending id (subscribe shard reply) =
      (pending, answer reply (subscribed (forget (swarm.subscribe (shard_topic shard)))) ∷ [])
  handle_command pending id (publish shard message reply) = (
    pending,
    answer reply (published (message_hash_of (swarm.publish (shard_topic shard) (encode message))))
        ∷ [],
  )
  handle_command pending id (dial addr reply) =
      (pending, answer reply (dialed (swarm.dial addr)) ∷ [])
  handle_command pending id (store_query peer request reply) = (
    record pending { store_queries = insert id reply pending.store_queries },
    send_request peer (store_request request) ∷ [],
  )
  handle_command pending id (light_push peer request reply) = (
    record pending { lightpush = insert id reply pending.lightpush },
    send_request peer (lightpush_request request) ∷ [],
  )
  handle_command pending id (peer_exchange peer num_peers reply) = (
    record pending { peer_exchange = insert id reply pending.peer_exchange },
    send_request peer (peer_exchange_request (query_rpc num_peers)) ∷ [],
  )
  handle_command pending id (filter_subscribe peer request reply) = (
    record pending { filter = insert id reply pending.filter },
    send_request peer (filter_request request) ∷ [],
  )
  handle_command pending id shutdown = (pending, [])

module _ {Peer RequestId Reply : Type 0} ⦃e : Eq RequestId⦄ where
  -- `remove` of a map, and the answer to what was there.
  unfoldable pub settle :
      Assoc RequestId Reply → RequestId → Answer → Assoc RequestId Reply × List (Effect Peer Reply)
  settle waiting id a =
      (remove id waiting, elim (lookup id waiting) [ none ↦ [] | some reply ↦ answer reply a ∷ [] ])

  unfoldable pub on_response :
      Pending RequestId Reply
      → Response RequestId
      → Pending RequestId Reply × List (Effect Peer Reply)
  unfolding settle
  on_response pending (store_response id r) =
      let (waiting, effects) = settle pending.store_queries id (store_answer r) in
      (record pending { store_queries = waiting }, effects)
  on_response pending (lightpush_response id r) =
      let (waiting, effects) = settle pending.lightpush id (lightpush_answer r) in
      (record pending { lightpush = waiting }, effects)
  on_response pending (peer_exchange_response id r) =
      let (waiting, effects) = settle pending.peer_exchange id (peer_exchange_answer r) in
      (record pending { peer_exchange = waiting }, effects)
  on_response pending (filter_response id r) =
      let (waiting, effects) = settle pending.filter id (filter_answer r) in
      (record pending { filter = waiting }, effects)
