-- ===== src/Rest/Handlers.antt =====
-- The handlers of crates/waku-rest/src/lib.rs that publish, subscribe, poll and query. The node is a
-- parameter: a state, and the calls that are made of its handle. `autoshard` panics on a network without
-- shards.
use mathlib.Core.Option
use rs_waku.Prelude.{ℕ, List, [], ◌∷◌, map, true, Option, none, some}
use rs_waku.Prelude.Bytes.{Bytes, codes}
use rs_waku.Prelude.Outcome.{map_err, Result, ok, err}
use rs_waku.Prelude.Text.{split}
use rs_waku.Preset.{NetworkPreset, twn}
use rs_waku.Topic
use rs_waku.Topic.{ContentTopic}
use rs_waku.Shard
use rs_waku.Shard.{ShardId, autoshard}
use rs_waku.Message.{WakuMessage}
use rs_waku.Node.Handle.{NodeError, node_error_text}
use rs_waku.Store.{StoreQuery, QueryResult}
use rs_waku.Rest.{
  Calls, MessageCache, register, drain, RestWakuMessage, LightpushBody, StoreParams, Response,
  reply, panicked, nothing, text, messages, store_page, core_error_text, into_message, from_message,
  parse_hash, store_response,
}

-- The handle of a node.
pub record NodeHandle (N : Type 0) : Type 0 where
  pub subscribe : N → ShardId → N × Result NodeError (Unit {0})
  pub publish : N → ShardId → WakuMessage → N × Result NodeError Bytes

-- The store answers with a page or the text of an error.
pub record AppState (N : Type 0) : Type 0 where
  pub node : N
  pub store : Option (StoreQuery → Result Bytes QueryResult)
  pub preset : NetworkPreset
  pub version : Bytes
  pub cache : MessageCache

-- `AppState::new`; the version is that of the package.
abbrev pub new_state :
    {N : Type 0} → Bytes → N → Option (StoreQuery → Result Bytes QueryResult) → AppState N
new_state version node store = record {
  node = node;
  store = store;
  preset = twn;
  version = version;
  cache = [];
}

abbrev pub comma : ℕ
comma = b','

-- `c.split(',').map(|s| s.trim().to_string()).collect()`, of the optional parameter.
abbrev pub topic_list : Calls → Option Bytes → List Bytes
topic_list c none = []
topic_list c (some topics) = map c.trim (split comma topics)

unfoldable pub query_of : Calls → StoreParams → Option Bytes → StoreQuery
query_of c params cursor = record {
  pubsub_topic = params.pubsub_topic;
  content_topics = topic_list c params.content_topics;
  time_start_ns = params.start_time;
  time_end_ns = params.end_time;
  message_hashes = [];
  include_data = Option.get_or params.include_data true;
  page_size = Option.get_or params.page_size 20;
  forward = Option.get_or params.ascending true;
  cursor = cursor;
}

-- `params.cursor.map(parse_hash).transpose()`
unfoldable pub cursor_of : Calls → Option Bytes → Result Bytes (Option Bytes)
cursor_of c none = ok none
cursor_of c (some hex) = elim (parse_hash c hex) [ ok h ↦ ok (some h) | err e ↦ err e ]

unfoldable pub page_response : Calls → Result Bytes QueryResult → Response
page_response c (ok result) = reply 200 (store_page (store_response c result))
page_response c (err e) = reply 500 (text e)

module _ {N : Type 0} where
  unfoldable pub store_query : Calls → AppState N → StoreParams → Response
  unfolding cursor_of query_of page_response
  store_query c s params = elim s.store [
    | none ↦ reply 503 (text (codes "store not enabled"))
    | some ask ↦ elim (cursor_of c params.cursor) [
      | err e ↦ reply 400 (text e)
      | ok cursor ↦ page_response c (ask (query_of c params cursor))
    ]
  ]

  -- `GET` of the messages: the poll empties the queue.
  unfoldable pub relay_messages : Calls → AppState N → Bytes → AppState N × Response
  relay_messages c s content_topic =
      let (queue, cache) = drain s.cache content_topic in
      (record s { cache = cache }, reply 200 (messages (map (from_message c) queue)))

module _ {N : Type 0} (c : Calls) (handle : NodeHandle N) (sha256 : Bytes → Bytes) where
  -- `s.node.publish`, and the response to what it returns.
  unfoldable pub publish_to : AppState N → ShardId → WakuMessage → AppState N × Response
  publish_to s shard message =
      let (node, result) = handle.publish s.node shard message in
      (
        record s { node = node },
        elim result [
          | ok hash ↦ reply 200 (text (c.hex_encode hash))
          | err e ↦ reply 503 (text (node_error_text e))
        ],
      )

  unfoldable pub relay_publish : AppState N → Bytes → RestWakuMessage → AppState N × Response
  unfolding publish_to
  relay_publish s content_topic body = elim (Topic.parse content_topic) [
    | err e ↦ (s, reply 400 (text (core_error_text c e)))
    | ok t ↦ elim (into_message c body content_topic) [
      | err e ↦ (s, reply 400 (text e))
      | ok message ↦ elim (autoshard sha256 s.preset.cluster_id t s.preset.shard_count) [
        | none ↦ (s, panicked)
        | some shard ↦ publish_to s shard message
      ]
    ]
  ]

  -- One turn of the loop: the state, and the response that ends it.
  unfoldable pub subscribe_one : AppState N → Bytes → AppState N × Option Response
  subscribe_one s topic = elim (Topic.parse topic) [
    | err e ↦ (s, some (reply 400 (text (core_error_text c e))))
    | ok t ↦ elim (autoshard sha256 s.preset.cluster_id t s.preset.shard_count) [
      | none ↦ (s, some panicked)
      | some shard ↦
          let (node, result) = handle.subscribe s.node shard in
          elim result [
            | err e ↦ (record s { node = node }, some (reply 503 (text (node_error_text e))))
            | ok u ↦ (record s { node = node; cache = register s.cache topic }, none)
          ]
    ]
  ]

  unfoldable pub relay_subscribe : AppState N → List Bytes → AppState N × Response
  unfolding subscribe_one
  relay_subscribe s [] = (s, reply 200 nothing)
  relay_subscribe s (topic ∷ rest) =
      let (after, ended) = subscribe_one s topic in
      elim ended [ none ↦ relay_subscribe after rest | some response ↦ (after, response) ]

  -- The shard of a light push: `none` where `autoshard` panics.
  unfoldable pub shard_of : AppState N → Option Bytes → Bytes → Option (Result Bytes ShardId)
  shard_of s (some topic) content_topic = some (map_err (core_error_text c) (Shard.parse topic))
  shard_of s none content_topic = elim (Topic.parse content_topic) [
    | err e ↦ some (err (core_error_text c e))
    | ok t ↦ Option.map ok (autoshard sha256 s.preset.cluster_id t s.preset.shard_count)
  ]

  unfoldable pub lightpush : AppState N → LightpushBody → AppState N × Response
  unfolding shard_of publish_to
  lightpush s req = elim (shard_of s req.pubsub_topic req.message.content_topic) [
    | none ↦ (s, panicked)
    | some (err e) ↦ (s, reply 400 (text e))
    | some (ok shard) ↦ elim (into_message c req.message req.message.content_topic) [
      | err e ↦ (s, reply 400 (text e))
      | ok message ↦ publish_to s shard message
    ]
  ]
