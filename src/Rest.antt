-- ===== src/Rest.antt =====
-- crates/waku-rest/src/lib.rs: the REST API. JSON and HTTP are left out: a body is a record, and a
-- response has a status and a body. The crates base64 and hex, and the debug form of a text, are
-- parameters.
pub mod Cache
pub mod Conversion
pub mod Handlers
pub mod Caching
pub mod Subscriptions
pub mod Pages
pub mod Status
pub mod Router
mod Examples
use mathlib.Core.Option
use rs_waku.Prelude.{
  ℕ, ◌++◌, List, [], ◌∷◌, map, Bool, true, Option, none, some, leb, eqb, length, drop,
  if◌then◌else◌,
}
use rs_waku.Prelude.Bytes.{Bytes, codes}
use rs_waku.Prelude.Eq.{list_eq, nat_eq}
use rs_waku.Prelude.Int.{ℤ}
use rs_waku.Prelude.Assoc.{Assoc, lookup, insert}
use rs_waku.Prelude.Outcome.{Result, ok, err, ◌>>=◌, map_err}
use rs_waku.Topic.{CoreError, invalid_content_topic, invalid_pubsub_topic}
use rs_waku.Message.{WakuMessage}
use rs_waku.Store.{StoredMessage, QueryResult}

-- The calls of other crates and of `core::fmt`; an error is its text.
pub record Calls : Type 0 where
  pub base64_encode : Bytes → Bytes
  pub base64_decode : Bytes → Result Bytes Bytes
  pub hex_encode : Bytes → Bytes
  pub hex_decode : Bytes → Result Bytes Bytes
  pub debug : Bytes → Bytes
  pub trim : Bytes → Bytes

abbrev pub cache_per_topic : ℕ
cache_per_topic = 100

-- `MessageCache`: the queue of each content topic, the oldest message first.
abbrev pub MessageCache : Type 0
MessageCache = Assoc Bytes (List WakuMessage)

unfoldable pub register : MessageCache → Bytes → MessageCache
register cache topic = insert topic (Option.get_or (lookup topic cache) []) cache

abbrev pub push_bounded : List WakuMessage → WakuMessage → List WakuMessage
push_bounded queue msg =
    (if leb cache_per_topic (length queue) then drop 1 queue else queue) ++ msg ∷ []

-- `record`
unfoldable pub record_message : MessageCache → WakuMessage → MessageCache
record_message cache msg = elim (lookup msg.content_topic cache) [
  | none ↦ cache
  | some queue ↦ insert msg.content_topic (push_bounded queue msg) cache
]

unfoldable pub drain : MessageCache → Bytes → List WakuMessage × MessageCache
drain cache topic = elim (lookup topic cache) [
  | none ↦ ([], cache)
  | some queue ↦ (queue, insert topic [] cache)
]

pub record RestWakuMessage : Type 0 where
  pub payload : Bytes
  pub content_topic : Bytes
  pub version : Option ℕ
  pub timestamp : Option ℤ
  pub meta : Option Bytes
  pub ephemeral : Option Bool

pub record LightpushBody : Type 0 where
  pub pubsub_topic : Option Bytes
  pub message : RestWakuMessage

pub record StoreMessage : Type 0 where
  pub message_hash : Bytes
  pub message : Option RestWakuMessage
  pub pubsub_topic : Bytes

pub record StoreResponse : Type 0 where
  pub messages : List StoreMessage
  pub pagination_cursor : Option Bytes

pub record StoreParams : Type 0 where
  pub pubsub_topic : Option Bytes
  pub content_topics : Option Bytes
  pub start_time : Option ℤ
  pub end_time : Option ℤ
  pub page_size : Option ℕ
  pub ascending : Option Bool
  pub cursor : Option Bytes
  pub include_data : Option Bool

pub data Body : Type 0 where
  nothing : Body
  text : Bytes → Body
  messages : List RestWakuMessage → Body
  store_page : StoreResponse → Body

-- A handler that panics sends no response.
pub data Response : Type 0 where
  reply : ℕ → Body → Response
  panicked : Response

-- `CoreError::to_string`
unfoldable pub core_error_text : Calls → CoreError → Bytes
core_error_text c (invalid_content_topic s) =
    codes "invalid content topic "
    ++ (c.debug s ++ codes ": expected /<app>/<version>/<name>/<encoding>")
core_error_text c (invalid_pubsub_topic s) =
    codes "invalid pubsub topic " ++ (c.debug s ++ codes ": expected /waku/2/rs/<cluster>/<shard>")

-- `decode`, with an error's text behind a prefix.
abbrev pub decode_as : (Bytes → Result Bytes Bytes) → Bytes → Bytes → Result Bytes Bytes
decode_as decode reason s = map_err (λ e. reason ++ e) (decode s)

unfoldable pub decode_meta : Calls → Option Bytes → Result Bytes (Option Bytes)
decode_meta c none = ok none
decode_meta c (some m) = do
  bytes ← decode_as c.base64_decode (codes "bad meta base64: ") m
  ok (some bytes)

unfoldable pub into_message : Calls → RestWakuMessage → Bytes → Result Bytes WakuMessage
unfolding decode_meta
into_message c self content_topic = do
  payload ← decode_as c.base64_decode (codes "bad payload base64: ") self.payload
  meta ← decode_meta c self.meta
  ok (record {
    payload = payload;
    content_topic = content_topic;
    version = self.version;
    timestamp = self.timestamp;
    meta = meta;
    rate_limit_proof = none;
    ephemeral = self.ephemeral;
  })

unfoldable pub from_message : Calls → WakuMessage → RestWakuMessage
from_message c msg = record {
  payload = c.base64_encode msg.payload;
  content_topic = msg.content_topic;
  version = msg.version;
  timestamp = msg.timestamp;
  meta = Option.map c.base64_encode msg.meta;
  ephemeral = msg.ephemeral;
}

unfoldable pub parse_hash : Calls → Bytes → Result Bytes Bytes
parse_hash c hex = do
  bytes ← decode_as c.hex_decode (codes "bad hex cursor: ") hex
  if eqb (length bytes) 32 then ok bytes else err (codes "cursor must be 32 bytes")

-- A row of the page, and the page.
unfoldable pub store_message : Calls → StoredMessage → StoreMessage
unfolding from_message
store_message c m = record {
  message_hash = c.hex_encode m.hash;
  message = Option.map (from_message c) m.message;
  pubsub_topic = m.pubsub_topic;
}

unfoldable pub store_response : Calls → QueryResult → StoreResponse
unfolding store_message
store_response c result = record {
  messages = map (store_message c) result.messages;
  pagination_cursor = Option.map c.hex_encode result.next_cursor;
}
