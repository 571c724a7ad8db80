-- ===== src/Store.antt =====
-- crates/waku-store/src: the message store of 13/WAKU2-STORE. The table `messages` is the list of its
-- rows in the order of insertion, and each SQL statement of sqlite.rs is a function on it: `INSERT OR
-- IGNORE`, `WHERE`, `ORDER BY`, `LIMIT` and `DELETE` as SQL defines them. A statement that the database
-- fails to run is an error in Store.Query.query_on only; elsewhere the database works. SHA-256 is a parameter.
pub mod Query
pub mod Order
pub mod Rows
pub mod Paging
pub mod Follow
pub mod Presence
pub mod Retention
pub mod Wire
pub mod Lookup
mod Examples
use rs_waku.Prelude.{
  ℕ, zero, suc, ◌+◌, ◌-◌, ◌%◌, ◌^◌, ◌<◌, List, [], ◌∷◌, ◌++◌, map, Bool, true, false, ◌&&◌, ◌||◌,
  not, Option, none, some, min, max, ltb, leb, eqb, if◌then◌else◌, length, take, drop, filter,
  is_empty, get_last?,
}
use mathlib.Core.Option
use rs_waku.Prelude.Bytes.{Bytes}
use rs_waku.Prelude.Eq.{◌==◌, contains, nat_eq, list_eq}
use rs_waku.Prelude.Int.{ℤ, pos, negsuc, ltb_ℤ, beq_ℤ, of_u64, to_u64, wrapping_sub}
use rs_waku.Prelude.Outcome.{Result, ok, err, ◌>>=◌}
use rs_waku.Prelude.Sorted.{sort_by}
use rs_waku.Message.{WakuMessage}
use rs_waku.Hash.{deterministic_hash}

pub data StoreError : Type 0 where
  db : Bytes → StoreError
  corrupt : ℕ → StoreError

pub record StoredMessage : Type 0 where
  pub hash : Bytes
  pub pubsub_topic : Bytes
  pub message : Option WakuMessage
  pub receiver_time_ns : ℤ

pub record StoreQuery : Type 0 where
  pub pubsub_topic : Option Bytes
  pub content_topics : List Bytes
  pub time_start_ns : Option ℤ
  pub time_end_ns : Option ℤ
  pub message_hashes : List Bytes
  pub include_data : Bool
  pub page_size : ℕ
  pub forward : Bool
  pub cursor : Option Bytes

-- `StoreQuery::default`
abbrev pub default_query : StoreQuery
default_query = record {
  pubsub_topic = none;
  content_topics = [];
  time_start_ns = none;
  time_end_ns = none;
  message_hashes = [];
  include_data = true;
  page_size = 20;
  forward = true;
  cursor = none;
}

pub record QueryResult : Type 0 where
  pub messages : List StoredMessage
  pub next_cursor : Option Bytes

-- A row of `messages`; the columns of type INTEGER that hold a `u32` or a `bool` are numbers.
pub record Row : Type 0 where
  pub message_hash : Bytes
  pub pubsub_topic : Bytes
  pub content_topic : Bytes
  pub payload : Bytes
  pub version : Option ℕ
  pub timestamp : Option ℤ
  pub meta : Option Bytes
  pub rate_limit_proof : Option Bytes
  pub ephemeral : Option ℕ
  pub receiver_time : ℤ
  pub sort_time : ℤ

abbrev pub Table : Type 0
Table = List Row

-- `b as i64`
abbrev pub bool_to_int : Bool → ℕ
bool_to_int true = 1
bool_to_int false = 0

-- `WHERE message_hash = ?`
unfoldable pub find_row : Bytes → Table → Option Row
find_row h [] = none
find_row h (r ∷ rest) = if r.message_hash == h then some r else find_row h rest

-- The columns that `put` binds.
unfoldable pub row_of : Bytes → Bytes → WakuMessage → ℤ → Row
row_of hash pubsub_topic msg receiver_time = record {
  message_hash = hash;
  pubsub_topic = pubsub_topic;
  content_topic = msg.content_topic;
  payload = msg.payload;
  version = msg.version;
  timestamp = msg.timestamp;
  meta = msg.meta;
  rate_limit_proof = msg.rate_limit_proof;
  ephemeral = Option.map bool_to_int msg.ephemeral;
  receiver_time = receiver_time;
  sort_time = Option.get_or msg.timestamp receiver_time;
}

unfoldable pub put : (Bytes → Bytes) → Table → Bytes → WakuMessage → ℤ → Table
unfolding row_of
put sha256 t pubsub_topic msg receiver_time =
    let hash = deterministic_hash sha256 pubsub_topic msg in
    elim (find_row hash t) [
      | some r ↦ t
      | none ↦ t ++ row_of hash pubsub_topic msg receiver_time ∷ []
    ]

unfoldable pub row_to_message : Row → WakuMessage
row_to_message r = record {
  payload = r.payload;
  content_topic = r.content_topic;
  version = Option.map (λ v. v % 2 ^ 32) r.version;
  timestamp = r.timestamp;
  meta = r.meta;
  rate_limit_proof = r.rate_limit_proof;
  ephemeral = Option.map (λ v. not (eqb v 0)) r.ephemeral;
}

unfoldable pub row_to_hash : Row → Result StoreError Bytes
row_to_hash r =
    if eqb (length r.message_hash) 32
    then ok r.message_hash
    else err (corrupt (length r.message_hash))

unfoldable pub get : Table → Bytes → Option WakuMessage
unfolding row_to_message
get t hash = Option.map row_to_message (find_row hash t)

unfoldable pub message_count : Table → ℕ
message_count t = length t
