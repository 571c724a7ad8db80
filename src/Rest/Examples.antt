-- ===== src/Rest/Examples.antt =====
-- The theorems on the REST API at concrete calls, topics and tables.
use mathlib.Core.Option
use rs_waku.Prelude.{
  ℕ, ◌+◌, ◌^◌, get_or, ap, ◌≡◌, ◌<◌, refl, List, [], ◌∷◌, ◌++◌, map, none, some, Option, inl, arith,
  length, replicate, take, filter, get_last?, max,
}
use rs_waku.Prelude.Bytes.{Bytes, codes, from_be_bytes, from_be_bytes_acc}
use rs_waku.Prelude.Int.{pos}
use rs_waku.Prelude.Outcome.{ok}
use rs_waku.Prelude.Sorted.{In, sort_by, insert_by}
use rs_waku.Message.{WakuMessage, new}
use rs_waku.Topic
use rs_waku.Shard.{ShardId, autoshard}
use rs_waku.Prelude.Text.{strip_prefix, split}
use rs_waku.Store.{Row, Table}
use rs_waku.Store.Query.{before, matches, selected, lt_key, past_cursor, cursor_key}
use rs_waku.Store.Order.{HasUniqueHashes}
use rs_waku.Store.Paging.{view}
use rs_waku.Rest.{
  Calls, record_message, drain, StoreParams, reply, nothing, from_message, into_message,
  store_message,
}
use rs_waku.Rest.Conversion.{IsRoundTrip, into_message-from_message}
use rs_waku.Rest.Handlers.{
  NodeHandle, AppState, new_state, relay_subscribe, relay_publish, publish_to, query_of,
}
use rs_waku.Rest.Subscriptions.{Subscribes, relay_subscribe_lem}
use rs_waku.Rest.Pages.{with_store, at_cursor, read_pages, read_pages_lem}

abbrev tail_of : Bytes → Option Bytes
tail_of [] = none
tail_of (b ∷ bs) = some bs

-- Calls that add a byte in front, and take it off.
abbrev calls : Calls
calls = record {
  base64_encode = λ bs. 98 ∷ bs;
  base64_decode = λ bs. ok (Option.get_or (tail_of bs) []);
  hex_encode = λ bs. 120 ∷ bs;
  hex_decode = λ bs. ok (Option.get_or (tail_of bs) []);
  debug = λ bs. bs;
  trim = λ bs. bs;
}

calls-IsRoundTrip : IsRoundTrip calls
calls-IsRoundTrip = record { base64_law = λ bs. refl; hex_law = λ bs. refl }

abbrev chat : Bytes
chat = codes "/app/1/chat/proto"

abbrev hello : WakuMessage
hello = record (new chat (codes "hello")) { meta = some (1 ∷ []) }

-- A node that knows the shards it is in.
abbrev handle : NodeHandle (List ShardId)
handle = record {
  subscribe = λ shards s. (s ∷ shards, ok tt);
  publish = λ shards s m. (shards, ok (replicate 32 0));
}

abbrev cut_off : Bytes → Bytes
cut_off bytes = take 32 (bytes ++ replicate 32 7)

abbrev node_state : AppState (List ShardId)
node_state = new_state (codes "0.1.0") [] none

subscribed : (relay_subscribe calls handle cut_off node_state (chat ∷ [])).1 ≡ reply 200 nothing
unfolding relay_subscribe autoshard Topic.parse strip_prefix split from_be_bytes from_be_bytes_acc
subscribed = refl

relay_subscribe_lem_example :
    (shards : List ShardId) × (shard : ShardId) × Subscribes handle node_state.node shards
      (relay_subscribe calls handle cut_off node_state (chat ∷ [])).0.node
    × In shard shards
    × (relay_publish calls handle cut_off node_state chat (from_message calls hello)
        ≡ publish_to calls handle cut_off node_state shard hello)
    × (get_last?
          (drain
            (record_message
              (relay_subscribe calls handle cut_off node_state (chat ∷ [])).0.cache
              hello)
            chat).0
        ≡ some hello)
relay_subscribe_lem_example =
    relay_subscribe_lem calls handle cut_off node_state (chat ∷ []) node_state chat
      (from_message calls hello) hello subscribed (inl refl) refl refl read
  where
    read : into_message calls (from_message calls hello) chat ≡ ok hello
    read = into_message-from_message calls calls-IsRoundTrip hello

abbrev stored_row : ℕ → Row
stored_row n = record {
  message_hash = replicate 32 n;
  pubsub_topic = codes "/waku/2/rs/1/0";
  content_topic = chat;
  payload = n ∷ [];
  version = none;
  timestamp = some (pos n);
  meta = none;
  rate_limit_proof = none;
  ephemeral = none;
  receiver_time = pos n;
  sort_time = pos n;
}

abbrev table : Table
table = stored_row 2 ∷ stored_row 1 ∷ []

table_is_unique : HasUniqueHashes table
table_is_unique = ((λ e. ground (arith, ap (λ xs. get_or xs 0 0) e), tt), (tt, tt))

abbrev one_a_page : StoreParams
one_a_page = record {
  pubsub_topic = none;
  content_topics = none;
  start_time = none;
  end_time = none;
  page_size = some 1;
  ascending = none;
  cursor = none;
  include_data = none;
}

few : length (selected table (query_of calls one_a_page none)) < 3
unfolding query_of selected before matches lt_key past_cursor cursor_key sort_by insert_by
few = omega arith

small : max (query_of calls one_a_page none).page_size 1 + 1 < 2 ^ 63
unfolding query_of
small = omega arith

read_pages_lem_example :
    read_pages 3 calls (with_store (λ e. []) table node_state) (at_cursor one_a_page none)
    ≡ ok (
        map (store_message calls) (
          map (view (query_of calls one_a_page none).include_data) (
            sort_by
              (before (query_of calls one_a_page none).forward)
              (filter (matches (query_of calls one_a_page none)) table))))
read_pages_lem_example =
    read_pages_lem calls calls-IsRoundTrip (λ e. []) table node_state 3 one_a_page table_is_unique
      (refl, (refl, tt)) small few
