-- ===== src/Store/Wire.antt =====
-- crates/waku-store/src/store_query.rs: the protocol `/vac/waku/store-query/3.0.0`, its requests as queries
-- and the answers from the store. The text of an error is a parameter.
use mathlib.Core.Option
use rs_waku.Prelude.{
  ℕ, ◌≡◌, refl, ap, List, [], ◌∷◌, map, Bool, false, Option, none, some, if◌then◌else◌, eqb, length,
  max, take, All, Option-cases, inl, inr,
}
use rs_waku.Prelude.Bytes.{Bytes, codes}
use rs_waku.Prelude.Int.{ℤ}
use rs_waku.Prelude.Outcome.{Result, ok, err}
use rs_waku.Message.{WakuMessage}
use rs_waku.Store.{Row, Table, StoreError, db, StoredMessage, StoreQuery, QueryResult}
use rs_waku.Store.Query.{query, query_on, selected}
use rs_waku.Store.Paging.{HasDigests, IsPageSize, view, next_of, query_lem}

pub record StoreQueryRequest : Type 0 where
  pub request_id : Bytes
  pub include_data : Bool
  pub pubsub_topic : Option Bytes
  pub content_topics : List Bytes
  pub time_start : Option ℤ
  pub time_end : Option ℤ
  pub message_hashes : List Bytes
  pub pagination_cursor : Option Bytes
  pub pagination_forward : Bool
  pub pagination_limit : Option ℕ

pub record WakuMessageKeyValue : Type 0 where
  pub message_hash : Option Bytes
  pub message : Option WakuMessage
  pub pubsub_topic : Option Bytes

pub record StoreQueryResponse : Type 0 where
  pub request_id : Bytes
  pub status_code : Option ℕ
  pub status_desc : Option Bytes
  pub messages : List WakuMessageKeyValue
  pub pagination_cursor : Option Bytes

-- `try_into` an array of 32 bytes.
abbrev pub is_hash : Bytes → Bool
is_hash h = eqb (length h) 32

unfoldable pub hashes_of : List Bytes → List Bytes
hashes_of [] = []
hashes_of (h ∷ rest) = let others = hashes_of rest in if is_hash h then h ∷ others else others

unfoldable pub cursor_of : Option Bytes → Option Bytes
cursor_of none = none
cursor_of (some c) = if is_hash c then some c else none

unfoldable pub request_to_query : StoreQueryRequest → StoreQuery
unfolding hashes_of cursor_of
request_to_query req = record {
  pubsub_topic = req.pubsub_topic;
  content_topics = req.content_topics;
  time_start_ns = req.time_start;
  time_end_ns = req.time_end;
  message_hashes = hashes_of req.message_hashes;
  include_data = req.include_data;
  page_size = Option.get_or req.pagination_limit 20;
  forward = req.pagination_forward;
  cursor = cursor_of req.pagination_cursor;
}

abbrev pub key_value : StoredMessage → WakuMessageKeyValue
key_value m = record {
  message_hash = some m.hash;
  message = m.message;
  pubsub_topic = some m.pubsub_topic;
}

-- `serve` of a store, which is what it answers to a query.
unfoldable pub serve :
    (StoreError → Bytes)
    → (StoreQuery → Result StoreError QueryResult)
    → StoreQueryRequest
    → StoreQueryResponse
unfolding request_to_query
serve describe store req = elim (store (request_to_query req)) [
  | ok result ↦ record {
    request_id = req.request_id;
    status_code = some 200;
    status_desc = some (codes "OK");
    messages = map key_value result.messages;
    pagination_cursor = result.next_cursor;
  }
  | err e ↦ record {
    request_id = req.request_id;
    status_code = some 500;
    status_desc = some (describe e);
    messages = [];
    pagination_cursor = none;
  }
]

-- What a store on a working database answers.
pub serve-query :
    (describe : StoreError → Bytes) (t : Table) (req : StoreQueryRequest)
    → HasDigests t
    → IsPageSize (max (Option.get_or req.pagination_limit 20) 1)
    → serve describe (query t) req ≡ record {
      request_id = req.request_id;
      status_code = some 200;
      status_desc = some (codes "OK");
      messages =
          map
            (λ r. key_value (view req.include_data r))
            (take
              (max (Option.get_or req.pagination_limit 20) 1)
              (selected t (request_to_query req)));
      pagination_cursor =
          next_of
            (max (Option.get_or req.pagination_limit 20) 1)
            (selected t (request_to_query req));
    }
unfolding serve
serve-query describe t req d h =
    rw (serve, query_lem t (request_to_query req) d h, map_map key_value (view req.include_data))
      refl
  where
    map_map :
        (f : StoredMessage → WakuMessageKeyValue) (g : Row → StoredMessage) (rows : List Row)
        → map f (map g rows) ≡ map (λ r. f (g r)) rows
    map_map f g [] = refl
    map_map f g (r ∷ rows) = ap (λ ms. f (g r) ∷ ms) (map_map f g rows)

-- A store of digests answers a request, if its database runs the query, with status 200, the first rows that
-- the query selects, at most as many as asked for and at least one, and the cursor of the next page; and
-- if the database fails, with status 500, the text of the error and no messages. The page size is below
-- 2^63 - 1.
pub serve_lem :
    (describe : StoreError → Bytes) (fault : StoreQuery → Option Bytes) (t : Table)
    (req : StoreQueryRequest)
    → HasDigests t
    → IsPageSize (max (Option.get_or req.pagination_limit 20) 1)
    → serve describe (query_on fault t) req ≡ elim (fault (request_to_query req)) [
      | some e ↦ record {
        request_id = req.request_id;
        status_code = some 500;
        status_desc = some (describe (db e));
        messages = [];
        pagination_cursor = none;
      }
      | none ↦ record {
        request_id = req.request_id;
        status_code = some 200;
        status_desc = some (codes "OK");
        messages =
            map
              (λ r. key_value (view req.include_data r))
              (take
                (max (Option.get_or req.pagination_limit 20) 1)
                (selected t (request_to_query req)));
        pagination_cursor =
            next_of
              (max (Option.get_or req.pagination_limit 20) 1)
              (selected t (request_to_query req));
      }
    ]
unfolding serve query_on
serve_lem describe fault t req d h = elim (Option-cases (fault (request_to_query req))) [
  | inr (e, q) ↦ rw (serve, query_on, q) refl
  | inl q ↦ rw (serve, query_on, q) (serve-query describe t req d h)
]

-- A request whose hashes are all of another length than 32 is answered as one that asks for none of
-- them, which means for messages of every hash.
pub serve_malformed :
    (describe : StoreError → Bytes) (store : StoreQuery → Result StoreError QueryResult)
    (req : StoreQueryRequest)
    → All (λ (h : Bytes). is_hash h ≡ false) req.message_hashes
    → serve describe store req ≡ serve describe store (record req { message_hashes = [] })
unfolding serve request_to_query hashes_of
serve_malformed describe store req h =
    rw (serve, request_to_query, none_left req.message_hashes h) refl
  where
    none_left : (hs : List Bytes) → All (λ (x : Bytes). is_hash x ≡ false) hs → hashes_of hs ≡ []
    none_left [] k = refl
    none_left (x ∷ hs) k = rw (k.0, none_left hs k.1) refl
