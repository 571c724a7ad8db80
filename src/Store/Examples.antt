-- ===== src/Store/Examples.antt =====
-- The theorems on the store at concrete messages, tables and queries.
use mathlib.Core.Option
use rs_waku.Prelude.{
  ℕ, ◌<◌, ◌≡◌, ◌≢◌, ap, eqb, get_or, refl, [], ◌∷◌, ◌++◌, map, true, false, none, some,
  if◌then◌else◌, arith, take, replicate, filter, length,
}
use rs_waku.Prelude.Bytes.{Bytes, codes}
use rs_waku.Prelude.Eq.{◌==◌, nat_eq, list_eq}
use rs_waku.Prelude.Int.{pos}
use rs_waku.Prelude.Outcome.{ok}
use rs_waku.Prelude.Sorted.{sort_by, insert_by}
use rs_waku.Message.{WakuMessage, new}
use rs_waku.Hash.{deterministic_hash}
use rs_waku.Store.{Row, Table, StoreQuery, default_query, put, get}
use rs_waku.Store.Query.{lt_key, past_cursor, cursor_key, before, matches, selected}
use rs_waku.Store.Order.{HasUniqueHashes}
use rs_waku.Store.Rows.{get-put}
use rs_waku.Store.Paging.{HasDigests, view, next_of}
use rs_waku.Prelude.{Option, ltb}
use rs_waku.Store.Query.{query, query_on}
use rs_waku.Store.Wire.{
  StoreQueryRequest, request_to_query, serve, key_value, serve_lem, serve_malformed,
}
use rs_waku.Store.Retention.{enforce_capacity, enforce_capacity_lem}
use rs_waku.Store.Follow.{from_cursor, follow, follow_lem}

abbrev cut_off : Bytes → Bytes
cut_off bytes = take 32 (bytes ++ replicate 32 0)

abbrev message : WakuMessage
message = record (new (codes "/app/1/chat/proto") (1 ∷ 2 ∷ [])) {
  version = some 1;
  timestamp = some (pos 7);
}

abbrev stored_row : ℕ → ℕ → Row
stored_row n t = record {
  message_hash = replicate 32 n;
  pubsub_topic = codes "/waku/2/rs/1/0";
  content_topic = codes "/app/1/chat/proto";
  payload = n ∷ [];
  version = none;
  timestamp = some (pos t);
  meta = none;
  rate_limit_proof = none;
  ephemeral = none;
  receiver_time = pos t;
  sort_time = pos t;
}

abbrev table : Table
table = stored_row 3 30 ∷ stored_row 1 10 ∷ stored_row 2 10 ∷ []

abbrev two_a_page : StoreQuery
two_a_page = record default_query { page_size = 2 }

table_is_unique : HasUniqueHashes table
table_is_unique = (
  (first_differs 3 1 refl, (first_differs 3 2 refl, tt)),
  ((first_differs 1 2 refl, tt), (tt, tt)),
)
  where
    first_differs : (n m : ℕ) → eqb n m ≡ false → replicate 32 n ≢ replicate 32 m
    first_differs n m h e = ground (arith, h, ap (λ xs. get_or xs 0 0) e)

digests : HasDigests table
digests = (refl, (refl, (refl, tt)))

in_order :
    selected table (from_cursor default_query none)
    ≡ stored_row 1 10 ∷ stored_row 2 10 ∷ stored_row 3 30 ∷ []
unfolding selected before matches lt_key past_cursor cursor_key sort_by insert_by
in_order = refl

short : length (selected table (from_cursor two_a_page none)) < 4
unfolding selected before matches lt_key past_cursor cursor_key sort_by insert_by
short = omega arith

get-put_example :
    get (put cut_off table (codes "/waku/2/rs/1/0") message (pos 9)) (replicate 32 1) ≡ (
      if deterministic_hash cut_off (codes "/waku/2/rs/1/0") message == replicate 32 1
      then some (Option.get_or (get table (replicate 32 1)) message)
      else get table (replicate 32 1))
get-put_example =
    get-put cut_off table (codes "/waku/2/rs/1/0") message (pos 9) (replicate 32 1) (omega arith)

follow_lem_example :
    follow 4 table (from_cursor two_a_page none)
    ≡ ok (map (view true) (sort_by (before true) (filter (matches two_a_page) table)))
follow_lem_example = follow_lem 4 table two_a_page table_is_unique digests (omega arith) short

abbrev odd_request : StoreQueryRequest
odd_request = record {
  request_id = codes "r";
  include_data = true;
  pubsub_topic = none;
  content_topics = [];
  time_start = none;
  time_end = none;
  message_hashes = (1 ∷ 2 ∷ []) ∷ [];
  pagination_cursor = none;
  pagination_forward = true;
  pagination_limit = some 2;
}

-- A database that fails at queries for more than a thousand hashes.
abbrev fault : StoreQuery → Option Bytes
fault q = if ltb 1000 (length q.message_hashes) then some (codes "too many variables") else none

serve_lem_example :
    serve (λ e. []) (query_on fault table) odd_request
    ≡ elim (fault (request_to_query odd_request)) [
      | some e ↦ record {
        request_id = codes "r";
        status_code = some 500;
        status_desc = some [];
        messages = [];
        pagination_cursor = none;
      }
      | none ↦ record {
        request_id = codes "r";
        status_code = some 200;
        status_desc = some (codes "OK");
        messages =
            map
              (λ r. key_value (view true r))
              (take 2 (selected table (request_to_query odd_request)));
        pagination_cursor = next_of 2 (selected table (request_to_query odd_request));
      }
    ]
serve_lem_example = serve_lem (λ e. []) fault table odd_request digests (omega arith)

serve_malformed_example :
    serve (λ e. []) (query table) odd_request
    ≡ serve (λ e. []) (query table) (record odd_request { message_hashes = [] })
serve_malformed_example = serve_malformed (λ e. []) (query table) odd_request (refl, tt)

enforce_capacity_lem_example :
    sort_by (before false) (enforce_capacity table 2).0 ≡ take 2 (sort_by (before false) table)
enforce_capacity_lem_example = enforce_capacity_lem table 2 table_is_unique (omega arith)
