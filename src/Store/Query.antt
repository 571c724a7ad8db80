-- ===== src/Store/Query.antt =====
-- `MessageStore::query` of sqlite.rs: the `WHERE` conditions, the keyset cursor, the order, the limit
-- and the page that is cut off, and the retention statements that share the order.
use mathlib.Core.Option
use rs_waku.Prelude.{
  ℕ, ◌+◌, ◌%◌, ◌^◌, List, [], ◌∷◌, Bool, true, false, ◌&&◌, ◌||◌, not, Option, none, some, min, max,
  ltb, eqb, if◌then◌else◌, length, take, filter, is_empty, get_last?,
}
use rs_waku.Prelude.Bytes.{Bytes}
use rs_waku.Prelude.Eq.{◌==◌, contains, nat_eq, list_eq}
use rs_waku.Prelude.Int.{ℤ, pos, negsuc, ltb_ℤ, beq_ℤ, of_u64, to_u64}
use rs_waku.Prelude.Outcome.{Result, ok, err, ◌>>=◌}
use rs_waku.Prelude.Sorted.{sort_by}
use rs_waku.Store.{
  Row, Table, StoreError, db, StoredMessage, StoreQuery, QueryResult, find_row, row_to_hash,
  row_to_message,
}

-- SQLite compares blobs by `memcmp`, a prefix first.
abbrev pub lt_bytes : Bytes → Bytes → Bool
lt_bytes [] [] = false
lt_bytes [] (y ∷ ys) = true
lt_bytes (x ∷ xs) [] = false
lt_bytes (x ∷ xs) (y ∷ ys) = ltb x y || (eqb x y && lt_bytes xs ys)

-- The order by `(sort_time, message_hash)`.
unfoldable pub lt_key : ℤ × Bytes → ℤ × Bytes → Bool
lt_key (t, h) (u, k) = ltb_ℤ t u || (beq_ℤ t u && lt_bytes h k)

abbrev pub key : Row → ℤ × Bytes
key r = (r.sort_time, r.message_hash)

-- `ASC` or `DESC`.
unfoldable pub before : Bool → Row → Row → Bool
unfolding lt_key
before true r s = lt_key (key r) (key s)
before false r s = lt_key (key s) (key r)

abbrev pub eq_if_some : Option Bytes → Bytes → Bool
eq_if_some none b = true
eq_if_some (some a) b = b == a

abbrev pub in_or_empty : List Bytes → Bytes → Bool
in_or_empty items b = is_empty items || contains items b

abbrev pub from_start : Option ℤ → ℤ → Bool
from_start none t = true
from_start (some start) t = not (ltb_ℤ t start)

abbrev pub until_end : Option ℤ → ℤ → Bool
until_end none t = true
until_end (some end) t = ltb_ℤ t end

-- The conditions other than the cursor's.
unfoldable pub matches : StoreQuery → Row → Bool
matches q r =
    eq_if_some q.pubsub_topic r.pubsub_topic
    && in_or_empty q.content_topics r.content_topic
    && in_or_empty q.message_hashes r.message_hash
    && from_start q.time_start_ns r.sort_time
    && until_end q.time_end_ns r.sort_time

-- A cursor hash resolves to a key through the table, and an unknown one to none.
unfoldable pub cursor_key : Table → Option Bytes → Option (ℤ × Bytes)
cursor_key t none = none
cursor_key t (some h) = Option.map (λ (r : Row). (r.sort_time, h)) (find_row h t)

-- `sort_time > ct OR (sort_time = ct AND message_hash > ch)`, or with `<`.
unfoldable pub past_cursor : Bool → Option (ℤ × Bytes) → Row → Bool
unfolding lt_key
past_cursor forward none r = true
past_cursor true (some c) r = lt_key c (key r)
past_cursor false (some c) r = lt_key (key r) c

-- The rows that the query selects, in order, without the limit.
unfoldable pub selected : Table → StoreQuery → List Row
unfolding matches cursor_key past_cursor before
selected t q =
    sort_by (before q.forward)
      (filter (λ r. matches q r && past_cursor q.forward (cursor_key t q.cursor) r) t)

-- `query.page_size.max(1) as i64`
abbrev pub page_limit : ℕ → ℤ
page_limit page_size = of_u64 (max page_size 1)

-- `limit + 1` on `i64`, as a release build wraps it.
abbrev pub plus_one : ℤ → ℤ
plus_one l = of_u64 ((to_u64 l + 1) % 2 ^ 64)

-- `LIMIT n`: a negative number is no limit.
abbrev pub sql_limit : ℤ → List Row → List Row
sql_limit (pos n) rows = take n rows
sql_limit (negsuc n) rows = rows

unfoldable pub stored : Bool → Row → Result StoreError StoredMessage
stored include_data r = do
  hash ← row_to_hash r
  ok (record {
    hash = hash;
    pubsub_topic = r.pubsub_topic;
    message = if include_data then some (row_to_message r) else none;
    receiver_time_ns = r.receiver_time;
  })

unfoldable pub stored_all : Bool → List Row → Result StoreError (List StoredMessage)
unfolding stored
stored_all include_data [] = ok []
stored_all include_data (r ∷ rest) = do
  m ← stored include_data r
  ms ← stored_all include_data rest
  ok (m ∷ ms)

-- What is done with the rows that come back: the page, and the last one's hash if more remain.
unfoldable pub page_of : Bool → ℤ → List Row → Result StoreError QueryResult
unfolding stored_all
page_of include_data limit rows = do
  messages ← stored_all include_data (take (min (length rows) (to_u64 limit)) rows)
  ok (record {
    messages = messages;
    next_cursor =
        if ltb_ℤ limit (pos (length rows))
        then Option.map (λ (m : StoredMessage). m.hash) (get_last? messages)
        else none;
  })

unfoldable pub query : Table → StoreQuery → Result StoreError QueryResult
query t q =
    let limit = page_limit q.page_size in
    page_of q.include_data limit (sql_limit (plus_one limit) (selected t q))

-- `SqliteStore::query` on a database that may fail: `fault` is the error of sqlx at the statements of a query,
-- if one fails.
unfoldable pub query_on :
    (StoreQuery → Option Bytes) → Table → StoreQuery → Result StoreError QueryResult
unfolding query
query_on fault t q = elim (fault q) [ some e ↦ err (db e) | none ↦ query t q ]
