-- ===== src/Store/Paging.antt =====
-- The pages of `MessageStore::query`: what one page is, where the next one starts, and what a client
-- that follows the cursors collects.
use mathlib.Core.Option
use rs_waku.Prelude.{
  ℕ, zero, suc, ◌+◌, ◌^◌, ◌<◌, ◌≤◌, ◌≡◌, refl, ap, ◌∙◌, List, [], ◌∷◌, map, Bool, ◌&&◌, Option,
  none, some, max, min, ltb, arith, All, All-append_left, length, take, drop, filter, get_last?,
  if◌then◌else◌, length-take, take-append-drop,
}
use rs_waku.Prelude.Bytes.{Bytes}
use rs_waku.Prelude.Int.{pos, ltb_ℤ, of_u64, to_u64}
use rs_waku.Prelude.Outcome.{ok}
use rs_waku.Prelude.Sorted.{All-filter, All-sort_by}
use rs_waku.Store.{Row, Table, StoredMessage, StoreQuery, QueryResult, row_to_hash, row_to_message}
use rs_waku.Store.Query.{
  before, matches, cursor_key, past_cursor, selected, page_limit, plus_one, stored, stored_all,
  page_of, query,
}

-- The hash of every row is a SHA-256 digest.
abbrev pub HasDigests : List Row → Type 0
HasDigests t = All (λ (r : Row). length r.message_hash ≡ 32) t

-- The page size is below the bound of `i64`.
abbrev pub IsPageSize : ℕ → Type 0
IsPageSize n = n + 1 < 2 ^ 63

-- What a row is answered as.
abbrev pub view : Bool → Row → StoredMessage
view include_data r = record {
  hash = r.message_hash;
  pubsub_topic = r.pubsub_topic;
  message = if include_data then some (row_to_message r) else none;
  receiver_time_ns = r.receiver_time;
}

stored-view : (b : Bool) (r : Row) → length r.message_hash ≡ 32 → stored b r ≡ ok (view b r)
unfolding stored row_to_hash
stored-view b r h = rw h refl

stored_all-view :
    (b : Bool) (rows : List Row) → HasDigests rows → stored_all b rows ≡ ok (map (view b) rows)
unfolding stored_all
stored_all-view b [] h = refl
stored_all-view b (r ∷ rest) h = rw (stored-view b r h.0, stored_all-view b rest h.1) refl

take-take : {A : Type 0} (n m : ℕ) (xs : List A) → n ≤ m → take n (take m xs) ≡ take n xs
take-take zero m xs h = refl
take-take (suc n) zero xs h = absurd (omega arith)
take-take (suc n) (suc m) [] h = refl
take-take (suc n) (suc m) (x ∷ xs) h = ap (λ t. x ∷ t) (take-take n m xs (omega arith))

take_nil : {A : Type 0} (n : ℕ) → take {A = A} n [] ≡ []
take_nil zero = refl
take_nil (suc n) = refl

take-min : {A : Type 0} (n : ℕ) (xs : List A) → take (min (length xs) n) xs ≡ take n xs
take-min zero xs = zero_take (min (length xs) 0) (omega arith)
  where
    zero_take : (m : ℕ) → m ≡ 0 → take m xs ≡ []
    zero_take m e = rw e refl
take-min (suc n) [] = take_nil (min 0 (suc n))
take-min (suc n) (x ∷ xs) = ground (arith, take-min n xs)

-- The hash of the last row of a page of `n` rows, if more rows remain.
abbrev pub next_of : ℕ → List Row → Option Bytes
next_of n rows =
    if ltb n (length rows)
    then Option.map (λ (r : Row). r.message_hash) (get_last? (take n rows))
    else none

of_u64-small : (n : ℕ) → n < 2 ^ 63 → of_u64 n ≡ pos n
of_u64-small n h = ground arith

to_u64-pos : (n : ℕ) → n < 2 ^ 63 → to_u64 (pos n) ≡ n
to_u64-pos n h = omega arith

plus_one-pos : (n : ℕ) → n + 1 < 2 ^ 63 → plus_one (pos n) ≡ pos (n + 1)
plus_one-pos n h = ground (arith, to_u64-pos n)

sent : (b : Bool) (n : ℕ) (rows : List Row) → QueryResult
sent b n rows = record { messages = map (view b) (take n rows); next_cursor = next_of n rows }

pub HasDigests-take : (n : ℕ) (rows : List Row) → HasDigests rows → HasDigests (take n rows)
HasDigests-take n rows d =
    All-append_left (λ (r : Row). length r.message_hash ≡ 32) (take n rows) (drop n rows)
      (rw (take-append-drop n rows) d)

last_hash :
    (b : Bool) (rows : List Row)
    → Option.map (λ (m : StoredMessage). m.hash) (get_last? (map (view b) rows))
      ≡ Option.map (λ (r : Row). r.message_hash) (get_last? rows)
last_hash b [] = refl
last_hash b (r ∷ []) = refl
last_hash b (r ∷ s ∷ rest) = last_hash b (s ∷ rest)

page_of-view :
    (b : Bool) (n : ℕ) (rows : List Row)
    → HasDigests rows
    → n + 1 < 2 ^ 63
    → page_of b (pos n) (take (n + 1) rows) ≡ ok (sent b n rows)
unfolding page_of sent
page_of-view b n rows d h =
    rw
      (
        first_rows,
        stored_all-view b (take n rows) (HasDigests-take n rows d),
        last_hash b (take n rows),
        one_more,
      )
      refl
  where
    first_rows :
        take (min (length (take (n + 1) rows)) (to_u64 (pos n))) (take (n + 1) rows) ≡ take n rows
    first_rows =
        ap (λ m. take (min (length (take (n + 1) rows)) m) (take (n + 1) rows))
          (to_u64-pos n (omega arith))
        ∙ take-min n (take (n + 1) rows)
        ∙ take-take n (n + 1) rows (omega arith)

    one_more : ltb_ℤ (pos n) (pos (length (take (n + 1) rows))) ≡ ltb n (length rows)
    one_more = ground (arith, length-take (n + 1) rows)

pub selected-HasDigests : (t : Table) (q : StoreQuery) → HasDigests t → HasDigests (selected t q)
unfolding selected
selected-HasDigests t q d = All-sort_by (before q.forward) P (filter p t) (All-filter P p t d)
  where
    P : Row → Type 0
    P r = length r.message_hash ≡ 32

    p : Row → Bool
    p r = matches q r && past_cursor q.forward (cursor_key t q.cursor) r

-- A page is the first rows that the query selects, as many as its size, at least one, and the cursor
-- is the last one's hash if more remain; every hash is a digest and the size is below 2^63 - 1.
pub query_lem :
    (t : Table) (q : StoreQuery)
    → HasDigests t
    → IsPageSize (max q.page_size 1)
    → query t q
      ≡ ok (record {
        messages = map (view q.include_data) (take (max q.page_size 1) (selected t q));
        next_cursor = next_of (max q.page_size 1) (selected t q);
      })
unfolding query sent
query_lem t q d h =
    let n = max q.page_size 1 in
    rw (query, page_limit, of_u64-small n (omega arith), plus_one-pos n h)
      (page_of-view q.include_data n (selected t q) (selected-HasDigests t q d) h)
