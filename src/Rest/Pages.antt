-- ===== src/Rest/Pages.antt =====
-- A client of the REST API that follows the cursors of `store_query`.
use mathlib.Core.Option
use rs_waku.Prelude.{
  ℕ, zero, suc, ◌≡◌, ◌<◌, refl, ap, sym, ◌∙◌, List, [], ◌∷◌, ◌++◌, map, Option, none, some, max,
  filter, length, take, get_last?, ltb, Bool-cases, inl, inr, Option-cases,
}
use rs_waku.Prelude.Bytes.{Bytes}
use rs_waku.Prelude.Outcome.{map_err, Result, ok, err, ◌>>=◌, >>=-eq-ok, ok-injective}
use rs_waku.Prelude.Sorted.{sort_by}
use rs_waku.Store.{Row, Table, StoreError, StoredMessage, StoreQuery, QueryResult}
use rs_waku.Store.Query.{before, matches, query, selected}
use rs_waku.Store.Order.{HasUniqueHashes}
use rs_waku.Store.Paging.{
  HasDigests, IsPageSize, view, next_of, query_lem, selected-HasDigests, HasDigests-take,
}
use rs_waku.Store.Follow.{from_cursor, follow, follow_lem, map-append}
use rs_waku.Rest.{
  Calls, StoreMessage, StoreResponse, StoreParams, store_page, Response, reply, store_message,
  store_response,
}
use rs_waku.Rest.Conversion.{IsRoundTrip, parse_hash-hex}
use rs_waku.Rest.Handlers.{AppState, store_query, query_of, cursor_of, page_response}

-- The node with a store, whose table is `t`.
abbrev pub with_store : {N : Type 0} → (StoreError → Bytes) → Table → AppState N → AppState N
with_store text_of t s = record s { store = some (λ q. map_err text_of (query t q)) }

-- The page that a response has, or the response.
abbrev pub page_in : Response → Result Response StoreResponse
page_in (reply status (store_page page)) = ok page
page_in r = err r

abbrev pub at_cursor : StoreParams → Option Bytes → StoreParams
at_cursor params cursor = record params { cursor = cursor }

-- Ask, and ask again with each cursor that comes back, `fuel` times at most; the pages joined.
unfoldable pub read_pages :
    {N : Type 0} → ℕ → Calls → AppState N → StoreParams → Result Response (List StoreMessage)
unfolding store_query
read_pages zero c s params = ok []
read_pages (suc fuel) c s params = do
  page ← page_in (store_query c s params)
  rest ← elim page.pagination_cursor [
    | none ↦ ok []
    | some cursor ↦ read_pages fuel c s (at_cursor params (some cursor))
  ]
  ok (page.messages ++ rest)

-- A hash, if there is one, has 32 bytes.
abbrev IsDigest : Option Bytes → Type 0
IsDigest none = Unit
IsDigest (some h) = length h ≡ 32

last-IsDigest :
    (rows : List Row)
    → HasDigests rows
    → IsDigest (Option.map (λ (r : Row). r.message_hash) (get_last? rows))
last-IsDigest [] d = tt
last-IsDigest (r ∷ []) d = d.0
last-IsDigest (r ∷ s ∷ rest) d = last-IsDigest (s ∷ rest) d.1

next_of-IsDigest : (n : ℕ) (rows : List Row) → HasDigests rows → IsDigest (next_of n rows)
next_of-IsDigest n rows d = elim (Bool-cases (ltb n (length rows))) [
  | inl e ↦ rw e (last-IsDigest (take n rows) (HasDigests-take n rows d))
  | inr e ↦ rw e tt
]

query-IsDigest :
    (t : Table) (q : StoreQuery) (page : QueryResult)
    → HasDigests t
    → IsPageSize (max q.page_size 1)
    → query t q ≡ ok page
    → IsDigest page.next_cursor
query-IsDigest t q page d h e =
    rw (ap cursor_in (sym e ∙ query_lem t q d h))
      (next_of-IsDigest (max q.page_size 1) (selected t q) (selected-HasDigests t q d))
  where
    cursor_in : Result StoreError QueryResult → Option Bytes
    cursor_in (ok p) = p.next_cursor
    cursor_in (err e) = none

module _ {N : Type 0} (c : Calls) (law : IsRoundTrip c) (text_of : StoreError → Bytes) (t : Table)
    (s : AppState N) where
  cursor_of-hex : (d : Option Bytes) → IsDigest d → cursor_of c (Option.map c.hex_encode d) ≡ ok d
  unfolding cursor_of
  cursor_of-hex none h = refl
  cursor_of-hex (some x) h = rw (cursor_of, parse_hash-hex c law x h) refl

  asked :
      (params : StoreParams) (d : Option Bytes) (page : QueryResult)
      → IsDigest d
      → query t (query_of c params d) ≡ ok page
      → store_query c (with_store text_of t s) (at_cursor params (Option.map c.hex_encode d))
        ≡ reply 200 (store_page (store_response c page))
  unfolding store_query query_of page_response
  asked params d page h e = rw (store_query, cursor_of-hex d h, e, page_response) refl

  abbrev client : ℕ → StoreParams → Option Bytes → Result Response (List StoreMessage)
  client fuel params d =
      read_pages fuel c (with_store text_of t s) (at_cursor params (Option.map c.hex_encode d))

  client-last :
      (fuel : ℕ) (params : StoreParams) (d : Option Bytes) (page : QueryResult)
      → IsDigest d
      → query t (query_of c params d) ≡ ok page
      → page.next_cursor ≡ none
      → client (suc fuel) params d ≡ ok (map (store_message c) page.messages ++ [])
  unfolding read_pages store_response
  client-last fuel params d page h e last = rw (asked params d page h e, last) refl

  client-more :
      (fuel : ℕ) (params : StoreParams) (d : Option Bytes) (page : QueryResult) (x : Bytes)
      (rest : List StoreMessage)
      → IsDigest d
      → query t (query_of c params d) ≡ ok page
      → page.next_cursor ≡ some x
      → client fuel params (some x) ≡ ok rest
      → client (suc fuel) params d ≡ ok (map (store_message c) page.messages ++ rest)
  unfolding read_pages store_response
  client-more fuel params d page x rest h e next k = rw (asked params d page h e, next, k) refl

  -- What `follow` does after its first page.
  abbrev follow_on : ℕ → StoreQuery → Option Bytes → Result StoreError (List StoredMessage)
  follow_on fuel q none = ok []
  follow_on fuel q (some x) = follow fuel t (from_cursor q (some x))

  follow-suc :
      (fuel : ℕ) (q : StoreQuery) (found : List StoredMessage)
      → follow (suc fuel) t q ≡ ok found
      → (page : QueryResult) × (rest : List StoredMessage) × (query t q ≡ ok page)
        × (follow_on fuel q page.next_cursor ≡ ok rest)
        × (found ≡ page.messages ++ rest)
  unfolding follow
  follow-suc fuel q found e =
      let (page, asks, k) = >>=-eq-ok (query t q) _ e in
      elim (Option-cases page.next_cursor) [
        | inl last ↦ (page, [], asks, rw last refl, sym (ok-injective (rw last at k)))
        | inr (x, next) ↦
            let (rest, more, l) =
              >>=-eq-ok (follow fuel t (from_cursor q (some x))) _ (rw next at k) in
            (page, rest, asks, rw next more, sym (ok-injective l))
      ]

  follow-none : (q : StoreQuery) → follow 0 t q ≡ ok []
  unfolding follow
  follow-none q = refl

  client-none : (params : StoreParams) (d : Option Bytes) → client 0 params d ≡ ok []
  unfolding read_pages
  client-none params d = refl

  -- Each page of the client is a page of the store.
  client-follow :
      (fuel : ℕ) (params : StoreParams) (d : Option Bytes) (found : List StoredMessage)
      → HasDigests t
      → IsPageSize (max (query_of c params d).page_size 1)
      → IsDigest d
      → follow fuel t (query_of c params d) ≡ ok found
      → client fuel params d ≡ ok (map (store_message c) found)
  unfolding query_of
  client-follow zero params d found hd size h e =
      client-none params d
      ∙ ap (λ ms. ok (map (store_message c) ms))
          (ok-injective (sym (follow-none (query_of c params d)) ∙ e))
  client-follow (suc fuel) params d found hd size h e =
      let (page, rest, asks, goes_on, whole) = follow-suc fuel (query_of c params d) found e in
      rw (whole, map-append (store_message c) page.messages rest)
        (elim (Option-cases page.next_cursor) [
          | inl last ↦
              client-last fuel params d page h asks last
              ∙ ap (λ ms. ok (map (store_message c) page.messages ++ map (store_message c) ms))
                  (ok-injective (rw last at goes_on))
          | inr (x, next) ↦
              client-more fuel params d page x (map (store_message c) rest) h asks next (
                client-follow fuel params (some x) rest hd size
                  (rw next at (query-IsDigest t (query_of c params d) page hd size asks))
                  (rw next at goes_on))
        ])

  -- A client that asks without a cursor, and then with each cursor that comes back, at most `fuel` times,
  -- reads every message of the table that matches its parameters, each once and in order. No two rows have
  -- the same hash, every hash is a digest, the page size is below 2^63 - 1, there are fewer rows than
  -- `fuel` to read, and the decoder of a cursor takes back what its encoder wrote.
  pub read_pages_lem :
      (fuel : ℕ) (params : StoreParams)
      → HasUniqueHashes t
      → HasDigests t
      → IsPageSize (max (query_of c params none).page_size 1)
      → length (selected t (query_of c params none)) < fuel
      → read_pages fuel c (with_store text_of t s) (at_cursor params none)
        ≡ ok (
            map (store_message c) (
              map (view (query_of c params none).include_data) (
                sort_by
                  (before (query_of c params none).forward)
                  (filter (matches (query_of c params none)) t))))
  unfolding query_of
  read_pages_lem fuel params u hd size less =
      client-follow fuel params none _ hd size tt
        (follow_lem fuel t (query_of c params none) u hd size less)
