-- ===== src/Store/Lookup.antt =====
-- A store query for one hash, of crates/waku-store/src/store_query.rs and sqlite.rs.
use rs_waku.Prelude.{
  ◌≡◌, ◌≢◌, refl, sym, ap, ◌∙◌, List, [], ◌∷◌, map, Bool, true, ◌&&◌, Option, none, some, filter,
  length, All, arith, Bool-cases, inl, inr, take,
}
use rs_waku.Prelude.Bytes.{Bytes, codes}
use rs_waku.Prelude.Eq.{◌==◌, list_eq, nat_eq, eq_iff}
use rs_waku.Prelude.Sorted.{sort_by}
use rs_waku.Store.{Row, Table, StoreError, find_row}
use rs_waku.Store.Query.{query, selected, matches, before, cursor_key, past_cursor}
use rs_waku.Store.Order.{HasUniqueHashes}
use rs_waku.Store.Paging.{HasDigests, view, next_of}
use rs_waku.Store.Wire.{
  StoreQueryRequest, StoreQueryResponse, hashes_of, request_to_query, key_value, serve, serve-query,
}

-- The request for the message of a hash.
abbrev pub hash_request : Bytes → Bytes → StoreQueryRequest
hash_request id h = record {
  request_id = id;
  include_data = true;
  pubsub_topic = none;
  content_topics = [];
  time_start = none;
  time_end = none;
  message_hashes = h ∷ [];
  pagination_cursor = none;
  pagination_forward = true;
  pagination_limit = none;
}

abbrev pub list_of : Option Row → List Row
list_of none = []
list_of (some r) = r ∷ []

none_of_hash :
    (p : Row → Bool) (h k : Bytes) (t : Table)
    → ((r : Row) → p r ≡ (r.message_hash == h))
    → k ≡ h
    → All (λ (s : Row). k ≢ s.message_hash) t
    → filter p t ≡ []
none_of_hash p h k [] same q a = refl
none_of_hash p h k (s ∷ t) same q a = elim (Bool-cases (p s)) [
  | inl y ↦ absurd (a.0 (q ∙ sym ((eq_iff s.message_hash h).0 (sym (same s) ∙ y))))
  | inr n ↦ rw n (none_of_hash p h k t same q a.1)
]

-- The rows of a hash are the one that it finds.
filter-hash :
    (p : Row → Bool) (h : Bytes) (t : Table)
    → ((r : Row) → p r ≡ (r.message_hash == h))
    → HasUniqueHashes t
    → filter p t ≡ list_of (find_row h t)
unfolding find_row
filter-hash p h [] same u = refl
filter-hash p h (r ∷ t) same u = elim (Bool-cases (r.message_hash == h)) [
  | inl y ↦
      rw (same r, y, none_of_hash p h r.message_hash t same ((eq_iff r.message_hash h).0 y) u.0)
        refl
  | inr n ↦ rw (same r, n, filter-hash p h t same u.1) refl
]

hashes_of-one : (h : Bytes) → length h ≡ 32 → hashes_of (h ∷ []) ≡ h ∷ []
unfolding hashes_of
hashes_of-one h d = rw d refl

-- Its query matches the rows of the hash.
matches-hash :
    (id h : Bytes) (r : Row)
    → length h ≡ 32
    → (matches (request_to_query (hash_request id h)) r && true) ≡ (r.message_hash == h)
unfolding matches request_to_query
matches-hash id h r d =
    rw (request_to_query, hashes_of-one h d)
      (ground (arith, eq_iff h r.message_hash, eq_iff r.message_hash h))

selected-hash :
    (id h : Bytes) (t : Table)
    → length h ≡ 32
    → HasUniqueHashes t
    → selected t (request_to_query (hash_request id h)) ≡ list_of (find_row h t)
unfolding selected sort_by cursor_key request_to_query past_cursor
selected-hash id h t d u =
    ap (sort_by (before true)) (
      filter-hash (λ r. matches (request_to_query (hash_request id h)) r && true) h t
        (λ r. matches-hash id h r d) u)
    ∙ sort_one (find_row h t)
  where
    sort_one : (o : Option Row) → sort_by (before true) (list_of o) ≡ list_of o
    sort_one none = refl
    sort_one (some r) = refl

-- A peer that asks a store for one hash gets status 200 and the row of that hash, with its message, if the
-- store has one, and else nothing; there is no further page. No two rows have the same hash, every hash
-- of the table is a digest, and so is the one that is asked for.
pub serve-hash_request :
    (describe : StoreError → Bytes) (t : Table) (id h : Bytes)
    → length h ≡ 32
    → HasUniqueHashes t
    → HasDigests t
    → serve describe (query t) (hash_request id h) ≡ record {
      request_id = id;
      status_code = some 200;
      status_desc = some (codes "OK");
      messages = map (λ r. key_value (view true r)) (list_of (find_row h t));
      pagination_cursor = none;
    }
serve-hash_request describe t id h d u ds =
    serve-query describe t (hash_request id h) ds (omega arith)
    ∙ ap answer (selected-hash id h t d u)
    ∙ one_page (find_row h t)
  where
    answer : List Row → StoreQueryResponse
    answer rows = record {
      request_id = id;
      status_code = some 200;
      status_desc = some (codes "OK");
      messages = map (λ r. key_value (view true r)) (take 20 rows);
      pagination_cursor = next_of 20 rows;
    }

    one_page :
        (o : Option Row)
        → answer (list_of o) ≡ record {
          request_id = id;
          status_code = some 200;
          status_desc = some (codes "OK");
          messages = map (λ r. key_value (view true r)) (list_of o);
          pagination_cursor = none;
        }
    one_page none = refl
    one_page (some r) = refl
