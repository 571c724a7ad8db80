-- ===== src/Store/Follow.antt =====
-- A client that follows the cursors of `MessageStore::query`.
use rs_waku.Prelude.{
  ℕ, zero, suc, ◌-◌, ◌<◌, ◌≤◌, ◌≡◌, ◌≢◌, refl, ap, sym, ◌∙◌, List, [], ◌∷◌, ◌++◌, map, Bool, true,
  false, ◌&&◌, Option, none, some, max, ltb, arith, All, Bool-cases, ltb→lt, inl, inr, length, take,
  drop, filter, get_last?, length-drop, take-append-drop,
}
use rs_waku.Prelude.Bytes.{Bytes}
use rs_waku.Prelude.Eq.{◌==◌, eq_refl, eq_iff, nat_eq, list_eq}
use rs_waku.Prelude.Outcome.{Result, ok, ◌>>=◌}
use rs_waku.Prelude.Sorted.{
  sort_by, filter-&&, filter-sort_by, filter_above, IsDistinct, IsDistinct-filter, sort_by-IsSorted,
  In, In-filter, In-sort_by,
}
use rs_waku.Store.{Row, Table, StoreError, StoredMessage, StoreQuery, QueryResult, find_row}
use rs_waku.Store.Query.{before, matches, cursor_key, past_cursor, selected, query}
use rs_waku.Store.Order.{HasUniqueHashes, table-IsDistinct, before-IsOrder}
use rs_waku.Store.Paging.{HasDigests, IsPageSize, view, next_of, query_lem}

abbrev pub from_cursor : StoreQuery → Option Bytes → StoreQuery
from_cursor q c = record q { cursor = c }

All-In : (P : Row → Type 0) (x : Row) (t : List Row) → All P t → In x t → P x
All-In P x [] h k = absurd k
All-In P x (r ∷ t) h (inl e) = rw e h.0
All-In P x (r ∷ t) h (inr k) = All-In P x t h.1 k

-- The hash of a row finds it.
find_row-In :
    (t : Table) (x : Row) → HasUniqueHashes t → In x t → find_row x.message_hash t ≡ some x
unfolding find_row
find_row-In [] x u k = absurd k
find_row-In (r ∷ t) x u (inl e) = rw e (ground (arith, eq_refl r.message_hash))
find_row-In (r ∷ t) x u (inr k) = elim (Bool-cases (r.message_hash == x.message_hash)) [
  | inl e ↦ absurd (
      All-In (λ (s : Row). r.message_hash ≢ s.message_hash) x t u.0 k
        ((eq_iff r.message_hash x.message_hash).0 e))
  | inr e ↦ rw e (find_row-In t x u.1 k)
]

-- The cursor of a row of the table keeps what comes after the row.
past_cursor-hash :
    (t : Table) (forward : Bool) (x r : Row)
    → HasUniqueHashes t
    → In x t
    → past_cursor forward (cursor_key t (some x.message_hash)) r ≡ before forward x r
unfolding past_cursor cursor_key before
past_cursor-hash t true x r u k = rw (find_row-In t x u k) refl
past_cursor-hash t false x r u k = rw (find_row-In t x u k) refl

In-middle : (front : List Row) (x : Row) (back : List Row) → In x (front ++ x ∷ back)
In-middle [] x back = inl refl
In-middle (y ∷ front) x back = inr (In-middle front x back)

filter_ext :
    (p r : Row → Bool) (rows : List Row) → ((x : Row) → p x ≡ r x) → filter p rows ≡ filter r rows
filter_ext p r [] h = refl
filter_ext p r (x ∷ rows) h = rw (h x, filter_ext p r rows h) refl

abbrev matching : Table → StoreQuery → List Row
matching t q = sort_by (before q.forward) (filter (matches q) t)

matching-IsDistinct :
    (t : Table) (q : StoreQuery)
    → HasUniqueHashes t
    → IsDistinct (before q.forward) (filter (matches q) t)
matching-IsDistinct t q u =
    IsDistinct-filter (before q.forward) (matches q) t (table-IsDistinct q.forward t u)

selected-none : (t : Table) (q : StoreQuery) → selected t (from_cursor q none) ≡ matching t q
unfolding selected past_cursor cursor_key matches
selected-none t q =
    ap (sort_by (before q.forward))
      (filter_ext (λ r. matches q r && true) (matches q) t (λ r. and_true (matches q r)))
  where
    and_true : (b : Bool) → (b && true) ≡ b
    and_true true = refl
    and_true false = refl

selected-some :
    (t : Table) (q : StoreQuery) (x : Row)
    → HasUniqueHashes t
    → In x t
    → selected t (from_cursor q (some x.message_hash)) ≡ filter (before q.forward x) (matching t q)
unfolding selected matches
selected-some t q x u k =
    ap (sort_by (before q.forward)) (
      filter_ext (λ r. matches q r && past_cursor q.forward (cursor_key t (some x.message_hash)) r)
        (λ r. matches q r && before q.forward x r) t
        (λ r. ap (λ b. matches q r && b) (past_cursor-hash t q.forward x r u k))
      ∙ filter-&& (matches q) (before q.forward x) t)
    ∙ sym (
        filter-sort_by (before q.forward) (before-IsOrder q.forward) (before q.forward x)
          (filter (matches q) t) (matching-IsDistinct t q u))

-- From the hash of a selected row the query selects the rows behind it, whichever the direction; no
-- two rows of the table have the same hash.
pub selected_after :
    (t : Table) (q : StoreQuery) (front : List Row) (x : Row) (back : List Row)
    → HasUniqueHashes t
    → selected t (from_cursor q none) ≡ front ++ x ∷ back
    → selected t (from_cursor q (some x.message_hash)) ≡ back
selected_after t q front x back u e =
    selected-some t q x u (
      In-filter (matches q) x t (
        In-sort_by (before q.forward) x (filter (matches q) t) (rw whole (In-middle front x back))))
    ∙ ap (filter (before q.forward x)) whole
    ∙ filter_above (before q.forward) (before-IsOrder q.forward) front x back (
        rw (sym whole) (
          sort_by-IsSorted (before q.forward) (before-IsOrder q.forward) (filter (matches q) t)
            (matching-IsDistinct t q u)))
  where
    whole : matching t q ≡ front ++ x ∷ back
    whole = sym (selected-none t q) ∙ e

-- A client that asks again from each cursor, at most `fuel` times, and joins the pages.
unfoldable pub follow : ℕ → Table → StoreQuery → Result StoreError (List StoredMessage)
unfolding query
follow zero t q = ok []
follow (suc fuel) t q = do
  page ← query t q
  rest ← elim page.next_cursor [ none ↦ ok [] | some c ↦ follow fuel t (from_cursor q (some c)) ]
  ok (page.messages ++ rest)

-- Where a page of `n + 1` rows is cut off.
module _ {A : Type 0} where
  page_end :
      (n : ℕ) (rows : List A)
      → suc n < length rows
      → (x : A) × (front : List A) × (get_last? (take (suc n) rows) ≡ some x)
        × (rows ≡ front ++ x ∷ drop (suc n) rows)
  page_end n [] h = absurd (omega arith)
  page_end zero (x ∷ rows) h = (x, [], refl, refl)
  page_end (suc n) (x ∷ []) h = absurd (omega arith)
  page_end (suc n) (x ∷ y ∷ rows) h =
      let r = page_end n (y ∷ rows) (omega arith) in (r.0, x ∷ r.1, r.2, ap (λ t. x ∷ t) r.3)

  append_assoc : (xs ys zs : List A) → (xs ++ ys) ++ zs ≡ xs ++ (ys ++ zs)
  append_assoc [] ys zs = refl
  append_assoc (x ∷ xs) ys zs = ap (λ t. x ∷ t) (append_assoc xs ys zs)

no_more : (n : ℕ) (rows : List Row) → length rows ≤ n → next_of n rows ≡ none
no_more n rows h = ground arith

module _ {A : Type 0} where
  take_all : (n : ℕ) (xs : List A) → length xs ≤ n → take n xs ≡ xs
  take_all zero [] h = refl
  take_all zero (x ∷ xs) h = absurd (omega arith)
  take_all (suc n) [] h = refl
  take_all (suc n) (x ∷ xs) h = ap (λ t. x ∷ t) (take_all n xs (omega arith))

  append_nil : (xs : List A) → xs ++ [] ≡ xs
  append_nil [] = refl
  append_nil (x ∷ xs) = ap (λ t. x ∷ t) (append_nil xs)

pub map-append :
    {A B : Type 0} (f : A → B) (xs ys : List A) → map f (xs ++ ys) ≡ map f xs ++ map f ys
map-append f [] ys = refl
map-append f (x ∷ xs) ys = ap (λ t. f x ∷ t) (map-append f xs ys)

module _ (t : Table) (q : StoreQuery) (c : Option Bytes) (rest : List Row) where
  answer : ℕ → QueryResult
  answer n = record {
    messages = map (view q.include_data) (take n rest);
    next_cursor = next_of n rest;
  }

  query-answer :
      HasDigests t
      → IsPageSize (max q.page_size 1)
      → selected t (from_cursor q c) ≡ rest
      → query t (from_cursor q c) ≡ ok (answer (max q.page_size 1))
  unfolding answer
  query-answer d h here =
      query_lem t (from_cursor q c) d h
      ∙ ap
          (λ rows. ok (record {
            messages = map (view q.include_data) (take (max q.page_size 1) rows);
            next_cursor = next_of (max q.page_size 1) rows;
          }))
          here

  -- The last page.
  follow-last :
      (fuel n : ℕ)
      → query t (from_cursor q c) ≡ ok (answer n)
      → length rest ≤ n
      → follow (suc fuel) t (from_cursor q c) ≡ ok (map (view q.include_data) rest)
  unfolding follow answer
  follow-last fuel n e h =
      rw (e, no_more n rest h, take_all n rest h, append_nil (map (view q.include_data) rest)) refl

  -- A page that is not the last one, and what follows it.
  follow-more :
      (fuel n : ℕ) (x : Row)
      → query t (from_cursor q c) ≡ ok (answer n)
      → next_of n rest ≡ some x.message_hash
      → follow fuel t (from_cursor q (some x.message_hash))
        ≡ ok (map (view q.include_data) (drop n rest))
      → follow (suc fuel) t (from_cursor q c) ≡ ok (map (view q.include_data) rest)
  unfolding follow answer
  follow-more fuel n x e k f =
      rw
        (
          e,
          k,
          f,
          ← map-append (view q.include_data) (take n rest) (drop n rest),
          take-append-drop n rest,
        )
        refl

follow-rest :
    (fuel n : ℕ) (t : Table) (q : StoreQuery) (c : Option Bytes) (front rest : List Row)
    → max q.page_size 1 ≡ suc n
    → HasUniqueHashes t
    → HasDigests t
    → IsPageSize (max q.page_size 1)
    → selected t (from_cursor q none) ≡ front ++ rest
    → selected t (from_cursor q c) ≡ rest
    → length rest < fuel
    → follow fuel t (from_cursor q c) ≡ ok (map (view q.include_data) rest)
follow-rest zero n t q c front rest size u d h all here less = absurd (omega arith)
follow-rest (suc fuel) n t q c front rest size u d h all here less =
    elim (Bool-cases (ltb (suc n) (length rest))) [
      | inl more ↦
          by_end (page_end n rest (ltb→lt (suc n) (length rest) more)) more (λ x front2 all2 here2.
            follow-rest fuel n t q (some x.message_hash) front2 (drop (suc n) rest) size u d h all2
              here2 (ground (arith, length-drop (suc n) rest, more)))
      | inr no_more ↦ follow-last t q c rest fuel (suc n) asked (ground (arith, no_more))
    ]
  where
    asked : query t (from_cursor q c) ≡ ok (answer t q c rest (suc n))
    asked = query-answer t q c rest d h here ∙ ap (λ m. ok (answer t q c rest m)) size

    by_end :
        (x : Row) × (before_x : List Row) × (get_last? (take (suc n) rest) ≡ some x)
          × (rest ≡ before_x ++ x ∷ drop (suc n) rest)
        → ltb (suc n) (length rest) ≡ true
        → ((y : Row) (front2 : List Row)
            → selected t (from_cursor q none) ≡ front2 ++ drop (suc n) rest
            → selected t (from_cursor q (some y.message_hash)) ≡ drop (suc n) rest
            → follow fuel t (from_cursor q (some y.message_hash))
              ≡ ok (map (view q.include_data) (drop (suc n) rest)))
        → follow (suc fuel) t (from_cursor q c) ≡ ok (map (view q.include_data) rest)
    by_end (x, before_x, last, whole) more ih =
        follow-more t q c rest fuel (suc n) x asked (rw (more, last) refl) (
          ih x ((front ++ before_x) ++ x ∷ [])
            (split ∙ sym (append_assoc (front ++ before_x) (x ∷ []) (drop (suc n) rest)))
            (selected_after t q (front ++ before_x) x (drop (suc n) rest) u split))
      where
        split : selected t (from_cursor q none) ≡ (front ++ before_x) ++ x ∷ drop (suc n) rest
        split =
            all
            ∙ ap (λ z. front ++ z) whole
            ∙ sym (append_assoc front before_x (x ∷ drop (suc n) rest))

-- Following the cursors from a query without one collects every message that matches it, each once
-- and in order, with as many queries as there are messages, and one more. No two rows have the same
-- hash, every hash is a digest, and the page size is below 2^63 - 1.
pub follow_lem :
    (fuel : ℕ) (t : Table) (q : StoreQuery)
    → HasUniqueHashes t
    → HasDigests t
    → IsPageSize (max q.page_size 1)
    → length (selected t (from_cursor q none)) < fuel
    → follow fuel t (from_cursor q none)
      ≡ ok (map (view q.include_data) (sort_by (before q.forward) (filter (matches q) t)))
follow_lem fuel t q u d h less =
    follow-rest fuel (max q.page_size 1 - 1) t q none [] (selected t (from_cursor q none))
      (omega arith) u d h refl refl less
    ∙ ap (λ rows. ok (map (view q.include_data) rows)) (selected-none t q)
