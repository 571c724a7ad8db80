-- ===== src/Store/Retention.antt =====
-- crates/waku-store/src/sqlite.rs: what the retention statements delete, by time and by capacity.
use rs_waku.Prelude.{
  ℕ, zero, suc, ◌-◌, ◌^◌, ◌<◌, ◌≡◌, ◌≢◌, refl, sym, ◌∙◌, List, [], ◌∷◌, map, Bool, true, false, not,
  arith, if◌then◌else◌, All, length, take, drop, filter, Bool-cases, inl, inr,
}
use rs_waku.Prelude.Bytes.{Bytes}
use rs_waku.Prelude.Eq.{◌==◌, nat_eq, list_eq, eq_iff, contains}
use rs_waku.Prelude.Int.{ℤ, pos, negsuc, ltb_ℤ, of_u64}
use rs_waku.Prelude.Sorted.{sort_by, insert_by, All-insert_by, All-sort_by, filter-sort_by}
use rs_waku.Store.{Row, Table}
use rs_waku.Store.Query.{before}
use rs_waku.Store.Order.{HasUniqueHashes, table-IsDistinct, before-IsOrder}

-- `DELETE ... WHERE sort_time < ?`, and the number of rows deleted.
unfoldable pub delete_older_than : Table → ℤ → Table × ℕ
delete_older_than t cutoff =
    let kept = filter (λ (r : Row). not (ltb_ℤ r.sort_time cutoff)) t in
    (kept, length t - length kept)

-- `OFFSET`: a negative one is none.
abbrev pub offset : ℤ → ℕ
offset (pos n) = n
offset (negsuc n) = 0

abbrev pub hashes : List Row → List Bytes
hashes rows = map (λ (r : Row). r.message_hash) rows

-- The rows but those behind the `max` most recent ones, and the number of rows deleted.
unfoldable pub enforce_capacity : Table → ℕ → Table × ℕ
enforce_capacity t max =
    let doomed = hashes (drop (offset (of_u64 max)) (sort_by (before false) t)) in
    let kept = filter (λ (r : Row). not (contains doomed r.message_hash)) t in
    (kept, length t - length kept)

abbrev OtherHash : Row → Row → Type 0
OtherHash r s = r.message_hash ≢ s.message_hash

insert_by-HasUniqueHashes :
    (lt : Row → Row → Bool) (r : Row) (rows : List Row)
    → All (OtherHash r) rows
    → HasUniqueHashes rows
    → HasUniqueHashes (insert_by lt r rows)
unfolding insert_by
insert_by-HasUniqueHashes lt r [] h k = (tt, tt)
insert_by-HasUniqueHashes lt r (s ∷ rows) h k =
    place (lt s r) (All-insert_by lt (OtherHash s) r rows (λ e. h.0 (sym e)) k.0)
      (insert_by-HasUniqueHashes lt r rows h.1 k.1)
  where
    place :
        (b : Bool)
        → All (OtherHash s) (insert_by lt r rows)
        → HasUniqueHashes (insert_by lt r rows)
        → HasUniqueHashes (if b then s ∷ insert_by lt r rows else r ∷ s ∷ rows)
    place true a u = (a, u)
    place false a u = (h, k)

sort_by-HasUniqueHashes :
    (lt : Row → Row → Bool) (rows : List Row)
    → HasUniqueHashes rows
    → HasUniqueHashes (sort_by lt rows)
unfolding sort_by
sort_by-HasUniqueHashes lt [] h = tt
sort_by-HasUniqueHashes lt (r ∷ rows) h =
    insert_by-HasUniqueHashes lt r (sort_by lt rows) (All-sort_by lt (OtherHash r) rows h.0)
      (sort_by-HasUniqueHashes lt rows h.1)

not_among :
    (r : Row) (rows : List Row)
    → All (OtherHash r) rows
    → contains (hashes rows) r.message_hash ≡ false
not_among r [] h = refl
not_among r (s ∷ rows) h = elim (Bool-cases (s.message_hash == r.message_hash)) [
  | inl e ↦ absurd (h.0 (sym ((eq_iff s.message_hash r.message_hash).0 e)))
  | inr e ↦ rw e (not_among r rows h.1)
]

All-drop : (P : Row → Type 0) (n : ℕ) (rows : List Row) → All P rows → All P (drop n rows)
All-drop P zero rows h = h
All-drop P (suc n) [] h = tt
All-drop P (suc n) (r ∷ rows) h = All-drop P n rows h.1

-- Deleting rows by a list of hashes that holds all of theirs.
filter-none :
    (doomed : List Bytes) (rows : List Row)
    → All (λ (r : Row). contains doomed r.message_hash ≡ true) rows
    → filter (λ (r : Row). not (contains doomed r.message_hash)) rows ≡ []
filter-none doomed [] h = refl
filter-none doomed (r ∷ rows) h = rw (h.0) (filter-none doomed rows h.1)

All-contains_more :
    (doomed : List Bytes) (s : Row) (rows : List Row)
    → All (λ (r : Row). contains doomed r.message_hash ≡ true) rows
    → All (λ (r : Row). contains (s.message_hash ∷ doomed) r.message_hash ≡ true) rows
All-contains_more doomed s [] h = tt
All-contains_more doomed s (r ∷ rows) h = (ground (arith, h.0), All-contains_more doomed s rows h.1)

All-contains :
    (rows : List Row) → All (λ (r : Row). contains (hashes rows) r.message_hash ≡ true) rows
All-contains [] = tt
All-contains (r ∷ rows) =
    (rw (eq_self r.message_hash) refl, All-contains_more (hashes rows) r rows (All-contains rows))
  where
    eq_self : (h : Bytes) → (h == h) ≡ true
    eq_self h = (eq_iff h h).1 refl

filter-take :
    (n : ℕ) (rows : List Row)
    → HasUniqueHashes rows
    → filter (λ (r : Row). not (contains (hashes (drop n rows)) r.message_hash)) rows ≡ take n rows
filter-take zero rows u = filter-none (hashes rows) rows (All-contains rows)
filter-take (suc n) [] u = refl
filter-take (suc n) (r ∷ rows) u =
    rw (not_among r (drop n rows) (All-drop (OtherHash r) n rows u.0), filter-take n rows u.1) refl

-- Capacity retention keeps the most recent rows, as many as `max`, which is below 2^63: in the order from
-- the latest they are the first rows of the table in that order. No two rows have the same hash.
pub enforce_capacity_lem :
    (t : Table) (max : ℕ)
    → HasUniqueHashes t
    → max < 2 ^ 63
    → sort_by (before false) (enforce_capacity t max).0 ≡ take max (sort_by (before false) t)
unfolding enforce_capacity
enforce_capacity_lem t max u h = rw (plain_offset) (
    sym (filter-sort_by (before false) (before-IsOrder false) kept t (table-IsDistinct false t u))
    ∙ filter-take max (sort_by (before false) t) (sort_by-HasUniqueHashes (before false) t u))
  where
    plain_offset : offset (of_u64 max) ≡ max
    plain_offset = ground arith

    kept : Row → Bool
    kept r = not (contains (hashes (drop max (sort_by (before false) t))) r.message_hash)
