-- ===== src/Store/Presence.antt =====
-- `MessageStore::exists` of sqlite.rs. The statement has no order; here it is the table's.
use rs_waku.Prelude.{
  List, [], ◌∷◌, map, Bool, true, false, none, some, if◌then◌else◌, filter, is_empty,
}
use rs_waku.Prelude.Bytes.{Bytes}
use rs_waku.Prelude.Eq.{nat_eq, list_eq, contains}
use rs_waku.Prelude.Outcome.{Result, ok, ◌>>=◌}
use rs_waku.Store.{Row, Table, StoreError, find_row, row_to_hash}

-- `rows.iter().map(row_to_hash).collect()`
unfoldable pub hashes_of_rows : List Row → Result StoreError (List Bytes)
hashes_of_rows [] = ok []
hashes_of_rows (r ∷ rest) = do
  hash ← row_to_hash r
  hashes ← hashes_of_rows rest
  ok (hash ∷ hashes)

unfoldable pub exists : Table → List Bytes → Result StoreError (List Bytes)
unfolding hashes_of_rows
exists t hashes =
    if is_empty hashes
    then ok []
    else hashes_of_rows (filter (λ (r : Row). contains hashes r.message_hash) t)

-- Whether the table has a row of a hash.
abbrev pub is_stored : Table → Bytes → Bool
is_stored t h = elim (find_row h t) [ none ↦ false | some r ↦ true ]

abbrev hashes_in : List Row → List Bytes
hashes_in rows = map (λ (r : Row). r.message_hash) rows
