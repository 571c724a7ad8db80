-- ===== src/Store/Rows.antt =====
-- `put` and `get`.
use mathlib.Core.Option
use rs_waku.Prelude.{
  ℕ, ◌%◌, ◌^◌, ◌<◌, ◌≡◌, ◌≢◌, refl, ap, sym, ◌∙◌, [], ◌∷◌, ◌++◌, Bool, true, false, Option, none,
  some, arith, All, All-append, Option-cases, Bool-cases, inl, inr, if◌then◌else◌, not, eqb,
}
use rs_waku.Prelude.Bytes.{Bytes}
use rs_waku.Prelude.Eq.{◌==◌, nat_eq, list_eq, eq_iff, eq_refl}
use rs_waku.Prelude.Int.{ℤ}
use rs_waku.Message.{WakuMessage}
use rs_waku.Hash.{deterministic_hash}
use rs_waku.Store.{Row, Table, find_row, row_of, row_to_message, put, get, bool_to_int}
use rs_waku.Store.Order.{HasUniqueHashes}

abbrev pub IsU32 : Option ℕ → Type 0
IsU32 none = Unit
IsU32 (some v) = v < 2 ^ 32

-- The columns give back the message that they were bound from.
row_to_message-row_of :
    (hash topic : Bytes) (msg : WakuMessage) (rx : ℤ)
    → IsU32 msg.version
    → row_to_message (row_of hash topic msg rx) ≡ msg
unfolding row_to_message row_of
row_to_message-row_of hash topic msg rx h = λ i. record msg {
  version = version_back msg.version h i;
  ephemeral = flag_back msg.ephemeral i;
}
  where
    version_back : (v : Option ℕ) → IsU32 v → Option.map (λ n. n % 2 ^ 32) v ≡ v
    version_back none k = refl
    version_back (some n) k = ap some (omega arith)

    flag_back : (b : Option Bool) → Option.map (λ n. not (eqb n 0)) (Option.map bool_to_int b) ≡ b
    flag_back none = refl
    flag_back (some true) = refl
    flag_back (some false) = refl

find_row-append :
    (h : Bytes) (t : Table) (r : Row)
    → find_row h (t ++ r ∷ []) ≡ elim (find_row h t) [
      | some s ↦ some s
      | none ↦ if r.message_hash == h then some r else none
    ]
unfolding find_row
find_row-append h [] r = refl
find_row-append h (s ∷ t) r = ground (arith, find_row-append h t r)

-- A row goes behind the others unless its hash is there.
abbrev insert_row : Bytes → Row → Table → Table
insert_row h r t = elim (find_row h t) [ some s ↦ t | none ↦ t ++ r ∷ [] ]

pub same_hash : (h j : Bytes) (t : Table) → (h == j) ≡ true → find_row j t ≡ find_row h t
same_hash h j t e = ap (λ k. find_row k t) (sym ((eq_iff h j).0 e))

pub find_row-insert_row :
    (h j : Bytes) (r : Row) (t : Table)
    → r.message_hash ≡ h
    → find_row j (insert_row h r t)
      ≡ (if h == j then some (Option.get_or (find_row h t) r) else find_row j t)
find_row-insert_row h j r t e = elim (Option-cases (find_row h t)) [
  | inl n ↦ elim (Bool-cases (h == j)) [
    | inl k ↦ ground (arith, n, e, k, same_hash h j t k, find_row-append j t r)
    | inr k ↦ ground (arith, n, e, k, find_row-append j t r, Option-cases (find_row j t))
  ]
  | inr (s, q) ↦ elim (Bool-cases (h == j)) [
    | inl k ↦ ground (arith, q, k, same_hash h j t k)
    | inr k ↦ ground (arith, q, k)
  ]
]

pub hash_of_row :
    (hash topic : Bytes) (msg : WakuMessage) (rx : ℤ)
    → (row_of hash topic msg rx).message_hash ≡ hash
unfolding row_of
hash_of_row hash topic msg rx = refl

-- The first of the same hash, or else the new one, once mapped.
map-if :
    (f : Row → WakuMessage) (same : Bool) (old here : Option Row) (r : Row)
    → ((same ≡ true) → here ≡ old)
    → Option.map f (if same then some (Option.get_or old r) else here)
      ≡ (if same then some (Option.get_or (Option.map f here) (f r)) else Option.map f here)
map-if f true none here r h = ap (λ o. some (Option.get_or (Option.map f o) (f r))) (sym (h refl))
map-if f true (some a) here r h =
    ap (λ o. some (Option.get_or (Option.map f o) (f r))) (sym (h refl))
map-if f false old here r h = refl

-- After a message is put, its hash finds it, unless an older message of that hash is there, which
-- stays; every other hash finds what it found before. The message's version fits 32 bits.
pub get-put :
    (sha256 : Bytes → Bytes) (t : Table) (topic : Bytes) (msg : WakuMessage) (rx : ℤ) (j : Bytes)
    → IsU32 msg.version
    → get (put sha256 t topic msg rx) j ≡ (
        if deterministic_hash sha256 topic msg == j
        then some (Option.get_or (get t j) msg)
        else get t j)
unfolding get put
get-put sha256 t topic msg rx j h =
    let hash = deterministic_hash sha256 topic msg in
    let r = row_of hash topic msg rx in
    ap (Option.map row_to_message) (find_row-insert_row hash j r t (hash_of_row hash topic msg rx))
    ∙ map-if row_to_message (hash == j) (find_row hash t) (find_row j t) r (same_hash hash j t)
    ∙ ap (λ m. if hash == j then some (Option.get_or (get t j) m) else get t j)
        (row_to_message-row_of hash topic msg rx h)

-- A message that was put is there, so that to put it again, at any time, changes nothing.
pub put_twice :
    (sha256 : Bytes → Bytes) (t : Table) (topic : Bytes) (msg : WakuMessage) (rx rx2 : ℤ)
    → put sha256 (put sha256 t topic msg rx) topic msg rx2 ≡ put sha256 t topic msg rx
unfolding put
put_twice sha256 t topic msg rx rx2 =
    let hash = deterministic_hash sha256 topic msg in
    let r = row_of hash topic msg rx in
    rw (
      put,
      find_row-insert_row hash hash r t (hash_of_row hash topic msg rx)
          ∙ ap (λ c. if c then some (Option.get_or (find_row hash t) r) else find_row hash t)
              (eq_refl hash),
    )

-- A hash that finds nothing differs from those of the rows.
All-ne-find_row :
    (h : Bytes) (t : Table) → find_row h t ≡ none → All (λ (s : Row). s.message_hash ≢ h) t
unfolding find_row
All-ne-find_row h [] e = tt
All-ne-find_row h (s ∷ t) e = elim (Bool-cases (s.message_hash == h)) [
  | inl k ↦ absurd (ground (arith, k, e))
  | inr k ↦ (
    λ q. absurd (ground (arith, k, (eq_iff s.message_hash h).1 q)),
    All-ne-find_row h t (ground (arith, k, e)),
  )
]

HasUniqueHashes-append :
    (t : Table) (r : Row)
    → All (λ (s : Row). s.message_hash ≢ r.message_hash) t
    → HasUniqueHashes t
    → HasUniqueHashes (t ++ r ∷ [])
HasUniqueHashes-append [] r a h = (tt, tt)
HasUniqueHashes-append (s ∷ t) r a h = (
  All-append (λ (x : Row). s.message_hash ≢ x.message_hash) t (r ∷ []) h.0 (a.0, tt),
  HasUniqueHashes-append t r a.1 h.1,
)

-- Putting a message keeps the hashes of the rows distinct.
pub put-HasUniqueHashes :
    (sha256 : Bytes → Bytes) (t : Table) (topic : Bytes) (msg : WakuMessage) (rx : ℤ)
    → HasUniqueHashes t
    → HasUniqueHashes (put sha256 t topic msg rx)
unfolding put row_of
put-HasUniqueHashes sha256 t topic msg rx h =
    let hash = deterministic_hash sha256 topic msg in
    let r = row_of hash topic msg rx in
    elim (Option-cases (find_row hash t)) [
      | inl n ↦ rw (put, n) (HasUniqueHashes-append t r (All-ne-find_row hash t n) h)
      | inr (s, e) ↦ rw (put, e) h
    ]
