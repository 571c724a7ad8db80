-- ===== src/Store/Order.antt =====
-- The order of the rows is strict, and rows of different hashes are comparable in it.
use rs_waku.Prelude.{
  ◌≡◌, ◌≢◌, ◌⊎◌, inl, inr, refl, [], ◌∷◌, Bool, true, false, arith, All, ℕ_discrete,
}
use rs_waku.Prelude.Bytes.{Bytes}
use rs_waku.Prelude.Int.{ℤ}
use rs_waku.Prelude.Sorted.{IsOrder, Comparable, IsDistinct}
use rs_waku.Store.{Row, Table}
use rs_waku.Store.Query.{lt_bytes, lt_key, key, before}

lt_bytes_trans : (x y z : Bytes) → lt_bytes x y ≡ true → lt_bytes y z ≡ true → lt_bytes x z ≡ true
lt_bytes_trans [] [] z h k = cc
lt_bytes_trans [] (b ∷ y) [] h k = cc
lt_bytes_trans [] (b ∷ y) (c ∷ z) h k = refl
lt_bytes_trans (a ∷ x) [] z h k = cc
lt_bytes_trans (a ∷ x) (b ∷ y) [] h k = cc
lt_bytes_trans (a ∷ x) (b ∷ y) (c ∷ z) h k = ground (arith, lt_bytes_trans x y z)

lt_bytes_irrefl : (x : Bytes) → lt_bytes x x ≡ false
lt_bytes_irrefl [] = refl
lt_bytes_irrefl (a ∷ x) = ground (arith, lt_bytes_irrefl x)

lt_bytes_total : (x y : Bytes) → x ≢ y → (lt_bytes x y ≡ true) ⊎ (lt_bytes y x ≡ true)
lt_bytes_total [] [] h = absurd (h refl)
lt_bytes_total [] (b ∷ y) h = inl refl
lt_bytes_total (a ∷ x) [] h = inr refl
lt_bytes_total (a ∷ x) (b ∷ y) h = elim (ℕ_discrete a b) [
  | yes e ↦ ground (arith, e, lt_bytes_total x y (λ p. h (λ i. e i ∷ p i)))
  | no n ↦ ground arith
]

lt_key_trans : (x y z : ℤ × Bytes) → lt_key x y ≡ true → lt_key y z ≡ true → lt_key x z ≡ true
unfolding lt_key
lt_key_trans (t, h) (u, k) (v, l) p q = ground (arith, lt_bytes_trans h k l)

lt_key_irrefl : (x : ℤ × Bytes) → lt_key x x ≡ false
unfolding lt_key
lt_key_irrefl (t, h) = ground (arith, lt_bytes_irrefl h)

lt_key_total :
    (t u : ℤ) (h k : Bytes) → h ≢ k → (lt_key (t, h) (u, k) ≡ true) ⊎ (lt_key (u, k) (t, h) ≡ true)
unfolding lt_key
lt_key_total t u h k n = ground (arith, lt_bytes_total h k n)

pub before-IsOrder : (forward : Bool) → IsOrder (before forward)
unfolding before
before-IsOrder true = record {
  trans = λ x y z. lt_key_trans (key x) (key y) (key z);
  irrefl = λ x. lt_key_irrefl (key x);
}
before-IsOrder false = record {
  trans = λ x y z h k. lt_key_trans (key z) (key y) (key x) k h;
  irrefl = λ x. lt_key_irrefl (key x);
}

-- No two rows have the same hash (the primary key).
abbrev pub HasUniqueHashes : Table → Type 0
HasUniqueHashes [] = Unit
HasUniqueHashes (r ∷ rest) =
    All (λ (s : Row). r.message_hash ≢ s.message_hash) rest × HasUniqueHashes rest

before_total :
    (forward : Bool) (r s : Row) → r.message_hash ≢ s.message_hash → Comparable (before forward) r s
unfolding before
before_total true r s n = lt_key_total r.sort_time s.sort_time r.message_hash s.message_hash n
before_total false r s n =
    elim (lt_key_total r.sort_time s.sort_time r.message_hash s.message_hash n) [
      | inl e ↦ inr e
      | inr e ↦ inl e
    ]

All-Comparable :
    (forward : Bool) (r : Row) (rest : Table)
    → All (λ (s : Row). r.message_hash ≢ s.message_hash) rest
    → All (Comparable (before forward) r) rest
All-Comparable forward r [] h = tt
All-Comparable forward r (s ∷ rest) h =
    (before_total forward r s h.0, All-Comparable forward r rest h.1)

pub table-IsDistinct :
    (forward : Bool) (t : Table) → HasUniqueHashes t → IsDistinct (before forward) t
table-IsDistinct forward [] h = tt
table-IsDistinct forward (r ∷ rest) h =
    (All-Comparable forward r rest h.0, table-IsDistinct forward rest h.1)
