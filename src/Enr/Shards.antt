-- ===== src/Enr/Shards.antt =====
-- `RelayShards::new` sorts and removes duplicates.
use rs_waku.Prelude.{
  ℕ, ◌+◌, ◌≡◌, ◌≤◌, ◌<◌, refl, ap, ◌∙◌, List, [], ◌∷◌, true, false, ◌||◌, ◌&&◌, arith, eqb, All,
  leb, Bool-cases, inl, inr,
}
use rs_waku.Prelude.Eq.{contains, nat_eq}
use rs_waku.Enr.{sort, insert_sorted, dedup, dedup_from, new, contains_shard}

-- Every element is at least `m`, and none is below its predecessor.
abbrev AscendingFrom : ℕ → List ℕ → Type 0
AscendingFrom m [] = Unit
AscendingFrom m (x ∷ xs) = (m ≤ x) × AscendingFrom x xs

-- Strictly, from `m` on.
abbrev pub StrictFrom : ℕ → List ℕ → Type 0
StrictFrom m [] = Unit
StrictFrom m (x ∷ xs) = (m ≤ x) × StrictFrom (x + 1) xs

pub strict_weaken : (m n : ℕ) (xs : List ℕ) → m ≤ n → StrictFrom n xs → StrictFrom m xs
strict_weaken m n [] h s = tt
strict_weaken m n (x ∷ xs) h s = (omega arith, s.1)

insert_sorted-AscendingFrom :
    (x m : ℕ) (xs : List ℕ) → m ≤ x → AscendingFrom m xs → AscendingFrom m (insert_sorted x xs)
unfolding insert_sorted
insert_sorted-AscendingFrom x m [] h s = omega arith
insert_sorted-AscendingFrom x m (y ∷ ys) h s = ground (arith, insert_sorted-AscendingFrom x y ys)

sort-AscendingFrom : (xs : List ℕ) → AscendingFrom 0 (sort xs)
unfolding sort
sort-AscendingFrom [] = tt
sort-AscendingFrom (x ∷ xs) =
    insert_sorted-AscendingFrom x 0 (sort xs) (omega arith) (sort-AscendingFrom xs)

dedup_from-StrictFrom :
    (m x : ℕ) (xs : List ℕ) → m ≤ x → AscendingFrom x xs → StrictFrom m (dedup_from x xs)
unfolding dedup_from
dedup_from-StrictFrom m x [] h s = omega arith
dedup_from-StrictFrom m x (y ∷ ys) h s =
    ground (arith, dedup_from-StrictFrom m y ys, dedup_from-StrictFrom (x + 1) y ys)

dedup-StrictFrom : (xs : List ℕ) → AscendingFrom 0 xs → StrictFrom 0 (dedup xs)
unfolding dedup
dedup-StrictFrom [] s = tt
dedup-StrictFrom (x ∷ xs) s = dedup_from-StrictFrom 0 x xs (omega arith) s.1

contains-insert_sorted :
    (a x : ℕ) (xs : List ℕ) → contains (insert_sorted x xs) a ≡ (eqb x a || contains xs a)
unfolding insert_sorted
contains-insert_sorted a x [] = refl
contains-insert_sorted a x (y ∷ ys) = ground (arith, contains-insert_sorted a x ys)

contains-sort : (a : ℕ) (xs : List ℕ) → contains (sort xs) a ≡ contains xs a
unfolding sort
contains-sort a [] = refl
contains-sort a (x ∷ xs) =
    contains-insert_sorted a x (sort xs) ∙ ap (λ t. eqb x a || t) (contains-sort a xs)

contains-dedup_from :
    (a x : ℕ) (xs : List ℕ) → contains (dedup_from x xs) a ≡ (eqb x a || contains xs a)
unfolding dedup_from
contains-dedup_from a x [] = refl
contains-dedup_from a x (y ∷ ys) = ground (arith, contains-dedup_from a y ys)

contains-dedup : (a : ℕ) (xs : List ℕ) → contains (dedup xs) a ≡ contains xs a
unfolding dedup
contains-dedup a [] = refl
contains-dedup a (x ∷ xs) = contains-dedup_from a x xs

-- The shards of `new` are strictly ascending, and are those given: `contains` answers for every
-- cluster and shard as it does for the list that was given.
pub new_lem :
    (cluster : ℕ) (shards : List ℕ) (other s : ℕ)
    → StrictFrom 0 (new cluster shards).shards
      × (contains_shard (new cluster shards) other s
          ≡ contains_shard (record { cluster_id = cluster; shards = shards }) other s)
unfolding new contains_shard
new_lem cluster shards other s = (
  dedup-StrictFrom (sort shards) (sort-AscendingFrom shards),
  ap (λ t. eqb cluster other && t) (contains-dedup s (sort shards) ∙ contains-sort s shards),
)

contains_above : (m a : ℕ) (xs : List ℕ) → StrictFrom m xs → contains xs a ≡ true → m ≤ a
contains_above m a [] s h = cc
contains_above m a (x ∷ xs) s h = ground (arith, contains_above (x + 1) a xs)

contains_below : (m a : ℕ) (xs : List ℕ) → StrictFrom m xs → a < m → contains xs a ≡ false
contains_below m a [] s h = refl
contains_below m a (x ∷ xs) s h = ground (arith, contains_below (x + 1) a xs)

heads-eq :
    (x y : ℕ) (xs ys : List ℕ)
    → StrictFrom (x + 1) xs
    → StrictFrom (y + 1) ys
    → contains (x ∷ xs) x ≡ contains (y ∷ ys) x
    → contains (x ∷ xs) y ≡ contains (y ∷ ys) y
    → x ≡ y
heads-eq x y xs ys s t h k =
    ground (arith, contains_above (x + 1) y xs, contains_above (y + 1) x ys)

-- A strictly ascending list is determined by its members.
pub strict-eq :
    (m : ℕ) (xs ys : List ℕ)
    → StrictFrom m xs
    → StrictFrom m ys
    → ((a : ℕ) → contains xs a ≡ contains ys a)
    → xs ≡ ys
strict-eq m [] [] s t h = refl
strict-eq m [] (y ∷ ys) s t h = ground (arith, h y)
strict-eq m (x ∷ xs) [] s t h = ground (arith, h x)
strict-eq m (x ∷ xs) (y ∷ ys) s t h = ground (
  arith,
  same,
  strict-eq (x + 1) xs ys s.1 (rw same t.1) λ a.
      ground (arith, same, h a, contains_below (x + 1) a xs s.1, contains_below (y + 1) a ys t.1),
)
  where
    same : x ≡ y
    same = heads-eq x y xs ys s.1 t.1 (h x) (h y)

module _ (P : ℕ → Type 0) where
  All-insert_sorted : (x : ℕ) (xs : List ℕ) → P x → All P xs → All P (insert_sorted x xs)
  unfolding insert_sorted
  All-insert_sorted x [] p h = (p, tt)
  All-insert_sorted x (y ∷ ys) p h = elim (Bool-cases (leb x y)) [
    | inl b ↦ rw b (p, h)
    | inr b ↦ rw b (h.0, All-insert_sorted x ys p h.1)
  ]

  All-sort : (xs : List ℕ) → All P xs → All P (sort xs)
  unfolding sort
  All-sort [] h = tt
  All-sort (x ∷ xs) h = All-insert_sorted x (sort xs) h.0 (All-sort xs h.1)

  All-dedup_from : (x : ℕ) (xs : List ℕ) → P x → All P xs → All P (dedup_from x xs)
  unfolding dedup_from
  All-dedup_from x [] p h = (p, tt)
  All-dedup_from x (y ∷ ys) p h = elim (Bool-cases (eqb x y)) [
    | inl b ↦ rw b (All-dedup_from y ys h.0 h.1)
    | inr b ↦ rw b (p, All-dedup_from y ys h.0 h.1)
  ]

  All-dedup : (xs : List ℕ) → All P xs → All P (dedup xs)
  unfolding dedup
  All-dedup [] h = tt
  All-dedup (x ∷ xs) h = All-dedup_from x xs h.0 h.1

  -- What holds of the shards that are given holds of those of `new`.
  pub All-new : (cluster : ℕ) (shards : List ℕ) → All P shards → All P (new cluster shards).shards
  unfolding new
  All-new cluster shards h = All-dedup (sort shards) (All-sort shards h)
