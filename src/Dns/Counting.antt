-- ===== src/Dns/Counting.antt =====
-- How many records the walk looks up.
use rs_waku.Prelude.{
  ℕ, zero, suc, ◌+◌, ◌≤◌, ◌≡◌, inl, inr, refl, sym, ap, ◌∙◌, List, [], ◌∷◌, true, false, length,
  All, Bool-cases, arith, if◌then◌else◌,
}
use rs_waku.Prelude.Bytes.{Bytes}
use rs_waku.Prelude.Eq.{◌==◌, nat_eq, list_eq, eq_iff, contains}
use rs_waku.Prelude.Sorted.{In}
use rs_waku.Dns.{Calls, content_of, children_of}
use rs_waku.Dns.Walk.{Walk, start, push_all, is_skipped, visit, walk}
use rs_waku.Dns.Tree.{Below, here, child, all_of_In, All-push_all}

-- No hash stands twice.
abbrev pub IsUnique : List Bytes → Type 0
IsUnique [] = Unit
IsUnique (h ∷ rest) = (contains rest h ≡ false) × IsUnique rest

-- A list without one of its elements.
without : Bytes → List Bytes → List Bytes
without h [] = []
without h (x ∷ xs) = let rest = without h xs in if x == h then xs else x ∷ rest

length-without : (h : Bytes) (xs : List Bytes) → In h xs → length (without h xs) + 1 ≡ length xs
unfolding without
length-without h [] m = absurd m
length-without h (x ∷ xs) (inl e) = ground (arith, (eq_iff x h).1 (sym e))
length-without h (x ∷ xs) (inr m) = ground (arith, length-without h xs m)

In-without : (h k : Bytes) (xs : List Bytes) → (k == h) ≡ false → In k xs → In k (without h xs)
unfolding without
In-without h k [] n m = m
In-without h k (x ∷ xs) n (inl e) = elim (Bool-cases (x == h)) [
  | inl q ↦ absurd (ground (arith, n, (eq_iff k h).1 (e ∙ (eq_iff x h).0 q)))
  | inr q ↦ rw q (inl e)
]
In-without h k (x ∷ xs) n (inr m) = elim (Bool-cases (x == h)) [
  | inl q ↦ rw q m
  | inr q ↦ rw q (inr (In-without h k xs n m))
]

-- A list without repetition of elements of another is not longer.
unique_fits : (xs ys : List Bytes) → IsUnique xs → All (λ x. In x ys) xs → length xs ≤ length ys
unique_fits [] ys u h = omega arith
unique_fits (x ∷ xs) ys u h =
    let fits = unique_fits xs (without x ys) u.1 (others xs u.0 h.1) in
    omega (arith, fits, length-without x ys h.0)
  where
    others :
        (zs : List Bytes)
        → contains zs x ≡ false
        → All (λ z. In z ys) zs
        → All (λ z. In z (without x ys)) zs
    others [] n k = tt
    others (z ∷ zs) n k =
        (In-without x z ys (ground (arith, n)) k.0, others zs (ground (arith, n)) k.1)

module _ {Enr Key Signature : Type 0} (c : Calls Enr Key Signature) (domain : Bytes)
    (top : Bytes) where
  -- After a walk that may look up `total` records.
  pub record IsCounted (total : ℕ) (r : Walk Enr) : Type 0 where
    pub unique : IsUnique r.visited
    pub below : All (Below c domain top) r.visited
    pub asked_unique : IsUnique r.asked
    pub asked_below : All (Below c domain top) r.asked
    pub bound : length r.asked ≤ total
    pub cut : r.truncated ≡ true → length r.visited ≡ suc total

  fresh :
      (s : Walk Enr) (hash : Bytes) → is_skipped s hash ≡ false → contains s.visited hash ≡ false
  fresh s hash e = ground (arith, e)

  below_children :
      (hash : Bytes)
      → Below c domain top hash
      → All (Below c domain top) (children_of c (content_of c domain hash))
  below_children hash b =
      all_of_In c domain (Below c domain top) (children_of c (content_of c domain hash))
        (λ n m. child b m)

  walk-IsCounted :
      (budget total : ℕ) (s : Walk Enr) (stack : List Bytes)
      → IsUnique s.visited
      → All (Below c domain top) s.visited
      → All (Below c domain top) stack
      → s.asked ≡ s.visited
      → s.truncated ≡ false
      → budget + length s.visited ≡ total
      → IsCounted total (walk c domain budget s stack)
  unfolding walk visit
  walk-IsCounted budget total s [] u b k e f n = record {
    unique = u;
    below = b;
    asked_unique = rw e u;
    asked_below = rw e b;
    bound = rw e (omega (arith, n));
    cut = λ t. absurd (cc (t, f));
  }
  walk-IsCounted zero total s (hash ∷ stack) u b k e f n = elim (Bool-cases (is_skipped s hash)) [
    | inl q ↦ rw (walk, q) (walk-IsCounted zero total s stack u b k.1 e f n)
    | inr q ↦
        rw (walk, q)
          (record {
            unique = (fresh s hash q, u);
            below = (k.0, b);
            asked_unique = rw e u;
            asked_below = rw e b;
            bound = rw e (omega (arith, n));
            cut = λ t. omega (arith, n);
          })
  ]
  walk-IsCounted (suc budget) total s (hash ∷ stack) u b k e f n =
      elim (Bool-cases (is_skipped s hash)) [
        | inl q ↦ rw (walk, q) (walk-IsCounted (suc budget) total s stack u b k.1 e f n)
        | inr q ↦
            rw (walk, q)
              (walk-IsCounted budget total (visit c domain s hash)
                (push_all (children_of c (content_of c domain hash)) stack) (fresh s hash q, u)
                (k.0, b)
                (All-push_all c domain (Below c domain top)
                  (children_of c (content_of c domain hash)) stack (below_children hash k.0) k.1)
                (ap (λ hs. hash ∷ hs) e) f (omega (arith, n)))
      ]

  walk_count : (budget : ℕ) → IsCounted budget (walk c domain budget start (top ∷ []))
  walk_count budget =
      walk-IsCounted budget budget start (top ∷ []) tt tt (here, tt) refl refl (omega arith)

  -- The walk looks up at most as many records as its budget, each at or below the top and none twice.
  pub walk_bounds :
      (budget : ℕ)
      → (length (walk c domain budget start (top ∷ [])).asked ≤ budget)
        × IsUnique (walk c domain budget start (top ∷ [])).asked
        × All (Below c domain top) (walk c domain budget start (top ∷ [])).asked
  walk_bounds budget = let w = walk_count budget in (w.bound, w.asked_unique, w.asked_below)

  all-In :
      (hs hashes : List Bytes)
      → ((h : Bytes) → Below c domain top h → In h hashes)
      → All (Below c domain top) hs
      → All (λ h. In h hashes) hs
  all-In [] hashes whole b = tt
  all-In (h ∷ hs) hashes whole b = (whole h b.0, all-In hs hashes whole b.1)

  -- A walk is not cut off if the hashes at and below the top are among at most as many as its budget.
  pub walk_not_cut :
      (budget : ℕ) (hashes : List Bytes)
      → ((h : Bytes) → Below c domain top h → In h hashes)
      → length hashes ≤ budget
      → (walk c domain budget start (top ∷ [])).truncated ≡ false
  walk_not_cut budget hashes whole small =
      elim (Bool-cases (walk c domain budget start (top ∷ [])).truncated) [
        | inl t ↦ absurd (too_many (walk_count budget) t)
        | inr f ↦ f
      ]
    where
      too_many :
          IsCounted budget (walk c domain budget start (top ∷ []))
          → (walk c domain budget start (top ∷ [])).truncated ≡ true
          → ⊥
      too_many w t =
          let visited = (walk c domain budget start (top ∷ [])).visited in
          let fits = unique_fits visited hashes w.unique (all-In visited hashes whole w.below) in
          omega (arith, fits, w.cut t)
