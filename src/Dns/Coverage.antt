-- ===== src/Dns/Coverage.antt =====
-- A walk that is not cut off visits the whole tree.
use rs_waku.Prelude.{
  ℕ, zero, suc, ◌≡◌, ◌⊎◌, inl, inr, refl, sym, List, [], ◌∷◌, ◌++◌, map, Bool, true, false, ◌||◌,
  not, is_empty, filter, Option, none, some, Bool-cases, arith, if◌then◌else◌,
}
use rs_waku.Prelude.Bytes.{Bytes, codes}
use rs_waku.Prelude.Eq.{◌==◌, nat_eq, list_eq, eq_iff, contains}
use rs_waku.Prelude.Text.{strip_prefix, split}
use rs_waku.Prelude.Sorted.{In}
use rs_waku.Dns.{Calls, content_of, children_of, enrs_of}
use rs_waku.Dns.Walk.{Walk, start, push_all, is_skipped, visit, walk}
use rs_waku.Dns.Tree.{Below, here, child}

In-test : (p : Bytes → Bool) (x : Bytes) (xs : List Bytes) → In x (filter p xs) → p x ≡ true
In-test p x [] h = absurd h
In-test p x (y ∷ ys) h = by_test (p y) refl h (In-test p x ys)
  where
    by_test :
        (b : Bool)
        → p y ≡ b
        → In x (if b then y ∷ filter p ys else filter p ys)
        → (In x (filter p ys) → p x ≡ true)
        → p x ≡ true
    by_test true e (inl q) f = rw q e
    by_test true e (inr k) f = f k
    by_test false e k f = f k

In-append_left : {A : Type 0} (x : A) (xs ys : List A) → In x xs → In x (xs ++ ys)
In-append_left x [] ys h = absurd h
In-append_left x (y ∷ xs) ys (inl e) = inl e
In-append_left x (y ∷ xs) ys (inr k) = inr (In-append_left x xs ys k)

In-append_right : {A : Type 0} (x : A) (xs ys : List A) → In x ys → In x (xs ++ ys)
In-append_right x [] ys h = h
In-append_right x (y ∷ xs) ys h = inr (In-append_right x xs ys h)

In-push_all_below : (x : Bytes) (hs stack : List Bytes) → In x stack → In x (push_all hs stack)
unfolding push_all
In-push_all_below x [] stack h = h
In-push_all_below x (y ∷ hs) stack h = In-push_all_below x hs (y ∷ stack) (inr h)

In-push_all : (x : Bytes) (hs stack : List Bytes) → In x hs → In x (push_all hs stack)
unfolding push_all
In-push_all x [] stack h = absurd h
In-push_all x (y ∷ hs) stack (inl e) = In-push_all_below x hs (y ∷ stack) (inl e)
In-push_all x (y ∷ hs) stack (inr k) = In-push_all x hs (y ∷ stack) k

module _ {Enr Key Signature : Type 0} (c : Calls Enr Key Signature) (domain : Bytes) where
  abbrev children : Bytes → List Bytes
  children hash = children_of c (content_of c domain hash)

  abbrev leaves : Bytes → List Enr
  leaves hash = enrs_of c (content_of c domain hash)

  children_of-In :
      (content : Option Bytes) (n : Bytes) → In n (children_of c content) → is_empty n ≡ false
  unfolding children_of
  children_of-In none n h = absurd h
  children_of-In (some content) n h = by_branch (strip_prefix (codes "enrtree-branch:") content) h
    where
      by_branch :
          (o : Option Bytes)
          → In n (elim o [
            | none ↦ []
            | some branch ↦ filter (λ h. not (is_empty h)) (map c.trim (split b',' branch))
          ])
          → is_empty n ≡ false
      by_branch none k = absurd k
      by_branch (some branch) k =
          let t = In-test (λ h. not (is_empty h)) n (map c.trim (split b',' branch)) k in
          ground (arith, t)

  -- Visited, or on the stack.
  abbrev Known : Walk Enr → List Bytes → Bytes → Type 0
  Known s stack h = (contains s.visited h ≡ true) ⊎ In h stack

  -- What is below a visited hash is known, and its ENRs are collected.
  abbrev pub IsClosed : Walk Enr → List Bytes → Type 0
  IsClosed s stack =
      (h : Bytes)
      → contains s.visited h ≡ true
      → ((n : Bytes) → In n (children h) → Known s stack n)
        × ((e : Enr) → In e (leaves h) → In e s.enrs)

  skip-Known :
      (s : Walk Enr) (hash : Bytes) (stack : List Bytes) (n : Bytes)
      → is_skipped s hash ≡ true
      → is_empty n ≡ false
      → Known s (hash ∷ stack) n
      → Known s stack n
  skip-Known s hash stack n e f (inl v) = inl v
  skip-Known s hash stack n e f (inr (inl q)) =
      inl (rw q (not_empty (is_empty hash) (contains s.visited hash) e (rw (sym q) f)))
    where
      not_empty : (a b : Bool) → (a || b) ≡ true → a ≡ false → b ≡ true
      not_empty a b k l = ground arith
  skip-Known s hash stack n e f (inr (inr k)) = inr k

  skip-IsClosed :
      (s : Walk Enr) (hash : Bytes) (stack : List Bytes)
      → is_skipped s hash ≡ true
      → IsClosed s (hash ∷ stack)
      → IsClosed s stack
  skip-IsClosed s hash stack e k h v = (
    λ n m. skip-Known s hash stack n e (children_of-In (content_of c domain h) n m) ((k h v).0 n m),
    (k h v).1,
  )

  visit-Known :
      (s : Walk Enr) (hash : Bytes) (stack : List Bytes) (n : Bytes)
      → Known s (hash ∷ stack) n
      → Known (visit c domain s hash) (push_all (children hash) stack) n
  unfolding visit
  visit-Known s hash stack n (inl v) = inl (ground (arith, v))
  visit-Known s hash stack n (inr (inl q)) = inl (ground (arith, (eq_iff hash n).1 (sym q)))
  visit-Known s hash stack n (inr (inr k)) = inr (In-push_all_below n (children hash) stack k)

  visit-IsClosed :
      (s : Walk Enr) (hash : Bytes) (stack : List Bytes)
      → IsClosed s (hash ∷ stack)
      → IsClosed (visit c domain s hash) (push_all (children hash) stack)
  unfolding visit
  visit-IsClosed s hash stack k h v = elim (Bool-cases (hash == h)) [
    | inl e ↦ own h ((eq_iff hash h).0 e)
    | inr e ↦
        let old = k h (ground (arith, e, v)) in
        (
          λ n m. visit-Known s hash stack n (old.0 n m),
          λ x m. In-append_left x s.enrs (leaves hash) (old.1 x m),
        )
  ]
    where
      own :
          (g : Bytes)
          → hash ≡ g
          → ((n : Bytes)
              → In n (children g)
              → Known (visit c domain s hash) (push_all (children hash) stack) n)
            × ((x : Enr) → In x (leaves g) → In x (visit c domain s hash).enrs)
      own g e = rw (sym e) (
        λ n m. inr (In-push_all n (children hash) stack m),
        λ x m. In-append_right x s.enrs (leaves hash) m,
      )

  -- What the walk ends with, unless it was cut off.
  abbrev IsDone : Walk Enr → List Bytes → Walk Enr → Type 0
  IsDone s stack r =
      r.truncated ≡ false
      → IsClosed r []
        × ((h : Bytes) → is_empty h ≡ false → Known s stack h → contains r.visited h ≡ true)

  walk-IsDone :
      (budget : ℕ) (s : Walk Enr) (stack : List Bytes)
      → IsClosed s stack
      → IsDone s stack (walk c domain budget s stack)
  unfolding walk
  walk-IsDone budget s [] k = λ t. (k, λ h f v. elim v [ inl w ↦ w | inr m ↦ absurd m ])
  walk-IsDone zero s (hash ∷ stack) k = elim (Bool-cases (is_skipped s hash)) [
    | inl e ↦
        rw (walk, e)
          (λ t.
            let r = walk-IsDone zero s stack (skip-IsClosed s hash stack e k) t in
            (r.0, λ h f v. r.1 h f (skip-Known s hash stack h e f v)))
    | inr e ↦ rw (walk, e) (λ t. absurd (cc t))
  ]
  walk-IsDone (suc budget) s (hash ∷ stack) k = elim (Bool-cases (is_skipped s hash)) [
    | inl e ↦
        rw (walk, e)
          (λ t.
            let r = walk-IsDone (suc budget) s stack (skip-IsClosed s hash stack e k) t in
            (r.0, λ h f v. r.1 h f (skip-Known s hash stack h e f v)))
    | inr e ↦
        rw (walk, e)
          (λ t.
            let r =
              walk-IsDone budget (visit c domain s hash) (push_all (children hash) stack)
                (visit-IsClosed s hash stack k) t in
            (r.0, λ h f v. r.1 h f (visit-Known s hash stack h v)))
  ]

  below_visited :
      (r : Walk Enr) (top h : Bytes)
      → IsClosed r []
      → contains r.visited top ≡ true
      → Below c domain top h
      → contains r.visited h ≡ true
  below_visited r top h k v here = v
  below_visited r top h k v (child {hash} {next} b m) =
      elim ((k hash (below_visited r top hash k v b)).0 next m) [ inl w ↦ w | inr n ↦ absurd n ]

  -- A walk from an empty state that is not cut off visits every hash at or below the top, and collects
  -- the ENRs of its record.
  pub walk_whole :
      (budget : ℕ) (top : Bytes)
      → is_empty top ≡ false
      → (walk c domain budget start (top ∷ [])).truncated ≡ false
      → (h : Bytes) → Below c domain top h
      → (contains (walk c domain budget start (top ∷ [])).visited h ≡ true)
        × ((e : Enr) → In e (leaves h) → In e (walk c domain budget start (top ∷ [])).enrs)
  walk_whole budget top f t h b =
      let (k, known) = walk-IsDone budget start (top ∷ []) (λ x v. absurd (cc v)) t in
      let v =
        below_visited (walk c domain budget start (top ∷ [])) top h k (known top f (inr (inl refl)))
          b in
      (v, (k h v).1)
