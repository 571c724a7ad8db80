-- ===== src/Prelude/Sorted.antt =====
-- Insertion sort by a strict Boolean order on lists whose elements are pairwise comparable, and how it
-- meets `filter`.
use mathlib.Core.Path.{◌≡◌, refl, ◌∙◌}
use mathlib.Core.Logic.{◌⊎◌, inl, inr}
use mathlib.Core.Bool.{Bool, true, false, ◌&&◌}
use mathlib.Core.List.{List, [], ◌∷◌, ◌++◌}
use native.Mathlib.Omega.{arith}
use rs_waku.Prelude.Tests.{if◌then◌else◌, Bool-cases}
use rs_waku.Prelude.Lists.{All, filter}

module _ {A : Type 0} where
  -- `x` is an element.
  abbrev pub In : A → List A → Type 0
  In x [] = ⊥
  In x (y ∷ ys) = (x ≡ y) ⊎ In x ys

  In-cons :
      (b : Bool) (x y : A) (zs ys : List A)
      → (In x zs → In x ys)
      → In x (if b then y ∷ zs else zs)
      → In x (y ∷ ys)
  In-cons true x y zs ys f (inl e) = inl e
  In-cons true x y zs ys f (inr k) = inr (f k)
  In-cons false x y zs ys f k = inr (f k)

  pub In-filter : (p : A → Bool) (x : A) (xs : List A) → In x (filter p xs) → In x xs
  In-filter p x [] h = h
  In-filter p x (y ∷ ys) h = In-cons (p y) x y (filter p ys) ys (In-filter p x ys) h

module _ {ℓ} {A : Type ℓ} where
  pub filter-&& :
      (p q : A → Bool) (xs : List A) → filter (λ x. p x && q x) xs ≡ filter q (filter p xs)
  filter-&& p q [] = refl
  filter-&& p q (x ∷ xs) = ground (arith, filter-&& p q xs)

module _ {ℓ κ} {A : Type ℓ} (P : A → Type κ) where
  All-if : (b : Bool) (x : A) (xs : List A) → P x → All P xs → All P (if b then x ∷ xs else xs)
  All-if true x xs h k = (h, k)
  All-if false x xs h k = k

  pub All-filter : (p : A → Bool) (xs : List A) → All P xs → All P (filter p xs)
  All-filter p [] h = tt
  All-filter p (x ∷ xs) h = All-if (p x) x (filter p xs) h.0 (All-filter p xs h.1)

module _ {ℓ} {A : Type ℓ} (lt : A → A → Bool) where
  unfoldable pub insert_by : A → List A → List A
  insert_by x [] = x ∷ []
  insert_by x (y ∷ ys) = let later = insert_by x ys in if lt y x then y ∷ later else x ∷ y ∷ ys

  unfoldable pub sort_by : List A → List A
  unfolding insert_by
  sort_by [] = []
  sort_by (x ∷ xs) = insert_by x (sort_by xs)

  abbrev pub IsSorted : List A → Type ℓ
  IsSorted [] = Unit
  IsSorted (x ∷ xs) = All (λ y. lt x y ≡ true) xs × IsSorted xs

  abbrev pub Comparable : A → A → Type 0
  Comparable x y = (lt x y ≡ true) ⊎ (lt y x ≡ true)

  -- Of any two elements one is below the other.
  abbrev pub IsDistinct : List A → Type ℓ
  IsDistinct [] = Unit
  IsDistinct (x ∷ xs) = All (Comparable x) xs × IsDistinct xs

  pub IsDistinct-filter : (p : A → Bool) (xs : List A) → IsDistinct xs → IsDistinct (filter p xs)
  IsDistinct-filter p [] h = tt
  IsDistinct-filter p (x ∷ xs) h =
      keep (p x) (All-filter (Comparable x) p xs h.0) (IsDistinct-filter p xs h.1)
    where
      keep :
          (b : Bool)
          → All (Comparable x) (filter p xs)
          → IsDistinct (filter p xs)
          → IsDistinct (if b then x ∷ filter p xs else filter p xs)
      keep true c d = (c, d)
      keep false c d = d

  pub All-insert_by {κ} :
      (P : A → Type κ) (x : A) (xs : List A) → P x → All P xs → All P (insert_by x xs)
  unfolding insert_by
  All-insert_by P x [] h k = (h, tt)
  All-insert_by P x (y ∷ ys) h k = place (lt y x) (All-insert_by P x ys h k.1)
    where
      place :
          (b : Bool) → All P (insert_by x ys) → All P (if b then y ∷ insert_by x ys else x ∷ y ∷ ys)
      place true r = (k.0, r)
      place false r = (h, k)

  pub All-sort_by {κ} : (P : A → Type κ) (xs : List A) → All P xs → All P (sort_by xs)
  unfolding sort_by
  All-sort_by P [] h = tt
  All-sort_by P (x ∷ xs) h = All-insert_by P x (sort_by xs) h.0 (All-sort_by P xs h.1)

module _ {A : Type 0} (lt : A → A → Bool) where
  pub In-insert_by : (z x : A) (xs : List A) → In z (insert_by lt x xs) → (z ≡ x) ⊎ In z xs
  unfolding insert_by
  In-insert_by z x [] h = h
  In-insert_by z x (y ∷ ys) h = place (lt y x) h (In-insert_by z x ys)
    where
      place :
          (b : Bool)
          → In z (if b then y ∷ insert_by lt x ys else x ∷ y ∷ ys)
          → (In z (insert_by lt x ys) → (z ≡ x) ⊎ In z ys)
          → (z ≡ x) ⊎ In z (y ∷ ys)
      place true (inl e) f = inr (inl e)
      place true (inr k) f = elim (f k) [ inl e ↦ inl e | inr m ↦ inr (inr m) ]
      place false k f = k

  pub In-sort_by : (z : A) (xs : List A) → In z (sort_by lt xs) → In z xs
  unfolding sort_by
  In-sort_by z [] h = h
  In-sort_by z (x ∷ xs) h = elim (In-insert_by z x (sort_by lt xs) h) [
    | inl e ↦ inl e
    | inr k ↦ inr (In-sort_by z xs k)
  ]

pub record IsOrder {ℓ} {A : Type ℓ} (lt : A → A → Bool) : Type ℓ where
  pub trans : (x y z : A) → lt x y ≡ true → lt y z ≡ true → lt x z ≡ true
  pub irrefl : (x : A) → lt x x ≡ false

module _ {ℓ} {A : Type ℓ} (lt : A → A → Bool) (o : IsOrder lt) where
  asym : (x y : A) → lt x y ≡ true → lt y x ≡ false
  asym x y h = elim (Bool-cases (lt y x)) [ inl e ↦ cc (o.trans x y x h e, o.irrefl x) | inr e ↦ e ]

  All-above :
      (x y : A) (xs : List A)
      → lt x y ≡ true
      → All (λ z. lt y z ≡ true) xs
      → All (λ z. lt x z ≡ true) xs
  All-above x y [] h k = tt
  All-above x y (z ∷ zs) h k = (o.trans x y z h k.0, All-above x y zs h k.1)

  insert_by-IsSorted :
      (x : A) (xs : List A)
      → All (Comparable lt x) xs
      → IsSorted lt xs
      → IsSorted lt (insert_by lt x xs)
  unfolding insert_by
  insert_by-IsSorted x [] c s = (tt, tt)
  insert_by-IsSorted x (y ∷ ys) c s = elim (Bool-cases (lt y x)) [
    | inl e ↦
        rw e (All-insert_by lt (λ z. lt y z ≡ true) x ys e s.0, insert_by-IsSorted x ys c.1 s.1)
    | inr e ↦ rw e ((below c.0 e, All-above x y ys (below c.0 e) s.0), s)
  ]
    where
      below : Comparable lt x y → lt y x ≡ false → lt x y ≡ true
      below (inl a) e = a
      below (inr a) e = cc

  -- Comparable elements are sorted.
  pub sort_by-IsSorted : (xs : List A) → IsDistinct lt xs → IsSorted lt (sort_by lt xs)
  unfolding sort_by
  sort_by-IsSorted [] d = tt
  sort_by-IsSorted (x ∷ xs) d =
      insert_by-IsSorted x (sort_by lt xs) (All-sort_by lt (Comparable lt x) xs d.0)
        (sort_by-IsSorted xs d.1)

  insert_front : (x : A) (xs : List A) → All (λ z. lt z x ≡ false) xs → insert_by lt x xs ≡ x ∷ xs
  unfolding insert_by
  insert_front x [] h = refl
  insert_front x (y ∷ ys) h = rw h.0

  not_below : (x y z : A) → lt y x ≡ false → lt y z ≡ true → lt z x ≡ false
  not_below x y z h k = elim (Bool-cases (lt z x)) [ inl e ↦ cc (o.trans y z x k e) | inr e ↦ e ]

  All-not_below :
      (x y : A) (xs : List A)
      → lt y x ≡ false
      → All (λ z. lt y z ≡ true) xs
      → All (λ z. lt z x ≡ false) xs
  All-not_below x y [] h k = tt
  All-not_below x y (z ∷ zs) h k = (not_below x y z h k.0, All-not_below x y zs h k.1)

  filter-insert_by :
      (q : A → Bool) (x : A) (xs : List A)
      → IsSorted lt xs
      → filter q (insert_by lt x xs) ≡ (if q x then insert_by lt x (filter q xs) else filter q xs)
  unfolding insert_by
  filter-insert_by q x [] s = refl
  filter-insert_by q x (y ∷ ys) s = elim (Bool-cases (lt y x)) [
    | inl e ↦ ground (arith, e, filter-insert_by q x ys s.1)
    | inr e ↦ ground (
      arith,
      e,
      insert_front x (filter q ys)
          (All-filter (λ z. lt z x ≡ false) q ys (All-not_below x y ys e s.0)),
    )
  ]

  -- Filtering commutes with sorting.
  pub filter-sort_by :
      (q : A → Bool) (xs : List A)
      → IsDistinct lt xs
      → filter q (sort_by lt xs) ≡ sort_by lt (filter q xs)
  unfolding sort_by
  filter-sort_by q [] d = refl
  filter-sort_by q (x ∷ xs) d =
      filter-insert_by q x (sort_by lt xs) (sort_by-IsSorted xs d.1)
      ∙ ground (arith, filter-sort_by q xs d.1)

  filter-All : (q : A → Bool) (xs : List A) → All (λ z. q z ≡ true) xs → filter q xs ≡ xs
  filter-All q [] h = refl
  filter-All q (x ∷ xs) h = ground (arith, filter-All q xs h.1, h.0)

  -- In a sorted list the elements above one of them are those behind it.
  pub filter_above :
      (front : List A) (x : A) (back : List A)
      → IsSorted lt (front ++ x ∷ back)
      → filter (λ z. lt x z) (front ++ x ∷ back) ≡ back
  filter_above [] x back s = rw (o.irrefl x) (filter-All (λ z. lt x z) back s.0)
  filter_above (y ∷ front) x back s =
      rw (asym y x (All-at front s.0)) (filter_above front x back s.1)
    where
      All-at : (zs : List A) → All (λ z. lt y z ≡ true) (zs ++ x ∷ back) → lt y x ≡ true
      All-at [] h = h.0
      All-at (z ∷ zs) h = All-at zs h.1
