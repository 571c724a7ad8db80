-- ===== src/Prelude/Keys.antt =====
-- Association lists without two entries of one key, and how often a value stands in one.
use mathlib.Core.Path.{◌≡◌, refl, sym}
use mathlib.Core.Logic.{inl, inr}
use mathlib.Core.Bool.{Bool, true, false}
use mathlib.Core.List.{[], ◌∷◌}
use mathlib.Core.Option.{none, some, some-injective}
use Prim.Native.Nat.{ℕ, ◌+◌}
use native.Mathlib.Omega.{arith}
use rs_waku.Prelude.Tests.{if◌then◌else◌, Bool-cases}
use rs_waku.Prelude.Lists.{All}
use rs_waku.Prelude.Eq.{Eq, ◌==◌}
use rs_waku.Prelude.Assoc.{Assoc, lookup, insert, remove}

module _ {K V : Type 0} ⦃e : Eq K⦄ where
  -- No entry of a key.
  abbrev pub IsAbsent : K → Assoc K V → Type 0
  IsAbsent k m = All (λ (entry : K × V). (entry.0 == k) ≡ false) m

  abbrev pub HasUniqueKeys : Assoc K V → Type 0
  HasUniqueKeys [] = Unit
  HasUniqueKeys ((k, v) ∷ rest) = IsAbsent k rest × HasUniqueKeys rest

  IsAbsent-insert :
      (j k : K) (v : V) (m : Assoc K V)
      → (k == j) ≡ false
      → IsAbsent j m
      → IsAbsent j (insert k v m)
  unfolding insert
  IsAbsent-insert j k v [] n h = (n, tt)
  IsAbsent-insert j k v ((i, w) ∷ rest) n h = place (i == k) (IsAbsent-insert j k v rest n h.1)
    where
      place :
          (b : Bool)
          → IsAbsent j (insert k v rest)
          → IsAbsent j (if b then (k, v) ∷ rest else (i, w) ∷ insert k v rest)
      place true a = (n, h.1)
      place false a = (h.0, a)

  pub insert-HasUniqueKeys :
      (k : K) (v : V) (m : Assoc K V) → HasUniqueKeys m → HasUniqueKeys (insert k v m)
  unfolding insert
  insert-HasUniqueKeys k v [] h = (tt, tt)
  insert-HasUniqueKeys k v ((i, w) ∷ rest) h = elim (Bool-cases (i == k)) [
    | inl q ↦ rw q (rw (sym ((e.beq_iff i k).0 q)) h.0, h.1)
    | inr q ↦ rw q (
      IsAbsent-insert i k v rest (ground (arith, q, e.beq_iff k i, e.beq_iff i k)) h.0,
      insert-HasUniqueKeys k v rest h.1,
    )
  ]

  IsAbsent-remove : (j k : K) (m : Assoc K V) → IsAbsent j m → IsAbsent j (remove k m)
  unfolding remove
  IsAbsent-remove j k [] h = tt
  IsAbsent-remove j k ((i, w) ∷ rest) h = place (i == k) (IsAbsent-remove j k rest h.1)
    where
      place :
          (b : Bool)
          → IsAbsent j (remove k rest)
          → IsAbsent j (if b then remove k rest else (i, w) ∷ remove k rest)
      place true a = a
      place false a = (h.0, a)

  pub remove-HasUniqueKeys : (k : K) (m : Assoc K V) → HasUniqueKeys m → HasUniqueKeys (remove k m)
  unfolding remove
  remove-HasUniqueKeys k [] h = tt
  remove-HasUniqueKeys k ((i, w) ∷ rest) h =
      place (i == k) (IsAbsent-remove i k rest h.0) (remove-HasUniqueKeys k rest h.1)
    where
      place :
          (b : Bool)
          → IsAbsent i (remove k rest)
          → HasUniqueKeys (remove k rest)
          → HasUniqueKeys (if b then remove k rest else (i, w) ∷ remove k rest)
      place true a u = u
      place false a u = (a, u)

  pub remove-absent : (k : K) (m : Assoc K V) → lookup k m ≡ none → remove k m ≡ m
  unfolding lookup remove
  remove-absent k [] h = refl
  remove-absent k ((i, w) ∷ rest) h = elim (Bool-cases (i == k)) [
    | inl q ↦ absurd (ground (arith, q, h))
    | inr q ↦ rw (q, remove-absent k rest (ground (arith, q, h))) refl
  ]

  pub remove-IsAbsent : (k : K) (m : Assoc K V) → IsAbsent k m → remove k m ≡ m
  unfolding remove
  remove-IsAbsent k [] h = refl
  remove-IsAbsent k ((i, w) ∷ rest) h = rw (h.0, remove-IsAbsent k rest h.1) refl

abbrev pub one_if : {V : Type 0} ⦃f : Eq V⦄ → V → V → ℕ
one_if v w = if v == w then 1 else 0

-- How many entries have a value.
abbrev pub occurrences : {K V : Type 0} ⦃f : Eq V⦄ → V → Assoc K V → ℕ
occurrences w [] = 0
occurrences w ((k, v) ∷ rest) = one_if v w + occurrences w rest

module _ {K V : Type 0} ⦃e : Eq K⦄ ⦃f : Eq V⦄ where
  pub occurrences-insert :
      (k : K) (v w : V) (m : Assoc K V)
      → lookup k m ≡ none
      → occurrences w (insert k v m) ≡ occurrences w m + one_if v w
  unfolding lookup insert
  occurrences-insert k v w [] h = ground arith
  occurrences-insert k v w ((i, u) ∷ rest) h = elim (Bool-cases (i == k)) [
    | inl q ↦ absurd (ground (arith, q, h))
    | inr q ↦ rw q (omega (arith, occurrences-insert k v w rest (ground (arith, q, h))))
  ]

  pub occurrences-remove :
      (k : K) (v w : V) (m : Assoc K V)
      → HasUniqueKeys m
      → lookup k m ≡ some v
      → occurrences w (remove k m) + one_if v w ≡ occurrences w m
  unfolding lookup remove
  occurrences-remove k v w [] u h = cc
  occurrences-remove k v w ((i, x) ∷ rest) u h = elim (Bool-cases (i == k)) [
    | inl q ↦
        let gone = remove-IsAbsent k rest (rw (sym ((e.beq_iff i k).0 q)) u.0) in
        ground (arith, q, h, gone)
    | inr q ↦ rw q (omega (arith, occurrences-remove k v w rest u.1 (ground (arith, q, h))))
  ]

module _ {K V : Type 0} ⦃e : Eq K⦄ (P : V → Type 0) where
  -- What holds of every value.
  abbrev Values : Assoc K V → Type 0
  Values m = All (λ (entry : K × V). P entry.1) m

  pub All-insert : (k : K) (v : V) (m : Assoc K V) → Values m → P v → Values (insert k v m)
  unfolding insert
  All-insert k v [] h p = (p, tt)
  All-insert k v ((i, w) ∷ rest) h p = elim (Bool-cases (i == k)) [
    | inl q ↦ rw q (p, h.1)
    | inr q ↦ rw q (h.0, All-insert k v rest h.1 p)
  ]

  pub All-remove : (k : K) (m : Assoc K V) → Values m → Values (remove k m)
  unfolding remove
  All-remove k [] h = tt
  All-remove k ((i, w) ∷ rest) h = elim (Bool-cases (i == k)) [
    | inl q ↦ rw q (All-remove k rest h.1)
    | inr q ↦ rw q (h.0, All-remove k rest h.1)
  ]

  pub All-lookup : (k : K) (v : V) (m : Assoc K V) → Values m → lookup k m ≡ some v → P v
  unfolding lookup
  All-lookup k v [] h q = cc
  All-lookup k v ((i, w) ∷ rest) h q = elim (Bool-cases (i == k)) [
    | inl y ↦ rw (sym (some-injective w v (ground (arith, y, q)))) h.0
    | inr n ↦ All-lookup k v rest h.1 (ground (arith, n, q))
  ]
