-- ===== src/Prelude/Text.antt =====
-- The parts of Rust's `str` that the program uses, on bytes.
use Prim.Native.Nat.{ℕ}
use mathlib.Core.Path.{◌≡◌, refl}
use mathlib.Core.Logic.{◌≢◌, inl, inr}
use mathlib.Core.Option
use mathlib.Core.Option.{Option, none, some}
use mathlib.Core.List.{List, [], ◌∷◌, ◌++◌}
use native.Mathlib.Omega.{arith}
use rs_waku.Prelude.Tests.{eqb, if◌then◌else◌, Bool-cases}
use rs_waku.Prelude.Lists.{All}
use rs_waku.Prelude.Bytes.{Bytes}

abbrev pub slash : ℕ
slash = b'/'

unfoldable pub strip_prefix : Bytes → Bytes → Option Bytes
strip_prefix [] s = some s
strip_prefix (p ∷ ps) [] = none
strip_prefix (p ∷ ps) (c ∷ s) = if eqb p c then strip_prefix ps s else none

-- `s.split_once(sep)`: around the first separator.
unfoldable pub split_once : ℕ → Bytes → Option (Bytes × Bytes)
split_once sep [] = none
split_once sep (c ∷ s) =
    let rest = Option.map (λ (p : Bytes × Bytes). (c ∷ p.0, p.1)) (split_once sep s) in
    if eqb c sep then some ([], s) else rest

abbrev pub extend_head : ℕ → List Bytes → List Bytes
extend_head c [] = (c ∷ []) ∷ []
extend_head c (p ∷ ps) = (c ∷ p) ∷ ps

-- `s.split(sep)`: always one piece at least.
unfoldable pub split : ℕ → Bytes → List Bytes
split sep [] = [] ∷ []
split sep (c ∷ s) = let rest = split sep s in if eqb c sep then [] ∷ rest else extend_head c rest

-- Without the separator.
abbrev pub IsFree : ℕ → Bytes → Type 0
IsFree sep = All (λ c. c ≢ sep)

pub strip_prefix-append : (p s : Bytes) → strip_prefix p (p ++ s) ≡ some s
unfolding strip_prefix
strip_prefix-append [] s = refl
strip_prefix-append (c ∷ p) s = ground (arith, strip_prefix-append p s)

pub strip_prefix-eq-some : (p s : Bytes) {t : Bytes} → strip_prefix p s ≡ some t → s ≡ p ++ t
unfolding strip_prefix
strip_prefix-eq-some [] s h = cc
strip_prefix-eq-some (c ∷ p) [] h = cc
strip_prefix-eq-some (c ∷ p) (d ∷ s) {t} h = ground (arith, strip_prefix-eq-some p s {t = t})

pub split_once-append :
    (sep : ℕ) (a b : Bytes) → IsFree sep a → split_once sep (a ++ sep ∷ b) ≡ some (a, b)
unfolding split_once
split_once-append sep [] b h = ground arith
split_once-append sep (c ∷ a) b h = ground (arith, split_once-append sep a b h.1, h.0)

pub split_once-eq-some :
    (sep : ℕ) (s a b : Bytes) → split_once sep s ≡ some (a, b) → (s ≡ a ++ sep ∷ b) × IsFree sep a
unfolding split_once
split_once-eq-some sep [] a b h = cc
split_once-eq-some sep (c ∷ s) [] b h = ground arith
split_once-eq-some sep (c ∷ s) (d ∷ a) b h = ground (arith, split_once-eq-some sep s a b)

pub split-append :
    (sep : ℕ) (a b : Bytes) → IsFree sep a → split sep (a ++ sep ∷ b) ≡ a ∷ split sep b
unfolding split
split-append sep [] b h = ground arith
split-append sep (c ∷ a) b h = ground (arith, split-append sep a b h.1, h.0)

pub split-IsFree : (sep : ℕ) (a : Bytes) → IsFree sep a → split sep a ≡ a ∷ []
unfolding split
split-IsFree sep [] h = refl
split-IsFree sep (c ∷ a) h = ground (arith, split-IsFree sep a h.1, h.0)

-- The pieces put together again.
abbrev pub join : ℕ → List Bytes → Bytes
join sep [] = []
join sep (p ∷ []) = p
join sep (p ∷ q ∷ r) = p ++ sep ∷ join sep (q ∷ r)

join-extend_head : (sep c : ℕ) (ps : List Bytes) → join sep (extend_head c ps) ≡ c ∷ join sep ps
join-extend_head sep c [] = refl
join-extend_head sep c (p ∷ []) = refl
join-extend_head sep c (p ∷ q ∷ r) = refl

split-cons : (sep : ℕ) (s : Bytes) → (p : Bytes) × (ps : List Bytes) × (split sep s ≡ p ∷ ps)
unfolding split
split-cons sep [] = ([], [], refl)
split-cons sep (c ∷ s) = elim (Bool-cases (eqb c sep)) [
  | inl e ↦ ([], split sep s, rw e)
  | inr e ↦ let (p, ps, q) = split-cons sep s in (c ∷ p, ps, rw (e, q))
]

pub join-split : (sep : ℕ) (s : Bytes) → join sep (split sep s) ≡ s
unfolding split
join-split sep [] = refl
join-split sep (c ∷ s) =
    let (p, ps, q) = split-cons sep s in
    ground (arith, q, join-split sep s, join-extend_head sep c (split sep s))

pub split-IsFree_pieces : (sep : ℕ) (s : Bytes) → All (IsFree sep) (split sep s)
unfolding split
split-IsFree_pieces sep [] = (tt, tt)
split-IsFree_pieces sep (c ∷ s) =
    let (p, ps, q) = split-cons sep s in ground (arith, q, split-IsFree_pieces sep s)
