-- ===== src/Dns/Tree.antt =====
-- The tree that the records under a domain make, and what the walk finds of it.
use rs_waku.Prelude.{ℕ, zero, suc, inl, inr, refl, List, [], ◌∷◌, All, All-append, Bool-cases}
use rs_waku.Prelude.Bytes.{Bytes}
use rs_waku.Prelude.Eq.{nat_eq, list_eq}
use rs_waku.Prelude.Sorted.{In}
use rs_waku.Dns.{Calls, content_of, children_of, enrs_of}
use rs_waku.Dns.Walk.{Walk, push_all, is_skipped, visit, walk}

module _ {Enr Key Signature : Type 0} (c : Calls Enr Key Signature) (domain : Bytes) where
  -- The hashes at and below a first one, by records that hash to their names.
  pub data Below (top : Bytes) : Bytes → Type 0 where
    here : Below top top
    child :
        {hash next : Bytes}
        → Below top hash
        → In next (children_of c (content_of c domain hash))
        → Below top next

  -- The ENR of a record at or below `top`.
  abbrev pub InTree : Bytes → Enr → Type 0
  InTree top enr = (hash : Bytes) × Below top hash × In enr (enrs_of c (content_of c domain hash))

  pub all_of_In : (P : Bytes → Type 0) (hs : List Bytes) → ((h : Bytes) → In h hs → P h) → All P hs
  all_of_In P [] f = tt
  all_of_In P (h ∷ hs) f = (f h (inl refl), all_of_In P hs (λ k m. f k (inr m)))

  all_enrs : (P : Enr → Type 0) (es : List Enr) → ((e : Enr) → In e es → P e) → All P es
  all_enrs P [] f = tt
  all_enrs P (e ∷ es) f = (f e (inl refl), all_enrs P es (λ k m. f k (inr m)))

  pub All-push_all :
      (P : Bytes → Type 0) (hs stack : List Bytes)
      → All P hs
      → All P stack
      → All P (push_all hs stack)
  unfolding push_all
  All-push_all P [] stack h k = k
  All-push_all P (x ∷ hs) stack h k = All-push_all P hs (x ∷ stack) h.1 (h.0, k)

  visit-InTree :
      (top : Bytes) (s : Walk Enr) (hash : Bytes)
      → Below top hash
      → All (InTree top) s.enrs
      → All (InTree top) (visit c domain s hash).enrs
  unfolding visit
  visit-InTree top s hash b k =
      All-append (InTree top) s.enrs (enrs_of c (content_of c domain hash)) k
        (all_enrs (InTree top) (enrs_of c (content_of c domain hash)) (λ e m. (hash, b, m)))

  -- What the walk collects is in the tree.
  pub walk-InTree :
      (top : Bytes) (budget : ℕ) (s : Walk Enr) (stack : List Bytes)
      → All (Below top) stack
      → All (InTree top) s.enrs
      → All (InTree top) (walk c domain budget s stack).enrs
  unfolding walk
  walk-InTree top budget s [] h k = k
  walk-InTree top zero s (hash ∷ stack) h k = elim (Bool-cases (is_skipped s hash)) [
    | inl e ↦ rw (walk, e) (walk-InTree top zero s stack h.1 k)
    | inr e ↦ rw (walk, e) k
  ]
  walk-InTree top (suc budget) s (hash ∷ stack) h k = elim (Bool-cases (is_skipped s hash)) [
    | inl e ↦ rw (walk, e) (walk-InTree top (suc budget) s stack h.1 k)
    | inr e ↦
        rw (walk, e)
          (walk-InTree top budget (visit c domain s hash)
            (push_all (children_of c (content_of c domain hash)) stack)
            (All-push_all (Below top) (children_of c (content_of c domain hash)) stack
              (all_of_In (Below top) (children_of c (content_of c domain hash))
                (λ n m. child h.0 m))
              h.1)
            (visit-InTree top s hash h.0 k))
  ]
