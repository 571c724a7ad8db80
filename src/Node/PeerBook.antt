-- ===== src/Node/PeerBook.antt =====
-- crates/waku-node/src/runtime.rs: the ENRs that the node remembers for peer exchange. An ENR and its
-- node id are parameters.
use rs_waku.Prelude.{
  ℕ, ◌≤◌, ◌≡◌, List, [], ◌∷◌, ◌++◌, true, false, if◌then◌else◌, All, All-append, any, arith, leb,
  length, drop, length-append, length-drop, Bool-cases, inl, inr,
}
use rs_waku.Prelude.Eq.{Eq, ◌==◌}

-- `PEER_BOOK_CAP`
abbrev pub peer_book_cap : ℕ
peer_book_cap = 200

module _ {Enr NodeId : Type 0} ⦃e : Eq NodeId⦄ (node_id : Enr → NodeId) where
  unfoldable pub remember_enr : List Enr → Enr → List Enr
  remember_enr book enr =
      if any (λ o. node_id o == node_id enr) book
      then book
      else if leb peer_book_cap (length book)
      then drop 1 book ++ enr ∷ []
      else book ++ enr ∷ []

  -- No two ENRs are of the same node.
  abbrev pub HasUniqueNodes : List Enr → Type 0
  HasUniqueNodes [] = Unit
  HasUniqueNodes (x ∷ rest) =
      All (λ (o : Enr). (node_id x == node_id o) ≡ false) rest × HasUniqueNodes rest

  others_differ :
      (book : List Enr) (enr : Enr)
      → any (λ o. node_id o == node_id enr) book ≡ false
      → All (λ (o : Enr). (node_id o == node_id enr) ≡ false) book
  others_differ [] enr h = tt
  others_differ (x ∷ rest) enr h = (ground (arith, h), others_differ rest enr (ground (arith, h)))

  HasUniqueNodes-append :
      (book : List Enr) (enr : Enr)
      → All (λ (o : Enr). (node_id o == node_id enr) ≡ false) book
      → HasUniqueNodes book
      → HasUniqueNodes (book ++ enr ∷ [])
  HasUniqueNodes-append [] enr a h = (tt, tt)
  HasUniqueNodes-append (x ∷ rest) enr a h = (
    All-append (λ (o : Enr). (node_id x == node_id o) ≡ false) rest (enr ∷ []) h.0 (a.0, tt),
    HasUniqueNodes-append rest enr a.1 h.1,
  )

  HasUniqueNodes-drop : (book : List Enr) → HasUniqueNodes book → HasUniqueNodes (drop 1 book)
  HasUniqueNodes-drop [] h = tt
  HasUniqueNodes-drop (x ∷ rest) h = h.1

  any-append :
      (book : List Enr) (enr : Enr) → any (λ o. node_id o == node_id enr) (book ++ enr ∷ []) ≡ true
  any-append [] enr = ground (arith, e.beq_iff (node_id enr) (node_id enr))
  any-append (x ∷ rest) enr = ground (arith, any-append rest enr)

  All-drop : (book : List Enr) (P : Enr → Type 0) → All P book → All P (drop 1 book)
  All-drop [] P h = tt
  All-drop (x ∷ rest) P h = h.1

  -- After an ENR is remembered its node is in the book, which still has one ENR of each node and at most
  -- 200.
  pub remember_enr_lem :
      (book : List Enr) (enr : Enr)
      → HasUniqueNodes book
      → length book ≤ peer_book_cap
      → HasUniqueNodes (remember_enr book enr)
        × (length (remember_enr book enr) ≤ peer_book_cap)
        × (any (λ o. node_id o == node_id enr) (remember_enr book enr) ≡ true)
  unfolding remember_enr
  remember_enr_lem book enr h k = elim (Bool-cases (any (λ o. node_id o == node_id enr) book)) [
    | inl b ↦ rw (remember_enr, b) (h, k, b)
    | inr b ↦ elim (Bool-cases (leb peer_book_cap (length book))) [
      | inl c ↦
          rw (remember_enr, b, c)
            (
              HasUniqueNodes-append (drop 1 book) enr
                  (All-drop book (λ (o : Enr). (node_id o == node_id enr) ≡ false)
                    (others_differ book enr b))
                  (HasUniqueNodes-drop book h),
              omega (arith, length-append (drop 1 book) (enr ∷ []), length-drop 1 book),
              any-append (drop 1 book) enr,
            )
      | inr c ↦
          rw (remember_enr, b, c)
            (
              HasUniqueNodes-append book enr (others_differ book enr b) h,
              ground (arith, c, length-append book (enr ∷ [])),
              any-append book enr,
            )
    ]
  ]
