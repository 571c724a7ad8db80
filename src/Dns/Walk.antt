-- ===== src/Dns/Walk.antt =====
-- The loop of `resolve` of dns.rs, over a stack of hashes whose head is the top.
use rs_waku.Prelude.{ℕ, zero, suc, List, [], ◌∷◌, ◌++◌, Bool, true, false, ◌||◌, is_empty}
use rs_waku.Prelude.Bytes.{Bytes}
use rs_waku.Prelude.Eq.{nat_eq, list_eq, contains}
use rs_waku.Dns.{Calls, content_of, children_of, enrs_of}

-- `asked` logs the hashes whose records were looked up, the last one first, and `truncated` the warning
-- that the cap was hit.
pub record Walk (Enr : Type 0) : Type 0 where
  pub visited : List Bytes
  pub enrs : List Enr
  pub asked : List Bytes
  pub truncated : Bool

abbrev pub start : {Enr : Type 0} → Walk Enr
start = record { visited = []; enrs = []; asked = []; truncated = false }

-- `stack.push` of each.
unfoldable pub push_all : List Bytes → List Bytes → List Bytes
push_all [] stack = stack
push_all (child ∷ rest) stack = push_all rest (child ∷ stack)

-- `continue` on an empty or a visited hash.
abbrev pub is_skipped : {Enr : Type 0} → Walk Enr → Bytes → Bool
is_skipped s hash = is_empty hash || contains s.visited hash

module _ {Enr Key Signature : Type 0} (c : Calls Enr Key Signature) (domain : Bytes) where
  unfoldable pub visit : Walk Enr → Bytes → Walk Enr
  visit s hash = record {
    visited = hash ∷ s.visited;
    enrs = s.enrs ++ enrs_of c (content_of c domain hash);
    asked = hash ∷ s.asked;
    truncated = s.truncated;
  }

  unfoldable pub walk : ℕ → Walk Enr → List Bytes → Walk Enr
  unfolding visit push_all
  walk budget s [] = s
  walk zero s (hash ∷ stack) = elim (is_skipped s hash) [
    | true ↦ walk zero s stack
    | false ↦ record s { visited = hash ∷ s.visited; truncated = true }
  ]
  walk (suc budget) s (hash ∷ stack) = elim (is_skipped s hash) [
    | true ↦ walk (suc budget) s stack
    | false ↦ walk budget (visit s hash) (push_all (children_of c (content_of c domain hash)) stack)
  ]
