-- ===== src/Topic/RoundTrip.antt =====
-- `ContentTopic::parse` and `Display` are inverse to one another.
use rs_waku.Prelude.{
  ◌≡◌, ◌≢◌, refl, List, [], ◌∷◌, ◌++◌, false, arith, All, is_empty, sym, ap, ◌∙◌, ◌↔◌,
}
use rs_waku.Prelude.Bytes.{Bytes}
use rs_waku.Prelude.Outcome.{ok}
use rs_waku.Prelude.Text.{
  IsFree, slash, split, strip_prefix, split-append, split-IsFree, split-IsFree_pieces, join,
  join-split,
}
use rs_waku.Topic.{ContentTopic, parse, parse_parts, display}

-- A segment is not empty and holds no slash.
abbrev pub IsSegment : Bytes → Type 0
IsSegment s = (s ≢ []) × IsFree slash s

pub record IsValid (t : ContentTopic) : Type 0 where
  pub application : IsSegment t.application
  pub version : IsSegment t.version
  pub name : IsSegment t.name
  pub encoding : IsSegment t.encoding

is_empty-ne : (s : Bytes) → s ≢ [] → is_empty s ≡ false
is_empty-ne [] h = absurd (h refl)
is_empty-ne (c ∷ s) h = refl

split-display :
    (a v n e : Bytes)
    → IsFree slash a
    → IsFree slash v
    → IsFree slash n
    → IsFree slash e
    → split slash (a ++ slash ∷ (v ++ slash ∷ (n ++ slash ∷ e))) ≡ a ∷ v ∷ n ∷ e ∷ []
split-display a v n e ha hv hn he = simp (
  split-append slash a _ ha,
  split-append slash v _ hv,
  split-append slash n _ hn,
  split-IsFree slash e he,
)

parse-display : (t : ContentTopic) → IsValid t → parse (display t) ≡ ok t
unfolding parse display strip_prefix
parse-display t h = ground (
  arith,
  split-display t.application t.version t.name t.encoding h.application.1 h.version.1 h.name.1
      h.encoding.1,
  is_empty-ne t.application h.application.0,
  is_empty-ne t.version h.version.0,
  is_empty-ne t.name h.name.0,
  is_empty-ne t.encoding h.encoding.0,
)

nonempty-IsSegment : (s : Bytes) → is_empty s ≡ false → IsFree slash s → IsSegment s
nonempty-IsSegment [] e h = cc
nonempty-IsSegment (c ∷ s) e h = (λ p. cc, h)

parts_sound :
    (s : Bytes) (ps : List Bytes) (t : ContentTopic)
    → All (IsFree slash) ps
    → parse_parts s ps ≡ ok t
    → IsValid t × (display t ≡ slash ∷ join slash ps)
unfolding parse_parts display
parts_sound s [] t f h = cc
parts_sound s (a ∷ []) t f h = cc
parts_sound s (a ∷ v ∷ []) t f h = cc
parts_sound s (a ∷ v ∷ n ∷ []) t f h = cc
parts_sound s (a ∷ v ∷ n ∷ e ∷ []) t f h =
    ground (
      arith,
      nonempty-IsSegment a,
      nonempty-IsSegment v,
      nonempty-IsSegment n,
      nonempty-IsSegment e,
    )
parts_sound s (a ∷ v ∷ n ∷ e ∷ x ∷ ps) t f h = cc

display-parse : (s : Bytes) (t : ContentTopic) → parse s ≡ ok t → IsValid t × (display t ≡ s)
unfolding parse strip_prefix
display-parse [] t h = cc
display-parse (c ∷ s) t h = ground (
  arith,
  split-IsFree_pieces slash s,
  parts_sound (c ∷ s) (split slash s) t (split-IsFree_pieces slash s),
  join-split slash s,
)

-- A text parses to a topic exactly when it is that topic's display, the topic's four segments being
-- non-empty and free of slashes.
pub parse_iff : (s : Bytes) (t : ContentTopic) → (parse s ≡ ok t) ↔ (IsValid t × (display t ≡ s))
parse_iff s t = (display-parse s t, λ h. ap parse (sym h.1) ∙ parse-display t h.0)
