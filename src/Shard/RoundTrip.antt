-- ===== src/Shard/RoundTrip.antt =====
-- `ShardId::parse` after `pubsub_topic`, and what `parse` accepts.
use rs_waku.Prelude.{◌≡◌, [], ◌∷◌, ◌++◌, arith, All, sym, ap, ◌∙◌, some, Option-cases, inl, inr}
use rs_waku.Prelude.Bytes.{Bytes, IsU16}
use rs_waku.Prelude.Outcome.{Result, ok}
use rs_waku.Prelude.Text.{
  IsFree, slash, strip_prefix, strip_prefix-append, split_once, split_once-append,
  split_once-eq-some, strip_prefix-eq-some,
}
use rs_waku.Prelude.Decimal.{
  show_u16, parse_u16, IsDigit, show_u16-IsDigit, parse_u16-show_u16, parse_u16-IsU16,
}
use rs_waku.Topic.{CoreError}
use rs_waku.Shard.{ShardId, prefix, pubsub_topic, parse, parse_ids}

pub record IsValid (s : ShardId) : Type 0 where
  pub cluster_id : IsU16 s.cluster_id
  pub shard : IsU16 s.shard

digits-IsFree : (s : Bytes) → All IsDigit s → IsFree slash s
digits-IsFree [] h = tt
digits-IsFree (c ∷ s) h = (λ e. omega arith, digits-IsFree s h.1)

-- Every shard's topic parses back to the shard, for every cluster id and shard of 16 bits.
pub parse-pubsub_topic : (s : ShardId) → IsValid s → parse (pubsub_topic s) ≡ ok s
unfolding parse pubsub_topic
parse-pubsub_topic s h = ground (
  arith,
  strip_prefix-append prefix (show_u16 s.cluster_id ++ slash ∷ show_u16 s.shard),
  split_once-append slash (show_u16 s.cluster_id) (show_u16 s.shard)
      (digits-IsFree _ (show_u16-IsDigit s.cluster_id h.cluster_id)),
  parse_u16-show_u16 s.cluster_id h.cluster_id,
  parse_u16-show_u16 s.shard h.shard,
)

ok-injective : {a b : ShardId} → ◌≡◌ {A = Result CoreError ShardId} (ok a) (ok b) → a ≡ b
ok-injective h = cc

-- Different shards have different topics.
pub pubsub_topic-injective :
    (s t : ShardId) → IsValid s → IsValid t → pubsub_topic s ≡ pubsub_topic t → s ≡ t
pubsub_topic-injective s t hs ht e =
    ok-injective (sym (parse-pubsub_topic s hs) ∙ ap parse e ∙ parse-pubsub_topic t ht)

ids_sound :
    (topic c s : Bytes) (i : ShardId)
    → parse_ids topic (parse_u16 c) (parse_u16 s) ≡ ok i
    → (parse_u16 c ≡ some i.cluster_id) × (parse_u16 s ≡ some i.shard)
unfolding parse_ids
ids_sound topic c s i h = ground arith

-- What `parse` accepts is the prefix, a slash and two decimal numbers around it that `u16::from_str`
-- reads as the ids of the result, which fit 16 bits.
pub parse_sound :
    (topic : Bytes) (i : ShardId)
    → parse topic ≡ ok i
    → IsValid i
      × (c : Bytes) × (s : Bytes) × (topic ≡ prefix ++ (c ++ slash ∷ s))
      × (parse_u16 c ≡ some i.cluster_id)
      × (parse_u16 s ≡ some i.shard)
unfolding parse
parse_sound topic i h = elim (Option-cases (strip_prefix prefix topic)) [
  | inl e ↦ absurd (ground arith)
  | inr (rest, e) ↦ elim (Option-cases (split_once slash rest)) [
    | inl f ↦ absurd (ground arith)
    | inr ((c, s), f) ↦
        let (pc, ps) = ids_sound topic c s i (ground arith) in
        (
          record { cluster_id = parse_u16-IsU16 c pc; shard = parse_u16-IsU16 s ps },
          c,
          s,
          ground (
            arith,
            strip_prefix-eq-some prefix topic {t = rest},
            split_once-eq-some slash rest c s,
          ),
          pc,
          ps,
        )
  ]
]
