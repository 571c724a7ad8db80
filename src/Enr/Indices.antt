-- ===== src/Enr/Indices.antt =====
-- The indices-list codec.
use rs_waku.Prelude.{
  ℕ, ◌-◌, ◌+◌, ◌*◌, ◌/◌, ◌%◌, ◌≡◌, ◌≤◌, refl, ap, ◌∙◌, List, [], ◌∷◌, arith, length, All,
}
use rs_waku.Prelude.Bytes.{
  Bytes, IsU16, IsByte, IsBytes, to_be_bytes, from_be_bytes, two_bytes, word_of_bytes,
}
use rs_waku.Prelude.Outcome.{ok}
use rs_waku.Enr.{RelayShards, to_indices_list, from_indices_list, shard_bytes, chunk_words}

pub record IsWire (rs : RelayShards) : Type 0 where
  pub cluster_id : IsU16 rs.cluster_id
  pub shards : All IsU16 rs.shards
  pub count : length rs.shards ≤ 255

chunk_words-shard_bytes : (ss : List ℕ) → All IsU16 ss → chunk_words (shard_bytes ss) ≡ ss
unfolding chunk_words shard_bytes
chunk_words-shard_bytes [] h = refl
chunk_words-shard_bytes (s ∷ ss) h =
    ground (arith, two_bytes s, word_of_bytes (s / 256) (s % 256), chunk_words-shard_bytes ss)

length-shard_bytes : (ss : List ℕ) → All IsU16 ss → length (shard_bytes ss) ≡ length ss * 2
unfolding shard_bytes
length-shard_bytes [] h = omega arith
length-shard_bytes (s ∷ ss) h = ground (arith, two_bytes s, length-shard_bytes ss)

-- The encoding of at most 255 shards of 16 bits decodes to the same cluster and the same list.
pub from_indices_list-to_indices_list :
    (rs : RelayShards)
    → IsWire rs
    → (bs : Bytes) × (to_indices_list rs ≡ ok bs) × (from_indices_list bs ≡ ok rs)
unfolding to_indices_list from_indices_list
from_indices_list-to_indices_list rs h = (
  rs.cluster_id / 256 ∷ rs.cluster_id % 256 ∷ length rs.shards ∷ shard_bytes rs.shards,
  ground (arith, two_bytes rs.cluster_id h.cluster_id, h.count),
  ground (
    arith,
    h.count,
    h.cluster_id,
    length-shard_bytes rs.shards h.shards,
    word_of_bytes (rs.cluster_id / 256) (rs.cluster_id % 256),
    chunk_words-shard_bytes rs.shards h.shards,
  ),
)

bytes_of_word :
    (a b : ℕ) → IsByte a → IsByte b → to_be_bytes 2 (from_be_bytes (a ∷ b ∷ [])) ≡ a ∷ b ∷ []
bytes_of_word a b ha hb =
    ap (to_be_bytes 2) (word_of_bytes a b) ∙ two_bytes (a * 256 + b) (omega arith) ∙ ground arith

shard_bytes-chunk_words :
    (n : ℕ) (bs : Bytes)
    → IsBytes bs
    → length bs ≡ n * 2
    → (shard_bytes (chunk_words bs) ≡ bs) × (length (chunk_words bs) ≡ n)
unfolding chunk_words shard_bytes
shard_bytes-chunk_words n [] hb h = (refl, omega arith)
shard_bytes-chunk_words n (a ∷ []) hb h = absurd (omega arith)
shard_bytes-chunk_words n (a ∷ b ∷ bs) hb h =
    let (p, q) = shard_bytes-chunk_words (n - 1) bs hb.1.1 (omega arith) in
    (ground (arith, bytes_of_word a b hb.0 hb.1.0, p), omega (arith, q))

encode_decoded :
    (a b count : ℕ) (rest : Bytes)
    → IsByte a
    → IsByte b
    → IsByte count
    → IsBytes rest
    → length rest ≡ count * 2
    → to_indices_list
        (record { cluster_id = from_be_bytes (a ∷ b ∷ []); shards = chunk_words rest })
      ≡ ok (a ∷ b ∷ count ∷ rest)
unfolding to_indices_list
encode_decoded a b count rest ha hb hc hr h =
    let (p, q) = shard_bytes-chunk_words count rest hr h in
    ground (arith, bytes_of_word a b ha hb, p, q)

-- Bytes that decode are what the result encodes to.
pub to_indices_list-from_indices_list :
    (bs : Bytes) (rs : RelayShards)
    → IsBytes bs
    → from_indices_list bs ≡ ok rs
    → to_indices_list rs ≡ ok bs
unfolding from_indices_list
to_indices_list-from_indices_list [] rs hb h = cc
to_indices_list-from_indices_list (a ∷ []) rs hb h = cc
to_indices_list-from_indices_list (a ∷ b ∷ []) rs hb h = cc
to_indices_list-from_indices_list (a ∷ b ∷ count ∷ rest) rs hb h =
    ground (arith, encode_decoded a b count rest hb.0 hb.1.0 hb.1.1.0 hb.1.1.1)
