-- ===== src/Enr.antt =====
-- crates/waku-enr/src/lib.rs: the relay-shards fields of an ENR, as an indices list (`rs`) and as a
-- bit vector (`rsv`).
pub mod Shards
pub mod Indices
pub mod BitVector
mod Examples
use Prim.Native.Nat.{bit_and, bit_or}
use rs_waku.Prelude.{
  ℕ, zero, suc, ◌+◌, ◌-◌, ◌*◌, ◌/◌, ◌%◌, ◌^◌, List, [], ◌∷◌, ◌++◌, map, Bool, ◌&&◌, not, leb, ltb,
  eqb, if◌then◌else◌, length, replicate, get_or, set,
}
use rs_waku.Prelude.Bytes.{Bytes, to_be_bytes, from_be_bytes}
use rs_waku.Prelude.Eq.{contains, nat_eq}
use rs_waku.Prelude.Outcome.{Result, ok, err, ◌>>=◌}
use rs_waku.Shard.{ShardId}

pub data EnrError : Type 0 where
  too_short : ℕ → EnrError
  indices_length_mismatch : ℕ → ℕ → EnrError
  bit_vector_length : ℕ → ℕ → EnrError
  shard_out_of_range : ℕ → EnrError
  too_many_shards : ℕ → EnrError

pub record RelayShards : Type 0 where
  pub cluster_id : ℕ
  pub shards : List ℕ

-- Rust's `sort_unstable` on numbers: the sorted list is determined, however it is found.
insert_sorted : ℕ → List ℕ → List ℕ
insert_sorted x [] = x ∷ []
insert_sorted x (y ∷ ys) = if leb x y then x ∷ y ∷ ys else y ∷ insert_sorted x ys

sort : List ℕ → List ℕ
sort [] = []
sort (x ∷ xs) = insert_sorted x (sort xs)

-- Rust's `dedup`: of equal neighbours the first stays.
dedup_from : ℕ → List ℕ → List ℕ
dedup_from x [] = x ∷ []
dedup_from x (y ∷ ys) = let rest = dedup_from y ys in if eqb x y then rest else x ∷ rest

dedup : List ℕ → List ℕ
unfolding dedup_from
dedup [] = []
dedup (x ∷ xs) = dedup_from x xs

unfoldable pub new : ℕ → List ℕ → RelayShards
unfolding sort insert_sorted dedup
new cluster_id shards = record { cluster_id = cluster_id; shards = dedup (sort shards) }

unfoldable pub shard_ids : RelayShards → List ShardId
shard_ids rs = map (λ s. record { cluster_id = rs.cluster_id; shard = s }) rs.shards

unfoldable pub contains_shard : RelayShards → ℕ → ℕ → Bool
contains_shard rs cluster_id shard = eqb rs.cluster_id cluster_id && contains rs.shards shard

-- The bytes of the shards, one after the other.
unfoldable pub shard_bytes : List ℕ → Bytes
shard_bytes [] = []
shard_bytes (s ∷ rest) = to_be_bytes 2 s ++ shard_bytes rest

unfoldable pub to_indices_list : RelayShards → Result EnrError Bytes
unfolding shard_bytes
to_indices_list rs =
    if ltb 255 (length rs.shards)
    then err (too_many_shards (length rs.shards))
    else ok (to_be_bytes 2 rs.cluster_id ++ length rs.shards % 256 ∷ shard_bytes rs.shards)

-- `chunks_exact(2)` of the bytes behind the header, each as a word; an odd byte is left out.
unfoldable pub chunk_words : Bytes → List ℕ
chunk_words (a ∷ b ∷ rest) = from_be_bytes (a ∷ b ∷ []) ∷ chunk_words rest
chunk_words _ = []

unfoldable pub from_indices_list : Bytes → Result EnrError RelayShards
unfolding chunk_words
from_indices_list (a ∷ b ∷ count ∷ rest) =
    if eqb (3 + length rest) (3 + count * 2)
    then ok (record { cluster_id = from_be_bytes (a ∷ b ∷ []); shards = chunk_words rest })
    else err (indices_length_mismatch (3 + count * 2) (3 + length rest))
from_indices_list bytes = err (too_short (length bytes))

abbrev pub bit_vector_shards : ℕ
bit_vector_shards = 1024

abbrev pub bit_vector_bytes : ℕ
bit_vector_bytes = bit_vector_shards / 8

-- `1 << (7 - idx % 8)`, the most significant bit first.
abbrev pub mask : ℕ → ℕ
mask idx = 2 ^ (7 - idx % 8)

-- The loop of `to_bit_vector` over the vector behind the cluster id.
unfoldable pub set_bits : List ℕ → Bytes → Result EnrError Bytes
set_bits [] out = ok out
set_bits (s ∷ rest) out =
    let more = set_bits rest (set out (s / 8) (bit_or (get_or out (s / 8) 0) (mask s))) in
    if leb bit_vector_shards s then err (shard_out_of_range s) else more

unfoldable pub to_bit_vector : RelayShards → Result EnrError Bytes
unfolding set_bits
to_bit_vector rs = do
  bits ← set_bits rs.shards (replicate bit_vector_bytes 0)
  ok (to_be_bytes 2 rs.cluster_id ++ bits)

unfoldable pub test_bit : Bytes → ℕ → Bool
test_bit bits idx = not (eqb (bit_and (get_or bits (idx / 8) 0) (mask idx)) 0)

-- The loop of `from_bit_vector`, over the `n` indices from `idx` on.
unfoldable pub read_bits : ℕ → ℕ → Bytes → List ℕ
read_bits zero idx bits = []
read_bits (suc n) idx bits =
    let rest = read_bits n (idx + 1) bits in if test_bit bits idx then idx % 2 ^ 16 ∷ rest else rest

unfoldable pub from_bit_vector : Bytes → Result EnrError RelayShards
from_bit_vector (a ∷ b ∷ bits) =
    if eqb (2 + length bits) (2 + bit_vector_bytes)
    then ok (record {
      cluster_id = from_be_bytes (a ∷ b ∷ []);
      shards = read_bits bit_vector_shards 0 bits;
    })
    else err (bit_vector_length (2 + bit_vector_bytes) (2 + length bits))
from_bit_vector bytes = err (bit_vector_length (2 + bit_vector_bytes) (length bytes))
