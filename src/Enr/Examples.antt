-- ===== src/Enr/Examples.antt =====
-- Relay shards at concrete inputs.
use rs_waku.Prelude.{◌≡◌, [], ◌∷◌, refl, arith}
use rs_waku.Prelude.Bytes.{Bytes, from_be_bytes}
use rs_waku.Prelude.Outcome.{ok}
use rs_waku.Enr.{RelayShards, new, from_indices_list, to_bit_vector, from_bit_vector}
use rs_waku.Enr.BitVector.{from_bit_vector-to_bit_vector}

abbrev four : RelayShards
four = record { cluster_id = 1; shards = 0 ∷ 7 ∷ 8 ∷ 1023 ∷ [] }

new_sorts : (new 1 (7 ∷ 1 ∷ 7 ∷ 0 ∷ 1 ∷ [])).shards ≡ 0 ∷ 1 ∷ 7 ∷ []
unfolding new
new_sorts = refl

abbrev one_shard : Bytes
one_shard = 0 ∷ 1 ∷ 1 ∷ 0 ∷ 3 ∷ []

decode_one : from_indices_list one_shard ≡ ok (record { cluster_id = 1; shards = 3 ∷ [] })
unfolding from_indices_list from_be_bytes
decode_one = refl

from_bit_vector-to_bit_vector_example :
    (bs : Bytes) × (to_bit_vector four ≡ ok bs) × (from_bit_vector bs ≡ ok four)
from_bit_vector-to_bit_vector_example =
    from_bit_vector-to_bit_vector four (omega arith) (omega arith) (omega arith)
