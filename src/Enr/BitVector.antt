-- ===== src/Enr/BitVector.antt =====
-- The bit-vector codec.
use Prim.Native.Nat.{bit_or}
use rs_waku.Prelude.{
  ℕ, zero, suc, ◌+◌, ◌-◌, ◌*◌, ◌/◌, ◌%◌, ◌≡◌, ◌≤◌, ◌<◌, refl, ap, ◌∙◌, List, [], ◌∷◌, ◌++◌, true,
  false, ◌&&◌, ◌||◌, arith, length, All, length-set, length-replicate, eqb, leb, ltb, get_or, set,
  replicate, get_or-set_self, get_or-set_ne, get_or-replicate, All-set, All-get_or, All-replicate,
  ℕ_discrete, Bool-cases, inl, inr,
}
use rs_waku.Prelude.Bits.{bit_or-lt, bit_and-bit_or, zero-bit_and}
use rs_waku.Prelude.Bytes.{Bytes, IsU16, IsByte, IsBytes, two_bytes, word_of_bytes}
use rs_waku.Prelude.Eq.{contains, nat_eq}
use rs_waku.Prelude.Outcome.{ok, err}
use rs_waku.Enr.{
  RelayShards, mask, set_bits, test_bit, read_bits, to_bit_vector, from_bit_vector,
  shard_out_of_range,
}
use rs_waku.Enr.Shards.{StrictFrom, strict-eq, strict_weaken}

abbrev IsBitShard : ℕ → Type 0
IsBitShard s = s < 1024

same_index : (s idx : ℕ) → s / 8 ≡ idx / 8 → eqb (7 - s % 8) (7 - idx % 8) ≡ eqb s idx
same_index s idx h = ground arith

module _ (out : Bytes) (s : ℕ) (bytes : IsBytes out) (room : s / 8 < length out) where
  abbrev write : Bytes
  write = set out (s / 8) (bit_or (get_or out (s / 8) 0) (mask s))

  old_byte : get_or out (s / 8) 0 < 256
  old_byte = All-get_or IsByte out (s / 8) 0 bytes (omega arith)

  write-IsBytes : IsBytes write
  write-IsBytes =
      All-set IsByte out (s / 8) _ bytes (bit_or-lt _ (7 - s % 8) old_byte (omega arith))

  -- A write sets the bit of its shard and no other.
  test_bit-write : (idx : ℕ) → test_bit write idx ≡ (eqb s idx || test_bit out idx)
  unfolding test_bit
  test_bit-write idx = elim (ℕ_discrete (s / 8) (idx / 8)) [
    | yes e ↦ ground (
      arith,
      ap (λ (t : ℕ). get_or write t 0) e,
      ap (λ (t : ℕ). get_or out t 0) e,
      get_or-set_self out (s / 8) (bit_or (get_or out (s / 8) 0) (mask s)) 0 room,
      same_index s idx e,
      bit_and-bit_or (get_or out (s / 8) 0) (7 - s % 8) (7 - idx % 8) old_byte (omega arith)
          (omega arith),
    )
    | no n ↦
        ground
          (arith, get_or-set_ne out (s / 8) (idx / 8) (bit_or (get_or out (s / 8) 0) (mask s)) 0 n)
  ]

-- Setting the bits of the shards one by one.
set_bits_lem :
    (ss : List ℕ) (out : Bytes)
    → All IsBitShard ss
    → IsBytes out
    → length out ≡ 128
    → (bits : Bytes) × (set_bits ss out ≡ ok bits)
      × (length bits ≡ 128)
      × ((idx : ℕ) → test_bit bits idx ≡ (contains ss idx || test_bit out idx))
unfolding set_bits
set_bits_lem [] out h b l = (out, refl, l, λ idx. refl)
set_bits_lem (s ∷ ss) out h b l =
    let (bits, e, n, t) =
      set_bits_lem ss (write out s b (omega arith)) h.1 (write-IsBytes out s b (omega arith))
        (length-set out (s / 8) _ ∙ l) in
    (
      bits,
      ground (arith, e, h.0),
      n,
      λ idx. ground (arith, t idx, test_bit-write out s b (omega arith) idx),
    )

read_bits-StrictFrom :
    (n idx : ℕ) (bits : Bytes) → idx + n ≤ 65536 → StrictFrom idx (read_bits n idx bits)
unfolding read_bits
read_bits-StrictFrom zero idx bits h = tt
read_bits-StrictFrom (suc n) idx bits h =
    let later = read_bits-StrictFrom n (idx + 1) bits (omega arith) in
    let small : idx % 65536 ≡ idx = omega arith in
    elim (Bool-cases (test_bit bits idx)) [
      | inl e ↦ rw (e, small) (omega arith, later)
      | inr e ↦ rw e (strict_weaken idx (idx + 1) _ (omega arith) later)
    ]

contains-read_bits :
    (n idx a : ℕ) (bits : Bytes)
    → idx + n ≤ 65536
    → contains (read_bits n idx bits) a ≡ (leb idx a && ltb a (idx + n) && test_bit bits a)
unfolding read_bits
contains-read_bits zero idx a bits h = ground arith
contains-read_bits (suc n) idx a bits h = elim (ℕ_discrete idx a) [
  | yes e ↦
      ground (arith, ap (test_bit bits) e, contains-read_bits n (idx + 1) a bits (omega arith))
  | no e ↦ ground (arith, contains-read_bits n (idx + 1) a bits (omega arith))
]

test_bit_empty : (idx : ℕ) → test_bit (replicate 128 0) idx ≡ false
unfolding test_bit
test_bit_empty idx = rw (get_or-replicate {A = ℕ} 128 (idx / 8) 0, zero-bit_and (mask idx))

members_below : (ss : List ℕ) (a : ℕ) → All IsBitShard ss → contains ss a ≡ true → a < 1024
members_below [] a h e = cc
members_below (s ∷ ss) a h e = ground (arith, members_below ss a)

read_back :
    (ss : List ℕ) (bits : Bytes)
    → StrictFrom 0 ss
    → All IsBitShard ss
    → ((idx : ℕ) → test_bit bits idx ≡ (contains ss idx || test_bit (replicate 128 0) idx))
    → read_bits 1024 0 bits ≡ ss
read_back ss bits s h t =
    strict-eq 0 (read_bits 1024 0 bits) ss (read_bits-StrictFrom 1024 0 bits (omega arith)) s λ a.
      ground (
        arith,
        contains-read_bits 1024 0 a bits (omega arith),
        t a,
        test_bit_empty a,
        members_below ss a h,
      )

decode_vector :
    (hi lo : ℕ) (bits : Bytes)
    → length bits ≡ 128
    → from_bit_vector (hi ∷ lo ∷ bits)
      ≡ ok (record { cluster_id = hi * 256 + lo; shards = read_bits 1024 0 bits })
unfolding from_bit_vector
decode_vector hi lo bits h = rw (h, word_of_bytes hi lo)

-- The bit vector of strictly ascending shards below 1024 decodes to the same cluster and shards.
pub from_bit_vector-to_bit_vector :
    (rs : RelayShards)
    → IsU16 rs.cluster_id
    → StrictFrom 0 rs.shards
    → All IsBitShard rs.shards
    → (bs : Bytes) × (to_bit_vector rs ≡ ok bs) × (from_bit_vector bs ≡ ok rs)
unfolding to_bit_vector
from_bit_vector-to_bit_vector rs c s h =
    let (bits, e, n, t) =
      set_bits_lem rs.shards (replicate 128 0) h (All-replicate IsByte 128 0 (omega arith))
        (length-replicate {A = ℕ} 128 0) in
    let word : rs.cluster_id / 256 * 256 + rs.cluster_id % 256 ≡ rs.cluster_id = omega arith in
    (
      rs.cluster_id / 256 ∷ rs.cluster_id % 256 ∷ bits,
      ground (arith, e, two_bytes rs.cluster_id c),
      decode_vector (rs.cluster_id / 256) (rs.cluster_id % 256) bits n
          ∙ (λ i. ok (record { cluster_id = word i; shards = read_back rs.shards bits s h t i })),
    )

set_bits_refuses :
    (s : ℕ) (out : Bytes) (front back : List ℕ)
    → All IsBitShard front
    → 1024 ≤ s
    → set_bits (front ++ s ∷ back) out ≡ err (shard_out_of_range s)
unfolding set_bits
set_bits_refuses s out [] back h k = ground arith
set_bits_refuses s out (x ∷ front) back h k = ground (
  arith,
  set_bits_refuses s (set out (x / 8) (bit_or (get_or out (x / 8) 0) (mask x))) front back h.1 k,
)

-- A shard past the vector is refused, and the error names the first such shard of the list.
pub to_bit_vector_refuses :
    (cluster s : ℕ) (front back : List ℕ)
    → All IsBitShard front
    → 1024 ≤ s
    → to_bit_vector (record { cluster_id = cluster; shards = front ++ s ∷ back })
      ≡ err (shard_out_of_range s)
unfolding to_bit_vector
to_bit_vector_refuses cluster s front back h k =
    rw (set_bits_refuses s (replicate 128 0) front back h k)
