-- ===== src/Frame/Varint.antt =====
-- Varints: what is written is read back, and what is read takes at most ten bytes.
use rs_waku.Prelude.{
  sym, ℕ, zero, suc, ◌+◌, ◌*◌, ◌/◌, ◌%◌, ◌^◌, ◌≡◌, ◌≤◌, ◌<◌, ap, ◌∙◌, [], ◌∷◌, ◌++◌, arith, length,
  All, some, dec_lt,
}
use rs_waku.Prelude.Bits.{low_bits, bit_and_ones, top_bit, set_top_bit, bit_or_disjoint}
use rs_waku.Prelude.Bytes.{Bytes, IsBytes}
use rs_waku.Prelude.Outcome.{ok, err}
use rs_waku.Frame.{
  read_loop, read_uvarint, write_loop, write_uvarint, add_group, push, varint_overflow,
}
use native.Mathlib.Nat.{div-add-mod}
use native.Mathlib.Numerals.{towards_suc}

-- One round of each loop, on a group that is the last and on one that is not.
write_last : (room v : ℕ) → v < 128 → write_loop (suc room) v ≡ some (v ∷ [])
unfolding write_loop
write_last room v h = ground (arith, bit_and_ones v)

write_more :
    (room v : ℕ)
    → 128 ≤ v
    → write_loop (suc room) v ≡ push (v % 128 + 128) (write_loop room (v / 128))
unfolding write_loop
write_more room v h = ground (arith, bit_and_ones v, set_top_bit (v % 128))

add_group_lem :
    (value g byte shift : ℕ)
    → byte < 256
    → byte % 128 ≡ g
    → value < 2 ^ shift
    → value + g * 2 ^ shift < 2 ^ 64
    → add_group value byte shift ≡ value + g * 2 ^ shift
add_group_lem value g byte shift hb hg hv fits =
    rw (low_bits byte hb, hg) (ground (arith, bit_or_disjoint shift value g hv))

read_last :
    (value g shift : ℕ) (rest : Bytes)
    → g < 128
    → value < 2 ^ shift
    → value + g * 2 ^ shift < 2 ^ 64
    → read_loop (g ∷ rest) value shift ≡ ok (value + g * 2 ^ shift, rest)
unfolding read_loop
read_last value g shift rest hg hv fits =
    rw (add_group_lem value g g shift (omega arith) (omega arith) hv fits)
      (ground (arith, top_bit g))

read_more :
    (value g shift : ℕ) (rest : Bytes)
    → g < 128
    → shift + 7 < 64
    → value < 2 ^ shift
    → value + g * 2 ^ shift < 2 ^ 64
    → read_loop ((g + 128) ∷ rest) value shift ≡ read_loop rest (value + g * 2 ^ shift) (shift + 7)
unfolding read_loop
read_more value g shift rest hg hs hv fits =
    rw (add_group_lem value g (g + 128) shift (omega arith) (omega arith) hv fits)
      (ground (arith, top_bit (g + 128)))

next_weight : (shift : ℕ) → 128 * 2 ^ shift ≡ 2 ^ (shift + 7)
next_weight shift = simp towards_suc (omega arith)

-- A value is its lowest group and the rest, each of its weight.
split_group : (v shift : ℕ) → v / 128 * 2 ^ (shift + 7) + v % 128 * 2 ^ shift ≡ v * 2 ^ shift
split_group v shift =
    let weight : v / 128 * (128 * 2 ^ shift) ≡ v / 128 * 2 ^ (shift + 7) =
      ap (λ (x : ℕ). v / 128 * x) (next_weight shift) in
    let whole : (128 * (v / 128) + v % 128) * 2 ^ shift ≡ v * 2 ^ shift =
      ap (λ (x : ℕ). x * 2 ^ shift) (div-add-mod v 128) in
    omega (arith, weight, whole)

group_below : (value g s : ℕ) → value < 2 ^ s → g < 128 → value + g * 2 ^ s < 2 ^ (s + 7)
group_below value g s hv hg = rw (sym (next_weight s)) (grind arith)

-- `bs` is what `write_loop` writes of `v`, and `read_loop` reads it back on top of `value`.
record Carries (room v value shift : ℕ) (rest : Bytes) (bs : Bytes) : Type 0 where
  written : write_loop room v ≡ some bs
  read : read_loop (bs ++ rest) value shift ≡ ok (value + v * 2 ^ shift, rest)
  size : (1 ≤ length bs) × (length bs ≤ room)
  bytes : IsBytes bs

last_group :
    (room v value shift : ℕ) (rest : Bytes)
    → v < 128
    → value < 2 ^ shift
    → value + v * 2 ^ shift < 2 ^ 64
    → Carries (suc room) v value shift rest (v ∷ [])
last_group room v value shift rest h hv fits = record {
  written = write_last room v h;
  read = read_last value v shift rest h hv fits;
  size = omega arith;
  bytes = omega arith;
}

all_groups :
    (k v value shift : ℕ) (rest : Bytes)
    → v < 128 ^ suc k
    → shift + 7 * k < 64
    → value < 2 ^ shift
    → value + v * 2 ^ shift < 2 ^ 64
    → (bs : Bytes) × Carries (suc k) v value shift rest bs
all_groups zero v value shift rest h hs hv fits =
    (v ∷ [], last_group 0 v value shift rest (omega arith) hv fits)
all_groups (suc k) v value shift rest h hs hv fits = elim (dec_lt v 128) [
  | yes small ↦ (v ∷ [], last_group (suc k) v value shift rest small hv fits)
  | no large ↦
      let value' : ℕ = value + v % 128 * 2 ^ shift in
      let sum : value' + v / 128 * 2 ^ (shift + 7) ≡ value + v * 2 ^ shift =
        omega (arith, split_group v shift) in
      let (bs, c) =
        all_groups k (v / 128) value' (shift + 7) rest (omega arith) (omega arith)
          (group_below value (v % 128) shift hv (omega arith)) (omega arith) in
      (
        (v % 128 + 128) ∷ bs,
        record {
          written = write_more (suc k) v (omega arith) ∙ ap (push (v % 128 + 128)) c.written;
          read =
              read_more value (v % 128) shift (bs ++ rest) (omega arith) (omega arith) hv
                (omega arith)
              ∙ c.read
              ∙ ap (λ (t : ℕ). ok (t, rest)) sum;
          size = omega (arith, c.size);
          bytes = (omega arith, c.bytes);
        },
      )
]

-- Every 64-bit number is written, in one to ten bytes without a fault, and read back with what
-- follows it left on the stream.
pub read_uvarint-write_uvarint :
    (v : ℕ) (rest : Bytes)
    → v < 2 ^ 64
    → (bs : Bytes) × (write_uvarint v ≡ some bs)
      × (read_uvarint (bs ++ rest) ≡ ok (v, rest))
      × (1 ≤ length bs)
      × (length bs ≤ 10)
      × IsBytes bs
unfolding write_uvarint read_uvarint
read_uvarint-write_uvarint v rest h =
    let (bs, c) = all_groups 9 v 0 0 rest (omega arith) (omega arith) (omega arith) (omega arith) in
    (
      bs,
      c.written,
      c.read ∙ ap (λ (t : ℕ). ok (t, rest)) (omega arith),
      c.size.0,
      c.size.1,
      c.bytes,
    )

read_loop_takes :
    (io : Bytes) (value shift j v : ℕ) (rest : Bytes)
    → shift ≡ 7 * j
    → j ≤ 9
    → read_loop io value shift ≡ ok (v, rest)
    → (length rest < length io) × (length io + j ≤ length rest + 10)
unfolding read_loop
read_loop_takes [] value shift j v rest hs hj e = cc
read_loop_takes (b ∷ bs) value shift j v rest hs hj e =
    ground (arith, read_loop_takes bs (add_group value b shift) (shift + 7) (j + 1) v rest)

-- On any stream, a varint that is read takes one to ten bytes.
pub read_uvarint_takes :
    (io : Bytes) (v : ℕ) (rest : Bytes)
    → read_uvarint io ≡ ok (v, rest)
    → (length rest < length io) × (length io ≤ length rest + 10)
unfolding read_uvarint
read_uvarint_takes io v rest e = ground (arith, read_loop_takes io 0 0 0 v rest)

overflow_loop :
    (front rest : Bytes) (value shift j : ℕ)
    → shift ≡ 7 * j
    → length front + j ≡ 10
    → j ≤ 9
    → All (λ b. (128 ≤ b) × (b < 256)) front
    → read_loop (front ++ rest) value shift ≡ err varint_overflow
unfolding read_loop
overflow_loop [] rest value shift j hs hj hk h = absurd (omega arith)
overflow_loop (b ∷ bs) rest value shift j hs hj hk h =
    ground (arith, top_bit b, overflow_loop bs rest (add_group value b shift) (shift + 7) (j + 1))

-- Ten bytes that all carry the continuation bit are refused, whatever follows them.
pub read_uvarint_overflow :
    (front rest : Bytes)
    → length front ≡ 10
    → All (λ b. (128 ≤ b) × (b < 256)) front
    → read_uvarint (front ++ rest) ≡ err varint_overflow
unfolding read_uvarint
read_uvarint_overflow front rest n h =
    overflow_loop front rest 0 0 0 (omega arith) (omega arith) (omega arith) h
