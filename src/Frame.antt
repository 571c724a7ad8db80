-- ===== src/Frame.antt =====
-- The length-prefixed framing that metadata, store, light push, peer exchange and filter each write
-- out in their own crate: an unsigned varint of the length, then the protobuf bytes. A stream is the
-- list of the bytes that the peer sends before it closes; a read takes from its front. The five
-- copies differ only in the frame limit and in an error's text; the definitions are translated from
-- crates/waku-filter/src/lib.rs, and the crates' own limits are in Frame/Codecs.
pub mod Varint
pub mod Framing
pub mod Codecs
mod Examples
use Prim.Native.Nat.{bit_and, bit_or}
use rs_waku.Prelude.{
  ℕ, zero, suc, ◌+◌, ◌*◌, ◌/◌, ◌%◌, ◌^◌, [], ◌∷◌, ◌++◌, Option, none, some, eqb, ltb, leb,
  if◌then◌else◌, length, take, drop,
}
use rs_waku.Prelude.Bytes.{Bytes}
use rs_waku.Prelude.Outcome.{Result, ok, err, ◌>>=◌}

pub data IoError : Type 0 where
  unexpected_eof varint_overflow frame_too_long invalid_data : IoError

-- `value |= ((byte & 0x7f) as u64) << shift`, on 64 bits.
abbrev pub add_group : ℕ → ℕ → ℕ → ℕ
add_group value byte shift = bit_or value (bit_and byte 0x7f * 2 ^ shift % 2 ^ 64)

-- The loop of `read_uvarint`; `usize` has 64 bits.
unfoldable pub read_loop : Bytes → ℕ → ℕ → Result IoError (ℕ × Bytes)
read_loop [] value shift = err unexpected_eof
read_loop (byte ∷ rest) value shift =
    let value' = add_group value byte shift in
    let more = read_loop rest value' (shift + 7) in
    if eqb (bit_and byte 0x80) 0
    then ok (value', rest)
    else if leb 64 (shift + 7)
    then err varint_overflow
    else more

unfoldable pub read_uvarint : Bytes → Result IoError (ℕ × Bytes)
read_uvarint io = read_loop io 0 0

abbrev pub push : ℕ → Option Bytes → Option Bytes
push b none = none
push b (some bs) = some (b ∷ bs)

-- The loop of `write_uvarint`; `room` is what is left of the ten-byte buffer, and `none` the panic
-- of an index behind it.
unfoldable pub write_loop : ℕ → ℕ → Option Bytes
write_loop zero v = none
write_loop (suc room) v =
    let byte = bit_and v 0x7f % 256 in
    let more = write_loop room (v / 2 ^ 7) in
    if eqb (v / 2 ^ 7) 0 then some (byte ∷ []) else push (bit_or byte 0x80) more

unfoldable pub write_uvarint : ℕ → Option Bytes
write_uvarint v = write_loop 10 v

-- `read_exact` of `len` bytes.
unfoldable pub read_exact : ℕ → Bytes → Result IoError (Bytes × Bytes)
read_exact len io =
    if leb len (length io) then ok (take len io, drop len io) else err unexpected_eof

unfoldable pub read_lp : ℕ → Bytes → Result IoError (Bytes × Bytes)
read_lp max_frame_len io = do
  (len, rest) ← read_uvarint io
  if ltb max_frame_len len then err frame_too_long else read_exact len rest

-- What `write_lp` puts on the stream.
unfoldable pub write_lp : Bytes → Option Bytes
write_lp payload = elim (write_uvarint (length payload % 2 ^ 64)) [
  | none ↦ none
  | some prefix ↦ some (prefix ++ payload)
]
