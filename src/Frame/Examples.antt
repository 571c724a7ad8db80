-- ===== src/Frame/Examples.antt =====
-- Varints and frames at concrete inputs.
use rs_waku.Prelude.{
  ◌≡◌, ◌≤◌, ◌<◌, ◌+◌, ◌++◌, [], ◌∷◌, refl, arith, some, length, leb, if◌then◌else◌,
}
use rs_waku.Prelude.Bytes.{Bytes, IsBytes, codes}
use rs_waku.Prelude.Outcome.{ok, err}
use rs_waku.Frame.{
  read_loop, read_uvarint, write_loop, write_uvarint, read_exact, read_lp, write_lp, frame_too_long,
}
use rs_waku.Frame.Varint.{read_uvarint-write_uvarint, read_uvarint_takes}
use rs_waku.Frame.Framing.{read_lp-write_lp}
use rs_waku.Frame.Codecs.{Protobuf}

write_300 : write_uvarint 300 ≡ some (0xac ∷ 0x02 ∷ [])
unfolding write_uvarint write_loop
write_300 = refl

abbrev padded : Bytes
padded = 0x80 ∷ 0x00 ∷ 7 ∷ []

-- A padded form, which is never written, is read.
read_padded : read_uvarint padded ≡ ok (0, 7 ∷ [])
unfolding read_uvarint read_loop
read_padded = refl

read_uvarint-write_uvarint_example :
    (bs : Bytes) × (write_uvarint 300 ≡ some bs)
    × (read_uvarint (bs ++ codes "x") ≡ ok (300, codes "x"))
    × (1 ≤ length bs)
    × (length bs ≤ 10)
    × IsBytes bs
read_uvarint-write_uvarint_example = read_uvarint-write_uvarint 300 (codes "x") (omega arith)

read_uvarint_takes_example : (1 < 3) × (3 ≤ 1 + 10)
read_uvarint_takes_example = read_uvarint_takes padded 0 (7 ∷ []) read_padded

read_lp-write_lp_example :
    (frame : Bytes) × (write_lp (codes "hello") ≡ some frame)
    × (length frame ≤ 10 + length (codes "hello"))
    × (read_lp 4 (frame ++ codes "x") ≡ (
        if leb (length (codes "hello")) 4
        then ok (codes "hello", codes "x")
        else err frame_too_long))
read_lp-write_lp_example = read_lp-write_lp (codes "hello") (codes "x") 4 (omega arith)

short_frame : read_lp 4 (2 ∷ 7 ∷ 8 ∷ 9 ∷ []) ≡ ok (7 ∷ 8 ∷ [], 9 ∷ [])
unfolding read_lp read_exact read_uvarint read_loop
short_frame = refl

-- A message type whose encoding is the bytes themselves.
abbrev raw : Protobuf Bytes
raw = record { encode = λ m. m; decode = λ bs. some bs; decode-encode = λ m. refl }
