-- ===== src/Frame/Framing.antt =====
-- Length-prefixed frames.
use rs_waku.Prelude.{
  ℕ, ◌+◌, ◌%◌, ◌^◌, ◌≡◌, ◌≤◌, ◌<◌, ap, ◌∙◌, ◌++◌, some, arith, length, append_assoc, take-append,
  drop-append, length-append, length-take, leb, if◌then◌else◌, take-append-drop,
}
use rs_waku.Prelude.Bytes.{Bytes}
use rs_waku.Prelude.Outcome.{ok, err, >>=-eq-ok}
use rs_waku.Frame.{read_lp, write_lp, read_exact, read_uvarint, frame_too_long}
use rs_waku.Frame.Varint.{read_uvarint-write_uvarint, read_uvarint_takes}

read_exact-append :
    (payload rest : Bytes) → read_exact (length payload) (payload ++ rest) ≡ ok (payload, rest)
unfolding read_exact
read_exact-append payload rest =
    ground (arith, length-append payload rest, take-append payload rest, drop-append payload rest)

-- A payload shorter than 2^64 is written without a fault, as a prefix of at most ten bytes and the
-- payload. A reader whose limit admits its length gets it back, what follows staying on the stream;
-- a reader with a smaller limit refuses the frame as too long.
pub read_lp-write_lp :
    (payload rest : Bytes) (limit : ℕ)
    → length payload < 2 ^ 64
    → (frame : Bytes) × (write_lp payload ≡ some frame)
      × (length frame ≤ 10 + length payload)
      × (read_lp limit (frame ++ rest)
          ≡ (if leb (length payload) limit then ok (payload, rest) else err frame_too_long))
unfolding write_lp read_lp
read_lp-write_lp payload rest limit h =
    let (bs, w, r, lo, hi, b) = read_uvarint-write_uvarint (length payload) (payload ++ rest) h in
    let small : length payload % 2 ^ 64 ≡ length payload = omega arith in
    let whole = ap read_uvarint (append_assoc bs payload rest) ∙ r in
    (
      bs ++ payload,
      ground (arith, w, small),
      omega (arith, length-append bs payload),
      ground (arith, whole, read_exact-append payload rest),
    )

read_exact_lem :
    (n : ℕ) (io payload rest : Bytes)
    → read_exact n io ≡ ok (payload, rest)
    → (length payload ≡ n) × (io ≡ payload ++ rest)
unfolding read_exact
read_exact_lem n io payload rest h = ground (arith, length-take n io, take-append-drop n io)

-- Whatever a peer sends, a frame that is read is at most as long as the limit, and what is left is
-- the end of the stream, behind the frame.
pub read_lp_bounds :
    (limit : ℕ) (io payload rest : Bytes)
    → read_lp limit io ≡ ok (payload, rest)
    → (length payload ≤ limit) × (length payload + length rest < length io)
unfolding read_lp
read_lp_bounds limit io payload rest h =
    let ((len, mid), e, k) = >>=-eq-ok (read_uvarint io) _ h in
    ground (
      arith,
      k,
      read_uvarint_takes io len mid e,
      read_exact_lem len mid payload rest,
      length-append payload rest,
    )
