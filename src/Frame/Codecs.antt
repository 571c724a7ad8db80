-- ===== src/Frame/Codecs.antt =====
-- The codecs of the six request-response protocols: crates/waku-metadata, crates/waku-store
-- (store_query.rs), crates/waku-lightpush, crates/waku-peer-exchange and crates/waku-filter (two).
-- Each reads a frame within its crate's limit and decodes it, and writes the encoding as a frame.
-- What `prost` derives, the encoding of a message type, is a parameter with the law that decoding
-- undoes encoding.
use rs_waku.Prelude.{
  ℕ, ◌*◌, ◌≡◌, ◌<◌, ◌^◌, Option, some, none, arith, length, leb, if◌then◌else◌, ◌++◌,
}
use rs_waku.Prelude.Bytes.{Bytes}
use rs_waku.Prelude.Outcome.{Result, ok, err, ◌>>=◌}
use rs_waku.Frame.{read_lp, write_lp, IoError, invalid_data, frame_too_long}
use rs_waku.Frame.Framing.{read_lp-write_lp}

pub record Protobuf (M : Type 0) : Type 0 where
  pub encode : M → Bytes
  pub decode : Bytes → Option M
  pub decode-encode : (m : M) → decode (encode m) ≡ some m

abbrev decoded {ℓ} : {M : Type ℓ} → Option M → Bytes → Result IoError (M × Bytes)
decoded none rest = err invalid_data
decoded (some m) rest = ok (m, rest)

module _ {M : Type 0} (limit : ℕ) (p : Protobuf M) where
  -- `read_request` and `read_response`
  pub read_message : Bytes → Result IoError (M × Bytes)
  read_message io = do (bytes, rest) ← read_lp limit io; decoded (p.decode bytes) rest

module _ {M : Type 0} (p : Protobuf M) where
  -- `write_request` and `write_response`
  pub write_message : M → Option Bytes
  write_message m = write_lp (p.encode m)

message_roundtrip :
    {M : Type 0} (limit : ℕ) (p : Protobuf M) (m : M) (rest : Bytes)
    → length (p.encode m) < 2 ^ 64
    → (frame : Bytes) × (write_message p m ≡ some frame)
      × (read_message limit p (frame ++ rest)
          ≡ (if leb (length (p.encode m)) limit then ok (m, rest) else err frame_too_long))
unfolding read_message write_message
message_roundtrip limit p m rest h =
    let (frame, w, n, r) = read_lp-write_lp (p.encode m) rest limit h in
    (frame, w, ground (arith, r, p.decode-encode m))

-- The four functions of a `request_response::Codec`.
pub record Codec (Request Response : Type 0) : Type 0 where
  pub read_request : Bytes → Result IoError (Request × Bytes)
  pub read_response : Bytes → Result IoError (Response × Bytes)
  pub write_request : Request → Option Bytes
  pub write_response : Response → Option Bytes

abbrev pub codec : {Q R : Type 0} → ℕ → Protobuf Q → Protobuf R → Codec Q R
codec limit q r = record {
  read_request = read_message limit q;
  read_response = read_message limit r;
  write_request = write_message q;
  write_response = write_message r;
}

-- What one side writes the other reads: a message that encodes within the limit comes back with the
-- rest of the stream, and a longer one is refused as too long, as a request and as a response alike.
pub codec_roundtrip :
    {Q R : Type 0} (q : Protobuf Q) (r : Protobuf R) (limit : ℕ) (req : Q) (res : R) (rest : Bytes)
    → length (q.encode req) < 2 ^ 64
    → length (r.encode res) < 2 ^ 64
    → ((frame : Bytes) × ((codec limit q r).write_request req ≡ some frame)
        × ((codec limit q r).read_request (frame ++ rest)
            ≡ (if leb (length (q.encode req)) limit then ok (req, rest) else err frame_too_long)))
      × ((frame : Bytes) × ((codec limit q r).write_response res ≡ some frame)
          × ((codec limit q r).read_response (frame ++ rest)
              ≡ (if leb (length (r.encode res)) limit then ok (res, rest) else err frame_too_long)))
codec_roundtrip q r limit req res rest h k =
    (message_roundtrip limit q req rest h, message_roundtrip limit r res rest k)

abbrev pub metadata_limit : ℕ
metadata_limit = 64 * 1024

abbrev pub metadata_codec : {M : Type 0} → Protobuf M → Codec M M
metadata_codec m = codec metadata_limit m m

abbrev pub store_limit : ℕ
store_limit = 100 * 1024 * 1024

abbrev pub store_codec : {Q R : Type 0} → Protobuf Q → Protobuf R → Codec Q R
store_codec q r = codec store_limit q r

abbrev pub lightpush_limit : ℕ
lightpush_limit = 1024 * 1024

abbrev pub lightpush_codec : {Q R : Type 0} → Protobuf Q → Protobuf R → Codec Q R
lightpush_codec q r = codec lightpush_limit q r

abbrev pub peer_exchange_limit : ℕ
peer_exchange_limit = 1024 * 1024

abbrev pub peer_exchange_codec : {M : Type 0} → Protobuf M → Codec M M
peer_exchange_codec m = codec peer_exchange_limit m m

abbrev pub filter_limit : ℕ
filter_limit = 1024 * 1024

abbrev pub subscribe_codec : {Q R : Type 0} → Protobuf Q → Protobuf R → Codec Q R
subscribe_codec q r = codec filter_limit q r

abbrev pub push_codec : {Q R : Type 0} → Protobuf Q → Protobuf R → Codec Q R
push_codec q r = codec filter_limit q r
