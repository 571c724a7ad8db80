-- ===== src/Rest/Conversion.antt =====
-- The REST form of a message, and back.
use mathlib.Core.Option
use rs_waku.Prelude.{◌≡◌, refl, Option, none, some, length, ◌≡◌}
use rs_waku.Prelude.Bytes.{Bytes}
use rs_waku.Prelude.Outcome.{ok}
use rs_waku.Message.{WakuMessage}
use rs_waku.Rest.{Calls, decode_meta, into_message, from_message, parse_hash}

-- Each decoder takes back what its encoder wrote.
pub record IsRoundTrip (c : Calls) : Type 0 where
  pub base64_law : (bs : Bytes) → c.base64_decode (c.base64_encode bs) ≡ ok bs
  pub hex_law : (bs : Bytes) → c.hex_decode (c.hex_encode bs) ≡ ok bs

module _ (c : Calls) (law : IsRoundTrip c) where
  decode_meta_lem : (m : Option Bytes) → decode_meta c (Option.map c.base64_encode m) ≡ ok m
  unfolding decode_meta
  decode_meta_lem none = refl
  decode_meta_lem (some bs) = rw (law.base64_law bs) refl

  -- A message that is read back from its REST form is the message without its rate-limit proof, which
  -- the form has no field for; the decoder of base64 takes back what the encoder wrote.
  pub into_message-from_message :
      (m : WakuMessage)
      → into_message c (from_message c m) m.content_topic
        ≡ ok (record m { rate_limit_proof = none })
  unfolding into_message from_message
  into_message-from_message m = rw (law.base64_law m.payload, decode_meta_lem m.meta) refl

  pub parse_hash-hex : (h : Bytes) → length h ≡ 32 → parse_hash c (c.hex_encode h) ≡ ok h
  unfolding parse_hash
  parse_hash-hex h e = rw (law.hex_law h, e) refl
