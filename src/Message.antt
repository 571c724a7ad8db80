-- ===== src/Message.antt =====
-- crates/waku-core/src/message.rs: the message that relay, store, filter and light push carry.
-- Texts and byte fields are byte strings, and an `i64` is an integer with its range stated where
-- it matters. The protobuf encoding that `prost` derives is a parameter of what uses it.
use rs_waku.Prelude.{ℕ, Bool, Option, none}
use rs_waku.Prelude.Bytes.{Bytes}
use rs_waku.Prelude.Int.{ℤ}

pub record WakuMessage : Type 0 where
  pub payload : Bytes
  pub content_topic : Bytes
  pub version : Option ℕ
  pub timestamp : Option ℤ
  pub meta : Option Bytes
  pub rate_limit_proof : Option Bytes
  pub ephemeral : Option Bool

-- `WakuMessage::new`
abbrev pub new : Bytes → Bytes → WakuMessage
new content_topic payload = record {
  payload = payload;
  content_topic = content_topic;
  version = none;
  timestamp = none;
  meta = none;
  rate_limit_proof = none;
  ephemeral = none;
}
