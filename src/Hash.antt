-- ===== src/Hash.antt =====
-- crates/waku-core/src/hash.rs: the RFC-14 deterministic message hash. SHA-256 is a parameter.
pub mod Layout
pub mod Hex
mod Examples
use rs_waku.Prelude.{ℕ, ◌+◌, ◌/◌, ◌%◌, [], ◌∷◌, ◌++◌, none, some, Option, ltb, if◌then◌else◌}
use rs_waku.Prelude.Bytes.{Bytes, to_be_bytes}
use rs_waku.Prelude.Int.{ℤ, to_u64}
use rs_waku.Message.{WakuMessage}

abbrev pub or_empty : Option Bytes → Bytes
or_empty none = []
or_empty (some bs) = bs

-- `ts.to_be_bytes()` of an `i64`.
unfoldable pub timestamp_bytes : Option ℤ → Bytes
timestamp_bytes none = []
timestamp_bytes (some ts) = to_be_bytes 8 (to_u64 ts)

-- The bytes handed to the hasher, one `update` after the other.
unfoldable pub preimage : Bytes → WakuMessage → Bytes
unfolding timestamp_bytes
preimage pubsub_topic msg =
    pubsub_topic
    ++ (msg.payload ++ (msg.content_topic ++ (or_empty msg.meta ++ timestamp_bytes msg.timestamp)))

unfoldable pub deterministic_hash : (Bytes → Bytes) → Bytes → WakuMessage → Bytes
unfolding preimage
deterministic_hash sha256 pubsub_topic msg = sha256 (preimage pubsub_topic msg)

-- `{b:02x}` writes two lowercase digits.
abbrev pub hex_digit : ℕ → ℕ
hex_digit d = if ltb d 10 then 48 + d else 87 + d

unfoldable pub hash_hex : Bytes → Bytes
hash_hex [] = []
hash_hex (b ∷ bs) = hex_digit (b / 16) ∷ hex_digit (b % 16) ∷ hash_hex bs
