-- ===== src/Hash/Layout.antt =====
-- What the hash depends on.
use rs_waku.Prelude.{
  ◌≡◌, refl, [], ◌∷◌, ◌++◌, ap, sym, ◌∙◌, none, some, Option, arith, length, append_assoc,
}
use rs_waku.Prelude.Bytes.{
  Bytes, to_be_bytes, from_be_bytes, length-to_be_bytes, from_be_bytes-to_be_bytes,
}
use rs_waku.Prelude.Int.{ℤ, IsI64, to_u64, of_u64, of_u64-to_u64}
use rs_waku.Message.{WakuMessage}
use rs_waku.Hash.{preimage, deterministic_hash, timestamp_bytes, or_empty}

-- The timestamp's eight bytes determine it, and are told from no timestamp.
timestamp_bytes-injective :
    (a b : ℤ) → IsI64 a → IsI64 b → to_be_bytes 8 (to_u64 a) ≡ to_be_bytes 8 (to_u64 b) → a ≡ b
timestamp_bytes-injective a b ha hb e =
    sym (of_u64-to_u64 a ha) ∙ ap of_u64 same ∙ of_u64-to_u64 b hb
  where
    same : to_u64 a ≡ to_u64 b
    same =
        sym (from_be_bytes-to_be_bytes 8 (to_u64 a) (omega arith))
        ∙ ap from_be_bytes e
        ∙ from_be_bytes-to_be_bytes 8 (to_u64 b) (omega arith)

append_left_cancel : (xs ys zs : Bytes) → xs ++ ys ≡ xs ++ zs → ys ≡ zs
append_left_cancel [] ys zs e = e
append_left_cancel (x ∷ xs) ys zs e = append_left_cancel xs ys zs (ground arith)

-- The range of the optional timestamp.
abbrev pub IsTimestamp : Option ℤ → Type 0
IsTimestamp none = Unit {0}
IsTimestamp (some ts) = IsI64 ts

timestamps_differ :
    (a b : Option ℤ) → IsTimestamp a → IsTimestamp b → timestamp_bytes a ≡ timestamp_bytes b → a ≡ b
unfolding timestamp_bytes
timestamps_differ none none ha hb e = refl
timestamps_differ none (some b) ha hb e =
    absurd (omega (arith, ap (length {0}) e, length-to_be_bytes 8 (to_u64 b)))
timestamps_differ (some a) none ha hb e =
    absurd (omega (arith, ap (length {0}) e, length-to_be_bytes 8 (to_u64 a)))
timestamps_differ (some a) (some b) ha hb e = ap some (timestamp_bytes-injective a b ha hb e)

-- Two messages that differ in their timestamps alone, absent or present, are hashed from different
-- bytes; so a hash function that keeps those bytes apart gives them different hashes.
pub hash_tells_timestamps :
    (sha256 : Bytes → Bytes) (topic : Bytes) (m : WakuMessage) (a b : Option ℤ)
    → IsTimestamp a
    → IsTimestamp b
    → (sha256 (preimage topic (record m { timestamp = a }))
          ≡ sha256 (preimage topic (record m { timestamp = b }))
        → preimage topic (record m { timestamp = a }) ≡ preimage topic (record m { timestamp = b }))
    → deterministic_hash sha256 topic (record m { timestamp = a })
      ≡ deterministic_hash sha256 topic (record m { timestamp = b })
    → a ≡ b
unfolding deterministic_hash
hash_tells_timestamps sha256 topic m a b ha hb apart e = timestamps_differ a b ha hb (
    append_left_cancel (or_empty m.meta) _ _ (
      append_left_cancel m.content_topic _ _
        (append_left_cancel m.payload _ _ (append_left_cancel topic _ _ (apart e)))))

-- The fields are not delimited: bytes moved from the end of the payload to the front of the content
-- topic, with an empty `meta` in place of none, leave the hash unchanged, whatever the hash function.
pub hash_boundary :
    (sha256 : Bytes → Bytes) (topic p x c : Bytes) (m : WakuMessage)
    → deterministic_hash sha256 topic
        (record m { payload = p ++ x; content_topic = c; meta = none })
      ≡ deterministic_hash sha256 topic
          (record m { payload = p; content_topic = x ++ c; meta = some [] })
unfolding deterministic_hash
hash_boundary sha256 topic p x c m =
    ap (λ t. sha256 (topic ++ t))
      (append_assoc p x (c ++ timestamp_bytes m.timestamp)
        ∙ ap (λ t. p ++ t) (sym (append_assoc x c (timestamp_bytes m.timestamp))))
