-- ===== src/Node/Publish.antt =====
-- crates/waku-node/src/runtime.rs and crates/waku-relay/src: the id that the publish command answers with.
use rs_waku.Prelude.{◌≡◌, refl, ap, ◌∙◌, [], ◌∷◌, some, Option, length}
use rs_waku.Prelude.Bytes.{Bytes}
use rs_waku.Prelude.Eq.{Eq}
use rs_waku.Prelude.Outcome.{ok}
use rs_waku.Shard.{ShardId, pubsub_topic}
use rs_waku.Message.{WakuMessage}
use rs_waku.Hash.{deterministic_hash, preimage}
use rs_waku.Relay.{waku_message_id}
use rs_waku.Node.Requests.{
  Swarm, Command, Pending, Effect, answer, published, message_hash_of, handle_command,
}
use rs_waku.Node.Requests

message_hash_of-waku_message_id :
    (decode : Bytes → Option WakuMessage) (sha256 : Bytes → Bytes) (topic data_bytes : Bytes)
    (m : WakuMessage)
    → decode data_bytes ≡ some m
    → ((bs : Bytes) → length (sha256 bs) ≡ 32)
    → message_hash_of (ok (waku_message_id sha256 decode topic data_bytes))
      ≡ ok (deterministic_hash sha256 topic m)
unfolding message_hash_of waku_message_id deterministic_hash
message_hash_of-waku_message_id decode sha256 topic data_bytes m decoded digest =
    rw (waku_message_id, decoded, message_hash_of, deterministic_hash, digest (preimage topic m))
      refl

module _ {Addr RequestId : Type 0} ⦃e : Eq RequestId⦄ (Peer Reply : Type 0) where
  -- A publish that gossipsub accepts is answered with the message's RFC-14 hash on the shard's topic, so
  -- that the check of a debug build holds: gossipsub names the message by the id function that the relay
  -- configures, the encoding of the message can be decoded, and a SHA-256 digest has 32 bytes.
  pub publish_hash :
      (swarm : Swarm Addr) (encode : WakuMessage → Bytes) (decode : Bytes → Option WakuMessage)
      (sha256 : Bytes → Bytes) (pending : Pending RequestId Reply) (id : RequestId)
      (shard : ShardId) (m : WakuMessage) (reply : Reply)
      → swarm.publish (pubsub_topic shard) (encode m)
        ≡ ok (waku_message_id sha256 decode (pubsub_topic shard) (encode m))
      → decode (encode m) ≡ some m
      → ((bs : Bytes) → length (sha256 bs) ≡ 32)
      → handle_command {Peer = Peer} swarm encode pending id (Requests.publish shard m reply) ≡ (
        pending,
        answer reply (published (ok (deterministic_hash sha256 (pubsub_topic shard) m))) ∷ [],
      )
  unfolding handle_command
  publish_hash swarm encode decode sha256 pending id shard m reply accepted decoded digest =
      ap (λ r. (pending, answer reply (published r) ∷ []))
        (ap message_hash_of accepted
          ∙ message_hash_of-waku_message_id decode sha256 (pubsub_topic shard) (encode m) m decoded
              digest)
