-- ===== src/Relay/MessageId.antt =====
-- The message id of what the node publishes.
use rs_waku.Prelude.{◌≡◌, Option, some}
use rs_waku.Prelude.Bytes.{Bytes}
use rs_waku.Message.{WakuMessage}
use rs_waku.Hash.{deterministic_hash}
use rs_waku.Shard.{ShardId, pubsub_topic}
use rs_waku.Relay.{waku_message_id, shard_topic}

-- The id that gossipsub gives to an encoded message on a shard's topic is the deterministic hash of
-- the message on that shard, whatever the hash function, if the encoding of the message decodes back.
pub waku_message_id-encode :
    (sha256 : Bytes → Bytes) (encode : WakuMessage → Bytes) (decode : Bytes → Option WakuMessage)
    (shard : ShardId) (msg : WakuMessage)
    → decode (encode msg) ≡ some msg
    → waku_message_id sha256 decode (shard_topic shard) (encode msg)
      ≡ deterministic_hash sha256 (pubsub_topic shard) msg
unfolding waku_message_id
waku_message_id-encode sha256 encode decode shard msg h = rw (h, waku_message_id)
