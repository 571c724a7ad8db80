-- ===== src/Shard/Examples.antt =====
-- Shards at concrete inputs.
use rs_waku.Prelude.{◌≡◌, ◌++◌, refl, arith, drop, replicate}
use rs_waku.Prelude.Bytes.{Bytes, codes}
use rs_waku.Prelude.Outcome.{ok}
use rs_waku.Prelude.Text.{strip_prefix, split_once}
use rs_waku.Prelude.Decimal.{show_u16, parse_u16}
use rs_waku.Topic.{ContentTopic}
use rs_waku.Shard.{ShardId, pubsub_topic, parse}
use rs_waku.Shard.RoundTrip.{pubsub_topic-injective, parse-pubsub_topic}

abbrev one_three : ShardId
one_three = record { cluster_id = 1; shard = 3 }

topic_of_shard : pubsub_topic one_three ≡ codes "/waku/2/rs/1/3"
unfolding pubsub_topic show_u16
topic_of_shard = refl

-- A sign and leading zeros are accepted.
parse_loose : parse (codes "/waku/2/rs/+1/003") ≡ ok one_three
unfolding parse strip_prefix split_once parse_u16
parse_loose = refl

pubsub_topic-injective_example : one_three ≡ one_three
pubsub_topic-injective_example =
    pubsub_topic-injective one_three one_three (omega arith) (omega arith) refl

abbrev toychat : ContentTopic
toychat = record {
  application = codes "toychat";
  version = codes "2";
  name = codes "huilong";
  encoding = codes "proto";
}

-- A stand-in for the hash function: 32 bytes.
abbrev padded : Bytes → Bytes
padded bs = replicate 31 7 ++ drop 6 bs

parse-pubsub_topic_example : parse (pubsub_topic one_three) ≡ ok one_three
parse-pubsub_topic_example =
    parse-pubsub_topic one_three (record { cluster_id = omega arith; shard = omega arith })
