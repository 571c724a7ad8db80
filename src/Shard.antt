-- ===== src/Shard.antt =====
-- crates/waku-core/src/shard.rs: pubsub topics `/waku/2/rs/<cluster>/<shard>` and autosharding.
-- SHA-256 is a parameter.
pub mod RoundTrip
pub mod Autoshard
mod Examples
use rs_waku.Prelude.{ℕ, ◌++◌, ◌%◌, ◌^◌, Option, none, some, drop, eqb, if◌then◌else◌}
use rs_waku.Prelude.Bytes.{Bytes, codes, from_be_bytes}
use rs_waku.Prelude.Outcome.{Result, ok, err}
use rs_waku.Prelude.Text.{strip_prefix, split_once, slash}
use rs_waku.Prelude.Decimal.{show_u16, parse_u16}
use rs_waku.Topic.{ContentTopic, CoreError, invalid_pubsub_topic}

pub record ShardId : Type 0 where
  pub cluster_id : ℕ
  pub shard : ℕ

abbrev pub prefix : Bytes
prefix = codes "/waku/2/rs/"

unfoldable pub pubsub_topic : ShardId → Bytes
pubsub_topic s = prefix ++ (show_u16 s.cluster_id ++ (codes "/" ++ show_u16 s.shard))

parse_ids : Bytes → Option ℕ → Option ℕ → Result CoreError ShardId
parse_ids topic (some c) (some s) = ok (record { cluster_id = c; shard = s })
parse_ids topic _ _ = err (invalid_pubsub_topic topic)

unfoldable pub parse : Bytes → Result CoreError ShardId
unfolding parse_ids
parse topic = elim (strip_prefix prefix topic) [
  | none ↦ err (invalid_pubsub_topic topic)
  | some rest ↦ elim (split_once slash rest) [
    | none ↦ err (invalid_pubsub_topic topic)
    | some (c, s) ↦ parse_ids topic (parse_u16 c) (parse_u16 s)
  ]
]

-- `none` is the panic of `%` by zero. `digest[24..32]` is what is left of 32 bytes after 24.
unfoldable pub autoshard : (Bytes → Bytes) → ℕ → ContentTopic → ℕ → Option ShardId
autoshard sha256 cluster_id t shard_count =
    let value = from_be_bytes (drop 24 (sha256 (t.application ++ t.version))) in
    if eqb shard_count 0
    then none
    else some (record { cluster_id = cluster_id; shard = value % shard_count % 2 ^ 16 })
