-- ===== src/Shard/Autoshard.antt =====
-- Autosharding.
use rs_waku.Prelude.{ℕ, ◌≡◌, refl, ◌++◌, ◌<◌, ◌%◌, some, arith, drop}
use rs_waku.Prelude.Bytes.{Bytes, from_be_bytes}
use rs_waku.Topic.{ContentTopic}
use rs_waku.Shard.{autoshard}

module _ (sha256 : Bytes → Bytes) where
  -- With between 1 and 65535 shards, autosharding returns a shard of the given cluster whose index is below the count.
  pub autoshard_in_range :
      (cluster count : ℕ) (t : ContentTopic)
      → 0 < count
      → count < 65536
      → (i : ℕ) × (autoshard sha256 cluster t count
          ≡ some (record { cluster_id = cluster; shard = i }))
        × (i < count)
        × (i ≡ from_be_bytes (drop 24 (sha256 (t.application ++ t.version))) % count)
  unfolding autoshard
  autoshard_in_range cluster count t h k =
      let value : ℕ = from_be_bytes (drop 24 (sha256 (t.application ++ t.version))) in
      (value % count, ground arith, omega arith, refl)
