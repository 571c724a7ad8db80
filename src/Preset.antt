-- ===== src/Preset.antt =====
-- crates/waku-core/src/preset.rs: the constants of the protocols and the preset of The Waku Network.
use rs_waku.Prelude.{ℕ, ◌*◌}
use rs_waku.Prelude.Bytes.{Bytes, codes}
use rs_waku.Prelude.Int.{ℤ, pos}

abbrev pub max_message_size : ℕ
max_message_size = 150 * 1024

abbrev pub timestamp_tolerance_secs : ℤ
timestamp_tolerance_secs = pos 20

abbrev pub rln_max_epoch_gap_secs : ℕ
rln_max_epoch_gap_secs = 20

abbrev pub relay_protocol_id : Bytes
relay_protocol_id = codes "/vac/waku/relay/2.0.0"

abbrev pub metadata_protocol_id : Bytes
metadata_protocol_id = codes "/vac/waku/metadata/1.0.0"

abbrev pub store_query_protocol_id : Bytes
store_query_protocol_id = codes "/vac/waku/store-query/3.0.0"

abbrev pub filter_subscribe_protocol_id : Bytes
filter_subscribe_protocol_id = codes "/vac/waku/filter-subscribe/2.0.0-beta1"

abbrev pub filter_push_protocol_id : Bytes
filter_push_protocol_id = codes "/vac/waku/filter-push/2.0.0-beta1"

abbrev pub lightpush_protocol_id : Bytes
lightpush_protocol_id = codes "/vac/waku/lightpush/3.0.0"

abbrev pub peer_exchange_protocol_id : Bytes
peer_exchange_protocol_id = codes "/vac/waku/peer-exchange/2.0.0-alpha1"

pub record NetworkPreset : Type 0 where
  pub name : Bytes
  pub cluster_id : ℕ
  pub shard_count : ℕ
  pub rln_user_message_limit : ℕ
  pub rln_epoch_size_secs : ℕ
  pub dns_discovery_enrtree : Bytes
  pub rln_chain_id : ℕ
  pub rln_contract_address : Bytes

-- `TWN`
abbrev pub twn : NetworkPreset
twn = record {
  name = codes "twn";
  cluster_id = 1;
  shard_count = 8;
  rln_user_message_limit = 100;
  rln_epoch_size_secs = 600;
  dns_discovery_enrtree =
      codes
        "enrtree://AIRVQ5DDA4FFWLRBCHJWUWOO6X6S4ZTZ5B667LQ6AJU6PEYDLRD5O@sandbox.waku.nodes.status.im";
  rln_chain_id = 11155111;
  rln_contract_address = codes "0xCB33Aa5B38d79E3D9Fa8B10afF38AA201399a7e3";
}
