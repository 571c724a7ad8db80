-- ===== src/Node/Messages.antt =====
-- The messages of the request-response protocols, in crates/waku-metadata, waku-lightpush,
-- waku-peer-exchange and waku-filter.
use mathlib.Core.Option
use rs_waku.Prelude.{ℕ, List, [], map, Option, none, some}
use rs_waku.Prelude.Bytes.{Bytes, codes}
use rs_waku.Message.{WakuMessage}

pub record WakuMetadata : Type 0 where
  pub cluster_id : Option ℕ
  pub shards : List ℕ

pub record LightpushRequest : Type 0 where
  pub request_id : Bytes
  pub pubsub_topic : Bytes
  pub message : Option WakuMessage

pub record LightpushResponse : Type 0 where
  pub request_id : Bytes
  pub status_code : ℕ
  pub status_desc : Option Bytes
  pub relay_peer_count : ℕ

-- `LightpushResponse::ok`
abbrev pub lightpush_ok : Bytes → ℕ → LightpushResponse
lightpush_ok id count = record {
  request_id = id;
  status_code = 200;
  status_desc = some (codes "OK");
  relay_peer_count = count;
}

-- `LightpushResponse::error`
abbrev pub lightpush_error : Bytes → ℕ → Bytes → LightpushResponse
lightpush_error id code desc = record {
  request_id = id;
  status_code = code;
  status_desc = some desc;
  relay_peer_count = 0;
}

pub record PeerInfo : Type 0 where
  pub enr : Bytes

pub record PeerExchangeQuery : Type 0 where
  pub num_peers : ℕ

pub record PeerExchangeResponse : Type 0 where
  pub peer_infos : List PeerInfo

pub record PeerExchangeRpc : Type 0 where
  pub query : Option PeerExchangeQuery
  pub response : Option PeerExchangeResponse

-- `PeerExchangeRpc::query`
abbrev pub query_rpc : ℕ → PeerExchangeRpc
query_rpc num_peers = record { query = some (record { num_peers = num_peers }); response = none }

abbrev pub peer_info : Bytes → PeerInfo
peer_info enr = record { enr = enr }

-- `PeerExchangeRpc::response`
abbrev pub response_rpc : List Bytes → PeerExchangeRpc
response_rpc enrs = record {
  query = none;
  response = some (record { peer_infos = map peer_info enrs });
}

-- `PeerExchangeRpc::requested`
abbrev pub requested : PeerExchangeRpc → Option ℕ
requested rpc = Option.map (λ (q : PeerExchangeQuery). q.num_peers) rpc.query

-- `PeerExchangeRpc::enrs`
abbrev pub enrs_in : PeerExchangeRpc → List Bytes
enrs_in rpc =
    Option.get_or
      (Option.map (λ (r : PeerExchangeResponse). map (λ (p : PeerInfo). p.enr) r.peer_infos)
        rpc.response)
      []

pub record MessagePush : Type 0 where
  pub waku_message : Option WakuMessage
  pub pubsub_topic : Option Bytes

pub record FilterPushResponse : Type 0 where
  pub status_code : ℕ
