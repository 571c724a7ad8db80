-- ===== src/Node/Client.antt =====
-- crates/waku-node/src/runtime.rs: the methods of `NodeHandle`: the command that each sends, and what it
-- returns from what comes back. `none` is a channel whose other end is gone.
pub mod Exchange
pub mod Filtering
mod Examples
use rs_waku.Prelude.{
  ℕ, List, [], ◌∷◌, ◌++◌, map, Bool, Option, none, some, not, if◌then◌else◌, filter_map,
}
use rs_waku.Prelude.Bytes.{Bytes}
use rs_waku.Prelude.Int.{ℤ}
use rs_waku.Prelude.Outcome.{Result, ok, err, ◌>>=◌}
use rs_waku.Shard.{ShardId}
use rs_waku.Message.{WakuMessage}
use rs_waku.Discv5.{Protocol, p2p, Multiaddr}
use rs_waku.Node.Handle.{NodeError, node_stopped, awaited}
use rs_waku.Node.Filters.{FilterSubscribeRequest}
use rs_waku.Node.Filters
use rs_waku.Node.Messages.{LightpushRequest, PeerExchangeRpc, enrs_in}
use rs_waku.Node.Requests.{Command}
use rs_waku.Node.Requests

-- `self.cmd_tx.send(..).await` and `rx.await`: an error if the loop takes no command or drops the reply.
abbrev pub call : {A : Type 0} → Bool → Option (Result Bytes A) → Result NodeError A
call is_open received = if not is_open then err node_stopped else awaited received

-- `NodeHandle::light_push`
abbrev pub light_push :
    {Peer Addr Reply : Type 0} → Peer → Bytes → WakuMessage → Reply → Command Peer Addr Reply
light_push peer pubsub_topic message reply =
    Requests.light_push peer
      (record { request_id = []; pubsub_topic = pubsub_topic; message = some message }) reply

-- `NodeHandle::filter_request`
abbrev pub filter_request : ℤ → Option Bytes → List Bytes → FilterSubscribeRequest
filter_request kind pubsub_topic content_topics = record {
  request_id = [];
  filter_subscribe_type = kind;
  pubsub_topic = pubsub_topic;
  content_topics = content_topics;
}

-- `NodeHandle::filter_subscribe`
abbrev pub filter_subscribe :
    {Peer Addr Reply : Type 0} → Peer → Bytes → List Bytes → Reply → Command Peer Addr Reply
filter_subscribe peer pubsub_topic content_topics reply =
    Requests.filter_subscribe peer
      (filter_request Filters.subscribe (some pubsub_topic) content_topics) reply

-- `NodeHandle::filter_unsubscribe`
abbrev pub filter_unsubscribe :
    {Peer Addr Reply : Type 0} → Peer → Bytes → List Bytes → Reply → Command Peer Addr Reply
filter_unsubscribe peer pubsub_topic content_topics reply =
    Requests.filter_subscribe peer
      (filter_request Filters.unsubscribe (some pubsub_topic) content_topics) reply

-- What `NodeHandle::peer_exchange` returns: the ENRs that can be read.
unfoldable pub peer_exchange :
    {Enr : Type 0}
    → (Bytes → Option Enr)
    → Bool
    → Option (Result Bytes PeerExchangeRpc)
    → Result NodeError (List Enr)
peer_exchange enr_from_bytes is_open received = do
  rpc ← call is_open received
  ok (filter_map enr_from_bytes (enrs_in rpc))

-- `NodeHandle::listen_addresses`: each address with the peer's id behind it.
abbrev pub listen_addresses : {Peer : Type 0} → Peer → List (Multiaddr Peer) → List (Multiaddr Peer)
listen_addresses peer_id addrs = map (λ address. address ++ p2p peer_id ∷ []) addrs
