-- ===== src/Wakunode/Main.antt =====
-- wakunode/src/main.rs after the node is spawned: it subscribes to the shards, dials the static nodes, and
-- takes events until a signal or the end of the channel. Its log is left out.
pub mod Polling
use rs_waku.Prelude.{
  ℕ, ◌≡◌, refl, sym, ap, ◌∙◌, List, [], ◌∷◌, ◌++◌, map, Bool, true, false, Option, none, some,
  if◌then◌else◌,
}
use mathlib.Core.Option
use rs_waku.Prelude.Bytes.{Bytes}
use rs_waku.Prelude.Outcome.{Result, ok, err, ◌>>=◌}
use rs_waku.Shard.{ShardId}
use rs_waku.Message.{WakuMessage}
use rs_waku.Node.Handle.{NodeError}
use rs_waku.Node.Connections.{Action}
use rs_waku.Node.Connections
use rs_waku.Node.Inbound.{RelayAction, store_put, filter_push, deliver}
use rs_waku.Node.Loop.{Output}
use rs_waku.Node.Loop
use rs_waku.Rest.{MessageCache, record_message, register, drain}

-- The calls that `main` makes of the node's handle: the state of the node after, and the result.
pub record MainHandle (N Addr : Type 0) : Type 0 where
  pub subscribe : N → ShardId → N × Result NodeError (Unit {0})
  pub dial : N → Addr → N × Result NodeError (Unit {0})
  pub shutdown : N → N

-- `Event` of the node.
pub data Event (Peer Addr : Type 0) : Type 0 where
  listening : Addr → Event Peer Addr
  peer_connected : Peer → Event Peer Addr
  peer_disconnected : Peer → Event Peer Addr
  metadata_mismatch : Peer → ℕ → Event Peer Addr
  message_event : ShardId → WakuMessage → Bytes → Event Peer Addr
  filter_message : Option Bytes → WakuMessage → Event Peer Addr

-- The event among what the node's loop sends.
abbrev pub event_of : {Peer Addr Reply : Type 0} → Output Peer Addr Reply → List (Event Peer Addr)
event_of (Loop.listening address) = listening address ∷ []
event_of (Loop.connection_action (Connections.peer_connected peer)) = peer_connected peer ∷ []
event_of (Loop.connection_action (Connections.peer_disconnected peer)) = peer_disconnected peer ∷ []
event_of (Loop.relay_action (deliver shard message id)) = message_event shard message id ∷ []
event_of (Loop.metadata_mismatch peer theirs) = metadata_mismatch peer theirs ∷ []
event_of (Loop.filter_message topic message) = filter_message topic message ∷ []
event_of output = []

abbrev pub events_of :
    {Peer Addr Reply : Type 0} → List (Output Peer Addr Reply) → List (Event Peer Addr)
events_of [] = []
events_of (output ∷ rest) = event_of output ++ events_of rest

module _ {N Addr : Type 0} (handle : MainHandle N Addr) where
  -- The first shard that fails ends `main`.
  unfoldable pub subscribe_all : N → ℕ → List ℕ → N × Result NodeError (Unit {0})
  subscribe_all node cluster_id [] = (node, ok tt)
  subscribe_all node cluster_id (shard ∷ rest) =
      let (after, result) =
        handle.subscribe node (record { cluster_id = cluster_id; shard = shard }) in
      elim result [ err e ↦ (after, err e) | ok u ↦ subscribe_all after cluster_id rest ]

  -- A node that cannot be dialed is logged only.
  unfoldable pub dial_all : N → List Addr → N
  dial_all node [] = node
  dial_all node (addr ∷ rest) = dial_all (handle.dial node addr).0 rest

  unfoldable pub start_up : N → ℕ → List ℕ → List Addr → N × Result NodeError (Unit {0})
  unfolding subscribe_all dial_all
  start_up node cluster_id shards staticnodes =
      let (after, result) = subscribe_all node cluster_id shards in
      elim result [ err e ↦ (after, err e) | ok u ↦ (dial_all after staticnodes, ok tt) ]

-- What the loop of `main` is in, with the cache that it shares with the REST API.
pub record Main (N : Type 0) : Type 0 where
  pub node : N
  pub rest_cache : Option MessageCache
  pub is_running : Bool

-- What wakes the loop, and the calls of the REST API on the cache, which come in between.
pub data Turn (Peer Addr : Type 0) : Type 0 where
  event : Event Peer Addr → Turn Peer Addr
  events_closed : Turn Peer Addr
  ctrl_c : Turn Peer Addr
  terminate : Turn Peer Addr
  rest_subscribes : Bytes → Turn Peer Addr
  rest_polls : Bytes → Turn Peer Addr

-- `Some(Event::Message { .. })` and the others
abbrev pub cache_event :
    {Peer Addr : Type 0} → Option MessageCache → Event Peer Addr → Option MessageCache
cache_event none e = none
cache_event (some cache) (message_event shard message id) = some (record_message cache message)
cache_event (some cache) (listening address) = some cache
cache_event (some cache) (peer_connected peer) = some cache
cache_event (some cache) (peer_disconnected peer) = some cache
cache_event (some cache) (metadata_mismatch peer theirs) = some cache
cache_event (some cache) (filter_message topic message) = some cache

module _ {N Peer Addr : Type 0} (handle : MainHandle N Addr) where
  unfoldable pub on_turn : Main N → Turn Peer Addr → Main N
  on_turn m (event e) = record m { rest_cache = cache_event m.rest_cache e }
  on_turn m events_closed = record m { is_running = false }
  on_turn m ctrl_c = record m { node = handle.shutdown m.node; is_running = false }
  on_turn m terminate = record m { node = handle.shutdown m.node; is_running = false }
  on_turn m (rest_subscribes topic) = record m {
    rest_cache = Option.map (λ cache. register cache topic) m.rest_cache;
  }
  on_turn m (rest_polls topic) = record m {
    rest_cache = Option.map (λ cache. (drain cache topic).1) m.rest_cache;
  }

  -- The process ends with the loop, and the REST API with it.
  unfoldable pub run : Main N → List (Turn Peer Addr) → Main N
  unfolding on_turn
  run m [] = m
  run m (turn ∷ rest) = run (if m.is_running then on_turn m turn else m) rest
