-- ===== src/Node/Client/Filtering.antt =====
-- A filter subscription from the handle of a light client over a full node to the client's application.
use rs_waku.Prelude.{
  ◌≡◌, refl, ap, ◌∙◌, List, [], ◌∷◌, ◌++◌, map, Bool, true, false, ◌||◌, some, any, is_empty,
  if◌then◌else◌, arith, inl, inr,
}
use rs_waku.Prelude.Bytes.{Bytes}
use rs_waku.Prelude.Eq.{Eq, ◌==◌, list_eq, nat_eq, contains, eq_refl}
use rs_waku.Prelude.Int.{ℤ}
use rs_waku.Prelude.Keys.{HasUniqueKeys}
use rs_waku.Prelude.Outcome.{ok}
use rs_waku.Shard.{ShardId, parse}
use rs_waku.Message.{WakuMessage}
use rs_waku.Relay.{MessageAcceptance}
use rs_waku.Node.Messages.{MessagePush}
use rs_waku.Node.Filters.{
  FilterSubscribeRequest, Registry, wants, sub_of, ok_response, apply_filter_request, push_targets,
}
use rs_waku.Node.Filters
use rs_waku.Node.Pushes.{push_targets-subscribe}
use rs_waku.Node.Timely.{IsTime, HasTime, IsTimely, on_relay_message-cases}
use rs_waku.Node.Inbound.{store_put, filter_push, deliver, accepted, is_ephemeral, on_relay_message}
use rs_waku.Node.Loop.{
  LoopState, Output, Setting, send_response, filter_reply, filter_push_reply, relay_action,
  handle_event,
}
use rs_waku.Node.Loop
use rs_waku.Node.Client.{filter_request}

-- The pushes among what is sent: the peers, the topic and the message.
abbrev pub pushes_in :
    {Peer Addr Reply : Type 0}
    → List (Output Peer Addr Reply)
    → List (List Peer × Bytes × WakuMessage)
pushes_in [] = []
pushes_in (relay_action (filter_push peers topic message) ∷ rest) =
    (peers, topic, message) ∷ pushes_in rest
pushes_in (output ∷ rest) = pushes_in rest

abbrev pub push_of : Bytes → WakuMessage → MessagePush
push_of topic message = record { waku_message = some message; pubsub_topic = some topic }

pushes_in-accepted :
    {Peer : Type 0} (Addr Reply : Type 0) (stores ephemeral : Bool) (topic id name : Bytes)
    (m : WakuMessage) (rx : ℤ) (targets : List Peer) (shard : ShardId) (source : Peer)
    (a : MessageAcceptance)
    → pushes_in {Peer = Peer} {Addr = Addr} {Reply = Reply} (
        map relay_action (
          (if stores then (if ephemeral then [] else store_put topic m rx ∷ []) else [])
          ++ filter_push targets topic m ∷ deliver shard m name ∷ [])
        ++ Loop.report id source a ∷ [])
      ≡ (targets, topic, m) ∷ []
pushes_in-accepted Addr Reply false e topic id name m rx targets shard source a = refl
pushes_in-accepted Addr Reply true false topic id name m rx targets shard source a = refl
pushes_in-accepted Addr Reply true true topic id name m rx targets shard source a = refl

module _ {Peer Addr Enr : Type 0} (Reply : Type 0) ⦃e : Eq Peer⦄ (c : Setting Addr Enr) where
  -- What the node pushes of a message that it accepts.
  pushes_in-on_relay_message :
      (has_store : Bool) (filters : Registry Peer) (topic bytes id : Bytes) (source : Peer)
      (now rx_time : ℤ) (shard : ShardId) (m : WakuMessage)
      → parse topic ≡ ok shard
      → c.try_decode bytes ≡ some m
      → IsTime now
      → HasTime m.timestamp
      → IsTimely now m.timestamp
      → let r =
          on_relay_message c.sha256 c.try_decode has_store filters now rx_time topic bytes id in
        pushes_in {Peer = Peer} {Addr = Addr} {Reply = Reply}
          (map relay_action r.0 ++ Loop.report id source r.1 ∷ [])
        ≡ (push_targets filters topic m.content_topic, topic, m) ∷ []
  unfolding accepted
  pushes_in-on_relay_message has_store filters topic bytes id source now rx_time shard m p d tn tm
        timely =
      elim (on_relay_message-cases c.sha256 c.try_decode has_store filters now rx_time topic bytes
        id shard m p d tn tm) [
          | inl (r, t) ↦
              ap
                (λ x.
                  pushes_in {Peer = Peer} {Addr = Addr} {Reply = Reply}
                    (map relay_action x.0 ++ Loop.report id source x.1 ∷ []))
                r
              ∙ pushes_in-accepted Addr Reply has_store (is_ephemeral m.ephemeral) topic id _ m
                  rx_time _ shard source _
          | inr (r, late) ↦ absurd (late timely)
        ]

subscribed_wants :
    (topic content_topic : Bytes) (topics : List Bytes)
    → (is_empty topics || any (λ t. t == content_topic) topics) ≡ true
    → wants topic content_topic (sub_of (filter_request Filters.subscribe (some topic) topics))
      ≡ true
unfolding wants
subscribed_wants topic content_topic topics h = ground (arith, eq_refl topic, h)

module _ {Peer Ip Addr Enr RequestId Reply : Type 0} ⦃e : Eq Peer⦄ ⦃f : Eq Ip⦄ ⦃g : Eq RequestId⦄
    (c : Setting Addr Enr) where
  -- A full node acknowledges the filter subscription of a client's handle, and of a message that it then
  -- accepts on the topic of the filter, with a content topic of the filter or any if the filter has none,
  -- it sends one push, to peers among which the client is; and the client delivers the message of the push
  -- to its application, with the topic, acknowledges it and keeps its state. The topic is a shard's, the
  -- message decodes, it has no timestamp or one less than 21 seconds from the clock, the times are within
  -- 2^62 nanoseconds of 1970, and no peer has two entries of filters.
  pub filter_subscribe-push :
      (full light : LoopState Peer Ip Addr Enr RequestId Reply) (client : Peer)
      (topics : List Bytes) (topic bytes id : Bytes) (source : Peer) (now rx_time : ℤ)
      (shard : ShardId) (m : WakuMessage)
      → HasUniqueKeys full.filters
      → (is_empty topics || any (λ t. t == m.content_topic) topics) ≡ true
      → parse topic ≡ ok shard
      → c.try_decode bytes ≡ some m
      → IsTime now
      → HasTime m.timestamp
      → IsTimely now m.timestamp
      → let subscribed =
          handle_event c full
            (Loop.filter_event client (filter_request Filters.subscribe (some topic) topics)) in
        (subscribed.1 ≡ send_response (filter_reply (ok_response [])) ∷ [])
        × (targets : List Peer) × (pushes_in
              (handle_event c subscribed.0 (Loop.relay_message topic bytes id source now rx_time)).1
            ≡ (targets, topic, m) ∷ [])
        × (contains targets client ≡ true)
        × (handle_event c light (Loop.filter_push_event (push_of topic m)) ≡ (
          light,
          Loop.filter_message (some topic) m
              ∷ send_response (filter_push_reply (record { status_code = 200 }))
              ∷ [],
        ))
  unfolding handle_event apply_filter_request
  filter_subscribe-push full light client topics topic bytes id source now rx_time shard m unique
        wanted p d tn tm timely =
      let request = filter_request Filters.subscribe (some topic) topics in
      let filters = (apply_filter_request full.filters client request).0 in
      (
        refl,
        push_targets filters topic m.content_topic,
        pushes_in-on_relay_message Reply c (Loop.has_store c.store) filters topic bytes id source
            now rx_time shard m p d tn tm timely,
        push_targets-subscribe full.filters client request topic m.content_topic unique refl
            ∙ ground (arith, subscribed_wants topic m.content_topic topics wanted),
        refl,
      )
