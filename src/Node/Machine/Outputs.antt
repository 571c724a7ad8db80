-- ===== src/Node/Machine/Outputs.antt =====
-- What tasks `handle_event` spawns of each event.
use rs_waku.Prelude.{
  ℕ, ◌≡◌, ◌↔◌, refl, ap, ◌∙◌, List, [], ◌∷◌, ◌++◌, map, Bool, true, false, ◌&&◌, not, Option, none,
  some, if◌then◌else◌, any, arith, Option-cases, inl, inr,
}
use rs_waku.Prelude.Bytes.{Bytes}
use rs_waku.Prelude.Eq.{Eq, ◌==◌, list_eq, nat_eq}
use rs_waku.Prelude.Int.{ℤ}
use rs_waku.Prelude.Outcome.{Result-cases}
use rs_waku.Prelude.Text.{strip_prefix}
use rs_waku.Shard.{ShardId, parse}
use rs_waku.Message.{WakuMessage}
use rs_waku.Hash.{deterministic_hash}
use rs_waku.Relay.{MessageAcceptance}
use rs_waku.Store.{Table}
use rs_waku.Node.Connections.{Action, on_connection}
use rs_waku.Node.Requests.{Effect, on_response}
use rs_waku.Node.Inbound.{
  RelayAction, store_put, filter_push, deliver, on_relay_message, accepted, is_ephemeral,
}
use rs_waku.Node.Filters.{Registry}
use rs_waku.Node.Timely.{IsTimely, on_relay_message-cases}
use rs_waku.Node.Serving.{mismatch}
use rs_waku.Node.Loop.{
  deliver_all, LoopState, SwarmEvent, Output, Setting, handle_event, on_store_request, on_lightpush,
  connection_action, relay_action, settled,
}
use rs_waku.Node.Loop
use rs_waku.Node.Machine.{with_table, spawned}
use rs_waku.Node.Machine.Spawned.{is_task_of, asks_for, HasTimes, is_timely}

module _ {Peer Addr Reply : Type 0} where
  -- Without a consumer fewer outputs are sent, but not other ones.
  spawned-deliver_all :
      (b : Bool) (xs : List (Output Peer Addr Reply))
      → spawned xs ≡ []
      → spawned (deliver_all b xs).0 ≡ []
  unfolding deliver_all
  spawned-deliver_all b [] h = refl
  spawned-deliver_all b (Loop.relay_action (store_put topic message time) ∷ xs) h = cc
  spawned-deliver_all b (Loop.relay_action (filter_push peers topic message) ∷ xs) h =
      spawned-deliver_all b xs h
  spawned-deliver_all b (Loop.relay_action (deliver shard message id) ∷ xs) h =
      ground (arith, spawned-deliver_all b xs h)
  spawned-deliver_all b (Loop.send_response r ∷ xs) h = spawned-deliver_all b xs h
  spawned-deliver_all b (Loop.listening a ∷ xs) h = ground (arith, spawned-deliver_all b xs h)
  spawned-deliver_all b (connection_action a ∷ xs) h = ground (arith, spawned-deliver_all b xs h)
  spawned-deliver_all b (Loop.report id peer a ∷ xs) h = spawned-deliver_all b xs h
  spawned-deliver_all b (Loop.disconnect peer ∷ xs) h = spawned-deliver_all b xs h
  spawned-deliver_all b (Loop.metadata_mismatch peer n ∷ xs) h =
      ground (arith, spawned-deliver_all b xs h)
  spawned-deliver_all b (Loop.filter_message topic m ∷ xs) h =
      ground (arith, spawned-deliver_all b xs h)
  spawned-deliver_all b (settled a ∷ xs) h = spawned-deliver_all b xs h

module _ {Peer : Type 0} (Addr Reply : Type 0) where
  spawned-connections :
      (xs : List (Action Peer))
      → spawned {Peer = Peer} {Addr = Addr} {Reply = Reply} (map connection_action xs) ≡ []
  spawned-connections [] = refl
  spawned-connections (x ∷ xs) = spawned-connections xs

  spawned-mismatch :
      (peer : Peer) (o : Option ℕ)
      → spawned {Peer = Peer} {Addr = Addr} {Reply = Reply} (elim o [
        | none ↦ []
        | some theirs ↦ Loop.disconnect peer ∷ Loop.metadata_mismatch peer theirs ∷ []
      ])
        ≡ []
  spawned-mismatch peer none = refl
  spawned-mismatch peer (some theirs) = refl

module _ {Peer Reply : Type 0} (Addr : Type 0) where
  spawned-settled :
      (xs : List (Effect Peer Reply))
      → spawned {Peer = Peer} {Addr = Addr} {Reply = Reply} (map settled xs) ≡ []
  spawned-settled [] = refl
  spawned-settled (x ∷ xs) = spawned-settled xs

pub is_timely_iff : (now : ℤ) (t : Option ℤ) → (is_timely now t ≡ true) ↔ IsTimely now t
is_timely_iff now none = ground arith
is_timely_iff now (some ts) = ground arith

not_timely : (now : ℤ) (t : Option ℤ) → (IsTimely now t → ⊥) → is_timely now t ≡ false
not_timely now none n = absurd (n tt)
not_timely now (some ts) n = ground (arith, n)

-- What is spawned of the outputs of an accepted message.
spawned-accepted :
    {Peer : Type 0} (Addr Reply : Type 0) (sha256 : Bytes → Bytes) (h : Bytes) (b : Bool)
    (flag : Option Bool) (topic id name : Bytes) (msg : WakuMessage) (rx : ℤ) (targets : List Peer)
    (shard : ShardId) (source : Peer) (a : MessageAcceptance)
    → any (is_task_of sha256 h) (
        spawned
          (deliver_all {Peer = Peer} {Addr = Addr} {Reply = Reply} b (
            map relay_action (
              (if true then (if is_ephemeral flag then [] else store_put topic msg rx ∷ []) else [])
              ++ filter_push targets topic msg ∷ deliver shard msg name ∷ [])
            ++ Loop.report id source a ∷ [])).0)
      ≡ (not (is_ephemeral flag) && (deterministic_hash sha256 topic msg == h))
unfolding deliver_all
spawned-accepted Addr Reply sha256 h true none topic id name msg rx targets shard source a =
    ground arith
spawned-accepted Addr Reply sha256 h false none topic id name msg rx targets shard source a =
    ground arith
spawned-accepted Addr Reply sha256 h true (some true) topic id name msg rx targets shard source a =
    ground arith
spawned-accepted Addr Reply sha256 h false (some true) topic id name msg rx targets shard source a =
    ground arith
spawned-accepted Addr Reply sha256 h true (some false) topic id name msg rx targets shard source a =
    ground arith
spawned-accepted Addr Reply sha256 h false (some false) topic id name msg rx targets shard source
      a =
    ground arith

-- The tasks that an event of another kind spawns.
none_spawned :
    {Peer Addr Reply : Type 0} (sha256 : Bytes → Bytes) (h : Bytes) (b : Bool)
    (xs : List (Output Peer Addr Reply))
    → spawned xs ≡ []
    → any (is_task_of sha256 h) (spawned (deliver_all b xs).0) ≡ false
none_spawned sha256 h b xs n = ap (any (is_task_of sha256 h)) (spawned-deliver_all b xs n)

module _ {Peer Addr Enr : Type 0} (Reply : Type 0) ⦃e : Eq Peer⦄ (c : Setting Addr Enr) (h : Bytes)
    (b : Bool) (id : Bytes) (source : Peer) where
  abbrev spawned_of : List (RelayAction Peer) × MessageAcceptance → Bool
  spawned_of (actions, a) = any (is_task_of c.sha256 h) (
      spawned
        (deliver_all {Addr = Addr} {Reply = Reply} b
          (map relay_action actions ++ Loop.report id source a ∷ [])).0)

  spawned-on_relay_message :
      (filters : Registry Peer) (topic bytes : Bytes) (now rx_time : ℤ)
      → HasTimes {Peer = Peer} {Ip = ℕ} {RequestId = ℕ} c
          (Loop.relay_message topic bytes id source now rx_time)
      → spawned_of (on_relay_message c.sha256 c.try_decode true filters now rx_time topic bytes id)
        ≡ asks_for {Peer = Peer} {Ip = ℕ} {RequestId = ℕ} c h
            (Loop.relay_message topic bytes id source now rx_time)
  unfolding on_relay_message deliver_all accepted parse strip_prefix
  spawned-on_relay_message filters topic bytes now rx_time k = elim (Result-cases (parse topic)) [
    | inr (x, q) ↦ rw (on_relay_message, q) refl
    | inl (shard, q) ↦ elim (Option-cases (c.try_decode bytes)) [
      | inl n ↦ rw (on_relay_message, q, n) refl
      | inr (msg, d) ↦
          elim (on_relay_message-cases c.sha256 c.try_decode true filters now rx_time topic bytes id
            shard msg q d k.0 (k.1 msg d)) [
              | inl (r, timely) ↦
                  ap spawned_of r
                  ∙ spawned-accepted Addr Reply c.sha256 h b msg.ephemeral topic id _ msg rx_time _
                      shard source _
                  ∙ rw (q, d, (is_timely_iff now msg.timestamp).1 timely) refl
              | inr (r, late) ↦ ap spawned_of r ∙ rw (q, d, not_timely now msg.timestamp late) refl
            ]
    ]
  ]

module _ {Peer Ip Addr Enr RequestId Reply : Type 0} ⦃e : Eq Peer⦄ ⦃f : Eq Ip⦄ ⦃g : Eq RequestId⦄
    (c : Setting Addr Enr) where
  pub spawned-handle_event :
      (h : Bytes) (b : Bool) (t : Table) (s : LoopState Peer Ip Addr Enr RequestId Reply)
      (event : SwarmEvent Peer Ip Addr RequestId)
      → HasTimes c event
      → any
          (is_task_of c.sha256 h)
          (spawned (deliver_all b (handle_event (with_table c (some t)) s event).1).0)
        ≡ asks_for c h event
  unfolding handle_event on_store_request on_lightpush deliver_all on_relay_message
  spawned-handle_event h b t s (Loop.relay_message topic bytes id source now rx_time) k =
      spawned-on_relay_message Reply c h b id source s.filters topic bytes now rx_time k
  spawned-handle_event h b t s (Loop.new_listen_addr address) k =
      none_spawned c.sha256 h b (Loop.listening address ∷ []) refl
  spawned-handle_event h b t s (Loop.connection event) k =
      none_spawned c.sha256 h b
        (map connection_action (on_connection c.ip_limit event s.connections).1)
        (spawned-connections Addr Reply (on_connection c.ip_limit event s.connections).1)
  spawned-handle_event h b t s (Loop.metadata_request peer) k = refl
  spawned-handle_event h b t s (Loop.metadata_response peer response) k =
      none_spawned c.sha256 h b
        (elim (mismatch c.local_cluster response) [
          | none ↦ []
          | some theirs ↦ Loop.disconnect peer ∷ Loop.metadata_mismatch peer theirs ∷ []
        ])
        (spawned-mismatch Addr Reply peer (mismatch c.local_cluster response))
  spawned-handle_event h b t s (Loop.store_request peer request now) k = refl
  spawned-handle_event h b t s (Loop.lightpush_event peer request now) k = refl
  spawned-handle_event h b t s (Loop.peer_exchange_event request) k = refl
  spawned-handle_event h b t s (Loop.filter_event peer request) k = refl
  spawned-handle_event h b t s (Loop.filter_push_event request) k =
      elim (Option-cases request.waku_message) [
        | inl n ↦ rw n refl
        | inr (m, q) ↦ rw q (
            none_spawned c.sha256 h b
              (Loop.filter_message request.pubsub_topic m ∷ Loop.send_response _ ∷ []) refl)
      ]
  spawned-handle_event h b t s (Loop.response_event response) k =
      none_spawned c.sha256 h b (map settled (on_response s.pending response).1)
        (spawned-settled Addr (on_response s.pending response).1)
  spawned-handle_event h b t s Loop.other k = refl
