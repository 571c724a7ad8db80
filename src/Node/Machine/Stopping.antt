-- ===== src/Node/Machine/Stopping.antt =====
-- When the loop ends: by a shutdown, when all handles are dropped, or when an event is to be sent to an
-- application that is gone.
use rs_waku.Prelude.{
  ℕ, ◌+◌, ◌≡◌, refl, List, [], ◌∷◌, ◌++◌, map, Bool, true, false, ◌&&◌, ◌||◌, not, Option, none,
  some, if◌then◌else◌, any, arith, Bool-cases, Option-cases, inl, inr,
}
use rs_waku.Prelude.Eq.{Eq}
use rs_waku.Prelude.Outcome.{ok, err, Result-cases}
use rs_waku.Prelude.Text.{strip_prefix}
use rs_waku.Shard.{ShardId, parse}
use rs_waku.Message.{WakuMessage}
use rs_waku.Relay.{Validation, MessageAcceptance, acceptance}
use rs_waku.Node.Connections.{established, closed, admit, on_connection, on_established, on_closed}
use rs_waku.Prelude.Int.{ℤ}
use rs_waku.Node.Inbound.{
  RelayAction, is_ephemeral, verdict_on, accepted, on_decoded, on_relay_message,
}
use rs_waku.Node.Serving.{mismatch}
use rs_waku.Node.Requests.{Effect, handle_command, on_response}
use rs_waku.Node.Loop.{
  LoopState, SwarmEvent, Output, Setting, is_event, deliver_all, handle_event, on_store_request,
  on_lightpush, connection_action, relay_action, settled,
}
use rs_waku.Node.Loop
use rs_waku.Node.Answers.{is_shutdown}
use rs_waku.Node.Machine.{
  Machine, with_table, on_command, on_event, Step, take_command, handles_dropped, take_event,
  put_message, discover, consumer_dropped, Steps, done, then_step,
}

-- How many events for the application are among what is sent.
abbrev pub events_in : {Peer Addr Reply : Type 0} → List (Output Peer Addr Reply) → ℕ
events_in [] = 0
events_in (output ∷ rest) = (if is_event output then 1 else 0) + events_in rest

module _ {Peer Addr Reply : Type 0} where
  events_in-append :
      (xs ys : List (Output Peer Addr Reply)) → events_in (xs ++ ys) ≡ events_in xs + events_in ys
  events_in-append [] ys = omega arith
  events_in-append (x ∷ xs) ys = omega (arith, events_in-append xs ys)

  -- All outputs are sent while the application is there, and else those before the first event.
  deliver_all_lem :
      (b : Bool) (xs : List (Output Peer Addr Reply))
      → ((deliver_all b xs).1 ≡ (b || not (any is_event xs)))
        × (events_in (deliver_all b xs).0 ≡ (if b then events_in xs else 0))
  unfolding deliver_all
  deliver_all_lem b [] = ground arith
  deliver_all_lem b (x ∷ xs) = elim (Bool-cases (is_event x)) [
    | inl q ↦ rw q (ground (arith, deliver_all_lem b xs))
    | inr q ↦ rw q (ground (arith, deliver_all_lem b xs))
  ]

module _ {Peer Reply : Type 0} (Addr : Type 0) where
  events_in-settled :
      (xs : List (Effect Peer Reply))
      → (events_in {Peer = Peer} {Addr = Addr} {Reply = Reply} (map settled xs) ≡ 0)
        × (any (is_event {Peer = Peer} {Addr = Addr} {Reply = Reply}) (map settled xs) ≡ false)
  events_in-settled [] = (refl, refl)
  events_in-settled (x ∷ xs) = ground (arith, events_in-settled xs)

-- A list of outputs with an event for the application, or with none.
abbrev Tells : {Peer Addr Reply : Type 0} → Bool → List (Output Peer Addr Reply) → Type 0
Tells b xs = (any is_event xs ≡ b) × (events_in xs ≡ (if b then 1 else 0))

-- A verdict that is `Accept`.
abbrev pub is_accept : Validation → Bool
is_accept Validation.accept = true
is_accept v = false

abbrev pub is_some : {A : Type 0} → Option A → Bool
is_some none = false
is_some (some a) = true

module _ {Peer Ip Addr Enr RequestId Reply : Type 0} ⦃e : Eq Peer⦄ ⦃f : Eq Ip⦄ ⦃g : Eq RequestId⦄
    (c : Setting Addr Enr) where
  -- Whether the application is told of an event: of an address, of a connection that is not refused, of one
  -- that is closed, of a relay message that is accepted, of another cluster, and of a pushed message.
  abbrev pub notifies :
      LoopState Peer Ip Addr Enr RequestId Reply → SwarmEvent Peer Ip Addr RequestId → Bool
  notifies s (Loop.new_listen_addr address) = true
  notifies s (Loop.connection (established peer ip)) =
      (admit c.ip_limit ip s.connections.ip_counts).0
  notifies s (Loop.connection (closed peer ip)) = true
  notifies s (Loop.relay_message topic bytes id source now rx_time) = elim (parse topic) [
    | err x ↦ false
    | ok shard ↦ elim (c.try_decode bytes) [
      | none ↦ false
      | some msg ↦ is_accept (verdict_on now msg)
    ]
  ]
  notifies s (Loop.metadata_response peer response) = is_some (mismatch c.local_cluster response)
  notifies s (Loop.filter_push_event request) = is_some request.waku_message
  notifies s event = false

Tells-accepted :
    {Peer : Type 0} (Addr Reply : Type 0) (stores ephemeral : Bool)
    (put push to_app : RelayAction Peer) (told : Loop.is_delivery to_app ≡ true)
    (p : Loop.is_delivery put ≡ false) (q : Loop.is_delivery push ≡ false) (id : List ℕ)
    (source : Peer) (a : MessageAcceptance)
    → Tells {Peer = Peer} {Addr = Addr} {Reply = Reply} true (
        map relay_action
          ((if stores then (if ephemeral then [] else put ∷ []) else []) ++ push ∷ to_app ∷ [])
        ++ Loop.report id source a ∷ [])
Tells-accepted Addr Reply false e put push to_app told p q id source a = ground (arith, told, p, q)
Tells-accepted Addr Reply true true put push to_app told p q id source a =
    ground (arith, told, p, q)
Tells-accepted Addr Reply true false put push to_app told p q id source a =
    ground (arith, told, p, q)

Tells-mismatch :
    {Peer : Type 0} (Addr Reply : Type 0) (peer : Peer) (o : Option ℕ)
    → Tells {Peer = Peer} {Addr = Addr} {Reply = Reply} (is_some o) (elim o [
      | none ↦ []
      | some theirs ↦ Loop.disconnect peer ∷ Loop.metadata_mismatch peer theirs ∷ []
    ])
Tells-mismatch Addr Reply peer none = (refl, refl)
Tells-mismatch Addr Reply peer (some theirs) = (refl, refl)

module _ {Peer Ip Addr Enr RequestId Reply : Type 0} ⦃e : Eq Peer⦄ ⦃f : Eq Ip⦄ ⦃g : Eq RequestId⦄
    (c : Setting Addr Enr) where
  Tells-established :
      (s : LoopState Peer Ip Addr Enr RequestId Reply) (peer : Peer) (ip : Option Ip)
      → Tells {Peer = Peer} {Addr = Addr} {Reply = Reply}
          (admit c.ip_limit ip s.connections.ip_counts).0
          (map connection_action (on_established c.ip_limit peer ip s.connections).1)
  unfolding on_established
  Tells-established s peer ip = elim (Bool-cases (admit c.ip_limit ip s.connections.ip_counts).0) [
    | inl y ↦ rw (on_established, y) (refl, refl)
    | inr n ↦ rw (on_established, n) (refl, refl)
  ]

  Tells-relay :
      (s : LoopState Peer Ip Addr Enr RequestId Reply) (topic bytes id : List ℕ) (source : Peer)
      (now rx_time : ℤ)
      → Tells
          (notifies c s (Loop.relay_message topic bytes id source now rx_time))
          (handle_event c s (Loop.relay_message topic bytes id source now rx_time)).1
  unfolding handle_event on_relay_message on_decoded accepted parse strip_prefix
  Tells-relay s topic bytes id source now rx_time = elim (Result-cases (parse topic)) [
    | inr (x, q) ↦ rw (handle_event, on_relay_message, q) (refl, refl)
    | inl (shard, q) ↦ elim (Option-cases (c.try_decode bytes)) [
      | inl n ↦ rw (handle_event, on_relay_message, q, n) (refl, refl)
      | inr (msg, d) ↦
          rw (handle_event, on_relay_message, q, d) (by_verdict shard msg (verdict_on now msg))
    ]
  ]
    where
      by_verdict :
          (shard : ShardId) (msg : WakuMessage) (v : Validation)
          → Tells {Peer = Peer} {Addr = Addr} {Reply = Reply} (is_accept v) (
              map relay_action (elim v [
                | Validation.accept ↦
                    accepted c.sha256 c.try_decode
                      (Loop.has_store c.store)
                      s.filters
                      rx_time
                      shard
                      topic
                      msg
                      id
                | _ ↦ []
              ])
              ++ Loop.report id source (acceptance v) ∷ [])
      by_verdict shard msg Validation.accept =
          Tells-accepted Addr Reply (Loop.has_store c.store) (is_ephemeral msg.ephemeral) _ _ _ refl
            refl refl id source _
      by_verdict shard msg Validation.reject = (refl, refl)
      by_verdict shard msg Validation.ignore = (refl, refl)

  handle_event-Tells :
      (s : LoopState Peer Ip Addr Enr RequestId Reply) (event : SwarmEvent Peer Ip Addr RequestId)
      → Tells (notifies c s event) (handle_event c s event).1
  unfolding handle_event on_store_request on_lightpush on_connection on_closed
  handle_event-Tells s (Loop.new_listen_addr address) = (refl, refl)
  handle_event-Tells s (Loop.connection (established peer ip)) = Tells-established s peer ip
  handle_event-Tells s (Loop.connection (closed peer ip)) = (refl, refl)
  handle_event-Tells s (Loop.relay_message topic bytes id source now rx_time) =
      Tells-relay s topic bytes id source now rx_time
  handle_event-Tells s (Loop.metadata_request peer) = (refl, refl)
  handle_event-Tells s (Loop.metadata_response peer response) =
      Tells-mismatch Addr Reply peer (mismatch c.local_cluster response)
  handle_event-Tells s (Loop.store_request peer request now) = (refl, refl)
  handle_event-Tells s (Loop.lightpush_event peer request now) = (refl, refl)
  handle_event-Tells s (Loop.peer_exchange_event request) = (refl, refl)
  handle_event-Tells s (Loop.filter_event peer request) = (refl, refl)
  handle_event-Tells s (Loop.filter_push_event request) = elim (Option-cases request.waku_message) [
    | inl n ↦ rw n (refl, refl)
    | inr (m, q) ↦ rw q (refl, refl)
  ]
  handle_event-Tells s (Loop.response_event response) =
      let (count, none_of) = events_in-settled Addr (on_response s.pending response).1 in
      (none_of, count)
  handle_event-Tells s Loop.other = (refl, refl)

module _ {Peer Ip Addr Enr RequestId Reply NodeId : Type 0} ⦃e : Eq Peer⦄ ⦃f : Eq Ip⦄
    ⦃g : Eq RequestId⦄ ⦃j : Eq NodeId⦄ (c : Setting Addr Enr) (node_id : Enr → NodeId) where
  -- What ends the loop: a shutdown, that all handles are dropped, or an event for an application that is gone.
  abbrev pub stops : {m n : Machine Peer Ip Addr Enr RequestId Reply} → Step c node_id m n → Bool
  stops (take_command id command r) = is_shutdown command
  stops (handles_dropped r) = true
  stops {m} (take_event event r) =
      not m.has_consumer && notifies (with_table c m.table) m.loop event
  stops step = false

  -- The events that the application is told of.
  abbrev pub told : {m n : Machine Peer Ip Addr Enr RequestId Reply} → Step c node_id m n → ℕ
  told {m} (take_event event r) =
      if m.has_consumer && notifies (with_table c m.table) m.loop event then 1 else 0
  told step = 0

  abbrev pub stops_in :
      {m n : Machine Peer Ip Addr Enr RequestId Reply} → Steps c node_id m n → Bool
  stops_in done = false
  stops_in (then_step before step) = stops_in before || stops step

  abbrev pub told_in : {m n : Machine Peer Ip Addr Enr RequestId Reply} → Steps c node_id m n → ℕ
  told_in done = 0
  told_in (then_step before step) = told_in before + told step

  Step-running :
      {m n : Machine Peer Ip Addr Enr RequestId Reply} (step : Step c node_id m n)
      → (n.is_running ≡ (m.is_running && not (stops step)))
        × (events_in n.sent ≡ events_in m.sent + told step)
  unfolding on_command on_event
  Step-running {m} (take_command id command r) = elim (Bool-cases (is_shutdown command)) [
    | inl q ↦ rw (on_command, q) (ground arith, omega arith)
    | inr q ↦
        let effects = (handle_command c.swarm c.encode m.loop.pending id command).1 in
        rw (on_command, q)
          (
            ground arith,
            omega (
              arith,
              events_in-append m.sent (map settled effects),
              (events_in-settled Addr effects).0,
            ),
          )
  ]
  Step-running (handles_dropped r) = (ground arith, omega arith)
  Step-running {m} (take_event event r) =
      let outputs = (handle_event (with_table c m.table) m.loop event).1 in
      let (going, count) = deliver_all_lem m.has_consumer outputs in
      let (some_told, one) = handle_event-Tells (with_table c m.table) m.loop event in
      (
        ground (arith, going, some_told, r),
        ground (arith, events_in-append m.sent (deliver_all m.has_consumer outputs).0, count, one),
      )
  Step-running (put_message before after task q) = (ground arith, omega arith)
  Step-running (discover enr) = (ground arith, omega arith)
  Step-running consumer_dropped = (ground arith, omega arith)

  -- However the steps of the node follow one another, its loop runs at the end exactly if it ran at the start
  -- and no step was a shutdown, the drop of all handles, or an event that the application, being gone,
  -- should have been told of; and the application has been sent one event for each of the swarm's events
  -- that it is told of and that came while it was there: a new address, a connection that is not refused
  -- for its address, one that is closed, a relay message that is accepted, metadata of another cluster,
  -- and a pushed message.
  pub running_lem :
      {m n : Machine Peer Ip Addr Enr RequestId Reply} (steps : Steps c node_id m n)
      → (n.is_running ≡ (m.is_running && not (stops_in steps)))
        × (events_in n.sent ≡ events_in m.sent + told_in steps)
  running_lem done = (ground arith, omega arith)
  running_lem (then_step before step) =
      let (ran, sent) = running_lem before in
      let (runs, more) = Step-running step in (ground (arith, ran, runs), omega (arith, sent, more))
