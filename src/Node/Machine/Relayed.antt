-- ===== src/Node/Machine/Relayed.antt =====
-- A message from the handle of one node, over gossipsub, into the store of another, and from there to a peer
-- that asks for its hash.
use mathlib.Core.Option.{some-injective}
use rs_waku.Prelude.{
  ◌≡◌, refl, sym, ap, ◌∙◌, [], ◌∷◌, map, true, false, Option, none, some, any, All-append, arith,
  Bool-cases, Option-cases, inl, inr, length,
}
use rs_waku.Prelude.Bytes.{Bytes}
use rs_waku.Prelude.Eq.{Eq, ◌==◌, list_eq, nat_eq, eq_refl, eq_iff}
use rs_waku.Prelude.Int.{ℤ}
use rs_waku.Prelude.Outcome.{ok}
use rs_waku.Shard.{ShardId, pubsub_topic}
use rs_waku.Shard.RoundTrip.{IsValid, parse-pubsub_topic}
use rs_waku.Message.{WakuMessage}
use rs_waku.Hash.{deterministic_hash, preimage}
use rs_waku.Relay.{waku_message_id}
use rs_waku.Store.{Row, Table, StoreError, put, find_row, row_of}
use rs_waku.Store.Order.{HasUniqueHashes}
use rs_waku.Store.Rows.{put-HasUniqueHashes}
use rs_waku.Store.Paging.{HasDigests, view}
use rs_waku.Store.Lookup.{list_of, hash_request, serve-hash_request}
use rs_waku.Store.Wire.{WakuMessageKeyValue, StoreQueryResponse, key_value}
use rs_waku.Node.Requests.{Swarm, Pending, Command, Effect, answer, published, handle_command}
use rs_waku.Node.Requests
use rs_waku.Node.Publish.{publish_hash}
use rs_waku.Node.Timely.{IsTime, HasTime, IsTimely}
use rs_waku.Node.Serving.{serve_store}
use rs_waku.Node.Inbound.{is_ephemeral}
use rs_waku.Node.Loop.{Setting}
use rs_waku.Node.Loop
use rs_waku.Node.Answers.{is_shutdown}
use rs_waku.Node.Machine.{
  StoreTask, Machine, on_command, on_event, run_task, Step, take_command, handles_dropped,
  take_event, put_message, discover, consumer_dropped, Steps, done, then_step,
}
use rs_waku.Node.Machine.Spawned.{stores, is_task_of, asks_for}
use rs_waku.Node.Machine.Outputs.{is_timely_iff}
use rs_waku.Node.Machine.Stored.{heard, Steps-holds, run_tasks}

-- The rows of a table have distinct hashes, which are digests.
abbrev pub IsKeyed : Option Table → Type 0
IsKeyed none = Unit
IsKeyed (some t) = HasUniqueHashes t × HasDigests t

put-HasDigests :
    (sha256 : Bytes → Bytes) (t : Table) (topic : Bytes) (m : WakuMessage) (rx : ℤ)
    → ((bs : Bytes) → length (sha256 bs) ≡ 32)
    → HasDigests t
    → HasDigests (put sha256 t topic m rx)
unfolding put deterministic_hash row_of
put-HasDigests sha256 t topic m rx digest d =
    elim (Option-cases (find_row (deterministic_hash sha256 topic m) t)) [
      | inl n ↦
          rw (put, n)
            (All-append (λ (r : Row). length r.message_hash ≡ 32) t _ d
              (digest (preimage topic m), tt))
      | inr (r, q) ↦ rw (put, q) d
    ]

run_task-IsKeyed :
    (sha256 : Bytes → Bytes) (table : Option Table) (task : StoreTask)
    → ((bs : Bytes) → length (sha256 bs) ≡ 32)
    → IsKeyed table
    → IsKeyed (run_task sha256 table task)
unfolding run_task
run_task-IsKeyed sha256 none task digest k = tt
run_task-IsKeyed sha256 (some t) task digest k = (
  put-HasUniqueHashes sha256 t task.topic task.message task.rx_time k.0,
  put-HasDigests sha256 t task.topic task.message task.rx_time digest k.1,
)

find_row-hash : (h : Bytes) (t : Table) (r : Row) → find_row h t ≡ some r → r.message_hash ≡ h
unfolding find_row
find_row-hash h [] r q = cc
find_row-hash h (s ∷ t) r q = elim (Bool-cases (s.message_hash == h)) [
  | inl y ↦ ground (arith, y, q, eq_iff s.message_hash h)
  | inr n ↦ find_row-hash h t r (ground (arith, n, q))
]

-- The store's answer to a request for a hash that it has.
answered_with :
    (describe : StoreError → Bytes) (table : Option Table) (id h : Bytes)
    → length h ≡ 32
    → IsKeyed table
    → stores h table ≡ true
    → (found : WakuMessageKeyValue) × ((serve_store describe table (hash_request id h)).messages
        ≡ found ∷ [])
      × (found.message_hash ≡ some h)
answered_with describe none id h d k s = absurd (cc)
answered_with describe (some t) id h d k s = elim (Option-cases (find_row h t)) [
  | inl n ↦ absurd (ground (arith, n, s))
  | inr (r, q) ↦ (
    key_value (view true r),
    ap (λ (a : StoreQueryResponse). a.messages) (serve-hash_request describe t id h d k.0 k.1)
        ∙ ap (λ o. map (λ x. key_value (view true x)) (list_of o)) q,
    ap some (find_row-hash h t r q),
  )
]

hash_length :
    (sha256 : Bytes → Bytes) (topic : Bytes) (m : WakuMessage)
    → ((bs : Bytes) → length (sha256 bs) ≡ 32)
    → length (deterministic_hash sha256 topic m) ≡ 32
unfolding deterministic_hash
hash_length sha256 topic m digest = digest (preimage topic m)

-- A published message that is in time and not ephemeral is to be stored.
asks_published :
    {Peer Addr Enr : Type 0} (Ip RequestId : Type 0) (c : Setting Addr Enr) (shard : ShardId)
    (m : WakuMessage) (bytes id : Bytes) (source : Peer) (now rx_time : ℤ)
    → IsValid shard
    → c.try_decode bytes ≡ some m
    → IsTimely now m.timestamp
    → is_ephemeral m.ephemeral ≡ false
    → asks_for {Peer = Peer} {Ip = Ip} {RequestId = RequestId} c
        (deterministic_hash c.sha256 (pubsub_topic shard) m)
        (Loop.relay_message (pubsub_topic shard) bytes id source now rx_time)
      ≡ true
asks_published Ip RequestId c shard m bytes id source now rx_time v d t p =
    rw (asks_for, parse-pubsub_topic shard v, d, (is_timely_iff now m.timestamp).1 t, p)
      (eq_refl (deterministic_hash c.sha256 (pubsub_topic shard) m))

module _ {Peer Ip Addr Enr RequestId Reply NodeId : Type 0} ⦃e : Eq Peer⦄ ⦃f : Eq Ip⦄
    ⦃g : Eq RequestId⦄ ⦃j : Eq NodeId⦄ (c : Setting Addr Enr) (node_id : Enr → NodeId) where
  Step-IsKeyed :
      {m n : Machine Peer Ip Addr Enr RequestId Reply}
      → Step c node_id m n
      → ((bs : Bytes) → length (c.sha256 bs) ≡ 32)
      → IsKeyed m.table
      → IsKeyed n.table
  unfolding on_command on_event
  Step-IsKeyed {m} (take_command id command r) digest k = elim (Bool-cases (is_shutdown command)) [
    | inl q ↦ rw (on_command, q) k
    | inr q ↦ rw (on_command, q) k
  ]
  Step-IsKeyed (handles_dropped r) digest k = k
  Step-IsKeyed (take_event event r) digest k = k
  Step-IsKeyed {m} (put_message before after task q) digest k =
      run_task-IsKeyed c.sha256 m.table task digest k
  Step-IsKeyed (discover enr) digest k = k
  Step-IsKeyed consumer_dropped digest k = k

  pub Steps-IsKeyed :
      {m n : Machine Peer Ip Addr Enr RequestId Reply}
      → Steps c node_id m n
      → ((bs : Bytes) → length (c.sha256 bs) ≡ 32)
      → IsKeyed m.table
      → IsKeyed n.table
  Steps-IsKeyed done digest k = k
  Steps-IsKeyed (then_step before step) digest k =
      Step-IsKeyed step digest (Steps-IsKeyed before digest k)

  -- A node whose publish of a message gossipsub accepts answers with the message's hash, and another node
  -- with a store that takes the message in, not ephemeral and in time, comes without further events to a
  -- state in which no task waits and a peer that asks its store for that hash gets one message, of that
  -- hash. Gossipsub names the message by the id function that the relay configures and delivers the bytes
  -- it was given, the encoding can be decoded, a SHA-256 digest has 32 bytes, the shard's numbers fit 16
  -- bits, the rows of the store have distinct hashes, which are digests, and the times are within 2^62
  -- nanoseconds of 1970.
  pub publish-serve :
      (shard : ShardId) (m : WakuMessage) (a : Swarm Addr) (pending : Pending RequestId Reply)
      (request : RequestId) (reply : Reply) (n : Machine Peer Ip Addr Enr RequestId Reply)
      (id query_id : Bytes) (source : Peer) (now rx_time : ℤ)
      → a.publish (pubsub_topic shard) (c.encode m)
        ≡ ok (waku_message_id c.sha256 c.try_decode (pubsub_topic shard) (c.encode m))
      → c.try_decode (c.encode m) ≡ some m
      → ((bs : Bytes) → length (c.sha256 bs) ≡ 32)
      → IsValid shard
      → n.is_running ≡ true
      → Loop.has_store n.table ≡ true
      → IsKeyed n.table
      → IsTime now
      → HasTime m.timestamp
      → IsTimely now m.timestamp
      → is_ephemeral m.ephemeral ≡ false
      → (handle_command {Peer = Peer} a c.encode pending request (Requests.publish shard m reply)
          ≡ (
            pending,
            answer reply (published (ok (deterministic_hash c.sha256 (pubsub_topic shard) m))) ∷ [],
          ))
        × (o : Machine Peer Ip Addr Enr RequestId Reply) × (rest : Steps c node_id
            (on_event c n
              (Loop.relay_message (pubsub_topic shard) (c.encode m) id source now rx_time))
            o)
        × (heard c node_id rest ≡ [])
        × (o.tasks ≡ [])
        × (found : WakuMessageKeyValue) × ((serve_store c.describe o.table
              (hash_request query_id (deterministic_hash c.sha256 (pubsub_topic shard) m))).messages
            ≡ found ∷ [])
        × (found.message_hash ≡ some (deterministic_hash c.sha256 (pubsub_topic shard) m))
  publish-serve shard m a pending request reply n id query_id source now rx_time accepted decoded
        digest v running t keyed tn tm timely kept =
      let event = Loop.relay_message (pubsub_topic shard) (c.encode m) id source now rx_time in
      let h = deterministic_hash c.sha256 (pubsub_topic shard) m in
      let first : Steps c node_id n (on_event c n event) =
        then_step done (take_event event running) in
      let (o, rest, silent, empty) =
        run_tasks c node_id (on_event c n event).tasks (on_event c n event) refl in
      let (now_held, t2) =
        Steps-holds c node_id first h t
          ((tn, λ x q. rw (some-injective _ _ (sym q ∙ decoded)) tm), tt) in
      let (then_held, t3) = Steps-holds c node_id rest h t2 (rw silent tt) in
      let keyed_at_end = Steps-IsKeyed rest digest (Steps-IsKeyed first digest keyed) in
      let (found, messages, named) =
        answered_with c.describe o.table query_id h
          (hash_length c.sha256 (pubsub_topic shard) m digest) keyed_at_end
          (ground (
            arith,
            now_held,
            then_held,
            asks_published Ip RequestId c shard m (c.encode m) id source now rx_time v decoded
                timely kept,
            ap (any (is_task_of c.sha256 h)) empty,
            ap (any (asks_for {Peer = Peer} {Ip = Ip} {RequestId = RequestId} c h)) silent,
          )) in
      (
        publish_hash Peer Reply a c.encode c.try_decode c.sha256 pending request shard m reply
            accepted decoded digest,
        o,
        rest,
        silent,
        empty,
        found,
        messages,
        named,
      )
