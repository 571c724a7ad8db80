-- ===== src/Node/Machine/Examples.antt =====
-- The theorems on the node's steps at a concrete node: it takes in a message, a task stores it, and then the
-- application and the handles are gone.
use mathlib.Core.Option.{some-injective}
use rs_waku.Prelude.{ℕ, ◌≡◌, refl, sym, [], ◌∷◌, true, false, some, ◌||◌, any, arith}
use rs_waku.Prelude.Bytes.{Bytes, codes}
use rs_waku.Prelude.Eq.{nat_eq}
use rs_waku.Prelude.Int.{pos}
use rs_waku.Prelude.Assoc.{lookup}
use rs_waku.Prelude.Outcome.{ok}
use rs_waku.Message.{WakuMessage}
use rs_waku.Node.Timely.{HasTime}
use rs_waku.Hash.{deterministic_hash}
use rs_waku.Shard.{pubsub_topic}
use rs_waku.Node.Requests.{answer, published, handle_command}
use rs_waku.Node.Requests
use rs_waku.Node.Serving.{serve_store}
use rs_waku.Store.Wire.{WakuMessageKeyValue}
use rs_waku.Store.Lookup.{hash_request}
use rs_waku.Node.Loop.{SwarmEvent}
use rs_waku.Node.Loop
use rs_waku.Node.LoopExamples.{
  shard, hello, digest_of, encode, swarm, nothing_waits, setting, start, named, digest_length,
}
use rs_waku.Node.Machine.{Machine, on_event, Steps, done, then_step, take_event, consumer_dropped}
use rs_waku.Node.Machine.Invariant.{IsSound}
use rs_waku.Node.Machine.Spawned.{stores, asks_for}
use rs_waku.Node.Machine.Stored.{heard, all_stored}
use rs_waku.Prelude.{◌+◌, ◌&&◌, not}
use rs_waku.Node.Machine.Stopping.{events_in, stops_in, told_in, running_lem}
use rs_waku.Node.Machine.Relayed.{publish-serve}

abbrev node_id : ℕ → ℕ
node_id enr = enr

abbrev first : Machine ℕ ℕ ℕ ℕ ℕ ℕ
first = record {
  loop = start;
  table = some [];
  tasks = [];
  is_running = true;
  has_consumer = true;
  sent = [];
}

abbrev hello_event : SwarmEvent ℕ ℕ ℕ ℕ
hello_event = Loop.relay_message (pubsub_topic shard) (encode hello) (codes "id") 7 (pos 5) (pos 6)

abbrev second : Machine ℕ ℕ ℕ ℕ ℕ ℕ
second = on_event setting first hello_event

abbrev heard_hello : Steps setting node_id first second
heard_hello = then_step done (take_event hello_event refl)

first-IsSound : IsSound setting node_id first.loop first.table
unfolding lookup
first-IsSound = record {
  loop_sound = (λ ip. omega arith, tt, (tt, tt, tt, tt));
  one_per_node = tt;
  book_bounded = omega arith;
  table_sound = tt;
}

abbrev hello_hash : Bytes
hello_hash = deterministic_hash digest_of (pubsub_topic shard) hello

decoded_time : (m : WakuMessage) → setting.try_decode (encode hello) ≡ some m → HasTime m.timestamp
decoded_time m q = rw (sym (some-injective _ _ q)) tt

all_stored_example :
    (o : Machine ℕ ℕ ℕ ℕ ℕ ℕ) × (rest : Steps setting node_id second o) × (o.tasks ≡ [])
    × (heard setting node_id rest ≡ [])
    × (stores hello_hash o.table ≡ (
        stores hello_hash first.table
        || any (asks_for setting hello_hash) (heard setting node_id heard_hello)))
all_stored_example =
    all_stored setting node_id heard_hello hello_hash refl refl ((omega arith, decoded_time), tt)

-- The application goes, and then a message comes that it should have been told of.
abbrev left_alone :
    Steps setting node_id first
      (on_event setting (record first { has_consumer = false }) hello_event)
left_alone = then_step (then_step done consumer_dropped) (take_event hello_event refl)

running_lem_example :
    ((on_event setting (record first { has_consumer = false }) hello_event).is_running
      ≡ (first.is_running && not (stops_in setting node_id left_alone)))
    × (events_in (on_event setting (record first { has_consumer = false }) hello_event).sent
        ≡ events_in first.sent + told_in setting node_id left_alone)
running_lem_example = running_lem setting node_id left_alone

publish-serve_example :
    (handle_command {Peer = ℕ} swarm encode nothing_waits 1 (Requests.publish shard hello 70)
      ≡ (nothing_waits, answer 70 (published (ok hello_hash)) ∷ []))
    × (o : Machine ℕ ℕ ℕ ℕ ℕ ℕ) × (rest : Steps setting node_id second o) × (heard setting node_id
          rest
        ≡ [])
    × (o.tasks ≡ [])
    × (found : WakuMessageKeyValue) × ((serve_store setting.describe o.table
          (hash_request (codes "q") hello_hash)).messages
        ≡ found ∷ [])
    × (found.message_hash ≡ some hello_hash)
publish-serve_example =
    publish-serve setting node_id shard hello swarm nothing_waits 1 70 first (codes "id")
      (codes "q") 7 (pos 5) (pos 6) named refl digest_length
      (record { cluster_id = omega arith; shard = omega arith }) refl refl (tt, tt) (omega arith) tt
      tt refl
