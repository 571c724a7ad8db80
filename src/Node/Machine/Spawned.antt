-- ===== src/Node/Machine/Spawned.antt =====
-- What tasks the loop spawns for a relay message, and what they put.
use mathlib.Core.Option
use rs_waku.Prelude.{
  ◌≡◌, refl, ap, ◌∙◌, List, [], ◌∷◌, ◌++◌, Bool, true, false, ◌&&◌, ◌||◌, not, Option, none, some,
  if◌then◌else◌, any, arith, ltb,
}
use rs_waku.Prelude.Bytes.{Bytes}
use rs_waku.Prelude.Eq.{◌==◌, list_eq, nat_eq}
use rs_waku.Prelude.Int.{ℤ, magnitude, ◌-ℤ◌}
use rs_waku.Prelude.Outcome.{ok, err}
use rs_waku.Shard.{parse}
use rs_waku.Message.{WakuMessage}
use rs_waku.Hash.{deterministic_hash}
use rs_waku.Store.{Table, Row, put, row_of, find_row}
use rs_waku.Store.Presence.{is_stored}
use rs_waku.Store.Rows.{same_hash, find_row-insert_row, hash_of_row}
use rs_waku.Node.Inbound.{is_ephemeral}
use rs_waku.Node.Timely.{IsTime, HasTime}
use rs_waku.Node.Loop.{
  LoopState, SwarmEvent, Output, Setting, handle_event, on_store_request, on_lightpush,
  connection_action, relay_action, settled,
}
use rs_waku.Node.Loop
use rs_waku.Node.Machine.{StoreTask, Machine, run_task}

abbrev pub stores : Bytes → Option Table → Bool
stores h none = false
stores h (some t) = is_stored t h

abbrev pub is_task_of : (Bytes → Bytes) → Bytes → StoreTask → Bool
is_task_of sha256 h task = deterministic_hash sha256 task.topic task.message == h

abbrev is_some : Option Row → Bool
is_some none = false
is_some (some r) = true

-- The row of a hash is there, or a task that will put it.
abbrev pub holds :
    {Peer Ip Addr Enr RequestId Reply : Type 0}
    → (Bytes → Bytes)
    → Bytes
    → Machine Peer Ip Addr Enr RequestId Reply
    → Bool
holds sha256 h m = stores h m.table || any (is_task_of sha256 h) m.tasks

abbrev pub is_timely : ℤ → Option ℤ → Bool
is_timely now none = true
is_timely now (some ts) = ltb (magnitude (now -ℤ ts)) 21000000000

module _ {Peer Ip Addr Enr RequestId : Type 0} (c : Setting Addr Enr) where
  -- Whether an event has a message of a hash that is to be stored: one that decodes, on the topic of a
  -- shard, not ephemeral, and without a timestamp or with one less than 21 seconds from the clock.
  abbrev pub asks_for : Bytes → SwarmEvent Peer Ip Addr RequestId → Bool
  asks_for h (Loop.relay_message topic bytes id source now rx_time) = elim (parse topic) [
    | err x ↦ false
    | ok shard ↦ elim (c.try_decode bytes) [
      | none ↦ false
      | some msg ↦
          is_timely now msg.timestamp
          && (not (is_ephemeral msg.ephemeral) && (deterministic_hash c.sha256 topic msg == h))
    ]
  ]
  asks_for h event = false

  -- The times of an event are within 2^62 nanoseconds of 1970.
  abbrev pub HasTimes : SwarmEvent Peer Ip Addr RequestId → Type 0
  HasTimes (Loop.relay_message topic bytes id source now rx_time) =
      IsTime now × ((msg : WakuMessage) → c.try_decode bytes ≡ some msg → HasTime msg.timestamp)
  HasTimes event = Unit

-- What a row found says of the hash.
found_or :
    (old here : Option Row) (r : Row) (same : Bool)
    → ((same ≡ true) → here ≡ old)
    → is_some (if same then some (Option.get_or old r) else here) ≡ (is_some here || same)
found_or old none r true h = refl
found_or old (some a) r true h = refl
found_or old none r false h = refl
found_or old (some a) r false h = refl

is_stored-put :
    (sha256 : Bytes → Bytes) (t : Table) (topic : Bytes) (msg : WakuMessage) (rx : ℤ) (h : Bytes)
    → is_stored (put sha256 t topic msg rx) h
      ≡ (is_stored t h || (deterministic_hash sha256 topic msg == h))
unfolding put
is_stored-put sha256 t topic msg rx h =
    let hash = deterministic_hash sha256 topic msg in
    let r = row_of hash topic msg rx in
    ap is_some (find_row-insert_row hash h r t (hash_of_row hash topic msg rx))
    ∙ found_or (find_row hash t) (find_row h t) r (hash == h) (same_hash hash h t)

-- What a task adds.
pub stores-run_task :
    (sha256 : Bytes → Bytes) (h : Bytes) (t : Table) (task : StoreTask)
    → stores h (run_task sha256 (some t) task) ≡ (stores h (some t) || is_task_of sha256 h task)
unfolding run_task
stores-run_task sha256 h t task = is_stored-put sha256 t task.topic task.message task.rx_time h

pub any-append :
    {A : Type 0} (p : A → Bool) (xs ys : List A) → any p (xs ++ ys) ≡ (any p xs || any p ys)
any-append p [] ys = refl
any-append p (x ∷ xs) ys = ground (arith, any-append p xs ys)
