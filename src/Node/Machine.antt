-- ===== src/Node/Machine.antt =====
-- crates/waku-node/src/runtime.rs: the node as it runs: `run`, the loop over commands and events, beside
-- the tasks that it spawns to put messages into the store and the discovery task, which all go on in any
-- order. The table, the peer book and the channel to the application are shared between them.
pub mod Invariant
pub mod Spawned
pub mod Outputs
pub mod Stored
pub mod Stopping
pub mod Relayed
mod Examples
use rs_waku.Prelude.{
  ℕ, ◌≡◌, List, [], ◌∷◌, ◌++◌, map, Bool, true, false, ◌&&◌, not, Option, none, some, if◌then◌else◌,
}
use mathlib.Core.Option
use rs_waku.Prelude.Bytes.{Bytes}
use rs_waku.Prelude.Eq.{Eq}
use rs_waku.Prelude.Int.{ℤ}
use rs_waku.Message.{WakuMessage}
use rs_waku.Store.{Table, put}
use rs_waku.Node.PeerBook.{remember_enr}
use rs_waku.Node.Connections.{Action}
use rs_waku.Node.Connections
use rs_waku.Node.Inbound.{RelayAction, store_put, filter_push, deliver}
use rs_waku.Node.Answers.{is_shutdown}
use rs_waku.Node.Requests.{Command, handle_command}
use rs_waku.Node.Requests
use rs_waku.Node.Loop.{deliver_all, LoopState, SwarmEvent, Output, settled, Setting, handle_event}
use rs_waku.Node.Loop

-- What a spawned task will put: the topic, the message and the time of its receipt.
pub record StoreTask : Type 0 where
  pub topic : Bytes
  pub message : WakuMessage
  pub rx_time : ℤ

pub record Machine (Peer Ip Addr Enr RequestId Reply : Type 0) : Type 0 where
  pub loop : LoopState Peer Ip Addr Enr RequestId Reply
  pub table : Option Table
  pub tasks : List StoreTask
  pub is_running : Bool
  pub has_consumer : Bool
  pub sent : List (Output Peer Addr Reply)

-- The tasks that are spawned among what is sent.
abbrev pub spawned : {Peer Addr Reply : Type 0} → List (Output Peer Addr Reply) → List StoreTask
spawned [] = []
spawned (Loop.relay_action (store_put topic message time) ∷ rest) =
    record { topic = topic; message = message; rx_time = time } ∷ spawned rest
spawned (output ∷ rest) = spawned rest

-- The setting, with the table as it is now.
abbrev pub with_table : {Addr Enr : Type 0} → Setting Addr Enr → Option Table → Setting Addr Enr
with_table c table = record c { store = table }

module _ {Peer Ip Addr Enr RequestId Reply : Type 0} ⦃e : Eq Peer⦄ ⦃f : Eq Ip⦄ ⦃g : Eq RequestId⦄
    (c : Setting Addr Enr) where
  -- `cmd = cmd_rx.recv()`
  unfoldable pub on_command :
      Machine Peer Ip Addr Enr RequestId Reply
      → RequestId
      → Command Peer Addr Reply
      → Machine Peer Ip Addr Enr RequestId Reply
  on_command m id command =
      let (pending, effects) = handle_command c.swarm c.encode m.loop.pending id command in
      if is_shutdown command then record m { is_running = false } else record m {
        loop = record m.loop { pending = pending };
        sent = m.sent ++ map settled effects;
      }

  -- `event = swarm.select_next_some()`
  unfoldable pub on_event :
      Machine Peer Ip Addr Enr RequestId Reply
      → SwarmEvent Peer Ip Addr RequestId
      → Machine Peer Ip Addr Enr RequestId Reply
  unfolding deliver_all
  on_event m event =
      let (loop, outputs) = handle_event (with_table c m.table) m.loop event in
      let (sent, done) = deliver_all m.has_consumer outputs in
      record m {
        loop = loop;
        tasks = m.tasks ++ spawned sent;
        is_running = done;
        sent = m.sent ++ sent;
      }

-- A spawned task, which goes on also when the loop has ended.
unfoldable pub run_task : (Bytes → Bytes) → Option Table → StoreTask → Option Table
run_task sha256 table task =
    Option.map (λ t. put sha256 t task.topic task.message task.rx_time) table

module _ {Peer Ip Addr Enr RequestId Reply NodeId : Type 0} ⦃e : Eq Peer⦄ ⦃f : Eq Ip⦄
    ⦃g : Eq RequestId⦄ ⦃h : Eq NodeId⦄ (c : Setting Addr Enr) (node_id : Enr → NodeId) where
  -- One step of the loop, of a task, of the discovery task or of the application. The dials of the
  -- discovery task are commands.
  pub data Step (m : Machine Peer Ip Addr Enr RequestId Reply)
      : Machine Peer Ip Addr Enr RequestId Reply → Type 0 where
    take_command :
        (id : RequestId) (command : Command Peer Addr Reply)
        → m.is_running ≡ true
        → Step m (on_command c m id command)
    handles_dropped : m.is_running ≡ true → Step m (record m { is_running = false })
    take_event :
        (event : SwarmEvent Peer Ip Addr RequestId)
        → m.is_running ≡ true
        → Step m (on_event c m event)
    put_message :
        (before after : List StoreTask) (task : StoreTask)
        → m.tasks ≡ before ++ task ∷ after
        → Step m (record m { tasks = before ++ after; table = run_task c.sha256 m.table task })
    discover :
        (enr : Enr)
        → Step m (record m {
          loop = record m.loop { peer_book = remember_enr node_id m.loop.peer_book enr };
        })
    consumer_dropped : Step m (record m { has_consumer = false })

  pub data Steps (m : Machine Peer Ip Addr Enr RequestId Reply)
      : Machine Peer Ip Addr Enr RequestId Reply → Type 0 where
    done : Steps m m
    then_step : {n o : Machine Peer Ip Addr Enr RequestId Reply} → Steps m n → Step n o → Steps m o
