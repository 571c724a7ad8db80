-- ===== src/Node/Machine/Stored.antt =====
-- That the node stores the relay messages that it accepts, and no others.
use rs_waku.Prelude.{
  ◌≡◌, refl, sym, ap, ◌∙◌, List, [], ◌∷◌, ◌++◌, Bool, true, false, ◌||◌, Option, none, some, any,
  All, arith, Bool-cases, inl, inr, append-nil, append_assoc, All-append_left, All-append_right,
}
use rs_waku.Prelude.Bytes.{Bytes}
use rs_waku.Prelude.Eq.{Eq, list_eq, nat_eq}
use rs_waku.Store.{Table}
use rs_waku.Node.Loop.{
  deliver_all, LoopState, SwarmEvent, Output, Setting, handle_event, on_store_request, on_lightpush,
  connection_action, relay_action, settled,
}
use rs_waku.Node.Loop
use rs_waku.Node.Answers.{is_shutdown}
use rs_waku.Node.Machine.{
  StoreTask, Machine, with_table, on_command, on_event, run_task, spawned, Step, take_command,
  handles_dropped, take_event, put_message, discover, consumer_dropped, Steps, done, then_step,
}
use rs_waku.Node.Machine.Spawned.{
  stores, is_task_of, holds, asks_for, HasTimes, stores-run_task, any-append,
}
use rs_waku.Node.Machine.Outputs.{spawned-handle_event}

-- A hash of a task is one of the tasks before it, of its own or of those after it.
any-middle :
    {A : Type 0} (p : A → Bool) (before after : List A) (a : A)
    → any p (before ++ a ∷ after) ≡ (p a || any p (before ++ after))
any-middle p [] after a = refl
any-middle p (x ∷ before) after a = ground (arith, any-middle p before after a)

task_adds :
    (sha256 : Bytes → Bytes) (h : Bytes) (table : Option Table)
    (tasks before after : List StoreTask) (task : StoreTask)
    → Loop.has_store table ≡ true
    → tasks ≡ before ++ task ∷ after
    → ((stores h (run_task sha256 table task) || any (is_task_of sha256 h) (before ++ after))
        ≡ ((stores h table || any (is_task_of sha256 h) tasks) || false))
      × (Loop.has_store (run_task sha256 table task) ≡ true)
unfolding run_task
task_adds sha256 h none tasks before after task t q = cc
task_adds sha256 h (some table) tasks before after task t q = (
  rw (q, any-middle (is_task_of sha256 h) before after task)
      (ground (arith, stores-run_task sha256 h table task)),
  refl,
)

module _ {Peer Ip Addr Enr RequestId Reply : Type 0} ⦃e : Eq Peer⦄ ⦃f : Eq Ip⦄ ⦃g : Eq RequestId⦄
    (c : Setting Addr Enr) where
  event_adds :
      (h : Bytes) (table : Option Table) (tasks : List StoreTask) (b : Bool)
      (s : LoopState Peer Ip Addr Enr RequestId Reply) (event : SwarmEvent Peer Ip Addr RequestId)
      → Loop.has_store table ≡ true
      → HasTimes c event
      → (stores h table
          || any
              (is_task_of c.sha256 h)
              (tasks ++ spawned (deliver_all b (handle_event (with_table c table) s event).1).0))
        ≡ ((stores h table || any (is_task_of c.sha256 h) tasks) || (asks_for c h event || false))
  event_adds h none tasks b s event t k = cc
  event_adds h (some table) tasks b s event t k = ground (
    arith,
    any-append (is_task_of c.sha256 h) tasks
        (spawned (deliver_all b (handle_event (with_table c (some table)) s event).1).0),
    spawned-handle_event c h b table s event k,
  )

module _ {Peer Ip Addr Enr RequestId Reply NodeId : Type 0} ⦃e : Eq Peer⦄ ⦃f : Eq Ip⦄
    ⦃g : Eq RequestId⦄ ⦃j : Eq NodeId⦄ (c : Setting Addr Enr) (node_id : Enr → NodeId) where
  -- The events that the loop takes in, over a sequence of steps.
  abbrev pub event_of :
      {m n : Machine Peer Ip Addr Enr RequestId Reply}
      → Step c node_id m n
      → List (SwarmEvent Peer Ip Addr RequestId)
  event_of (take_event event r) = event ∷ []
  event_of _ = []

  abbrev pub heard :
      {m n : Machine Peer Ip Addr Enr RequestId Reply}
      → Steps c node_id m n
      → List (SwarmEvent Peer Ip Addr RequestId)
  heard done = []
  heard (then_step before step) = heard before ++ event_of step

  Step-holds :
      {m n : Machine Peer Ip Addr Enr RequestId Reply} (step : Step c node_id m n) (h : Bytes)
      → Loop.has_store m.table ≡ true
      → All (HasTimes c) (event_of step)
      → (holds c.sha256 h n ≡ (holds c.sha256 h m || any (asks_for c h) (event_of step)))
        × (Loop.has_store n.table ≡ true)
  unfolding on_command on_event
  Step-holds {m} (take_command id command r) h t k = elim (Bool-cases (is_shutdown command)) [
    | inl q ↦ rw (on_command, q) (ground arith, t)
    | inr q ↦ rw (on_command, q) (ground arith, t)
  ]
  Step-holds (handles_dropped r) h t k = (ground arith, t)
  Step-holds {m} (take_event event r) h t k =
      (event_adds c h m.table m.tasks m.has_consumer m.loop event t k.0, t)
  Step-holds {m} (put_message before after task q) h t k =
      task_adds c.sha256 h m.table m.tasks before after task t q
  Step-holds {m} (discover enr) h t k = (ground arith, t)
  Step-holds consumer_dropped h t k = (ground arith, t)

  -- However the steps of the node follow one another, a message of a hash is in the store or a task will put
  -- it there exactly if it was so at the start or the loop has since taken in a relay message of that
  -- hash that decodes, is on the topic of a shard, not ephemeral, and without a timestamp or with one less
  -- than 21 seconds from the clock; and the node still has a store. The node has a store at the start, and
  -- the times are within 2^62 nanoseconds of 1970.
  pub Steps-holds :
      {m n : Machine Peer Ip Addr Enr RequestId Reply} (steps : Steps c node_id m n) (h : Bytes)
      → Loop.has_store m.table ≡ true
      → All (HasTimes c) (heard steps)
      → (holds c.sha256 h n ≡ (holds c.sha256 h m || any (asks_for c h) (heard steps)))
        × (Loop.has_store n.table ≡ true)
  Steps-holds done h t k = (ground arith, t)
  Steps-holds (then_step before step) h t k =
      let (first, t2) =
        Steps-holds before h t (All-append_left (HasTimes c) (heard before) (event_of step) k) in
      let (second, t3) =
        Step-holds step h t2 (All-append_right (HasTimes c) (heard before) (event_of step) k) in
      (ground (arith, first, second, any-append (asks_for c h) (heard before) (event_of step)), t3)

  join :
      {m n o : Machine Peer Ip Addr Enr RequestId Reply} (first : Steps c node_id m n)
      (second : Steps c node_id n o)
      → (steps : Steps c node_id m o) × (heard steps ≡ heard first ++ heard second)
  join first done = (first, sym (append-nil (heard first)))
  join first (then_step second step) =
      let (steps, same) = join first second in
      (
        then_step steps step,
        ap (λ l. l ++ event_of step) same
            ∙ append_assoc (heard first) (heard second) (event_of step),
      )

  -- The tasks that are left can all be run.
  pub run_tasks :
      (tasks : List StoreTask) (m : Machine Peer Ip Addr Enr RequestId Reply)
      → m.tasks ≡ tasks
      → (n : Machine Peer Ip Addr Enr RequestId Reply) × (steps : Steps c node_id m n) × (heard
            steps
          ≡ [])
        × (n.tasks ≡ [])
  run_tasks [] m q = (m, done, refl, q)
  run_tasks (task ∷ rest) m q =
      let (n, steps, silent, empty) =
        run_tasks rest (record m { tasks = rest; table = run_task c.sha256 m.table task }) refl in
      let (all, same) = join (then_step done (put_message [] rest task q)) steps in
      (n, all, same ∙ silent, empty)

  -- From every state that the node reaches, it comes without further events to one in which no task waits,
  -- and there the store has a message of a hash exactly if it had one at the start or the loop has taken
  -- in a relay message of that hash that is to be stored. No task waits at the start, the node has a store,
  -- and the times are within 2^62 nanoseconds of 1970.
  pub all_stored :
      {m n : Machine Peer Ip Addr Enr RequestId Reply} (steps : Steps c node_id m n) (h : Bytes)
      → Loop.has_store m.table ≡ true
      → m.tasks ≡ []
      → All (HasTimes c) (heard steps)
      → (o : Machine Peer Ip Addr Enr RequestId Reply) × (rest : Steps c node_id n o) × (o.tasks
          ≡ [])
        × (heard rest ≡ [])
        × (stores h o.table ≡ (stores h m.table || any (asks_for c h) (heard steps)))
  all_stored {m} {n} steps h t q k =
      let (o, rest, silent, empty) = run_tasks n.tasks n refl in
      let (now, t2) = Steps-holds steps h t k in
      let (later, t3) = Steps-holds rest h t2 (rw silent tt) in
      (
        o,
        rest,
        empty,
        silent,
        ground (
          arith,
          now,
          later,
          ap (any (is_task_of c.sha256 h)) q,
          ap (any (is_task_of c.sha256 h)) empty,
          ap (any (asks_for {Peer = Peer} {Ip = Ip} {RequestId = RequestId} c h)) silent,
        ),
      )
