-- ===== src/Node/Machine/Invariant.antt =====
-- What holds of the node in every state that it can reach.
use rs_waku.Prelude.{◌<◌, ◌≤◌, ◌≡◌, refl, Option, none, some, length, Bool-cases, inl, inr}
use rs_waku.Prelude.Bytes.{Bytes}
use rs_waku.Prelude.Eq.{Eq}
use rs_waku.Store.{Table}
use rs_waku.Store.Order.{HasUniqueHashes}
use rs_waku.Store.Rows.{put-HasUniqueHashes}
use rs_waku.Node.PeerBook.{HasUniqueNodes, peer_book_cap, remember_enr_lem}
use rs_waku.Node.Answers.{command-IsConsistent}
use rs_waku.Node.Loop.{LoopState, SwarmEvent, Setting, handle_event, on_store_request, on_lightpush}
use rs_waku.Node.Loop
use rs_waku.Node.WellFormed.{IsWellFormed, handle_event-IsWellFormed}
use rs_waku.Node.Answers.{is_shutdown}
use rs_waku.Node.Machine.{
  StoreTask, Machine, with_table, on_command, on_event, run_task, Step, take_command,
  handles_dropped, take_event, put_message, discover, consumer_dropped, Steps, done, then_step,
}

abbrev pub TableIsSound : Option Table → Type 0
TableIsSound none = Unit
TableIsSound (some t) = HasUniqueHashes t

run_task-TableIsSound :
    (sha256 : Bytes → Bytes) (table : Option Table) (task : StoreTask)
    → TableIsSound table
    → TableIsSound (run_task sha256 table task)
unfolding run_task
run_task-TableIsSound sha256 none task h = tt
run_task-TableIsSound sha256 (some t) task h =
    put-HasUniqueHashes sha256 t task.topic task.message task.rx_time h

module _ {Peer Ip Addr Enr RequestId Reply : Type 0} ⦃e : Eq Peer⦄ ⦃f : Eq Ip⦄ ⦃g : Eq RequestId⦄
    (c : Setting Addr Enr) where
  -- No handler changes the peer book: that is what the discovery task does.
  handle_event-peer_book :
      (s : LoopState Peer Ip Addr Enr RequestId Reply) (event : SwarmEvent Peer Ip Addr RequestId)
      → (handle_event c s event).0.peer_book ≡ s.peer_book
  unfolding handle_event on_store_request on_lightpush
  handle_event-peer_book s (Loop.new_listen_addr address) = refl
  handle_event-peer_book s (Loop.connection event) = refl
  handle_event-peer_book s (Loop.relay_message topic bytes id source now rx_time) = refl
  handle_event-peer_book s (Loop.metadata_request peer) = refl
  handle_event-peer_book s (Loop.metadata_response peer response) = refl
  handle_event-peer_book s (Loop.store_request peer request now) = refl
  handle_event-peer_book s (Loop.lightpush_event peer request now) = refl
  handle_event-peer_book s (Loop.peer_exchange_event request) = refl
  handle_event-peer_book s (Loop.filter_event peer request) = refl
  handle_event-peer_book s (Loop.filter_push_event request) = refl
  handle_event-peer_book s (Loop.response_event response) = refl
  handle_event-peer_book s Loop.other = refl

module _ {Peer Ip Addr Enr RequestId Reply NodeId : Type 0} ⦃e : Eq Peer⦄ ⦃f : Eq Ip⦄
    ⦃g : Eq RequestId⦄ ⦃h : Eq NodeId⦄ (c : Setting Addr Enr) (node_id : Enr → NodeId) where
  -- The loop's state is well formed, the peer book has one ENR of each node and at most 200, and no two rows
  -- of the table have the same hash.
  pub record IsSound (loop : LoopState Peer Ip Addr Enr RequestId Reply) (table : Option Table)
      : Type 0 where
    pub loop_sound : IsWellFormed c loop
    pub one_per_node : HasUniqueNodes node_id loop.peer_book
    pub book_bounded : length loop.peer_book ≤ peer_book_cap
    pub table_sound : TableIsSound table

  Step-IsSound :
      {m n : Machine Peer Ip Addr Enr RequestId Reply}
      → Step c node_id m n
      → 0 < c.ip_limit
      → IsSound m.loop m.table
      → IsSound n.loop n.table
  unfolding on_command on_event
  Step-IsSound {m} (take_command id command r) l s = elim (Bool-cases (is_shutdown command)) [
    | inl q ↦ rw (on_command, q) s
    | inr q ↦
        rw (on_command, q)
          (record {
            loop_sound = (
              s.loop_sound.0,
              s.loop_sound.1,
              command-IsConsistent c.swarm c.encode m.loop.pending id command s.loop_sound.2,
            );
            one_per_node = s.one_per_node;
            book_bounded = s.book_bounded;
            table_sound = s.table_sound;
          })
  ]
  Step-IsSound (handles_dropped r) l s = s
  Step-IsSound {m} (take_event event r) l s =
      let same = handle_event-peer_book (with_table c m.table) m.loop event in
      record {
        loop_sound = handle_event-IsWellFormed (with_table c m.table) m.loop event l s.loop_sound;
        one_per_node = rw same s.one_per_node;
        book_bounded = rw same s.book_bounded;
        table_sound = s.table_sound;
      }
  Step-IsSound {m} (put_message before after task q) l s = record {
    loop_sound = s.loop_sound;
    one_per_node = s.one_per_node;
    book_bounded = s.book_bounded;
    table_sound = run_task-TableIsSound c.sha256 m.table task s.table_sound;
  }
  Step-IsSound {m} (discover enr) l s =
      let after = remember_enr_lem node_id m.loop.peer_book enr s.one_per_node s.book_bounded in
      record {
        loop_sound = s.loop_sound;
        one_per_node = after.0;
        book_bounded = after.1;
        table_sound = s.table_sound;
      }
  Step-IsSound consumer_dropped l s = s

  -- However the steps of the loop, of the tasks that store messages, of the discovery task and of the
  -- application follow one another, no address is counted with more connections than the limit, which is
  -- at least one, no peer has two entries of filters, no request id waits twice, the peer book has one ENR of each
  -- node and at most 200, and no two rows of the store have the same hash, if it was so at the start.
  pub Steps-IsSound :
      {m n : Machine Peer Ip Addr Enr RequestId Reply}
      → Steps c node_id m n
      → 0 < c.ip_limit
      → IsSound m.loop m.table
      → IsSound n.loop n.table
  Steps-IsSound done l s = s
  Steps-IsSound (then_step before step) l s = Step-IsSound step l (Steps-IsSound before l s)
