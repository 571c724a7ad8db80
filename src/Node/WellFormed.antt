-- ===== src/Node/WellFormed.antt =====
-- That the loop of the node keeps its state well formed.
use rs_waku.Prelude.{ℕ, ◌<◌, List, [], ◌∷◌, Bool, inl, inr}
use rs_waku.Prelude.Eq.{Eq}
use rs_waku.Prelude.Keys.{HasUniqueKeys}
use rs_waku.Node.Answers.{IsConsistent, on_response-IsConsistent}
use rs_waku.Node.Pushes.{push_targets-apply_filter_request}
use rs_waku.Node.Connections.{Connections, ConnectionEvent, Action, on_connection}
use rs_waku.Node.Connections
use rs_waku.Node.Colocation.{IsWithin, run-IsWithin}
use rs_waku.Node.Loop.{
  PeerReply, deliver_all, LoopState, SwarmEvent, Output, send_response, connection_action,
  relay_action, settled, Setting, on_store_request, on_lightpush, handle_event, run,
}
use rs_waku.Node.Loop
use rs_waku.Node.Replies.{run-turn}

one_event :
    {Peer Ip : Type 0} ⦃e : Eq Peer⦄ ⦃f : Eq Ip⦄ (limit : ℕ) (event : ConnectionEvent Peer Ip)
    (s : Connections Peer Ip)
    → 0 < limit
    → IsWithin limit s.ip_counts
    → IsWithin limit (on_connection limit event s).0.ip_counts
unfolding Connections.run
one_event limit event s l h = run-IsWithin limit (event ∷ []) s l h

module _ {Peer Ip Addr Enr RequestId Reply : Type 0} ⦃e : Eq Peer⦄ ⦃f : Eq Ip⦄ ⦃g : Eq RequestId⦄
    (c : Setting Addr Enr) where
  -- The limit of connections is kept, no peer has two entries of filters, and no request id waits twice.
  abbrev pub IsWellFormed : LoopState Peer Ip Addr Enr RequestId Reply → Type 0
  IsWellFormed s =
      IsWithin c.ip_limit s.connections.ip_counts × HasUniqueKeys s.filters × IsConsistent s.pending

  pub handle_event-IsWellFormed :
      (s : LoopState Peer Ip Addr Enr RequestId Reply) (event : SwarmEvent Peer Ip Addr RequestId)
      → 0 < c.ip_limit
      → IsWellFormed s
      → IsWellFormed (handle_event c s event).0
  unfolding handle_event on_store_request on_lightpush
  handle_event-IsWellFormed s (Loop.new_listen_addr address) l h = h
  handle_event-IsWellFormed s (Loop.connection event) l h =
      (one_event c.ip_limit event s.connections l h.0, h.1, h.2)
  handle_event-IsWellFormed s (Loop.relay_message topic bytes id source now rx_time) l h = h
  handle_event-IsWellFormed s (Loop.metadata_request peer) l h = h
  handle_event-IsWellFormed s (Loop.metadata_response peer response) l h = h
  handle_event-IsWellFormed s (Loop.store_request peer request now) l h = h
  handle_event-IsWellFormed s (Loop.lightpush_event peer request now) l h = h
  handle_event-IsWellFormed s (Loop.peer_exchange_event request) l h = h
  handle_event-IsWellFormed s (Loop.filter_event peer request) l h =
      (h.0, (push_targets-apply_filter_request s.filters peer peer request [] [] h.1).0, h.2)
  handle_event-IsWellFormed s (Loop.filter_push_event request) l h = h
  handle_event-IsWellFormed s (Loop.response_event response) l h =
      (h.0, h.1, on_response-IsConsistent Peer s.pending response h.2)
  handle_event-IsWellFormed s Loop.other l h = h

  -- Over any sequence of events no address is counted with more connections than the limit, which is
  -- at least one, no peer has two entries of filters, and no request id waits twice, if it was so at
  -- the start.
  pub run-IsWellFormed :
      (s : LoopState Peer Ip Addr Enr RequestId Reply)
      (turns : List (Bool × SwarmEvent Peer Ip Addr RequestId))
      → 0 < c.ip_limit
      → IsWellFormed s
      → IsWellFormed (run c s turns).0
  unfolding run
  run-IsWellFormed s [] l h = h
  run-IsWellFormed s ((b, event) ∷ rest) l h =
      let kept = handle_event-IsWellFormed s event l h in
      elim (run-turn c s b event rest) [
        | inl (y, same) ↦ rw same (run-IsWellFormed (handle_event c s event).0 rest l kept)
        | inr (n, same) ↦ rw same kept
      ]
