-- ===== src/Node/Accounting.antt =====
-- That the loop answers every request of a peer once, and counts what it serves and what it refuses.
use rs_waku.Prelude.{
  ℕ, ◌+◌, ◌≡◌, refl, List, [], ◌∷◌, ◌++◌, map, Bool, true, false, eqb, Option, none, some, arith,
  Option-cases, Bool-cases, inl, inr,
}
use rs_waku.Prelude.Eq.{Eq}
use rs_waku.Prelude.Bytes.{Bytes}
use rs_waku.Prelude.Outcome.{Result-cases}
use rs_waku.Message.{WakuMessage}
use rs_waku.Store.{StoreError, Table}
use rs_waku.Store.Query.{query}
use rs_waku.Store.Wire.{StoreQueryRequest, request_to_query, serve}
use rs_waku.Node.Messages.{LightpushRequest}
use rs_waku.Node.Requests.{Swarm, on_response}
use rs_waku.Node.Connections.{on_connection}
use rs_waku.Node.RateLimit.{allow}
use rs_waku.Node.Inbound.{on_relay_message, RelayAction, store_put, filter_push, deliver}
use rs_waku.Node.Serving.{Metrics, count_relay, mismatch, limited, serve_store, serve_lightpush}
use rs_waku.Node.Loop.{
  PeerReply, deliver_all, LoopState, SwarmEvent, Output, send_response, connection_action,
  relay_action, settled, Setting, on_store_request, on_lightpush, handle_event, run,
}
use rs_waku.Node.Loop
use rs_waku.Node.Replies.{
  deliver_all-open, has_status, heard, is_any, is_refusal, is_served_push, is_served_query, replies,
  replies-append, replies-connections, replies-deliver_all, replies-mismatch, replies-relay,
  replies-settled, requests_in, run-turn, sum_of,
}

-- What is sent is what the counters have grown by.
abbrev pub IsCounted :
    {Peer Addr Reply : Type 0} → Metrics → Metrics → List (Output Peer Addr Reply) → Type 0
IsCounted m n sent =
    (n.store_queries ≡ m.store_queries + replies is_served_query sent)
    × (n.lightpush_requests ≡ m.lightpush_requests + replies is_served_push sent)
    × (n.rate_limited ≡ m.rate_limited + replies is_refusal sent)

-- The same store queries, light pushes and refusals.
abbrev IsAlike : Metrics → Metrics → Type 0
IsAlike m n =
    (n.store_queries ≡ m.store_queries)
    × (n.lightpush_requests ≡ m.lightpush_requests)
    × (n.rate_limited ≡ m.rate_limited)

count_relay-IsAlike :
    {Peer : Type 0} (xs : List (RelayAction Peer)) (m : Metrics) → IsAlike m (count_relay xs m)
count_relay-IsAlike [] m = (refl, refl, refl)
count_relay-IsAlike (store_put topic msg time ∷ xs) m = count_relay-IsAlike xs m
count_relay-IsAlike (filter_push peers topic msg ∷ xs) m = count_relay-IsAlike xs _
count_relay-IsAlike (deliver shard msg id ∷ xs) m = count_relay-IsAlike xs _

-- Outputs without answers.
quiet :
    {Peer Addr Reply : Type 0} (b : Bool) (m n : Metrics) (xs : List (Output Peer Addr Reply))
    → IsAlike m n
    → ((p : PeerReply → Bool) → replies p xs ≡ 0)
    → IsCounted m n (deliver_all b xs).0
quiet b m n xs (q, l, r) none_of = (
  omega (arith, q, replies-deliver_all is_served_query b xs (none_of is_served_query)),
  omega (arith, l, replies-deliver_all is_served_push b xs (none_of is_served_push)),
  omega (arith, r, replies-deliver_all is_refusal b xs (none_of is_refusal)),
)

-- No answer of the store or of light push is a refusal.
serve_store-status :
    (describe : StoreError → Bytes) (table : Option Table) (req : StoreQueryRequest)
    → has_status 429 (serve_store describe table req) ≡ false
unfolding serve
serve_store-status describe none req = refl
serve_store-status describe (some t) req = elim (Result-cases (query t (request_to_query req))) [
  | inl (page, q) ↦ rw (serve, q) refl
  | inr (x, q) ↦ rw (serve, q) refl
]

serve_lightpush-status :
    {Addr : Type 0} (swarm : Swarm Addr) (encode : WakuMessage → Bytes) (req : LightpushRequest)
    → eqb (serve_lightpush swarm encode req).status_code 429 ≡ false
unfolding serve_lightpush
serve_lightpush-status swarm encode req = elim (Option-cases req.message) [
  | inl n ↦ rw (serve_lightpush, n) refl
  | inr (m, q) ↦ elim (Result-cases (swarm.publish req.pubsub_topic (encode m))) [
    | inl (id, r) ↦ rw (serve_lightpush, q, r) refl
    | inr (x, r) ↦ rw (serve_lightpush, q, r) refl
  ]
]

module _ {Peer Ip Addr Enr RequestId Reply : Type 0} ⦃e : Eq Peer⦄ ⦃f : Eq Ip⦄ ⦃g : Eq RequestId⦄
    (c : Setting Addr Enr) where
  handle_event-replies :
      (s : LoopState Peer Ip Addr Enr RequestId Reply) (event : SwarmEvent Peer Ip Addr RequestId)
      → replies is_any (handle_event c s event).1 ≡ requests_in event
  unfolding handle_event on_store_request on_lightpush
  handle_event-replies s (Loop.new_listen_addr address) = refl
  handle_event-replies s (Loop.connection event) =
      replies-connections Addr Reply is_any (on_connection c.ip_limit event s.connections).1
  handle_event-replies s (Loop.relay_message topic bytes id source now rx_time) =
      let (actions, acceptance) =
        on_relay_message c.sha256 c.try_decode (Loop.has_store c.store) s.filters now rx_time topic
          bytes id in
      replies-relay Addr Reply is_any actions id source acceptance
  handle_event-replies s (Loop.metadata_request peer) = refl
  handle_event-replies s (Loop.metadata_response peer response) =
      replies-mismatch Addr Reply is_any peer (mismatch c.local_cluster response)
  handle_event-replies s (Loop.store_request peer request now) = refl
  handle_event-replies s (Loop.lightpush_event peer request now) = refl
  handle_event-replies s (Loop.peer_exchange_event request) = refl
  handle_event-replies s (Loop.filter_event peer request) = refl
  handle_event-replies s (Loop.filter_push_event request) =
      elim (Option-cases request.waku_message) [ inl n ↦ rw n refl | inr (m, q) ↦ rw q refl ]
  handle_event-replies s (Loop.response_event response) =
      replies-settled Addr is_any (on_response s.pending response).1
  handle_event-replies s Loop.other = refl

  store_request-IsCounted :
      (b : Bool) (s : LoopState Peer Ip Addr Enr RequestId Reply) (peer : Peer)
      (request : StoreQueryRequest) (now : ℕ)
      → IsCounted s.metrics
          (on_store_request c s peer request now).0.metrics
          (deliver_all b (on_store_request c s peer request now).1).0
  unfolding on_store_request limited deliver_all
  store_request-IsCounted b s peer request now =
      elim (Bool-cases (allow s.store_limit peer now).1) [
        | inl y ↦
            rw (on_store_request, limited, y, serve_store-status c.describe c.store request)
              (omega arith, omega arith, omega arith)
        | inr n ↦ rw (on_store_request, limited, n) (omega arith, omega arith, omega arith)
      ]

  lightpush-IsCounted :
      (b : Bool) (s : LoopState Peer Ip Addr Enr RequestId Reply) (peer : Peer)
      (request : LightpushRequest) (now : ℕ)
      → IsCounted s.metrics
          (on_lightpush c s peer request now).0.metrics
          (deliver_all b (on_lightpush c s peer request now).1).0
  unfolding on_lightpush limited deliver_all
  lightpush-IsCounted b s peer request now =
      elim (Bool-cases (allow s.lightpush_limit peer now).1) [
        | inl y ↦
            rw (on_lightpush, limited, y, serve_lightpush-status c.swarm c.encode request)
              (omega arith, omega arith, omega arith)
        | inr n ↦ rw (on_lightpush, limited, n) (omega arith, omega arith, omega arith)
      ]

  handle_event-IsCounted :
      (b : Bool) (s : LoopState Peer Ip Addr Enr RequestId Reply)
      (event : SwarmEvent Peer Ip Addr RequestId)
      → IsCounted s.metrics
          (handle_event c s event).0.metrics
          (deliver_all b (handle_event c s event).1).0
  unfolding handle_event deliver_all
  handle_event-IsCounted b s (Loop.new_listen_addr address) =
      quiet b s.metrics s.metrics (Loop.listening address ∷ []) (refl, refl, refl) (λ p. refl)
  handle_event-IsCounted b s (Loop.connection event) =
      let actions = (on_connection c.ip_limit event s.connections).1 in
      quiet b s.metrics s.metrics (map connection_action actions) (refl, refl, refl)
        (λ p. replies-connections Addr Reply p actions)
  handle_event-IsCounted b s (Loop.relay_message topic bytes id source now rx_time) =
      let (actions, acceptance) =
        on_relay_message c.sha256 c.try_decode (Loop.has_store c.store) s.filters now rx_time topic
          bytes id in
      quiet b s.metrics (count_relay actions s.metrics)
        (map relay_action actions ++ Loop.report id source acceptance ∷ [])
        (count_relay-IsAlike actions s.metrics)
        (λ p. replies-relay Addr Reply p actions id source acceptance)
  handle_event-IsCounted b s (Loop.metadata_request peer) = (omega arith, omega arith, omega arith)
  handle_event-IsCounted b s (Loop.metadata_response peer response) =
      quiet b s.metrics s.metrics
        (elim (mismatch c.local_cluster response) [
          | none ↦ []
          | some theirs ↦ Loop.disconnect peer ∷ Loop.metadata_mismatch peer theirs ∷ []
        ])
        (refl, refl, refl)
        (λ p. replies-mismatch Addr Reply p peer (mismatch c.local_cluster response))
  handle_event-IsCounted b s (Loop.store_request peer request now) =
      store_request-IsCounted b s peer request now
  handle_event-IsCounted b s (Loop.lightpush_event peer request now) =
      lightpush-IsCounted b s peer request now
  handle_event-IsCounted b s (Loop.peer_exchange_event request) =
      (omega arith, omega arith, omega arith)
  handle_event-IsCounted b s (Loop.filter_event peer request) =
      (omega arith, omega arith, omega arith)
  handle_event-IsCounted true s (Loop.filter_push_event request) =
      elim (Option-cases request.waku_message) [
        | inl n ↦ rw n (omega arith, omega arith, omega arith)
        | inr (m, q) ↦ rw q (omega arith, omega arith, omega arith)
      ]
  handle_event-IsCounted false s (Loop.filter_push_event request) =
      elim (Option-cases request.waku_message) [
        | inl n ↦ rw n (omega arith, omega arith, omega arith)
        | inr (m, q) ↦ rw q (omega arith, omega arith, omega arith)
      ]
  handle_event-IsCounted b s (Loop.response_event response) =
      let effects = (on_response s.pending response).1 in
      quiet b s.metrics s.metrics (map settled effects) (refl, refl, refl)
        (λ p. replies-settled Addr p effects)
  handle_event-IsCounted b s Loop.other = (omega arith, omega arith, omega arith)

  -- A turn of the loop, which goes on or ends it.
  pub run-IsCounted :
      (s : LoopState Peer Ip Addr Enr RequestId Reply)
      (turns : List (Bool × SwarmEvent Peer Ip Addr RequestId))
      → IsCounted s.metrics (run c s turns).0.metrics (run c s turns).1
  unfolding run
  run-IsCounted s [] = (omega arith, omega arith, omega arith)
  run-IsCounted s ((b, event) ∷ rest) =
      let next = (handle_event c s event).0 in
      let sent = (deliver_all b (handle_event c s event).1).0 in
      let (q, l, r) = handle_event-IsCounted b s event in
      elim (run-turn c s b event rest) [
        | inl (y, same) ↦
            let (q2, l2, r2) = run-IsCounted next rest in
            rw same (
              omega (arith, q, q2, replies-append is_served_query sent (run c next rest).1),
              omega (arith, l, l2, replies-append is_served_push sent (run c next rest).1),
              omega (arith, r, r2, replies-append is_refusal sent (run c next rest).1),
            )
        | inr (n, same) ↦ rw same (q, l, r)
      ]

  run-replies :
      (s : LoopState Peer Ip Addr Enr RequestId Reply)
      (events : List (SwarmEvent Peer Ip Addr RequestId))
      → replies is_any (run c s (heard events)).1 ≡ sum_of requests_in events
  unfolding run
  run-replies s [] = refl
  run-replies s (event ∷ rest) =
      let (next, sent) = handle_event c s event in
      let later = heard rest in
      elim (run-turn c s true event later) [
        | inl (y, same) ↦
            rw (same, deliver_all-open sent)
              (omega (
                arith,
                replies-append is_any sent (run c next later).1,
                handle_event-replies s event,
                run-replies next rest,
              ))
        | inr (n, same) ↦ absurd (cc (rw (deliver_all-open sent) at n))
      ]

  -- Where the application no longer takes a new address, what comes after it is not taken in.
  run-ended :
      (s : LoopState Peer Ip Addr Enr RequestId Reply)
      (turns : List (Bool × SwarmEvent Peer Ip Addr RequestId)) (address : Addr)
      (later : List (Bool × SwarmEvent Peer Ip Addr RequestId))
      → run c s (turns ++ (false, Loop.new_listen_addr address) ∷ later)
        ≡ run c s (turns ++ (false, Loop.new_listen_addr address) ∷ [])
  unfolding run handle_event deliver_all
  run-ended s [] address later = refl
  run-ended s ((b, event) ∷ rest) address later =
      rw (run-ended (handle_event c s event).0 rest address later) refl

  -- Over any sequence of events, and whenever the application stops taking them, the counter of store queries
  -- grows by the store queries that are answered other than with status 429, that of light pushes by the
  -- light pushes that are answered so, and that of refusals by the answers with status 429. While the
  -- application takes its events, as many answers are sent to peers as there are requests of peers. After
  -- a new address that it does not take, nothing is answered and nothing changes.
  pub run_lem :
      (s : LoopState Peer Ip Addr Enr RequestId Reply)
      (turns : List (Bool × SwarmEvent Peer Ip Addr RequestId))
      (events : List (SwarmEvent Peer Ip Addr RequestId)) (address : Addr)
      (later : List (Bool × SwarmEvent Peer Ip Addr RequestId))
      → IsCounted s.metrics (run c s turns).0.metrics (run c s turns).1
        × (replies is_any (run c s (heard events)).1 ≡ sum_of requests_in events)
        × (run c s (turns ++ (false, Loop.new_listen_addr address) ∷ later)
            ≡ run c s (turns ++ (false, Loop.new_listen_addr address) ∷ []))
  run_lem s turns events address later =
      (run-IsCounted s turns, run-replies s events, run-ended s turns address later)
