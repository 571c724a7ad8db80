-- ===== src/Node/Replies.antt =====
-- What the loop of the node sends to its peers: how many answers of a kind there are among its outputs, and
-- how many requests there are among its events.
use rs_waku.Prelude.{
  ℕ, ◌+◌, ◌≡◌, ◌⊎◌, refl, List, [], ◌∷◌, ◌++◌, map, Bool, true, false, not, eqb, if◌then◌else◌,
  Option, none, some, arith, Bool-cases, inl, inr,
}
use rs_waku.Prelude.Eq.{Eq}
use rs_waku.Store.Wire.{StoreQueryResponse}
use rs_waku.Relay.{MessageAcceptance}
use rs_waku.Node.Requests.{Effect}
use rs_waku.Node.Connections.{Action}
use rs_waku.Node.Inbound.{RelayAction}
use rs_waku.Node.Loop.{
  PeerReply, deliver_all, LoopState, SwarmEvent, Output, send_response, connection_action,
  relay_action, settled, Setting, on_store_request, on_lightpush, handle_event, run,
}
use rs_waku.Node.Loop

-- How many answers of a kind are among what is sent.
abbrev pub replies :
    {Peer Addr Reply : Type 0} → (PeerReply → Bool) → List (Output Peer Addr Reply) → ℕ
replies p [] = 0
replies p (send_response r ∷ rest) = (if p r then 1 else 0) + replies p rest
replies p (o ∷ rest) = replies p rest

abbrev pub is_any : PeerReply → Bool
is_any r = true

abbrev pub has_status : ℕ → StoreQueryResponse → Bool
has_status code r = elim r.status_code [ none ↦ false | some n ↦ eqb n code ]

-- A refusal for the rate, and an answer to a store query or to a light push that is none.
abbrev pub is_refusal : PeerReply → Bool
is_refusal (Loop.store_reply r) = has_status 429 r
is_refusal (Loop.lightpush_reply r) = eqb r.status_code 429
is_refusal r = false

abbrev pub is_served_query : PeerReply → Bool
is_served_query (Loop.store_reply r) = not (has_status 429 r)
is_served_query r = false

abbrev pub is_served_push : PeerReply → Bool
is_served_push (Loop.lightpush_reply r) = not (eqb r.status_code 429)
is_served_push r = false

-- How many requests of a peer an event has, and how many of a protocol with a limit.
abbrev pub requests_in : {Peer Ip Addr RequestId : Type 0} → SwarmEvent Peer Ip Addr RequestId → ℕ
requests_in (Loop.metadata_request peer) = 1
requests_in (Loop.store_request peer request now) = 1
requests_in (Loop.lightpush_event peer request now) = 1
requests_in (Loop.peer_exchange_event request) = 1
requests_in (Loop.filter_event peer request) = 1
requests_in (Loop.filter_push_event request) = 1
requests_in event = 0

-- Events that come while the application takes its events.
abbrev pub heard :
    {Peer Ip Addr RequestId : Type 0}
    → List (SwarmEvent Peer Ip Addr RequestId)
    → List (Bool × SwarmEvent Peer Ip Addr RequestId)
heard [] = []
heard (event ∷ rest) = (true, event) ∷ heard rest

abbrev pub sum_of : {A : Type 0} → (A → ℕ) → List A → ℕ
sum_of f [] = 0
sum_of f (a ∷ rest) = f a + sum_of f rest

module _ {Peer Addr Reply : Type 0} (p : PeerReply → Bool) where
  pub replies-append :
      (xs ys : List (Output Peer Addr Reply)) → replies p (xs ++ ys) ≡ replies p xs + replies p ys
  replies-append [] ys = omega arith
  replies-append (send_response r ∷ xs) ys = omega (arith, replies-append xs ys)
  replies-append (Loop.listening a ∷ xs) ys = replies-append xs ys
  replies-append (connection_action a ∷ xs) ys = replies-append xs ys
  replies-append (relay_action a ∷ xs) ys = replies-append xs ys
  replies-append (Loop.report id peer a ∷ xs) ys = replies-append xs ys
  replies-append (Loop.disconnect peer ∷ xs) ys = replies-append xs ys
  replies-append (Loop.metadata_mismatch peer n ∷ xs) ys = replies-append xs ys
  replies-append (Loop.filter_message topic m ∷ xs) ys = replies-append xs ys
  replies-append (settled a ∷ xs) ys = replies-append xs ys

  -- Without the application fewer outputs are sent.
  pub replies-deliver_all :
      (b : Bool) (xs : List (Output Peer Addr Reply))
      → replies p xs ≡ 0
      → replies p (deliver_all b xs).0 ≡ 0
  unfolding deliver_all
  replies-deliver_all b [] h = refl
  replies-deliver_all b (send_response r ∷ xs) h =
      omega (arith, h, replies-deliver_all b xs (omega (arith, h)))
  replies-deliver_all b (Loop.listening a ∷ xs) h = ground (arith, replies-deliver_all b xs h)
  replies-deliver_all b (connection_action a ∷ xs) h = ground (arith, replies-deliver_all b xs h)
  replies-deliver_all b (relay_action a ∷ xs) h = ground (arith, replies-deliver_all b xs h)
  replies-deliver_all b (Loop.report id peer a ∷ xs) h = replies-deliver_all b xs h
  replies-deliver_all b (Loop.disconnect peer ∷ xs) h = replies-deliver_all b xs h
  replies-deliver_all b (Loop.metadata_mismatch peer n ∷ xs) h =
      ground (arith, replies-deliver_all b xs h)
  replies-deliver_all b (Loop.filter_message topic m ∷ xs) h =
      ground (arith, replies-deliver_all b xs h)
  replies-deliver_all b (settled a ∷ xs) h = replies-deliver_all b xs h

pub deliver_all-open :
    {Peer Addr Reply : Type 0} (xs : List (Output Peer Addr Reply))
    → deliver_all true xs ≡ (xs, true)
unfolding deliver_all
deliver_all-open [] = refl
deliver_all-open (x ∷ xs) = ground (arith, deliver_all-open xs)

module _ {Peer : Type 0} (Addr Reply : Type 0) (p : PeerReply → Bool) where
  pub replies-connections :
      (xs : List (Action Peer))
      → replies {Peer = Peer} {Addr = Addr} {Reply = Reply} p (map connection_action xs) ≡ 0
  replies-connections [] = refl
  replies-connections (x ∷ xs) = replies-connections xs

  pub replies-mismatch :
      (peer : Peer) (o : Option ℕ)
      → replies {Peer = Peer} {Addr = Addr} {Reply = Reply} p (elim o [
        | none ↦ []
        | some theirs ↦ Loop.disconnect peer ∷ Loop.metadata_mismatch peer theirs ∷ []
      ])
        ≡ 0
  replies-mismatch peer none = refl
  replies-mismatch peer (some theirs) = refl

  pub replies-relay :
      (xs : List (RelayAction Peer)) (id : List ℕ) (source : Peer) (a : MessageAcceptance)
      → replies {Peer = Peer} {Addr = Addr} {Reply = Reply} p
          (map relay_action xs ++ Loop.report id source a ∷ [])
        ≡ 0
  replies-relay [] id source a = refl
  replies-relay (x ∷ xs) id source a = replies-relay xs id source a

module _ {Peer Reply : Type 0} (Addr : Type 0) (p : PeerReply → Bool) where
  pub replies-settled :
      (xs : List (Effect Peer Reply))
      → replies {Peer = Peer} {Addr = Addr} {Reply = Reply} p (map settled xs) ≡ 0
  replies-settled [] = refl
  replies-settled (x ∷ xs) = replies-settled xs

module _ {Peer Ip Addr Enr RequestId Reply : Type 0} ⦃e : Eq Peer⦄ ⦃f : Eq Ip⦄ ⦃g : Eq RequestId⦄
    (c : Setting Addr Enr) where
  pub run-turn :
      (s : LoopState Peer Ip Addr Enr RequestId Reply) (b : Bool)
      (event : SwarmEvent Peer Ip Addr RequestId)
      (rest : List (Bool × SwarmEvent Peer Ip Addr RequestId))
      → let next = (handle_event c s event).0 in
        let (sent, done) = deliver_all b (handle_event c s event).1 in
        ((done ≡ true)
          × (run c s ((b, event) ∷ rest) ≡ ((run c next rest).0, sent ++ (run c next rest).1)))
        ⊎ ((done ≡ false) × (run c s ((b, event) ∷ rest) ≡ (next, sent)))
  unfolding run
  run-turn s b event rest = elim (Bool-cases (deliver_all b (handle_event c s event).1).1) [
    | inl y ↦ inl (y, ground (arith, y))
    | inr n ↦ inr (n, ground (arith, n))
  ]
