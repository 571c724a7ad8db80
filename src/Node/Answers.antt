-- ===== src/Node/Answers.antt =====
-- That every command is answered: at once, or when the response to its request comes.
use rs_waku.Prelude.{
  ℕ, ◌+◌, ◌≡◌, refl, ap, List, [], ◌∷◌, ◌++◌, Bool, true, false, if◌then◌else◌, none, Option-cases,
  Bool-cases, inl, inr, arith,
}
use rs_waku.Prelude.Bytes.{Bytes}
use rs_waku.Prelude.Eq.{Eq}
use rs_waku.Prelude.Assoc.{Assoc, lookup}
use rs_waku.Prelude.Keys.{
  HasUniqueKeys, insert-HasUniqueKeys, remove-HasUniqueKeys, remove-absent, one_if, occurrences,
  occurrences-insert, occurrences-remove,
}
use rs_waku.Message.{WakuMessage}
use rs_waku.Node.Requests.{
  Swarm, Command, Effect, answer, send_request, Answer, store_answer, lightpush_answer,
  peer_exchange_answer, filter_answer, Pending, Response, settle, on_response, handle_command,
}
use rs_waku.Node.Requests

-- What the node takes in: a command, with the id its request would get, a response, or what ends the loop:
-- that all handles are dropped, or that the application no longer takes an event.
pub data Input (Peer Addr RequestId Reply : Type 0) : Type 0 where
  command : RequestId → Command Peer Addr Reply → Input Peer Addr RequestId Reply
  response : Response RequestId → Input Peer Addr RequestId Reply
  loop_ended : Input Peer Addr RequestId Reply

-- `Some(Command::Shutdown) | None => break`
abbrev pub is_shutdown : {Peer Addr Reply : Type 0} → Command Peer Addr Reply → Bool
is_shutdown Requests.shutdown = true
is_shutdown _ = false

abbrev pub ends : {Peer Addr RequestId Reply : Type 0} → Input Peer Addr RequestId Reply → Bool
ends (command id c) = is_shutdown c
ends (response q) = false
ends loop_ended = true

-- The inputs before the one that ends the loop.
abbrev pub taken :
    {Peer Addr RequestId Reply : Type 0}
    → List (Input Peer Addr RequestId Reply)
    → List (Input Peer Addr RequestId Reply)
taken [] = []
taken (i ∷ rest) = let later = taken rest in if ends i then [] else i ∷ later

module _ {Peer Reply : Type 0} ⦃f : Eq Reply⦄ where
  -- How often a reply is answered.
  abbrev pub answered : Reply → List (Effect Peer Reply) → ℕ
  answered r [] = 0
  answered r (answer s a ∷ rest) = one_if s r + answered r rest
  answered r (send_request p q ∷ rest) = answered r rest

  answered-append :
      (r : Reply) (xs ys : List (Effect Peer Reply))
      → answered r (xs ++ ys) ≡ answered r xs + answered r ys
  answered-append r [] ys = omega arith
  answered-append r (answer s a ∷ xs) ys = omega (arith, answered-append r xs ys)
  answered-append r (send_request p q ∷ xs) ys = answered-append r xs ys

module _ {RequestId Reply : Type 0} ⦃f : Eq Reply⦄ where
  -- How many requests wait with a reply.
  abbrev pub waiting : Reply → Pending RequestId Reply → ℕ
  waiting r p =
      occurrences r p.store_queries
      + occurrences r p.lightpush
      + occurrences r p.peer_exchange
      + occurrences r p.filter

module _ {RequestId Reply : Type 0} ⦃e : Eq RequestId⦄ where
  -- No id waits twice for one protocol.
  abbrev pub IsConsistent : Pending RequestId Reply → Type 0
  IsConsistent p =
      HasUniqueKeys p.store_queries
      × HasUniqueKeys p.lightpush
      × HasUniqueKeys p.peer_exchange
      × HasUniqueKeys p.filter

-- How often a command has a reply.
abbrev pub issued : {Peer Addr Reply : Type 0} ⦃f : Eq Reply⦄ → Reply → Command Peer Addr Reply → ℕ
issued r (Requests.subscribe shard s) = one_if s r
issued r (Requests.publish shard message s) = one_if s r
issued r (Requests.dial addr s) = one_if s r
issued r (Requests.store_query peer request s) = one_if s r
issued r (Requests.light_push peer request s) = one_if s r
issued r (Requests.peer_exchange peer num_peers s) = one_if s r
issued r (Requests.filter_subscribe peer request s) = one_if s r
issued r Requests.shutdown = 0

-- The swarm gives a request an id that none of its protocol waits under.
abbrev pub IsFresh :
    {Peer Addr RequestId Reply : Type 0} ⦃e : Eq RequestId⦄
    → RequestId
    → Command Peer Addr Reply
    → Pending RequestId Reply
    → Type 0
IsFresh id (Requests.store_query peer request s) p = lookup id p.store_queries ≡ none
IsFresh id (Requests.light_push peer request s) p = lookup id p.lightpush ≡ none
IsFresh id (Requests.peer_exchange peer num_peers s) p = lookup id p.peer_exchange ≡ none
IsFresh id (Requests.filter_subscribe peer request s) p = lookup id p.filter ≡ none
IsFresh id c p = Unit

module _ {RequestId Reply : Type 0} ⦃e : Eq RequestId⦄ ⦃f : Eq Reply⦄ (Peer : Type 0) where
  settle_balance :
      (m : Assoc RequestId Reply) (id : RequestId) (a : Answer) (r : Reply)
      → HasUniqueKeys m
      → occurrences r (settle {Peer = Peer} m id a).0 + answered r (settle {Peer = Peer} m id a).1
        ≡ occurrences r m
  unfolding settle
  settle_balance m id a r u = elim (Option-cases (lookup id m)) [
    | inl n ↦ rw (settle, n, remove-absent id m n) (omega arith)
    | inr (s, h) ↦ rw (settle, h) (omega (arith, occurrences-remove id s r m u h))
  ]

  on_response_balance :
      (p : Pending RequestId Reply) (q : Response RequestId) (r : Reply)
      → IsConsistent p
      → waiting r (on_response {Peer = Peer} p q).0 + answered r (on_response {Peer = Peer} p q).1
        ≡ waiting r p
  unfolding on_response
  on_response_balance p (Requests.store_response id a) r h =
      omega (arith, settle_balance p.store_queries id (store_answer a) r h.0)
  on_response_balance p (Requests.lightpush_response id a) r h =
      omega (arith, settle_balance p.lightpush id (lightpush_answer a) r h.1)
  on_response_balance p (Requests.peer_exchange_response id a) r h =
      omega (arith, settle_balance p.peer_exchange id (peer_exchange_answer a) r h.2)
  on_response_balance p (Requests.filter_response id a) r h =
      omega (arith, settle_balance p.filter id (filter_answer a) r h.3)

module _ {RequestId Reply : Type 0} ⦃e : Eq RequestId⦄ (Peer : Type 0) where
  pub on_response-IsConsistent :
      (p : Pending RequestId Reply) (q : Response RequestId)
      → IsConsistent p
      → IsConsistent (on_response {Peer = Peer} p q).0
  unfolding on_response settle
  on_response-IsConsistent p (Requests.store_response id a) h =
      (remove-HasUniqueKeys id p.store_queries h.0, h.1, h.2, h.3)
  on_response-IsConsistent p (Requests.lightpush_response id a) h =
      (h.0, remove-HasUniqueKeys id p.lightpush h.1, h.2, h.3)
  on_response-IsConsistent p (Requests.peer_exchange_response id a) h =
      (h.0, h.1, remove-HasUniqueKeys id p.peer_exchange h.2, h.3)
  on_response-IsConsistent p (Requests.filter_response id a) h =
      (h.0, h.1, h.2, remove-HasUniqueKeys id p.filter h.3)

module _ {Peer Addr RequestId Reply : Type 0} ⦃e : Eq RequestId⦄ (swarm : Swarm Addr)
    (encode : WakuMessage → Bytes) where
  pub command-IsConsistent :
      (p : Pending RequestId Reply) (id : RequestId) (c : Command Peer Addr Reply)
      → IsConsistent p
      → IsConsistent (handle_command swarm encode p id c).0
  unfolding handle_command
  command-IsConsistent p id (Requests.subscribe shard s) h = h
  command-IsConsistent p id (Requests.publish shard message s) h = h
  command-IsConsistent p id (Requests.dial addr s) h = h
  command-IsConsistent p id (Requests.store_query peer request s) h =
      (insert-HasUniqueKeys id s p.store_queries h.0, h.1, h.2, h.3)
  command-IsConsistent p id (Requests.light_push peer request s) h =
      (h.0, insert-HasUniqueKeys id s p.lightpush h.1, h.2, h.3)
  command-IsConsistent p id (Requests.peer_exchange peer num_peers s) h =
      (h.0, h.1, insert-HasUniqueKeys id s p.peer_exchange h.2, h.3)
  command-IsConsistent p id (Requests.filter_subscribe peer request s) h =
      (h.0, h.1, h.2, insert-HasUniqueKeys id s p.filter h.3)
  command-IsConsistent p id Requests.shutdown h = h

module _ {Peer Addr RequestId Reply : Type 0} ⦃e : Eq RequestId⦄ ⦃f : Eq Reply⦄ (swarm : Swarm Addr)
    (encode : WakuMessage → Bytes) where
  command_balance :
      (p : Pending RequestId Reply) (id : RequestId) (c : Command Peer Addr Reply) (r : Reply)
      → IsFresh id c p
      → waiting r (handle_command swarm encode p id c).0
          + answered r (handle_command swarm encode p id c).1
        ≡ waiting r p + issued r c
  unfolding handle_command
  command_balance p id (Requests.subscribe shard s) r h = omega arith
  command_balance p id (Requests.publish shard message s) r h = omega arith
  command_balance p id (Requests.dial addr s) r h = omega arith
  command_balance p id (Requests.store_query peer request s) r h =
      omega (arith, occurrences-insert id s r p.store_queries h)
  command_balance p id (Requests.light_push peer request s) r h =
      omega (arith, occurrences-insert id s r p.lightpush h)
  command_balance p id (Requests.peer_exchange peer num_peers s) r h =
      omega (arith, occurrences-insert id s r p.peer_exchange h)
  command_balance p id (Requests.filter_subscribe peer request s) r h =
      omega (arith, occurrences-insert id s r p.filter h)
  command_balance p id Requests.shutdown r h = omega arith

  -- What the loop does with one input.
  unfoldable pub take_in :
      Pending RequestId Reply
      → Input Peer Addr RequestId Reply
      → Pending RequestId Reply × List (Effect Peer Reply)
  unfolding handle_command on_response
  take_in p (command id c) = handle_command swarm encode p id c
  take_in p (response q) = on_response p q
  take_in p loop_ended = (p, [])

  unfoldable pub run :
      Pending RequestId Reply
      → List (Input Peer Addr RequestId Reply)
      → Pending RequestId Reply × List (Effect Peer Reply)
  unfolding take_in
  run p [] = (p, [])
  run p (i ∷ rest) =
      let (q, effects) = take_in p i in
      let (last, more) = run q rest in if ends i then (p, []) else (last, effects ++ more)

  abbrev pub issued_in : Reply → Input Peer Addr RequestId Reply → ℕ
  issued_in r (command id c) = issued r c
  issued_in r (response q) = 0
  issued_in r loop_ended = 0

  abbrev pub issued_all : Reply → List (Input Peer Addr RequestId Reply) → ℕ
  issued_all r [] = 0
  issued_all r (i ∷ rest) = issued_in r i + issued_all r rest

  abbrev pub IsFreshInput : Pending RequestId Reply → Input Peer Addr RequestId Reply → Type 0
  IsFreshInput p (command id c) = IsFresh id c p
  IsFreshInput p (response q) = Unit
  IsFreshInput p loop_ended = Unit

  -- Every id is fresh when it is given.
  abbrev pub AllFresh : Pending RequestId Reply → List (Input Peer Addr RequestId Reply) → Type 0
  AllFresh p [] = Unit
  AllFresh p (i ∷ rest) = IsFreshInput p i × AllFresh (take_in p i).0 rest

  take_in_balance :
      (p : Pending RequestId Reply) (i : Input Peer Addr RequestId Reply) (r : Reply)
      → IsConsistent p
      → IsFreshInput p i
      → (waiting r (take_in p i).0 + answered r (take_in p i).1 ≡ waiting r p + issued_in r i)
        × IsConsistent (take_in p i).0
  unfolding take_in
  take_in_balance p (command id c) r h k =
      (command_balance p id c r k, command-IsConsistent swarm encode p id c h)
  take_in_balance p (response q) r h k =
      (omega (arith, on_response_balance Peer p q r h), on_response-IsConsistent Peer p q h)
  take_in_balance p loop_ended r h k = (omega arith, h)

  run-goes_on :
      (p : Pending RequestId Reply) (i : Input Peer Addr RequestId Reply)
      (rest : List (Input Peer Addr RequestId Reply))
      → ends i ≡ false
      → run p (i ∷ rest)
        ≡ ((run (take_in p i).0 rest).0, (take_in p i).1 ++ (run (take_in p i).0 rest).1)
  unfolding run
  run-goes_on p i rest e = ground (arith, e)

  run-ends :
      (p : Pending RequestId Reply) (i : Input Peer Addr RequestId Reply)
      (rest : List (Input Peer Addr RequestId Reply))
      → ends i ≡ true
      → run p (i ∷ rest) ≡ (p, [])
  unfolding run
  run-ends p i rest e = ground (arith, e)

  -- Over any sequence of commands and responses, in any order, of the commands that the loop takes before it
  -- ends, by a shutdown or otherwise, each is either answered or its request still waits when it ends, and
  -- none is answered twice: the answers and the requests that wait are as many as those that waited at the
  -- start and those commands. What comes after the end is not answered and changes nothing. No two requests
  -- wait under one id at the start, and each gets an id that none of its protocol waits under.
  pub run_balance :
      (p : Pending RequestId Reply) (inputs : List (Input Peer Addr RequestId Reply)) (r : Reply)
      → IsConsistent p
      → AllFresh p (taken inputs)
      → (waiting r (run p inputs).0 + answered r (run p inputs).1
          ≡ waiting r p + issued_all r (taken inputs))
        × (run p inputs ≡ run p (taken inputs))
  unfolding run
  run_balance p [] r h k = (omega arith, refl)
  run_balance p (i ∷ rest) r h k = elim (Bool-cases (ends i)) [
    | inl e ↦ rw (run-ends p i rest e, e) (omega arith, refl)
    | inr e ↦
        let fresh : AllFresh p (i ∷ taken rest) = rw e at k in
        let (now, kept) = take_in_balance p i r h fresh.0 in
        let (later, same) = run_balance (take_in p i).0 rest r kept fresh.1 in
        rw (run-goes_on p i rest e, e, run-goes_on p i (taken rest) e)
          (
            omega
                (arith, now, later, answered-append r (take_in p i).1 (run (take_in p i).0 rest).1),
            ap (λ x. (x.0, (take_in p i).1 ++ x.1)) same,
          )
  ]
