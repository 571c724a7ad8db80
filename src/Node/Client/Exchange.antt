-- ===== src/Node/Client/Exchange.antt =====
-- A peer exchange from the handle of one node to the peer book of another and back.
use rs_waku.Prelude.{
  ℕ, ◌≡◌, refl, ap, ◌∙◌, List, [], ◌∷◌, map, true, Option, some, take, filter_map,
}
use rs_waku.Prelude.Bytes.{Bytes}
use rs_waku.Prelude.Eq.{Eq}
use rs_waku.Prelude.Assoc.{Assoc, insert, lookup-insert}
use rs_waku.Prelude.Outcome.{ok}
use rs_waku.Discv5.EnrBytes.{
  EnrText, IsEnrText, enr_to_bytes, enr_from_bytes, enr_from_bytes-enr_to_bytes,
}
use rs_waku.Node.Messages.{PeerExchangeRpc, query_rpc, response_rpc, enrs_in}
use rs_waku.Node.Requests.{
  Answer, Pending, Effect, answer, send_request, peer_exchange_request, peer_exchange_answer,
  handle_command, on_response, settle,
}
use rs_waku.Node.Requests
use rs_waku.Node.Serving.{serve_peer_exchange}
use rs_waku.Node.Loop.{LoopState, Setting, send_response, peer_exchange_reply, handle_event}
use rs_waku.Node.Loop
use rs_waku.Node.Handle.{awaited}
use rs_waku.Node.Client.{peer_exchange}

filter_map-map :
    {A B : Type 0} (f : B → Option A) (to : A → B) (xs : List A)
    → ((a : A) → f (to a) ≡ some a)
    → filter_map f (map to xs) ≡ xs
filter_map-map f to [] law = refl
filter_map-map f to (x ∷ xs) law =
    rw (filter_map, law x) (ap (λ l. x ∷ l) (filter_map-map f to xs law))

enrs_in-response_rpc : (enrs : List Bytes) → enrs_in (response_rpc enrs) ≡ enrs
enrs_in-response_rpc [] = refl
enrs_in-response_rpc (enr ∷ rest) = ap (λ l. enr ∷ l) (enrs_in-response_rpc rest)

-- ENRs as the bytes of a response, and back.
read_back :
    {Enr : Type 0} (t : EnrText Enr) (book : List Enr)
    → IsEnrText t
    → filter_map (enr_from_bytes t) (enrs_in (response_rpc (map (enr_to_bytes t) book))) ≡ book
read_back t book law =
    ap (filter_map (enr_from_bytes t)) (enrs_in-response_rpc (map (enr_to_bytes t) book))
    ∙ filter_map-map (enr_from_bytes t) (enr_to_bytes t) book (enr_from_bytes-enr_to_bytes t law)

-- The rpc that a node serves from its book.
abbrev pub served : {Enr : Type 0} → EnrText Enr → List Enr → ℕ → PeerExchangeRpc
served t book n = serve_peer_exchange (enr_to_bytes t) book (query_rpc n)

module _ {RequestId Reply : Type 0} ⦃g : Eq RequestId⦄ (Peer : Type 0) where
  settle-insert :
      (waiting : Assoc RequestId Reply) (id : RequestId) (reply : Reply) (a : Answer)
      → (settle {Peer = Peer} (insert id reply waiting) id a).1 ≡ answer reply a ∷ []
  unfolding settle
  settle-insert waiting id reply a =
      rw (settle, lookup-insert id id reply waiting, (g.beq_iff id id).1 refl) refl

module _ {Peer Ip Addr Enr RequestId Reply : Type 0} ⦃e : Eq Peer⦄ ⦃f : Eq Ip⦄ ⦃g : Eq RequestId⦄
    (c : Setting Addr Enr) (t : EnrText Enr) where
  -- A handle that asks a peer for ENRs sends one request; the peer answers it from its book and keeps its
  -- state; when the answer comes it goes to the reply of the command; and the method returns from it the
  -- first ENRs of the peer's book, as many as were asked for. The channels are open, the text of an ENR is
  -- `enr:` and the base64 of some bytes, and both are read back.
  pub peer_exchange-serve :
      (pending : Pending RequestId Reply) (id : RequestId) (peer : Peer) (n : ℕ) (reply : Reply)
      (server : LoopState Peer Ip Addr Enr RequestId Reply)
      → IsEnrText t
      → c.enr_to_bytes ≡ enr_to_bytes t
      → let asked =
          handle_command c.swarm c.encode pending id (Requests.peer_exchange peer n reply) in
        (asked.1 ≡ send_request peer (peer_exchange_request (query_rpc n)) ∷ [])
        × (handle_event c server (Loop.peer_exchange_event (query_rpc n))
            ≡ (server, send_response (peer_exchange_reply (served t server.peer_book n)) ∷ []))
        × ((on_response {Peer = Peer} asked.0
              (Requests.peer_exchange_response id (ok (served t server.peer_book n)))).1
            ≡ answer reply (peer_exchange_answer (ok (served t server.peer_book n))) ∷ [])
        × (peer_exchange (enr_from_bytes t) true (some (ok (served t server.peer_book n)))
            ≡ ok (take n server.peer_book))
  unfolding handle_command handle_event on_response settle peer_exchange serve_peer_exchange awaited
  peer_exchange-serve pending id peer n reply server law same = (
    refl,
    ap
        (λ f. (
          server,
          send_response (peer_exchange_reply (serve_peer_exchange f server.peer_book (query_rpc n)))
              ∷ [],
        ))
        same,
    settle-insert Peer pending.peer_exchange id reply
        (peer_exchange_answer (ok (served t server.peer_book n))),
    ap ok (read_back t (take n server.peer_book) law),
  )
