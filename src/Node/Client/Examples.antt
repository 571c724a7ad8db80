-- ===== src/Node/Client/Examples.antt =====
-- The theorems on the methods of the handle at a concrete peer exchange and a concrete subscription. An ENR
-- is a number, and its base64 text is the number.
use rs_waku.Prelude.{ℕ, ◌≡◌, refl, List, [], ◌∷◌, true, some, take, drop, ◌++◌, arith}
use rs_waku.Prelude.Bytes.{Bytes, codes}
use rs_waku.Prelude.Eq.{nat_eq, contains}
use rs_waku.Prelude.Int.{pos}
use rs_waku.Prelude.Outcome.{ok}
use rs_waku.Shard.{pubsub_topic}
use rs_waku.Shard.RoundTrip.{parse-pubsub_topic}
use rs_waku.Discv5.EnrBytes.{EnrText, IsEnrText, enr_prefix, enr_to_bytes, enr_from_bytes}
use rs_waku.Node.Messages.{query_rpc}
use rs_waku.Node.Requests.{
  answer, send_request, peer_exchange_request, peer_exchange_answer, handle_command, on_response,
}
use rs_waku.Node.Requests
use rs_waku.Node.Filters.{ok_response}
use rs_waku.Node.Filters
use rs_waku.Node.Loop.{
  LoopState, Setting, send_response, peer_exchange_reply, filter_reply, filter_push_reply,
  handle_event,
}
use rs_waku.Node.Loop
use rs_waku.Node.LoopExamples.{shard, hello, encode, swarm, nothing_waits, setting, start}
use rs_waku.Node.Client.{peer_exchange, filter_request}
use rs_waku.Node.Client.Exchange.{served, peer_exchange-serve}
use rs_waku.Node.Client.Filtering.{pushes_in, push_of, filter_subscribe-push}

abbrev first_of : Bytes → ℕ
first_of [] = 0
first_of (n ∷ rest) = n

abbrev enr_text : EnrText ℕ
enr_text = record {
  to_base64 = λ enr. enr_prefix ++ enr ∷ [];
  from_str = λ s. ok (first_of (drop 4 s));
  base64url_encode = λ bytes. bytes;
  base64url_decode = λ s. ok s;
}

enr_text-IsEnrText : IsEnrText enr_text
enr_text-IsEnrText = record {
  encoded = λ enr. (enr ∷ [], refl);
  decoded = λ bytes. refl;
  parsed = λ enr. refl;
}

abbrev exchange_setting : Setting ℕ ℕ
exchange_setting = record setting { enr_to_bytes = enr_to_bytes enr_text }

abbrev server : LoopState ℕ ℕ ℕ ℕ ℕ ℕ
server = record start { peer_book = 11 ∷ 12 ∷ 13 ∷ [] }

peer_exchange-serve_example :
    let asked =
      handle_command {Peer = ℕ} swarm encode nothing_waits 1 (Requests.peer_exchange 9 2 70) in
    (asked.1 ≡ send_request 9 (peer_exchange_request (query_rpc 2)) ∷ [])
    × (handle_event exchange_setting server (Loop.peer_exchange_event (query_rpc 2))
        ≡ (server, send_response (peer_exchange_reply (served enr_text server.peer_book 2)) ∷ []))
    × ((on_response {Peer = ℕ} asked.0
          (Requests.peer_exchange_response 1 (ok (served enr_text server.peer_book 2)))).1
        ≡ answer 70 (peer_exchange_answer (ok (served enr_text server.peer_book 2))) ∷ [])
    × (peer_exchange (enr_from_bytes enr_text) true (some (ok (served enr_text server.peer_book 2)))
        ≡ ok (take 2 server.peer_book))
peer_exchange-serve_example =
    peer_exchange-serve exchange_setting enr_text nothing_waits 1 9 2 70 server enr_text-IsEnrText
      refl

filter_subscribe-push_example :
    let subscribed =
      handle_event setting start
        (Loop.filter_event 9 (filter_request Filters.subscribe (some (pubsub_topic shard)) [])) in
    (subscribed.1 ≡ send_response (filter_reply (ok_response [])) ∷ [])
    × (targets : List ℕ) × (pushes_in
          (handle_event setting subscribed.0 (
            Loop.relay_message
              (pubsub_topic shard)
              (encode hello)
              (codes "id")
              7
              (pos 5)
              (pos 6))).1
        ≡ (targets, pubsub_topic shard, hello) ∷ [])
    × (contains targets 9 ≡ true)
    × (handle_event setting start (Loop.filter_push_event (push_of (pubsub_topic shard) hello)) ≡ (
      start,
      Loop.filter_message (some (pubsub_topic shard)) hello
          ∷ send_response (filter_push_reply (record { status_code = 200 }))
          ∷ [],
    ))
filter_subscribe-push_example =
    filter_subscribe-push setting start start 9 [] (pubsub_topic shard) (encode hello) (codes "id")
      7 (pos 5) (pos 6) shard hello tt refl
      (parse-pubsub_topic shard (record { cluster_id = omega arith; shard = omega arith })) refl
      (omega arith) tt tt
