-- ===== src/Node/Examples.antt =====
-- The theorems on the node's handlers at concrete peers, addresses and messages, which are numbers.
use rs_waku.Prelude.{
  ℕ, ◌≡◌, ◌≤◌, ◌+◌, ◌*◌, ◌-◌, ◌⊎◌, refl, List, [], ◌∷◌, true, none, some, if◌then◌else◌, any, arith,
}
use rs_waku.Prelude.Bytes.{codes}
use rs_waku.Prelude.Eq.{◌==◌, nat_eq, list_eq, contains}
use rs_waku.Prelude.Int.{pos}
use rs_waku.Prelude.Outcome.{ok}
use rs_waku.Prelude.Text.{strip_prefix, split_once}
use rs_waku.Prelude.Decimal.{parse_u16}
use rs_waku.Prelude.Keys.{HasUniqueKeys}
use rs_waku.Prelude.Assoc.{lookup}
use rs_waku.Shard.{ShardId, parse}
use rs_waku.Message.{WakuMessage, new}
use rs_waku.Relay.{MessageAcceptance}
use rs_waku.Node.Filters.{
  FilterSubscribeRequest, Registry, subscribe, apply_filter_request, push_targets, wants, subs_of,
}
use rs_waku.Node.Pushes.{after, push_targets-apply_filter_request}
use rs_waku.Node.Connections.{
  Connections, ConnectionEvent, established, closed, disconnect, count_of, on_established,
  on_closed,
}
use rs_waku.Node.Colocation.{on_closed-refused}
use rs_waku.Node.RateLimit.{RateLimiter, serve}
use rs_waku.Node.RateLimit
use rs_waku.Node.Throughput.{serve_bound}
use rs_waku.Node.Inbound.{on_relay_message}
use rs_waku.Prelude.{ℕ, ◌++◌, ◌&&◌, not, if◌then◌else◌, eqb, length}
use rs_waku.Hash.{deterministic_hash}
use rs_waku.Node.Filters.{push_targets}
use rs_waku.Node.Inbound.{store_put, filter_push, deliver, is_ephemeral}
use rs_waku.Node.Timely.{IsTimely, on_relay_message_iff}

abbrev request : FilterSubscribeRequest
request = record {
  request_id = codes "r";
  filter_subscribe_type = subscribe;
  pubsub_topic = none;
  content_topics = codes "/app/1/chat/proto" ∷ [];
}

abbrev seven : ℕ
seven = 7

abbrev registry : Registry ℕ
registry = (7, []) ∷ []

push_targets-apply_filter_request_example :
    HasUniqueKeys (apply_filter_request registry 7 request).0
    × (contains (push_targets (apply_filter_request registry 7 request).0 (codes "t") (codes "c")) 8
        ≡ (if seven == 8
            then any (wants (codes "t") (codes "c")) (after request (subs_of 7 registry))
            else contains (push_targets registry (codes "t") (codes "c")) 8))
push_targets-apply_filter_request_example =
    push_targets-apply_filter_request registry 7 8 request (codes "t") (codes "c") (tt, tt)

abbrev two_from_5 : Connections ℕ ℕ
two_from_5 = record { ip_counts = (5, 2) ∷ []; connected = 1 ∷ 2 ∷ [] }

abbrev events : List (ConnectionEvent ℕ ℕ)
events = established 3 (some 5) ∷ closed 3 (some 5) ∷ established 4 (some 5) ∷ []

within : (j : ℕ) → count_of j two_from_5.ip_counts ≤ 2
unfolding lookup
within j = ground arith

count_of_5 : count_of 5 two_from_5.ip_counts ≡ 2
unfolding lookup
count_of_5 = refl

on_closed-refused_example :
    ((on_established 2 9 (some 5) two_from_5).1 ≡ disconnect 9 ∷ [])
    × (count_of 5 (on_closed 9 (some 5) (on_established 2 9 (some 5) two_from_5).0).0.ip_counts + 1
        ≡ 2)
on_closed-refused_example = on_closed-refused 2 9 5 two_from_5 (omega arith) count_of_5

abbrev node_of : ℕ → ℕ
node_of n = n

abbrev limiter : RateLimiter ℕ
limiter = RateLimit.new 2 10

serve_bound_example :
    (serve limiter 1 ((1, 0) ∷ (2, 0) ∷ (1, 3) ∷ (1, 4) ∷ [])).1 * 10 ≤ 2 * 10 + (9 - 0) * 2
serve_bound_example =
    serve_bound limiter 1 0 9 ((1, 0) ∷ (2, 0) ∷ (1, 3) ∷ (1, 4) ∷ [])
      (omega arith, (omega arith, (omega arith, (omega arith, omega arith))))

abbrev shard : ShardId
shard = record { cluster_id = 1; shard = 3 }

abbrev hello : WakuMessage
hello = record (new (codes "/app/1/chat/proto") (codes "hello")) {
  timestamp = some (pos 20999999999);
}

topic_of_shard : parse (codes "/waku/2/rs/1/3") ≡ ok shard
unfolding parse strip_prefix split_once parse_u16
topic_of_shard = refl

on_relay_message_iff_example :
    ((on_relay_message
          (λ bs. bs)
          (λ bs. some hello)
          true
          registry
          (pos 0)
          (pos 1)
          (codes "/waku/2/rs/1/3")
          []
          []
        ≡ (
          (if true && not (is_ephemeral hello.ephemeral)
                then store_put (codes "/waku/2/rs/1/3") hello (pos 1) ∷ []
                else [])
              ++ filter_push
                  (push_targets registry (codes "/waku/2/rs/1/3") hello.content_topic)
                  (codes "/waku/2/rs/1/3")
                  hello
                ∷ deliver shard hello (
                    if eqb (length {A = ℕ} []) 32
                    then []
                    else deterministic_hash (λ bs. bs) (codes "/waku/2/rs/1/3") hello)
                ∷ [],
          MessageAcceptance.accept,
        ))
      × IsTimely (pos 0) (some (pos 20999999999)))
    ⊎ ((on_relay_message
            (λ bs. bs)
            (λ bs. some hello)
            true
            registry
            (pos 0)
            (pos 1)
            (codes "/waku/2/rs/1/3")
            []
            []
          ≡ ([], MessageAcceptance.reject))
        × (IsTimely (pos 0) (some (pos 20999999999)) → ⊥))
on_relay_message_iff_example =
    on_relay_message_iff (λ bs. bs) (λ bs. some hello) true registry (pos 0) (pos 1)
      (codes "/waku/2/rs/1/3") [] [] shard hello topic_of_shard refl (omega arith) (omega arith)
