-- ===== src/Node/LoopExamples.antt =====
-- The theorems on commands and on the loop at concrete commands, events and calls. Peers, addresses,
-- ENRs, request ids and replies are numbers.
use rs_waku.Prelude.{
  ℕ, ◌+◌, ◌≤◌, ◌≡◌, refl, List, [], ◌∷◌, ◌++◌, none, some, arith, take, replicate, length,
  length-take, length-append,
}
use rs_waku.Prelude.{Bool, true, false}
use rs_waku.Prelude.Bytes.{Bytes, codes}
use rs_waku.Prelude.Eq.{nat_eq}
use rs_waku.Prelude.Assoc.{lookup, insert}
use rs_waku.Prelude.Outcome.{ok, err}
use rs_waku.Shard.{ShardId, pubsub_topic}
use rs_waku.Message.{WakuMessage, new}
use rs_waku.Hash.{deterministic_hash}
use rs_waku.Relay.{waku_message_id}
use rs_waku.Node.Requests.{Swarm, Pending, Response, Command, answer, published, handle_command}
use rs_waku.Node.Requests
use rs_waku.Node.Answers.{
  Input, command, response, waiting, answered, issued_all, taken, run_balance,
}
use rs_waku.Node.Answers
use rs_waku.Node.Connections.{established}
use rs_waku.Node.Connections
use rs_waku.Node.RateLimit
use rs_waku.Node.Loop.{LoopState, SwarmEvent, Setting, run}
use rs_waku.Node.Loop
use rs_waku.Node.Replies.{replies, requests_in, is_any, heard, sum_of}
use rs_waku.Node.Accounting.{IsCounted, run_lem}

abbrev pub shard : ShardId
shard = record { cluster_id = 1; shard = 2 }

abbrev pub hello : WakuMessage
hello = new (codes "/app/1/chat/proto") (codes "hello")

abbrev pub digest_of : Bytes → Bytes
digest_of bytes = take 32 (bytes ++ replicate 32 0)

abbrev pub encode : WakuMessage → Bytes
encode m = m.payload

-- Gossipsub takes every message and names it by its hash.
abbrev pub swarm : Swarm ℕ
swarm = record {
  subscribe = λ topic. err (codes "no");
  publish = λ topic bytes. ok (deterministic_hash digest_of topic hello);
  dial = λ address. ok tt;
  mesh_peers = λ topic. 3;
}

abbrev pub nothing_waits : Pending ℕ ℕ
nothing_waits = record { store_queries = []; lightpush = []; peer_exchange = []; filter = [] }

abbrev inputs : List (Input ℕ ℕ ℕ ℕ)
inputs =
    command 1 (Requests.peer_exchange 9 5 70)
    ∷ command 2 (Requests.dial 8 71)
    ∷ command 3 (Requests.peer_exchange 9 6 72)
    ∷ response (Requests.peer_exchange_response 1 (err (codes "timeout")))
    ∷ command 4 Requests.shutdown
    ∷ command 5 (Requests.dial 8 73)
    ∷ []

fresh : Answers.AllFresh swarm encode nothing_waits (taken inputs)
unfolding Answers.take_in handle_command lookup insert
fresh = (refl, (tt, (refl, (tt, tt))))

run_balance_example :
    (waiting 70 (Answers.run swarm encode nothing_waits inputs).0
        + answered 70 (Answers.run swarm encode nothing_waits inputs).1
      ≡ waiting 70 nothing_waits + issued_all swarm encode 70 (taken inputs))
    × (Answers.run swarm encode nothing_waits inputs
        ≡ Answers.run swarm encode nothing_waits (taken inputs))
run_balance_example = run_balance swarm encode nothing_waits inputs 70 (tt, tt, tt, tt) fresh

pub digest_length : (bs : Bytes) → length (digest_of bs) ≡ 32
digest_length bs =
    omega (arith, length-take 32 (bs ++ replicate 32 0), length-append bs (replicate 32 0))

pub named :
    swarm.publish (pubsub_topic shard) (encode hello)
    ≡ ok (waku_message_id digest_of (λ bytes. some hello) (pubsub_topic shard) (encode hello))
unfolding waku_message_id deterministic_hash
named = refl

abbrev pub setting : Setting ℕ ℕ
setting = record {
  sha256 = digest_of;
  try_decode = λ bytes. some hello;
  encode = encode;
  swarm = swarm;
  enr_to_bytes = λ n. n ∷ [];
  describe = λ e. [];
  store = none;
  local_cluster = 1;
  local_meta = record { cluster_id = some 1; shards = [] };
  ip_limit = 2;
}

abbrev pub start : LoopState ℕ ℕ ℕ ℕ ℕ ℕ
start = record {
  connections = record { ip_counts = []; connected = [] };
  filters = [];
  store_limit = RateLimit.new 1 1000;
  lightpush_limit = RateLimit.new 1 1000;
  pending = nothing_waits;
  peer_book = [];
  metrics = record {
    relay_messages = 0;
    store_queries = 0;
    lightpush_requests = 0;
    filter_pushes = 0;
    rate_limited = 0;
  };
  listen_addrs = [];
}

abbrev push : SwarmEvent ℕ ℕ ℕ ℕ
push =
    Loop.lightpush_event 9 (record { request_id = []; pubsub_topic = []; message = some hello }) 5

abbrev events : List (SwarmEvent ℕ ℕ ℕ ℕ)
events = Loop.connection (established 9 (some 4)) ∷ Loop.metadata_request 9 ∷ push ∷ push ∷ []

-- The application is gone at the last of the turns, which is not its concern.
abbrev turns : List (Bool × SwarmEvent ℕ ℕ ℕ ℕ)
turns = (true, Loop.connection (established 9 (some 4))) ∷ (true, push) ∷ (false, push) ∷ []

run_lem_example :
    IsCounted start.metrics (run setting start turns).0.metrics (run setting start turns).1
    × (replies is_any (run setting start (heard events)).1 ≡ sum_of requests_in events)
    × (run setting start (turns ++ (false, Loop.new_listen_addr 30303) ∷ turns)
        ≡ run setting start (turns ++ (false, Loop.new_listen_addr 30303) ∷ []))
run_lem_example = run_lem setting start turns events 30303 turns

none_counted : (j : ℕ) → Connections.count_of j start.connections.ip_counts ≤ 2
unfolding lookup
none_counted j = omega arith
