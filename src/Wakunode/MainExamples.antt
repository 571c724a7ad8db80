-- ===== src/Wakunode/MainExamples.antt =====
-- The theorems on the key file and on the loop of `main` at a concrete disk and concrete turns.
use rs_waku.Prelude.{ℕ, ◌≡◌, refl, List, [], ◌∷◌, map, true, some, get_last?, arith}
use rs_waku.Prelude.Bytes.{Bytes, codes}
use rs_waku.Prelude.Eq.{nat_eq, list_eq}
use rs_waku.Prelude.Int.{pos}
use rs_waku.Prelude.Assoc.{lookup, insert}
use rs_waku.Prelude.Outcome.{ok}
use rs_waku.Shard.{pubsub_topic}
use rs_waku.Shard.RoundTrip.{parse-pubsub_topic}
use rs_waku.Node.Loop.{handle_event}
use rs_waku.Node.Loop
use rs_waku.Node.LoopExamples.{shard, hello, encode, setting, start}
use rs_waku.Rest.{MessageCache, cache_per_topic, drain}
use rs_waku.Rest.Cache.{unread, keep_last}
use rs_waku.Wakunode.KeyFile.{
  Disk, KeyCalls, IsKeyText, load_or_create_key, file_after, load_or_create_key-again,
}
use rs_waku.Wakunode.Main.{
  MainHandle, Turn, event, message_event, terminate, rest_subscribes, events_of, run,
}
use rs_waku.Wakunode.Main.Polling.{calls_of, started, run-drain, relay-drain}

-- A key is its secret, and the hex of bytes is the bytes.
abbrev key_calls : KeyCalls Bytes
key_calls = record {
  secret_of = λ key. key;
  from_secret = λ bytes. ok bytes;
  hex_encode = λ bytes. bytes;
  hex_decode = λ s. ok s;
  trim = λ s. s;
}

key_calls-IsKeyText : IsKeyText key_calls
key_calls-IsKeyText = record {
  trimmed = λ bytes. refl;
  decoded = λ bytes. refl;
  rebuilt = λ key. refl;
}

abbrev disk : Disk
disk = record { files = []; can_read = λ path. true; can_write = λ path. true }

abbrev disk_after : Disk
disk_after = record disk { files = (codes "key", 1 ∷ []) ∷ [] }

created : load_or_create_key key_calls (1 ∷ []) disk (codes "key") ≡ ok (1 ∷ [], disk_after)
unfolding load_or_create_key lookup insert
created = refl

load_or_create_key-again_example :
    (load_or_create_key key_calls (2 ∷ []) disk_after (codes "key") ≡ ok (1 ∷ [], disk_after))
    × (lookup (codes "other") disk_after.files
        ≡ file_after key_calls (1 ∷ []) disk (codes "key") (codes "other"))
load_or_create_key-again_example =
    load_or_create_key-again key_calls key_calls-IsKeyText (1 ∷ []) (2 ∷ []) disk disk_after
      (codes "key") (codes "other") (1 ∷ []) refl created

abbrev handle : MainHandle ℕ ℕ
handle = record {
  subscribe = λ node s. (node, ok tt);
  dial = λ node address. (node, ok tt);
  shutdown = λ node. 0;
}

abbrev turns : List (Turn ℕ ℕ)
turns =
    rest_subscribes hello.content_topic
    ∷ event (message_event shard hello (codes "id"))
    ∷ terminate
    ∷ event (message_event shard hello (codes "late"))
    ∷ []

run-drain_example :
    (cache : MessageCache) × ((run handle (started 1) turns).rest_cache ≡ some cache)
    × ((drain cache hello.content_topic).0
        ≡ keep_last cache_per_topic (unread hello.content_topic (calls_of turns [])))
run-drain_example = run-drain handle 1 turns hello.content_topic

abbrev subscribed_cache : MessageCache
subscribed_cache = (hello.content_topic, []) ∷ []

is_subscribed : lookup hello.content_topic subscribed_cache ≡ some []
unfolding lookup
is_subscribed = refl

relay-drain_example :
    let sent =
      (handle_event setting start (
        Loop.relay_message (pubsub_topic shard) (encode hello) (codes "id") 7 (pos 5) (pos 6))).1 in
    (after : MessageCache) × ((run handle
        (record { node = 1; rest_cache = some subscribed_cache; is_running = true })
        (map event (events_of sent))).rest_cache
      ≡ some after)
    × (get_last? (drain after hello.content_topic).0 ≡ some hello)
relay-drain_example =
    relay-drain setting handle start 1 subscribed_cache (pubsub_topic shard) (encode hello)
      (codes "id") 7 (pos 5) (pos 6) shard hello
      (parse-pubsub_topic shard (record { cluster_id = omega arith; shard = omega arith })) refl
      (omega arith) tt tt ([], is_subscribed)
