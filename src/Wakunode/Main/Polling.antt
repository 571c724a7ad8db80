-- ===== src/Wakunode/Main/Polling.antt =====
-- What a poll of the REST API returns of the events that `main` has taken.
use rs_waku.Prelude.{
  ◌≡◌, refl, ap, ◌∙◌, List, [], ◌∷◌, ◌++◌, map, Bool, true, false, some, get_last?, if◌then◌else◌,
  inl, inr,
}
use rs_waku.Prelude.Bytes.{Bytes}
use rs_waku.Prelude.Eq.{Eq}
use rs_waku.Prelude.Int.{ℤ}
use rs_waku.Prelude.Outcome.{ok}
use rs_waku.Shard.{ShardId, parse}
use rs_waku.Message.{WakuMessage}
use rs_waku.Relay.{MessageAcceptance}
use rs_waku.Node.Timely.{IsTime, HasTime, IsTimely, on_relay_message-cases}
use rs_waku.Node.Inbound.{store_put, filter_push, deliver, accepted, is_ephemeral}
use rs_waku.Node.Loop.{LoopState, Setting, relay_action, handle_event}
use rs_waku.Node.Loop
use rs_waku.Rest.{MessageCache, cache_per_topic, record_message, drain}
use rs_waku.Rest.Cache.{
  CacheCall, registers, records, drains, cache_after, unread, keep_last, drain-cache_after,
}
use rs_waku.Rest.Caching.{IsCached, drain-record_at}
use rs_waku.Wakunode.Main.{
  MainHandle, Event, message_event, Main, Turn, event, events_closed, ctrl_c, terminate,
  rest_subscribes, rest_polls, cache_event, on_turn, run, events_of,
}
use rs_waku.Wakunode.Main

-- The calls on the cache that the turns make until the loop ends, behind earlier ones, the latest first.
abbrev pub calls_of : {Peer Addr : Type 0} → List (Turn Peer Addr) → List CacheCall → List CacheCall
calls_of [] h = h
calls_of (event (message_event shard message id) ∷ rest) h = calls_of rest (records message ∷ h)
calls_of (event (Main.listening address) ∷ rest) h = calls_of rest h
calls_of (event (Main.peer_connected peer) ∷ rest) h = calls_of rest h
calls_of (event (Main.peer_disconnected peer) ∷ rest) h = calls_of rest h
calls_of (event (Main.metadata_mismatch peer theirs) ∷ rest) h = calls_of rest h
calls_of (event (Main.filter_message topic message) ∷ rest) h = calls_of rest h
calls_of (rest_subscribes topic ∷ rest) h = calls_of rest (registers topic ∷ h)
calls_of (rest_polls topic ∷ rest) h = calls_of rest (drains topic ∷ h)
calls_of (events_closed ∷ rest) h = h
calls_of (ctrl_c ∷ rest) h = h
calls_of (terminate ∷ rest) h = h

abbrev pub started : {N : Type 0} → N → Main N
started node = record { node = node; rest_cache = some []; is_running = true }

module _ {N Peer Addr : Type 0} (handle : MainHandle N Addr) where
  stays_ended :
      (m : Main N) (turns : List (Turn Peer Addr)) → m.is_running ≡ false → run handle m turns ≡ m
  unfolding run
  stays_ended m [] e = refl
  stays_ended m (turn ∷ rest) e =
      ap (λ b. run handle (if b then on_turn handle m turn else m) rest) e ∙ stays_ended m rest e

  cache_of_run :
      (node : N) (turns : List (Turn Peer Addr)) (h : List CacheCall)
      → (run handle
          (record { node = node; rest_cache = some (cache_after h); is_running = true })
          turns).rest_cache
        ≡ some (cache_after (calls_of turns h))
  unfolding run on_turn cache_after
  cache_of_run node [] h = refl
  cache_of_run node (event (message_event shard message id) ∷ rest) h =
      cache_of_run node rest (records message ∷ h)
  cache_of_run node (event (Main.listening address) ∷ rest) h = cache_of_run node rest h
  cache_of_run node (event (Main.peer_connected peer) ∷ rest) h = cache_of_run node rest h
  cache_of_run node (event (Main.peer_disconnected peer) ∷ rest) h = cache_of_run node rest h
  cache_of_run node (event (Main.metadata_mismatch peer theirs) ∷ rest) h = cache_of_run node rest h
  cache_of_run node (event (Main.filter_message topic message) ∷ rest) h = cache_of_run node rest h
  cache_of_run node (rest_subscribes topic ∷ rest) h = cache_of_run node rest (registers topic ∷ h)
  cache_of_run node (rest_polls topic ∷ rest) h = cache_of_run node rest (drains topic ∷ h)
  cache_of_run node (events_closed ∷ rest) h =
      ap (λ (x : Main N). x.rest_cache) (stays_ended _ rest refl)
  cache_of_run node (ctrl_c ∷ rest) h = ap (λ (x : Main N). x.rest_cache) (stays_ended _ rest refl)
  cache_of_run node (terminate ∷ rest) h =
      ap (λ (x : Main N). x.rest_cache) (stays_ended _ rest refl)

  -- After any turns of the loop of `main`, with the calls of the REST API in between, a poll returns the last
  -- hundred of the messages of its topic that came as relay events since the topic was subscribed to and
  -- since it was polled last, in the order in which they came, up to the signal or the end of the channel
  -- that ends the loop. Messages of filters and the other events are not among them.
  pub run-drain :
      (node : N) (turns : List (Turn Peer Addr)) (topic : Bytes)
      → (cache : MessageCache) × ((run handle (started node) turns).rest_cache ≡ some cache)
        × ((drain cache topic).0 ≡ keep_last cache_per_topic (unread topic (calls_of turns [])))
  unfolding cache_after
  run-drain node turns topic = (
    cache_after (calls_of turns []),
    cache_of_run node turns [],
    drain-cache_after topic (calls_of turns []),
  )

events_of-accepted :
    {Peer : Type 0} (Addr Reply : Type 0) (stores ephemeral : Bool) (topic id name : Bytes)
    (m : WakuMessage) (rx : ℤ) (targets : List Peer) (shard : ShardId) (source : Peer)
    (a : MessageAcceptance)
    → events_of {Peer = Peer} {Addr = Addr} {Reply = Reply} (
        map relay_action (
          (if stores then (if ephemeral then [] else store_put topic m rx ∷ []) else [])
          ++ filter_push targets topic m ∷ deliver shard m name ∷ [])
        ++ Loop.report id source a ∷ [])
      ≡ message_event shard m name ∷ []
events_of-accepted Addr Reply false e topic id name m rx targets shard source a = refl
events_of-accepted Addr Reply true false topic id name m rx targets shard source a = refl
events_of-accepted Addr Reply true true topic id name m rx targets shard source a = refl

module _ {N Peer Addr : Type 0} (handle : MainHandle N Addr) where
  after_events :
      (m : WakuMessage) (shard : ShardId) (name topic : Bytes) (node : N) (cache : MessageCache)
      (events : List (Event Peer Addr))
      → events ≡ message_event shard m name ∷ []
      → m.content_topic ≡ topic
      → IsCached topic cache
      → (after : MessageCache) × ((run handle
            (record { node = node; rest_cache = some cache; is_running = true })
            (map event events)).rest_cache
          ≡ some after)
        × (get_last? (drain after topic).0 ≡ some m)
  unfolding run on_turn
  after_events m shard name topic node cache events q t cached = (
    record_message cache m,
    ap
        (λ (es : List (Event Peer Addr)).
          (run handle (record { node = node; rest_cache = some cache; is_running = true })
            (map event es)).rest_cache)
        q,
    drain-record_at cache m topic t cached,
  )

module _ {N Peer Ip Addr Enr RequestId Reply : Type 0} ⦃e : Eq Peer⦄ ⦃f : Eq Ip⦄ ⦃g : Eq RequestId⦄
    (c : Setting Addr Enr) (handle : MainHandle N Addr) where
  -- A relay message that the node accepts is the last that a poll of its content topic then returns, once
  -- `main` has taken the events that the node sends of it, where that topic was subscribed to over REST.
  -- The message is on a shard's topic, decodes, and has no timestamp or one less than 21 seconds from the
  -- clock; the times are within 2^62 nanoseconds of 1970.
  pub relay-drain :
      (s : LoopState Peer Ip Addr Enr RequestId Reply) (node : N) (cache : MessageCache)
      (topic bytes id : Bytes) (source : Peer) (now rx_time : ℤ) (shard : ShardId) (m : WakuMessage)
      → parse topic ≡ ok shard
      → c.try_decode bytes ≡ some m
      → IsTime now
      → HasTime m.timestamp
      → IsTimely now m.timestamp
      → IsCached m.content_topic cache
      → let sent = (handle_event c s (Loop.relay_message topic bytes id source now rx_time)).1 in
        (after : MessageCache) × ((run handle
            (record { node = node; rest_cache = some cache; is_running = true })
            (map event (events_of sent))).rest_cache
          ≡ some after)
        × (get_last? (drain after m.content_topic).0 ≡ some m)
  unfolding handle_event accepted
  relay-drain s node cache topic bytes id source now rx_time shard m p d tn tm timely cached =
      elim (on_relay_message-cases c.sha256 c.try_decode (Loop.has_store c.store) s.filters now
        rx_time topic bytes id shard m p d tn tm) [
          | inl (r, t) ↦
              after_events handle m shard _ m.content_topic node cache _
                (ap
                    (λ x.
                      events_of {Peer = Peer} {Addr = Addr} {Reply = Reply}
                        (map relay_action x.0 ++ Loop.report id source x.1 ∷ []))
                    r
                  ∙ events_of-accepted Addr Reply (Loop.has_store c.store)
                      (is_ephemeral m.ephemeral) topic id _ m rx_time _ shard source _)
                refl cached
          | inr (r, late) ↦ absurd (late timely)
        ]
