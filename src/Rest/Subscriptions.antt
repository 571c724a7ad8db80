-- ===== src/Rest/Subscriptions.antt =====
-- That a message which is posted for a content topic reaches the queue of a node that has subscribed to it.
use rs_waku.Prelude.{
  ◌≡◌, refl, ap, sym, ◌∙◌, List, [], ◌∷◌, ◌≢◌, Option, none, some, get_last?, Option-cases, inl,
  inr,
}
use rs_waku.Prelude.Bytes.{Bytes, codes}
use rs_waku.Prelude.Eq.{list_eq, nat_eq}
use rs_waku.Prelude.Outcome.{Result, ok, err, Result-cases, >>=-eq-ok}
use rs_waku.Prelude.Sorted.{In}
use mathlib.Core.Path.{subst}
use rs_waku.Topic
use rs_waku.Topic.{ContentTopic, CoreError}
use rs_waku.Node.Handle.{NodeError, node_error_text}
use rs_waku.Shard.{ShardId, autoshard}
use rs_waku.Message.{WakuMessage}
use rs_waku.Rest.{
  Calls, register, record_message, drain, Response, panicked, text, core_error_text,
  RestWakuMessage, reply, nothing, into_message, decode_meta, decode_as,
}
use rs_waku.Rest.Handlers.{
  NodeHandle, AppState, subscribe_one, relay_subscribe, relay_publish, publish_to,
}
use rs_waku.Rest.Caching.{IsCached, register-IsCached, register-keeps, drain-record_at}

-- The node asked for a subscription to each of the shards, in order, and granted each.
unfoldable pub Subscribes : {N : Type 0} → NodeHandle N → N → List ShardId → N → Type 0
Subscribes handle n [] last = n ≡ last
Subscribes handle n (shard ∷ rest) last =
    ((handle.subscribe n shard).1 ≡ ok tt)
    × Subscribes handle (handle.subscribe n shard).0 rest last

module _ {N : Type 0} (c : Calls) (handle : NodeHandle N) (sha256 : Bytes → Bytes) where
  -- What the loop leaves as it was.
  abbrev Keeps : AppState N → AppState N → Type 0
  Keeps s after =
      ((t : Bytes) → IsCached t s.cache → IsCached t after.cache)
      × (after.preset.cluster_id ≡ s.preset.cluster_id)
      × (after.preset.shard_count ≡ s.preset.shard_count)

  -- The topic has a shard among those given, and the cache has its queue.
  abbrev IsServed : AppState N → List ShardId → Bytes → Type 0
  IsServed s shards topic =
      (t : ContentTopic) × (shard : ShardId) × (Topic.parse topic ≡ ok t)
      × (autoshard sha256 s.preset.cluster_id t s.preset.shard_count ≡ some shard)
      × In shard shards
      × IsCached topic s.cache

  -- One topic was served: the node granted its shard, and the cache has its queue.
  abbrev IsGranted : AppState N → AppState N → Bytes → Type 0
  IsGranted s after topic =
      (t : ContentTopic) × (shard : ShardId) × (Topic.parse topic ≡ ok t)
      × (autoshard sha256 s.preset.cluster_id t s.preset.shard_count ≡ some shard)
      × ((handle.subscribe s.node shard).1 ≡ ok tt)
      × (after.node ≡ (handle.subscribe s.node shard).0)
      × IsCached topic after.cache

  abbrev one : AppState N → Bytes → AppState N × Option Response
  one s topic = subscribe_one c handle sha256 s topic

  one_refused :
      (s : AppState N) (topic : Bytes) (e : CoreError)
      → Topic.parse topic ≡ err e
      → one s topic ≡ (s, some (reply 400 (text (core_error_text c e))))
  unfolding subscribe_one
  one_refused s topic e bad = rw (subscribe_one, bad) refl

  one_panicked :
      (s : AppState N) (topic : Bytes) (t : ContentTopic)
      → Topic.parse topic ≡ ok t
      → autoshard sha256 s.preset.cluster_id t s.preset.shard_count ≡ none
      → one s topic ≡ (s, some panicked)
  unfolding subscribe_one
  one_panicked s topic t parsed none_of = rw (subscribe_one, parsed, none_of) refl

  one_failed :
      (s : AppState N) (topic : Bytes) (t : ContentTopic) (shard : ShardId) (e : NodeError)
      → Topic.parse topic ≡ ok t
      → autoshard sha256 s.preset.cluster_id t s.preset.shard_count ≡ some shard
      → (handle.subscribe s.node shard).1 ≡ err e
      → one s topic ≡ (
        record s { node = (handle.subscribe s.node shard).0 },
        some (reply 503 (text (node_error_text e))),
      )
  unfolding subscribe_one
  one_failed s topic t shard e parsed found failed = rw (subscribe_one, parsed, found, failed) refl

  one_done :
      (s : AppState N) (topic : Bytes) (t : ContentTopic) (shard : ShardId)
      → Topic.parse topic ≡ ok t
      → autoshard sha256 s.preset.cluster_id t s.preset.shard_count ≡ some shard
      → (handle.subscribe s.node shard).1 ≡ ok tt
      → one s topic ≡ (
        record s { node = (handle.subscribe s.node shard).0; cache = register s.cache topic },
        none,
      )
  unfolding subscribe_one
  one_done s topic t shard parsed found done = rw (subscribe_one, parsed, found, done) refl

  subscribe_one_lem :
      (s : AppState N) (topic : Bytes)
      → Keeps s (one s topic).0
        × ((one s topic).1 ≡ none → IsGranted s (one s topic).0 topic)
        × ((one s topic).1 ≢ some (reply 200 nothing))
  subscribe_one_lem s topic = elim (Result-cases (Topic.parse topic)) [
    | inr (e, bad) ↦ rw (one_refused s topic e bad) (((λ t h. h), refl, refl), (λ h. cc), λ h. cc)
    | inl (t, parsed) ↦
        elim (Option-cases (autoshard sha256 s.preset.cluster_id t s.preset.shard_count)) [
          | inl none_of ↦
              rw (one_panicked s topic t parsed none_of)
                (((λ t h. h), refl, refl), (λ h. cc), λ h. cc)
          | inr (shard, found) ↦ elim (Result-cases (handle.subscribe s.node shard).1) [
            | inr (e, failed) ↦
                rw (one_failed s topic t shard e parsed found failed)
                  (((λ t h. h), refl, refl), (λ h. cc), λ h. cc)
            | inl (u, done) ↦ rw (one_done s topic t shard parsed found done) (
              ((λ r. register-keeps s.cache r topic), refl, refl),
              (λ h. (t, shard, parsed, found, done, refl, register-IsCached s.cache topic)),
              λ h. cc,
            )
          ]
        ]
  ]

  Keeps-trans : (a b d : AppState N) → Keeps a b → Keeps b d → Keeps a d
  Keeps-trans a b d h k = ((λ t x. k.0 t (h.0 t x)), k.1 ∙ h.1, k.2 ∙ h.2)

  abbrev all : AppState N → List Bytes → AppState N × Response
  all s topics = relay_subscribe c handle sha256 s topics

  all_goes_on :
      (s : AppState N) (topic : Bytes) (rest : List Bytes)
      → (one s topic).1 ≡ none
      → all s (topic ∷ rest) ≡ all (one s topic).0 rest
  unfolding relay_subscribe
  all_goes_on s topic rest e = rw (relay_subscribe, e) refl

  all_ends :
      (s : AppState N) (topic : Bytes) (rest : List Bytes) (r : Response)
      → (one s topic).1 ≡ some r
      → (all s (topic ∷ rest)).1 ≡ r
  unfolding relay_subscribe
  all_ends s topic rest r e = rw (relay_subscribe, e) refl

  all_nil : (s : AppState N) → all s [] ≡ (s, reply 200 nothing)
  unfolding relay_subscribe
  all_nil s = refl

  -- Every topic of a list is served at the end, by shards that the node granted on the way.
  abbrev AllServed : AppState N → AppState N → List Bytes → Type 0
  AllServed s last topics =
      (shards : List ShardId) × Subscribes handle s.node shards last.node
      × Keeps s last
      × ((t : Bytes) → In t topics → IsServed last shards t)

  AllServed-cons :
      (s mid last : AppState N) (topic : Bytes) (rest : List Bytes)
      → Keeps s mid
      → IsGranted s mid topic
      → AllServed mid last rest
      → AllServed s last (topic ∷ rest)
  unfolding Subscribes
  AllServed-cons s mid last topic rest kept (t, shard, parsed, found, done, after, cached)
        (shards, granted, later, all_rest) =
      (
        shard ∷ shards,
        (done, subst (λ n. Subscribes handle n shards last.node) after granted),
        Keeps-trans s mid last kept later,
        λ u. at_topic u,
      )
    where
      at_topic : (u : Bytes) → In u (topic ∷ rest) → IsServed last (shard ∷ shards) u
      at_topic u (inl e) = (
        t,
        shard,
        rw e parsed,
        rw (later.1 ∙ kept.1, later.2 ∙ kept.2) found,
        inl refl,
        rw e (later.0 topic cached),
      )
      at_topic u (inr k) =
          let (t', shard', parsed', found', there, cached') = all_rest u k in
          (t', shard', parsed', found', inr there, cached')

  subscribed_all :
      (s : AppState N) (topics : List Bytes)
      → (all s topics).1 ≡ reply 200 nothing
      → AllServed s (all s topics).0 topics
  unfolding Subscribes
  subscribed_all s [] h = rw (all_nil s) ([], refl, ((λ t h. h), refl, refl), λ t h. absurd h)
  subscribed_all s (topic ∷ rest) h =
      let (kept, granted, not_ok) = subscribe_one_lem s topic in
      elim (Option-cases (one s topic).1) [
        | inr (r, e) ↦ absurd (not_ok (e ∙ ap some (sym (all_ends s topic rest r e) ∙ h)))
        | inl e ↦
            let same = all_goes_on s topic rest e in
            rw same (
              AllServed-cons s (one s topic).0 (all (one s topic).0 rest).0 topic rest kept
                (granted e) (subscribed_all (one s topic).0 rest (rw same at h)))
      ]

  publish_lem :
      (s : AppState N) (topic : Bytes) (body : RestWakuMessage) (m : WakuMessage) (t : ContentTopic)
      (shard : ShardId)
      → Topic.parse topic ≡ ok t
      → autoshard sha256 s.preset.cluster_id t s.preset.shard_count ≡ some shard
      → into_message c body topic ≡ ok m
      → relay_publish c handle sha256 s topic body ≡ publish_to c handle sha256 s shard m
  unfolding relay_publish
  publish_lem s topic body m t shard parsed found read =
      rw (relay_publish, parsed, read, found) refl

  into_message-topic :
      (body : RestWakuMessage) (topic : Bytes) (m : WakuMessage)
      → into_message c body topic ≡ ok m
      → m.content_topic ≡ topic
  unfolding into_message
  into_message-topic body topic m h =
      let p =
        >>=-eq-ok (decode_as c.base64_decode (codes "bad payload base64: ") body.payload) _ h in
      let q = >>=-eq-ok (decode_meta c body.meta) _ p.2 in sym (ap topic_of q.2)
    where
      topic_of : Result Bytes WakuMessage → Bytes
      topic_of (ok a) = a.content_topic
      topic_of (err e) = topic

  -- When a subscription is answered with status 200, the node was asked to subscribe to a list of shards,
  -- one after the other, granted each, and is as that left it. A message that is then posted at any node of
  -- the network, with a body that can be read, for a content topic of the subscription, is published to one
  -- of these shards, and, once it has reached the node that subscribed, it is the last message that a poll
  -- of the topic there returns.
  pub relay_subscribe_lem :
      (s : AppState N) (topics : List Bytes) (other : AppState N) (topic : Bytes)
      (body : RestWakuMessage) (m : WakuMessage)
      → (relay_subscribe c handle sha256 s topics).1 ≡ reply 200 nothing
      → In topic topics
      → other.preset.cluster_id ≡ s.preset.cluster_id
      → other.preset.shard_count ≡ s.preset.shard_count
      → into_message c body topic ≡ ok m
      → (shards : List ShardId) × (shard : ShardId) × Subscribes handle s.node shards
          (relay_subscribe c handle sha256 s topics).0.node
        × In shard shards
        × (relay_publish c handle sha256 other topic body
            ≡ publish_to c handle sha256 other shard m)
        × (get_last?
              (drain (record_message (relay_subscribe c handle sha256 s topics).0.cache m) topic).0
            ≡ some m)
  relay_subscribe_lem s topics other topic body m done there cluster count read =
      let (shards, granted, kept, served) = subscribed_all s topics done in
      let (t, shard, parsed, found, member, cached) = served topic there in
      let same = into_message-topic body topic m read in
      (
        shards,
        shard,
        granted,
        member,
        publish_lem other topic body m t shard parsed
            (rw (cluster ∙ sym kept.1, count ∙ sym kept.2) found) read,
        drain-record_at (all s topics).0.cache m topic same cached,
      )
