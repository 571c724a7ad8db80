-- ===== src/Rest/Caching.antt =====
-- The topics that the cache has a queue of.
use mathlib.Core.Option
use rs_waku.Prelude.{
  ◌≡◌, refl, ◌∙◌, List, [], ◌∷◌, ◌++◌, leb, length, drop, some, if◌then◌else◌, get_last?,
  Bool-cases, inl, inr, arith,
}
use rs_waku.Prelude.Bytes.{Bytes}
use rs_waku.Prelude.Eq.{eq_refl, ◌==◌, list_eq, nat_eq}
use rs_waku.Prelude.Assoc.{lookup, insert, lookup-insert}
use rs_waku.Message.{WakuMessage}
use rs_waku.Rest.{MessageCache, register, record_message, drain, cache_per_topic, push_bounded}

-- The cache has a queue of the topic.
abbrev pub IsCached : Bytes → MessageCache → Type 0
IsCached t cache = (queue : List WakuMessage) × (lookup t cache ≡ some queue)

pub register-IsCached : (cache : MessageCache) (t : Bytes) → IsCached t (register cache t)
unfolding register
register-IsCached cache t = (
  Option.get_or (lookup t cache) [],
  lookup-insert t t (Option.get_or (lookup t cache) []) cache ∙ ground (arith, eq_refl t),
)

pub register-keeps :
    (cache : MessageCache) (t u : Bytes) → IsCached t cache → IsCached t (register cache u)
unfolding register
register-keeps cache t u (queue, h) = elim (Bool-cases (u == t)) [
  | inl e ↦ (
    Option.get_or (lookup u cache) [],
    lookup-insert u t (Option.get_or (lookup u cache) []) cache ∙ ground (arith, e),
  )
  | inr e ↦
      (queue, lookup-insert u t (Option.get_or (lookup u cache) []) cache ∙ ground (arith, e, h))
]

get_last-append : {A : Type 0} (xs : List A) (x : A) → get_last? (xs ++ x ∷ []) ≡ some x
get_last-append [] x = refl
get_last-append (y ∷ []) x = refl
get_last-append (y ∷ z ∷ xs) x = get_last-append (z ∷ xs) x

-- A message that is recorded of a topic with a queue is the last that a poll returns.
drain-record_message :
    (cache : MessageCache) (m : WakuMessage)
    → IsCached m.content_topic cache
    → get_last? (drain (record_message cache m) m.content_topic).0 ≡ some m
unfolding record_message drain
drain-record_message cache m (queue, h) =
    rw (record_message, h, drain, now)
      (get_last-append (if leb cache_per_topic (length queue) then drop 1 queue else queue) m)
  where
    now :
        lookup m.content_topic (insert m.content_topic (push_bounded queue m) cache)
        ≡ some (push_bounded queue m)
    now =
        lookup-insert m.content_topic m.content_topic (push_bounded queue m) cache
        ∙ ground (arith, eq_refl m.content_topic)

pub drain-record_at :
    (cache : MessageCache) (m : WakuMessage) (topic : Bytes)
    → m.content_topic ≡ topic
    → IsCached topic cache
    → get_last? (drain (record_message cache m) topic).0 ≡ some m
drain-record_at cache m topic e h = rw (← e) (drain-record_message cache m (rw e h))
