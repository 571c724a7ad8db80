-- ===== src/Rest/Cache.antt =====
-- The message cache against the history of its calls.
use mathlib.Core.Option
use rs_waku.Prelude.{
  ℕ, zero, suc, ◌-◌, ◌≡◌, ◌≤◌, refl, ap, sym, ◌∙◌, ◌++◌, List, [], ◌∷◌, Bool, true, false, ◌&&◌,
  ◌||◌, Option, none, some, if◌then◌else◌, leb, length, drop, length-append, length-drop, arith,
  Bool-cases, inl, inr,
}
use rs_waku.Prelude.Bytes.{Bytes}
use rs_waku.Prelude.Eq.{◌==◌, eq_iff, list_eq, nat_eq}
use rs_waku.Prelude.Assoc.{lookup, lookup-insert}
use rs_waku.Message.{WakuMessage}
use rs_waku.Rest.{MessageCache, cache_per_topic, push_bounded, register, record_message, drain}

-- The calls of a cache.
pub data CacheCall : Type 0 where
  registers : Bytes → CacheCall
  records : WakuMessage → CacheCall
  drains : Bytes → CacheCall

-- The cache after a history, the latest call first.
unfoldable pub cache_after : List CacheCall → MessageCache
unfolding register record_message drain
cache_after [] = []
cache_after (registers t ∷ earlier) = register (cache_after earlier) t
cache_after (records m ∷ earlier) = record_message (cache_after earlier) m
cache_after (drains t ∷ earlier) = (drain (cache_after earlier) t).1

abbrev pub is_registered : Bytes → List CacheCall → Bool
is_registered t [] = false
is_registered t (registers s ∷ earlier) = (s == t) || is_registered t earlier
is_registered t (records m ∷ earlier) = is_registered t earlier
is_registered t (drains s ∷ earlier) = is_registered t earlier

-- The messages of a topic since it was drained last, without a bound.
abbrev pub unread : Bytes → List CacheCall → List WakuMessage
unread t [] = []
unread t (registers s ∷ earlier) = unread t earlier
unread t (records m ∷ earlier) =
    let before = unread t earlier in
    if (m.content_topic == t) && is_registered t earlier then before ++ m ∷ [] else before
unread t (drains s ∷ earlier) = let before = unread t earlier in if s == t then [] else before

abbrev pub keep_last : {A : Type 0} → ℕ → List A → List A
keep_last n xs = drop (length xs - n) xs

module _ {A : Type 0} where
  drop_one : (k : ℕ) (xs : List A) → drop 1 (drop k xs) ≡ drop (suc k) xs
  drop_one zero xs = refl
  drop_one (suc k) [] = refl
  drop_one (suc k) (x ∷ xs) = drop_one k xs

  drop-append_left : (k : ℕ) (xs ys : List A) → k ≤ length xs → drop k (xs ++ ys) ≡ drop k xs ++ ys
  drop-append_left zero xs ys h = refl
  drop-append_left (suc k) [] ys h = absurd (omega arith)
  drop-append_left (suc k) (x ∷ xs) ys h = drop-append_left k xs ys (omega arith)

abbrev one_more_back : List WakuMessage → WakuMessage → List WakuMessage
one_more_back xs m = keep_last cache_per_topic (xs ++ m ∷ [])

-- A bounded push keeps the last messages.
push_bounded-keep_last :
    (xs : List WakuMessage) (m : WakuMessage)
    → push_bounded (keep_last cache_per_topic xs) m ≡ one_more_back xs m
push_bounded-keep_last xs m = elim (Bool-cases (leb 100 (length xs))) [
  | inl long ↦ rw (all_kept long) (
      ap (λ t. t ++ m ∷ []) (drop_one (length xs - 100) xs)
      ∙ sym (drop-append_left (suc (length xs - 100)) xs (m ∷ []) (ground (arith, long)))
      ∙ ap (λ k. drop k (xs ++ m ∷ [])) {x = suc (length xs - 100)}
          (ground (arith, long, length-append xs (m ∷ []))))
  | inr short ↦ rw (some_kept short) (
      sym (drop-append_left (length xs - 100) xs (m ∷ []) (omega arith))
      ∙ ap (λ k. drop k (xs ++ m ∷ [])) {x = length xs - 100}
          (ground (arith, short, length-append xs (m ∷ []))))
]
  where
    all_kept : leb 100 (length xs) ≡ true → leb 100 (length (keep_last 100 xs)) ≡ true
    all_kept h = ground (arith, length-drop (length xs - 100) xs)

    some_kept : leb 100 (length xs) ≡ false → leb 100 (length (keep_last 100 xs)) ≡ false
    some_kept h = ground (arith, length-drop (length xs - 100) xs)

abbrev queue_of : Bytes → List CacheCall → Option (List WakuMessage)
queue_of t h = if is_registered t h then some (keep_last cache_per_topic (unread t h)) else none

-- Nothing is unread of a topic that is not registered.
unread_unregistered : (t : Bytes) (h : List CacheCall) → is_registered t h ≡ false → unread t h ≡ []
unread_unregistered t [] e = refl
unread_unregistered t (registers s ∷ h) e = unread_unregistered t h (ground arith)
unread_unregistered t (records m ∷ h) e = ground (arith, unread_unregistered t h e)
unread_unregistered t (drains s ∷ h) e = ground (arith, unread_unregistered t h e)

module _ (c : MessageCache) (h : List CacheCall)
    (now : (s : Bytes) → lookup s c ≡ queue_of s h) where
  register-queue : (t s : Bytes) → lookup t (register c s) ≡ queue_of t (registers s ∷ h)
  unfolding register
  register-queue t s =
      lookup-insert s t (Option.get_or (lookup s c) []) c
      ∙ ground (arith, now s, now t, eq_iff s t, unread_unregistered t h)

  record_message-queue :
      (t : Bytes) (m : WakuMessage) → lookup t (record_message c m) ≡ queue_of t (records m ∷ h)
  unfolding record_message
  record_message-queue t m = elim (Bool-cases (is_registered m.content_topic h)) [
    | inl e ↦
        rw (record_message, now m.content_topic, e)
          (lookup-insert m.content_topic t
              (push_bounded (keep_last 100 (unread m.content_topic h)) m) c
            ∙ ground
                (arith, now t, eq_iff m.content_topic t, push_bounded-keep_last (unread t h) m))
    | inr e ↦
        rw (record_message, now m.content_topic, e)
          (ground (arith, now t, eq_iff m.content_topic t))
  ]

  drain-queue : (t s : Bytes) → lookup t (drain c s).1 ≡ queue_of t (drains s ∷ h)
  unfolding drain
  drain-queue t s = elim (Bool-cases (is_registered s h)) [
    | inl e ↦ rw (drain, now s, e) (lookup-insert s t [] c ∙ ground (arith, now t, eq_iff s t))
    | inr e ↦ rw (drain, now s, e) (ground (arith, now t, eq_iff s t))
  ]

-- What the cache has of a topic, after any history.
lookup-cache_after : (t : Bytes) (h : List CacheCall) → lookup t (cache_after h) ≡ queue_of t h
unfolding cache_after register record_message drain lookup
lookup-cache_after t [] = refl
lookup-cache_after t (registers s ∷ h) =
    register-queue (cache_after h) h (λ r. lookup-cache_after r h) t s
lookup-cache_after t (records m ∷ h) =
    record_message-queue (cache_after h) h (λ r. lookup-cache_after r h) t m
lookup-cache_after t (drains s ∷ h) =
    drain-queue (cache_after h) h (λ r. lookup-cache_after r h) t s

-- A poll returns, after any sequence of calls, the last hundred of the messages that were recorded of its
-- topic since the topic was registered and since it was polled last, in the order in which they came.
pub drain-cache_after :
    (t : Bytes) (h : List CacheCall)
    → (drain (cache_after h) t).0 ≡ keep_last cache_per_topic (unread t h)
unfolding drain
drain-cache_after t h = elim (Bool-cases (is_registered t h)) [
  | inl e ↦ rw (drain, lookup-cache_after t h, e) refl
  | inr e ↦ rw (drain, lookup-cache_after t h, e) (ground (arith, unread_unregistered t h e))
]
