-- ===== src/Node/Pushes.antt =====
-- Whom `push_filter_matches` sends a message to, after any filter requests.
use mathlib.Core.Option
use rs_waku.Prelude.{
  ◌≡◌, refl, sym, ◌∙◌, List, [], ◌∷◌, ◌++◌, Bool, true, false, ◌||◌, not, Option, none, some,
  if◌then◌else◌, any, filter, arith, Bool-cases, Option-cases, inl, inr,
}
use rs_waku.Prelude.Bytes.{Bytes}
use rs_waku.Prelude.Eq.{Eq, ◌==◌, nat_eq, list_eq, option_eq, contains}
use rs_waku.Prelude.Int.{ℤ, int_eq}
use rs_waku.Prelude.Keys.{IsAbsent, HasUniqueKeys, insert-HasUniqueKeys, remove-HasUniqueKeys}
use rs_waku.Prelude.Assoc.{lookup, insert, remove, lookup-insert, lookup-remove}
use rs_waku.Node.Filters.{
  FilterSub, FilterSubscribeRequest, FilterSubscribeResponse, Registry, wants, sub_of, subs_of,
  subscribe, unsubscribe, unsubscribe_all, ping, drop_sub, apply_filter_request, push_targets,
}

any-append :
    (p : FilterSub → Bool) (xs : List FilterSub) (s : FilterSub)
    → any p (xs ++ s ∷ []) ≡ (any p xs || p s)
any-append p [] s = ground arith
any-append p (x ∷ xs) s = ground (arith, any-append p xs s)

abbrev differs : FilterSubscribeRequest → FilterSub → Bool
differs req s =
    not (s.pubsub_topic == req.pubsub_topic) || not (s.content_topics == req.content_topics)

-- What one peer's subscriptions become by its own request.
unfoldable pub after : FilterSubscribeRequest → List FilterSub → List FilterSub
after req subs =
    if req.filter_subscribe_type == subscribe
    then subs ++ sub_of req ∷ []
    else if req.filter_subscribe_type == unsubscribe
    then filter (differs req) subs
    else if req.filter_subscribe_type == unsubscribe_all
    then []
    else subs

get_or-if :
    (b : Bool) (v : List FilterSub) (o : Option (List FilterSub))
    → Option.get_or (if b then some v else o) [] ≡ (if b then v else Option.get_or o [])
get_or-if true v o = refl
get_or-if false v o = refl

module _ {Peer : Type 0} ⦃e : Eq Peer⦄ where
  subs_of-insert :
      (peer p : Peer) (v : List FilterSub) (filters : Registry Peer)
      → subs_of p (insert peer v filters) ≡ (if peer == p then v else subs_of p filters)
  subs_of-insert peer p v filters =
      rw (lookup-insert peer p v filters) (get_or-if (peer == p) v (lookup p filters))

  if_same :
      (peer p : Peer) (filters : Registry Peer)
      → subs_of p filters ≡ (if peer == p then subs_of peer filters else subs_of p filters)
  if_same peer p filters = ground (arith, e.beq_iff peer p)

  subs_of-remove :
      (peer p : Peer) (filters : Registry Peer)
      → subs_of p (remove peer filters) ≡ (if peer == p then [] else subs_of p filters)
  subs_of-remove peer p filters =
      rw (lookup-remove peer p filters) (none_if (peer == p) (lookup p filters))
    where
      none_if :
          (b : Bool) (o : Option (List FilterSub))
          → Option.get_or (if b then none else o) [] ≡ (if b then [] else Option.get_or o [])
      none_if true o = refl
      none_if false o = refl

  subs_of-drop_sub :
      (peer p : Peer) (req : FilterSubscribeRequest) (filters : Registry Peer)
      → subs_of p (drop_sub filters peer req)
        ≡ (if peer == p then filter (differs req) (subs_of peer filters) else subs_of p filters)
  unfolding drop_sub
  subs_of-drop_sub peer p req filters = elim (Option-cases (lookup peer filters)) [
    | inl n ↦ ground (arith, n, e.beq_iff peer p)
    | inr (subs, s) ↦ rw (drop_sub, s) (subs_of-insert peer p (filter (differs req) subs) filters)
  ]

  subs_of-apply :
      (filters : Registry Peer) (peer p : Peer) (req : FilterSubscribeRequest)
      → subs_of p (apply_filter_request filters peer req).0
        ≡ (if peer == p then after req (subs_of peer filters) else subs_of p filters)
  unfolding apply_filter_request after
  subs_of-apply filters peer p req = ground (
    arith,
    subs_of-insert peer p (subs_of peer filters ++ sub_of req ∷ []) filters,
    subs_of-remove peer p filters,
    subs_of-drop_sub peer p req filters,
    if_same peer p filters,
  )

  drop_sub-HasUniqueKeys :
      (peer : Peer) (req : FilterSubscribeRequest) (filters : Registry Peer)
      → HasUniqueKeys filters
      → HasUniqueKeys (drop_sub filters peer req)
  unfolding drop_sub
  drop_sub-HasUniqueKeys peer req filters h = elim (Option-cases (lookup peer filters)) [
    | inl n ↦ rw (drop_sub, n) h
    | inr (subs, s) ↦
        rw (drop_sub, s) (insert-HasUniqueKeys peer (filter (differs req) subs) filters h)
  ]

  if_unique :
      (b : Bool) (x y : Registry Peer × FilterSubscribeResponse)
      → HasUniqueKeys x.0
      → HasUniqueKeys y.0
      → HasUniqueKeys (if b then x else y).0
  if_unique true x y h k = h
  if_unique false x y h k = k

  apply-HasUniqueKeys :
      (filters : Registry Peer) (peer : Peer) (req : FilterSubscribeRequest)
      → HasUniqueKeys filters
      → HasUniqueKeys (apply_filter_request filters peer req).0
  unfolding apply_filter_request
  apply-HasUniqueKeys filters peer req h =
      if_unique (kind == subscribe) _ _
        (insert-HasUniqueKeys peer (subs_of peer filters ++ sub_of req ∷ []) filters h)
        (if_unique (kind == unsubscribe) _ _ dropped (
          if_unique (kind == unsubscribe_all) _ _ (remove-HasUniqueKeys peer filters h)
            (if_unique (kind == ping) _ _ h h)))
    where
      kind : ℤ
      kind = req.filter_subscribe_type

      dropped : HasUniqueKeys (drop_sub filters peer req)
      dropped = drop_sub-HasUniqueKeys peer req filters h

  not_target :
      (p : Peer) (filters : Registry Peer) (topic content_topic : Bytes)
      → IsAbsent p filters
      → contains (push_targets filters topic content_topic) p ≡ false
  unfolding push_targets
  not_target p [] topic content_topic h = refl
  not_target p ((j, subs) ∷ rest) topic content_topic h =
      ground (arith, not_target p rest topic content_topic h.1, h.0)

  -- A message goes to the peers that have a subscription that it matches.
  pub push_targets-contains :
      (filters : Registry Peer) (p : Peer) (topic content_topic : Bytes)
      → HasUniqueKeys filters
      → contains (push_targets filters topic content_topic) p
        ≡ any (wants topic content_topic) (subs_of p filters)
  unfolding push_targets lookup
  push_targets-contains [] p topic content_topic h = refl
  push_targets-contains ((j, subs) ∷ rest) p topic content_topic h = elim (Bool-cases (j == p)) [
    | inl k ↦
        ground
          (arith, k, not_target p rest topic content_topic (rw (sym ((e.beq_iff j p).0 k)) h.0))
    | inr k ↦ ground (arith, k, push_targets-contains rest p topic content_topic h.1)
  ]

  -- Over any filter request a registry without double entries stays one, and a message is pushed to the
  -- requesting peer exactly if one of the subscriptions it is left with matches, and to every other
  -- peer exactly as before.
  pub push_targets-apply_filter_request :
      (filters : Registry Peer) (peer p : Peer) (req : FilterSubscribeRequest)
      (topic content_topic : Bytes)
      → HasUniqueKeys filters
      → HasUniqueKeys (apply_filter_request filters peer req).0
        × (contains (push_targets (apply_filter_request filters peer req).0 topic content_topic) p
            ≡ (if peer == p
                then any (wants topic content_topic) (after req (subs_of peer filters))
                else contains (push_targets filters topic content_topic) p))
  push_targets-apply_filter_request filters peer p req topic content_topic h =
      let next = (apply_filter_request filters peer req).0 in
      let unique = apply-HasUniqueKeys filters peer req h in
      (
        unique,
        push_targets-contains next p topic content_topic unique
            ∙ rw
                (
                  subs_of-apply filters peer p req,
                  push_targets-contains filters p topic content_topic h,
                )
                (any_if (peer == p) (after req (subs_of peer filters)) (subs_of p filters)),
      )
    where
      any_if :
          (b : Bool) (xs ys : List FilterSub)
          → any (wants topic content_topic) (if b then xs else ys)
            ≡ (if b then any (wants topic content_topic) xs else any (wants topic content_topic) ys)
      any_if true xs ys = refl
      any_if false xs ys = refl

  -- After a peer subscribes it is pushed the messages that it was pushed before and those that the new
  -- filter matches. The registry has no double entries.
  pub push_targets-subscribe :
      (filters : Registry Peer) (peer : Peer) (req : FilterSubscribeRequest)
      (topic content_topic : Bytes)
      → HasUniqueKeys filters
      → req.filter_subscribe_type ≡ subscribe
      → contains (push_targets (apply_filter_request filters peer req).0 topic content_topic) peer
        ≡ (contains (push_targets filters topic content_topic) peer
            || wants topic content_topic (sub_of req))
  unfolding after
  push_targets-subscribe filters peer req topic content_topic h k =
      (push_targets-apply_filter_request filters peer peer req topic content_topic h).1
      ∙ rw ((e.beq_iff peer peer).1 refl) (
          rw (k, push_targets-contains filters peer topic content_topic h)
            (any-append (wants topic content_topic) (subs_of peer filters) (sub_of req)))
