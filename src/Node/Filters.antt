-- ===== src/Node/Filters.antt =====
-- crates/waku-node/src/runtime.rs and crates/waku-filter/src/lib.rs: the filter subscriptions of light
-- clients (12/WAKU2-FILTER), and whom a message is pushed to.
use mathlib.Core.Option
use rs_waku.Prelude.{
  ℕ, List, [], ◌∷◌, ◌++◌, map, Bool, true, ◌&&◌, ◌||◌, not, Option, none, some, if◌then◌else◌, any,
  filter, is_empty,
}
use rs_waku.Prelude.Bytes.{Bytes, codes}
use rs_waku.Prelude.Eq.{Eq, ◌==◌, nat_eq, list_eq, option_eq}
use rs_waku.Prelude.Int.{ℤ, pos, int_eq}
use rs_waku.Prelude.Assoc.{Assoc, lookup, insert, remove}

pub record FilterSub : Type 0 where
  pub pubsub_topic : Option Bytes
  pub content_topics : List Bytes

abbrev pub is_none_or : Option Bytes → Bytes → Bool
is_none_or none topic = true
is_none_or (some t) topic = t == topic

-- `FilterSub::matches`
unfoldable pub wants : Bytes → Bytes → FilterSub → Bool
wants topic content_topic s =
    is_none_or s.pubsub_topic topic
    && (is_empty s.content_topics || any (λ c. c == content_topic) s.content_topics)

pub record FilterSubscribeRequest : Type 0 where
  pub request_id : Bytes
  pub filter_subscribe_type : ℤ
  pub pubsub_topic : Option Bytes
  pub content_topics : List Bytes

pub record FilterSubscribeResponse : Type 0 where
  pub request_id : Bytes
  pub status_code : ℕ
  pub status_desc : Option Bytes

abbrev pub ping : ℤ
ping = pos 0

abbrev pub subscribe : ℤ
subscribe = pos 1

abbrev pub unsubscribe : ℤ
unsubscribe = pos 2

abbrev pub unsubscribe_all : ℤ
unsubscribe_all = pos 3

abbrev pub ok_response : Bytes → FilterSubscribeResponse
ok_response id = record { request_id = id; status_code = 200; status_desc = some (codes "OK") }

abbrev pub error_response : Bytes → ℕ → Bytes → FilterSubscribeResponse
error_response id code desc = record {
  request_id = id;
  status_code = code;
  status_desc = some desc;
}

abbrev pub sub_of : FilterSubscribeRequest → FilterSub
sub_of req = record { pubsub_topic = req.pubsub_topic; content_topics = req.content_topics }

-- `FilterRegistry`
abbrev pub Registry : Type 0 → Type 0
Registry Peer = Assoc Peer (List FilterSub)

module _ {Peer : Type 0} ⦃e : Eq Peer⦄ where
  -- The subscriptions of a peer.
  abbrev pub subs_of : Peer → Registry Peer → List FilterSub
  subs_of peer filters = Option.get_or (lookup peer filters) []

  unfoldable pub drop_sub : Registry Peer → Peer → FilterSubscribeRequest → Registry Peer
  drop_sub filters peer req = elim (lookup peer filters) [
    | none ↦ filters
    | some subs ↦
        insert peer
          (filter
            (λ (s : FilterSub).
              not (s.pubsub_topic == req.pubsub_topic)
              || not (s.content_topics == req.content_topics))
            subs)
          filters
  ]

  unfoldable pub apply_filter_request :
      Registry Peer → Peer → FilterSubscribeRequest → Registry Peer × FilterSubscribeResponse
  unfolding drop_sub
  apply_filter_request filters peer req =
      let kind = req.filter_subscribe_type in
      let done = ok_response req.request_id in
      if kind == subscribe
      then (insert peer (subs_of peer filters ++ sub_of req ∷ []) filters, done)
      else if kind == unsubscribe
      then (drop_sub filters peer req, done)
      else if kind == unsubscribe_all
      then (remove peer filters, done)
      else if kind == ping
      then (filters, done)
      else (filters, error_response req.request_id 400 (codes "unknown type"))

  -- The peers that `push_filter_matches` sends a message to.
  unfoldable pub push_targets : Registry Peer → Bytes → Bytes → List Peer
  unfolding wants
  push_targets filters topic content_topic =
      map (λ (entry : Peer × List FilterSub). entry.0)
        (filter (λ (entry : Peer × List FilterSub). any (wants topic content_topic) entry.1)
          filters)
