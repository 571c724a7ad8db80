-- ===== src/Node/Timely.antt =====
-- Which relay messages the node accepts.
use rs_waku.Prelude.{
  ◌^◌, ◌<◌, ◌≡◌, ap, ◌∙◌, ◌↔◌, ◌⊎◌, [], ◌∷◌, ◌++◌, Bool, true, false, ◌&&◌, not, if◌then◌else◌, eqb,
  length, Option, none, some, arith, inl, inr,
}
use rs_waku.Prelude.Bytes.{Bytes}
use rs_waku.Prelude.Eq.{Eq}
use rs_waku.Prelude.Int.{ℤ, pos, magnitude, ◌-ℤ◌, wrapping_sub, div_trunc}
use rs_waku.Prelude.Outcome.{ok}
use rs_waku.Shard.{ShardId, parse}
use rs_waku.Message.{WakuMessage}
use rs_waku.Relay.{Validation, MessageAcceptance, acceptance, validate, out_of_time, exceeds}
use rs_waku.Hash.{deterministic_hash}
use rs_waku.Node.Filters.{Registry, push_targets}
use rs_waku.Node.Inbound.{
  store_put, filter_push, deliver, is_ephemeral, gap_secs, verdict_on, accepted, on_decoded,
  on_relay_message,
}

-- Times for which nothing overflows: the years from 1823 to 2116.
abbrev pub IsTime : ℤ → Type 0
IsTime t = magnitude t < 2 ^ 62

abbrev pub HasTime : Option ℤ → Type 0
HasTime none = Unit
HasTime (some ts) = IsTime ts

-- No timestamp, or one less than 21 seconds from the clock, in either direction.
abbrev pub IsTimely : ℤ → Option ℤ → Type 0
IsTimely now none = Unit
IsTimely now (some ts) = magnitude (now -ℤ ts) < 21000000000

no_wrap : (now ts : ℤ) → IsTime now → IsTime ts → wrapping_sub now ts ≡ now -ℤ ts
unfolding wrapping_sub ◌-ℤ◌
no_wrap now ts h k = ground arith

short_gap :
    (d : ℤ)
    → magnitude d < 2 ^ 63
    → (exceeds (div_trunc d 1000000000) (pos 20) ≡ false) ↔ (magnitude d < 21000000000)
unfolding exceeds div_trunc
short_gap d h = ground arith

difference_fits : (now ts : ℤ) → IsTime now → IsTime ts → magnitude (now -ℤ ts) < 2 ^ 63
unfolding ◌-ℤ◌
difference_fits now ts h k = ground arith

in_time_iff :
    (now : ℤ) (t : Option ℤ)
    → IsTime now
    → HasTime t
    → (out_of_time (gap_secs now t) (pos 20) ≡ false) ↔ IsTimely now t
unfolding out_of_time gap_secs
in_time_iff now none h k = ground arith
in_time_iff now (some ts) h k =
    rw (no_wrap now ts h k) (short_gap (now -ℤ ts) (difference_fits now ts h k))

verdict_lem :
    (now : ℤ) (msg : WakuMessage)
    → IsTime now
    → HasTime msg.timestamp
    → ((verdict_on now msg ≡ Validation.accept) ↔ IsTimely now msg.timestamp)
      × ((verdict_on now msg ≡ Validation.accept) ⊎ (verdict_on now msg ≡ Validation.reject))
unfolding verdict_on validate
verdict_lem now msg h k =
    let timely = in_time_iff now msg.timestamp h k in
    ((λ v. ground (arith, timely, v), λ v. ground (arith, timely, v)), ground arith)

abbrev outcome : {A : Type 0} → Validation → A → A → A × MessageAcceptance
outcome v a b = (elim v [ Validation.accept ↦ a | _ ↦ b ], acceptance v)

by_verdict :
    {A : Type 0} (v : Validation) (a b : A)
    → (v ≡ Validation.accept) ⊎ (v ≡ Validation.reject)
    → ((outcome v a b ≡ outcome Validation.accept a b) × (v ≡ Validation.accept))
      ⊎ ((outcome v a b ≡ outcome Validation.reject a b) × (v ≡ Validation.reject))
by_verdict v a b (inl e) = inl (ap (λ w. outcome w a b) e, e)
by_verdict v a b (inr e) = inr (ap (λ w. outcome w a b) e, e)

module _ {Peer : Type 0} ⦃e : Eq Peer⦄ (sha256 : Bytes → Bytes)
    (try_decode : Bytes → Option WakuMessage) where
  -- A message is accepted or rejected by its time.
  pub on_relay_message-cases :
      (has_store : Bool) (filters : Registry Peer) (now rx_time : ℤ) (topic bytes id : Bytes)
      (shard : ShardId) (msg : WakuMessage)
      → parse topic ≡ ok shard
      → try_decode bytes ≡ some msg
      → IsTime now
      → HasTime msg.timestamp
      → ((on_relay_message sha256 try_decode has_store filters now rx_time topic bytes id ≡ (
        accepted sha256 try_decode has_store filters rx_time shard topic msg id,
        MessageAcceptance.accept,
      ))
          × IsTimely now msg.timestamp)
        ⊎ ((on_relay_message sha256 try_decode has_store filters now rx_time topic bytes id
              ≡ ([], MessageAcceptance.reject))
            × (IsTimely now msg.timestamp → ⊥))
  unfolding on_relay_message on_decoded acceptance
  on_relay_message-cases has_store filters now rx_time topic bytes id shard msg p d h k =
      let v = verdict_lem now msg h k in
      rw (on_relay_message, p, d)
        (elim (by_verdict (verdict_on now msg)
          (accepted sha256 try_decode has_store filters rx_time shard topic msg id) [] v.1) [
            | inl (r, a) ↦ inl (r, v.0.0 a)
            | inr (r, a) ↦ inr (r, λ t. cc (v.0.1 t, a))
          ])

  -- A message on a shard's topic that decodes is accepted exactly if it has no timestamp or one less than 21
  -- seconds from the clock in either direction. It is then put into the store, if the node has one and the
  -- message is not ephemeral, pushed to the peers whose filters match it, and delivered to the application
  -- under gossipsub's id, if that has 32 bytes, and else under its hash. Otherwise it is rejected and nothing
  -- is done with it. The times are within 2^62 nanoseconds of 1970.
  pub on_relay_message_iff :
      (has_store : Bool) (filters : Registry Peer) (now rx_time : ℤ) (topic bytes id : Bytes)
      (shard : ShardId) (msg : WakuMessage)
      → parse topic ≡ ok shard
      → try_decode bytes ≡ some msg
      → IsTime now
      → HasTime msg.timestamp
      → ((on_relay_message sha256 try_decode has_store filters now rx_time topic bytes id ≡ (
        (if has_store && not (is_ephemeral msg.ephemeral)
              then store_put topic msg rx_time ∷ []
              else [])
            ++ filter_push (push_targets filters topic msg.content_topic) topic msg
              ∷ deliver shard msg
                  (if eqb (length id) 32 then id else deterministic_hash sha256 topic msg)
              ∷ [],
        MessageAcceptance.accept,
      ))
          × IsTimely now msg.timestamp)
        ⊎ ((on_relay_message sha256 try_decode has_store filters now rx_time topic bytes id
              ≡ ([], MessageAcceptance.reject))
            × (IsTimely now msg.timestamp → ⊥))
  unfolding accepted
  on_relay_message_iff has_store filters now rx_time topic bytes id shard msg p d h k =
      elim (on_relay_message-cases has_store filters now rx_time topic bytes id shard msg p d h k) [
        | inr late ↦ inr late
        | inl (r, t) ↦ inl (r ∙ ap (λ l. (l, MessageAcceptance.accept)) (same has_store), t)
      ]
    where
      same :
          (b : Bool)
          → accepted sha256 try_decode b filters rx_time shard topic msg id ≡ (
              (if b && not (is_ephemeral msg.ephemeral)
                then store_put topic msg rx_time ∷ []
                else [])
              ++ filter_push (push_targets filters topic msg.content_topic) topic msg
                ∷ deliver shard msg
                    (if eqb (length id) 32 then id else deterministic_hash sha256 topic msg)
                ∷ [])
      same true = ground arith
      same false = ground arith
