-- ===== src/Node/Inbound.antt =====
-- crates/waku-node/src/runtime.rs: what `handle_event` does with a relay message: the verdict that
-- gossipsub gets, and what becomes of a message that is accepted. The SHA-256, the protobuf decoding and
-- the clock are parameters.
use mathlib.Core.Option
use rs_waku.Prelude.{
  List, [], ◌∷◌, ◌++◌, Bool, false, Option, none, some, if◌then◌else◌, eqb, length,
}
use rs_waku.Prelude.Bytes.{Bytes}
use rs_waku.Prelude.Eq.{Eq}
use rs_waku.Prelude.Int.{ℤ, wrapping_sub, div_trunc}
use rs_waku.Prelude.Outcome.{ok, err}
use rs_waku.Shard.{ShardId, parse}
use rs_waku.Message.{WakuMessage}
use rs_waku.Hash.{deterministic_hash}
use rs_waku.Relay.{Validation, MessageAcceptance, acceptance, absent, default_policy, validate}
use rs_waku.Node.Filters.{Registry, push_targets}

-- What the handler does besides its report.
pub data RelayAction (Peer : Type 0) : Type 0 where
  store_put : Bytes → WakuMessage → ℤ → RelayAction Peer
  filter_push : List Peer → Bytes → WakuMessage → RelayAction Peer
  deliver : ShardId → WakuMessage → Bytes → RelayAction Peer

-- `timestamp_gap_secs`
unfoldable pub gap_secs : ℤ → Option ℤ → Option ℤ
unfolding wrapping_sub div_trunc
gap_secs now timestamp = Option.map (λ ts. div_trunc (wrapping_sub now ts) 1000000000) timestamp

unfoldable pub verdict_on : ℤ → WakuMessage → Validation
unfolding gap_secs validate
verdict_on now msg =
    validate
      (record {
        timestamp_gap_secs = gap_secs now msg.timestamp;
        rln = absent;
        shard_saturated = false;
      })
      default_policy

abbrev pub is_ephemeral : Option Bool → Bool
is_ephemeral none = false
is_ephemeral (some b) = b

module _ {Peer : Type 0} ⦃e : Eq Peer⦄ (sha256 : Bytes → Bytes)
    (try_decode : Bytes → Option WakuMessage) where
  unfoldable pub accepted :
      Bool → Registry Peer → ℤ → ShardId → Bytes → WakuMessage → Bytes → List (RelayAction Peer)
  accepted has_store filters rx_time shard topic msg message_id =
      (if has_store
        then (if is_ephemeral msg.ephemeral then [] else store_put topic msg rx_time ∷ [])
        else [])
      ++ filter_push (push_targets filters topic msg.content_topic) topic msg
        ∷ deliver shard msg
            (if eqb (length message_id) 32 then message_id else deterministic_hash sha256 topic msg)
        ∷ []

  unfoldable pub on_decoded :
      Bool
      → Registry Peer
      → ℤ
      → ℤ
      → ShardId
      → Bytes
      → WakuMessage
      → Bytes
      → List (RelayAction Peer) × MessageAcceptance
  unfolding accepted acceptance verdict_on
  on_decoded has_store filters now rx_time shard topic msg message_id =
      let verdict = verdict_on now msg in
      (
        elim verdict [
          | Validation.accept ↦ accepted has_store filters rx_time shard topic msg message_id
          | _ ↦ []
        ],
        acceptance verdict,
      )

  unfoldable pub on_relay_message :
      Bool
      → Registry Peer
      → ℤ
      → ℤ
      → Bytes
      → Bytes
      → Bytes
      → List (RelayAction Peer) × MessageAcceptance
  unfolding on_decoded acceptance
  on_relay_message has_store filters now rx_time topic bytes message_id = elim (parse topic) [
    | err x ↦ ([], acceptance Validation.reject)
    | ok shard ↦ elim (try_decode bytes) [
      | none ↦ ([], acceptance Validation.reject)
      | some msg ↦ on_decoded has_store filters now rx_time shard topic msg message_id
    ]
  ]
