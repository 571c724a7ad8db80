-- ===== src/Relay.antt =====
-- crates/waku-relay/src: the gossipsub message id, and the validation policy of 64/WAKU2-NETWORK.
-- SHA-256 and the protobuf encoding are parameters; the gossipsub configuration is a value that only
-- libp2p reads and is left out.
pub mod Policy
pub mod MessageId
mod Examples
use rs_waku.Preset.{rln_max_epoch_gap_secs}
use rs_waku.Preset
use rs_waku.Prelude.{ℕ, ◌*◌, Bool, true, false, ◌||◌, Option, some, none, if◌then◌else◌}
use rs_waku.Prelude.Bytes.{Bytes}
use rs_waku.Prelude.Int.{ℤ, pos, ltb_ℤ, wrapping_abs}
use rs_waku.Message.{WakuMessage}
use rs_waku.Hash.{deterministic_hash}
use rs_waku.Shard.{ShardId, pubsub_topic}

-- `MessageId` of `WakuMessage::decode` of the data, on a topic.
unfoldable pub waku_message_id :
    (Bytes → Bytes) → (Bytes → Option WakuMessage) → Bytes → Bytes → Bytes
waku_message_id sha256 decode topic payload = elim (decode payload) [
  | some msg ↦ deterministic_hash sha256 topic msg
  | none ↦ sha256 payload
]

-- The topic's hash is its text (`IdentTopic`).
abbrev pub shard_topic : ShardId → Bytes
shard_topic shard = pubsub_topic shard

pub data Validation : Type 0 where
  accept reject ignore : Validation

pub data MessageAcceptance : Type 0 where
  accept reject ignore : MessageAcceptance

unfoldable pub acceptance : Validation → MessageAcceptance
acceptance Validation.accept = MessageAcceptance.accept
acceptance Validation.reject = MessageAcceptance.reject
acceptance Validation.ignore = MessageAcceptance.ignore

-- `valid` carries the epoch gap in seconds and whether the nullifier shows double signaling.
pub data RlnStatus : Type 0 where
  absent : RlnStatus
  valid : ℤ → Bool → RlnStatus
  invalid : RlnStatus

pub record MessageFacts : Type 0 where
  pub timestamp_gap_secs : Option ℤ
  pub rln : RlnStatus
  pub shard_saturated : Bool

pub record ValidationPolicy : Type 0 where
  pub enforce_rln : Bool
  pub timestamp_tolerance_secs : ℤ
  pub max_epoch_gap_secs : ℤ

abbrev pub default_policy : ValidationPolicy
default_policy = record {
  enforce_rln = false;
  timestamp_tolerance_secs = Preset.timestamp_tolerance_secs;
  max_epoch_gap_secs = pos rln_max_epoch_gap_secs;
}

-- `gap.abs() > tolerance`
unfoldable pub exceeds : ℤ → ℤ → Bool
unfolding wrapping_abs
exceeds gap tolerance = ltb_ℤ tolerance (wrapping_abs gap)

unfoldable pub out_of_time : Option ℤ → ℤ → Bool
out_of_time none tolerance = false
out_of_time (some gap) tolerance = exceeds gap tolerance

unfoldable pub check_rln : RlnStatus → Bool → ℤ → Validation
check_rln absent saturated max_gap = if saturated then Validation.ignore else Validation.accept
check_rln invalid saturated max_gap = Validation.reject
check_rln (valid gap double_signaling) saturated max_gap =
    if exceeds gap max_gap || double_signaling then Validation.reject else Validation.accept

unfoldable pub validate : MessageFacts → ValidationPolicy → Validation
validate facts policy =
    if out_of_time facts.timestamp_gap_secs policy.timestamp_tolerance_secs
    then Validation.reject
    else if policy.enforce_rln
    then check_rln facts.rln facts.shard_saturated policy.max_epoch_gap_secs
    else Validation.accept
