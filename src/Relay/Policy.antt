-- ===== src/Relay/Policy.antt =====
-- The verdict of `validate` in terms of the facts.
use rs_waku.Prelude.{◌≡◌, ◌<◌, ◌^◌, ◌↔◌, ◌⊎◌, Bool, true, false, Option, some, none, arith}
use rs_waku.Prelude.Int.{ℤ, pos, magnitude, ◌≤ℤ◌}
use rs_waku.Relay.{
  Validation, RlnStatus, absent, valid, invalid, MessageFacts, ValidationPolicy, validate,
  check_rln, out_of_time, exceeds,
}

-- An `i64` other than the least, whose `abs` overflows.
abbrev pub HasAbs : ℤ → Type 0
HasAbs gap = magnitude gap < 2 ^ 63

abbrev pub Within : ℤ → ℤ → Type 0
Within tolerance gap = pos (magnitude gap) ≤ℤ tolerance

abbrev pub TimestampHasAbs : Option ℤ → Type 0
TimestampHasAbs none = Unit
TimestampHasAbs (some gap) = HasAbs gap

abbrev pub RlnHasAbs : RlnStatus → Type 0
RlnHasAbs (valid gap double_signaling) = HasAbs gap
RlnHasAbs _ = Unit

-- No timestamp, or one within the tolerance.
abbrev pub InTime : ℤ → Option ℤ → Type 0
InTime tolerance none = Unit
InTime tolerance (some gap) = Within tolerance gap

-- A valid, fresh, single proof, or none while the shard has headroom.
abbrev pub Passes : ℤ → Bool → RlnStatus → Type 0
Passes max_gap saturated absent = saturated ≡ false
Passes max_gap saturated invalid = ⊥
Passes max_gap saturated (valid gap double_signaling) =
    Within max_gap gap × (double_signaling ≡ false)

exceeds_iff :
    (gap tolerance : ℤ) → HasAbs gap → (exceeds gap tolerance ≡ false) ↔ Within tolerance gap
unfolding exceeds
exceeds_iff gap tolerance h = ground arith

out_of_time_iff :
    (t : Option ℤ) (tolerance : ℤ)
    → TimestampHasAbs t
    → (out_of_time t tolerance ≡ false) ↔ InTime tolerance t
unfolding out_of_time
out_of_time_iff none tolerance h = ground arith
out_of_time_iff (some gap) tolerance h = exceeds_iff gap tolerance h

check_rln_iff :
    (r : RlnStatus) (saturated : Bool) (max_gap : ℤ)
    → RlnHasAbs r
    → (check_rln r saturated max_gap ≡ Validation.accept) ↔ Passes max_gap saturated r
unfolding check_rln
check_rln_iff absent saturated max_gap h = ground arith
check_rln_iff invalid saturated max_gap h = ground arith
check_rln_iff (valid gap double_signaling) saturated max_gap h =
    ground (arith, exceeds_iff gap max_gap h)

check_rln_ignore :
    (r : RlnStatus) (saturated : Bool) (max_gap : ℤ)
    → (check_rln r saturated max_gap ≡ Validation.ignore) ↔ ((r ≡ absent) × (saturated ≡ true))
unfolding check_rln
check_rln_ignore absent saturated max_gap = ground arith
check_rln_ignore invalid saturated max_gap = ground arith
check_rln_ignore (valid gap double_signaling) saturated max_gap = ground arith

-- A message is accepted exactly when its timestamp, if it has one, deviates by at most the tolerance
-- in either direction, and, if RLN is enforced, it has a valid proof with an epoch gap within the
-- limit and no double signaling, or no proof on a shard that is not saturated. It is ignored exactly
-- when it is in time, RLN is enforced, it has no proof and the shard is saturated. The gaps are
-- taken above the least `i64`, whose absolute value overflows.
pub validate_iff :
    (facts : MessageFacts) (policy : ValidationPolicy)
    → TimestampHasAbs facts.timestamp_gap_secs
    → RlnHasAbs facts.rln
    → ((validate facts policy ≡ Validation.accept) ↔ (
        InTime policy.timestamp_tolerance_secs facts.timestamp_gap_secs
        × ((policy.enforce_rln ≡ false)
            ⊎ Passes policy.max_epoch_gap_secs facts.shard_saturated facts.rln)))
      × ((validate facts policy ≡ Validation.ignore) ↔ (
          InTime policy.timestamp_tolerance_secs facts.timestamp_gap_secs
          × (policy.enforce_rln ≡ true)
          × (facts.rln ≡ absent)
          × (facts.shard_saturated ≡ true)))
unfolding validate
validate_iff facts policy ht hr =
    let time = out_of_time_iff facts.timestamp_gap_secs policy.timestamp_tolerance_secs ht in
    let proof = check_rln_iff facts.rln facts.shard_saturated policy.max_epoch_gap_secs hr in
    let quiet = check_rln_ignore facts.rln facts.shard_saturated policy.max_epoch_gap_secs in
    (
      (λ e. ground (arith, time, proof), λ e. ground (arith, time, proof)),
      (λ e. ground (arith, time, quiet), λ e. ground (arith, time, quiet)),
    )
