-- ===== src/Relay/Examples.antt =====
-- Validation at concrete facts.
use rs_waku.Prelude.{◌≡◌, ◌↔◌, ◌⊎◌, true, false, some, none, refl, arith}
use rs_waku.Prelude.Bytes.{codes}
use rs_waku.Prelude.Int.{pos, negsuc}
use rs_waku.Message.{WakuMessage, new}
use rs_waku.Relay.{
  Validation, RlnStatus, absent, valid, MessageFacts, ValidationPolicy, default_policy, validate,
  out_of_time, check_rln, exceeds,
}
use rs_waku.Relay.Policy.{InTime, Passes, validate_iff}

abbrev facts : RlnStatus → MessageFacts
facts rln = record { timestamp_gap_secs = none; rln = rln; shard_saturated = true }

abbrev enforcing : ValidationPolicy
enforcing = record default_policy { enforce_rln = true }

late :
    validate (record (facts absent) { timestamp_gap_secs = some (negsuc 24) }) default_policy
    ≡ Validation.reject
unfolding validate out_of_time exceeds
late = refl

saturated : validate (facts absent) enforcing ≡ Validation.ignore
unfolding validate out_of_time check_rln
saturated = refl

validate_iff_example :
    ((validate (facts (valid (pos 3) false)) enforcing ≡ Validation.accept)
      ↔ (InTime (pos 20) none × ((true ≡ false) ⊎ Passes (pos 20) true (valid (pos 3) false))))
    × ((validate (facts (valid (pos 3) false)) enforcing ≡ Validation.ignore)
        ↔ (InTime (pos 20) none × (true ≡ true) × (valid (pos 3) false ≡ absent) × (true ≡ true)))
validate_iff_example = validate_iff (facts (valid (pos 3) false)) enforcing tt (omega arith)

abbrev hello : WakuMessage
hello = new (codes "/toychat/2/huilong/proto") (codes "hello")
