-- ===== src/Rln/Validator.antt =====
-- `RlnValidator` of crates/waku-rln/src/lib.rs: the verdict on an inbound proof.
use rs_waku.Prelude.{ℕ, ◌-◌, ◌/◌, [], Bool, true, false, ◌&&◌, ◌||◌, not, if◌then◌else◌, ltb, max}
use rs_waku.Prelude.Bytes.{Bytes}
use rs_waku.Prelude.Eq.{Eq, ◌==◌}
use rs_waku.Prelude.Outcome.{Result, ok, err}
use rs_waku.Rln.{NullifierOutcome, original, duplicate, double_signaling, NullifierLog, observe}
use rs_waku.Rln.Relay
use rs_waku.Rln.Relay.{Zerokit, FullProof, RlnIdentity, RlnRelay, external_nullifier, verify}

pub data InboundVerdict : Type 0 where
  valid : Bool → InboundVerdict
  invalid : InboundVerdict

pub record RlnValidator (Fr Tree : Type 0) : Type 0 where
  pub relay : RlnRelay Fr Tree
  pub log : NullifierLog Fr
  pub epoch_size_secs : ℕ

-- `RlnValidator::new`
abbrev pub new_validator : {Fr Tree : Type 0} → RlnRelay Fr Tree → ℕ → RlnValidator Fr Tree
new_validator relay size = record {
  relay = relay;
  log = record { seen = [] };
  epoch_size_secs = max size 1;
}

-- `matches!(outcome, Ok(DoubleSignaling { .. }))`
abbrev pub is_double : {Fr E : Type 0} → Result E (NullifierOutcome Fr) → Bool
is_double (ok (double_signaling s)) = true
is_double (ok original) = false
is_double (ok duplicate) = false
is_double (err e) = false

unfoldable pub epoch_at : {Fr Tree : Type 0} → RlnValidator Fr Tree → ℕ → ℕ
epoch_at v now_secs = now_secs / v.epoch_size_secs

module _ {Fr Tree Secret Witness Groth : Type 0} ⦃e : Eq Fr⦄
    (z : Zerokit Fr Tree Secret Witness Groth) where
  -- `register`
  unfoldable pub register_member :
      RlnValidator Fr Tree → RlnIdentity Fr Secret → RlnValidator Fr Tree × Result Bytes ℕ
  register_member v identity =
      let (relay, result) = Relay.register z v.relay identity in
      (record v { relay = relay }, result)

  -- The current epoch or the one before it.
  unfoldable pub in_window : RlnValidator Fr Tree → Fr → ℕ → Bool
  unfolding epoch_at
  in_window v ext now_secs =
      let current = epoch_at v now_secs in
      (ext == external_nullifier z v.relay current)
      || (ltb 0 current && (ext == external_nullifier z v.relay (current - 1)))

  unfoldable pub verify_inbound :
      RlnValidator Fr Tree → FullProof Fr Groth → Bytes → ℕ → RlnValidator Fr Tree × InboundVerdict
  unfolding in_window
  verify_inbound v proof signal now_secs =
      if not (proof.proof_values.x == z.hash_to_field_le signal)
      then (v, invalid)
      else if not (verify z v.relay proof)
      then (v, invalid)
      else if not (in_window v proof.proof_values.external_nullifier now_secs)
      then (v, invalid)
      else let (log, outcome) =
          observe z.fr_to_bytes_le z.compute_id_secret v.log proof.proof_values in
        (record v { log = log }, valid (is_double outcome))
