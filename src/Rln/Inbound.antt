-- ===== src/Rln/Inbound.antt =====
-- What the validator accepts.
use rs_waku.Prelude.{
  ℕ, ◌≡◌, ◌≢◌, ◌↔◌, ◌⊎◌, ◌-◌, ◌<◌, refl, Bool, true, ◌&&◌, if◌then◌else◌, Bool-cases, inl, inr,
  arith,
}
use rs_waku.Prelude.Bytes.{Bytes}
use rs_waku.Prelude.Eq.{Eq, ◌==◌}
use rs_waku.Rln.{observe}
use rs_waku.Rln.Relay.{Zerokit, FullProof, external_nullifier, verify}
use rs_waku.Rln.Validator.{
  InboundVerdict, valid, invalid, is_double, RlnValidator, epoch_at, in_window, verify_inbound,
}

module _ {Fr Tree Secret Witness Groth : Type 0} ⦃e : Eq Fr⦄
    (z : Zerokit Fr Tree Secret Witness Groth) where
  -- The proof commits to the signal, verifies, and is of the current epoch or the one before it.
  abbrev pub is_accepted : RlnValidator Fr Tree → FullProof Fr Groth → Bytes → ℕ → Bool
  is_accepted v proof signal now =
      (proof.proof_values.x == z.hash_to_field_le signal)
      && verify z v.relay proof
      && in_window z v proof.proof_values.external_nullifier now

  abbrev pub seen_by :
      RlnValidator Fr Tree → FullProof Fr Groth → RlnValidator Fr Tree × InboundVerdict
  seen_by v proof =
      let (log, outcome) = observe z.fr_to_bytes_le z.compute_id_secret v.log proof.proof_values in
      (record v { log = log }, valid (is_double outcome))

  pub verdict_by_test :
      (v : RlnValidator Fr Tree) (proof : FullProof Fr Groth) (signal : Bytes) (now : ℕ)
      → verify_inbound z v proof signal now
        ≡ (if is_accepted v proof signal now then seen_by v proof else (v, invalid))
  unfolding verify_inbound
  verdict_by_test v proof signal now = ground arith

  -- An epoch that is accepted at a time.
  abbrev pub IsTimely : RlnValidator Fr Tree → Fr → ℕ → Type 0
  IsTimely v ext now =
      (ext ≡ external_nullifier z v.relay (epoch_at v now))
      ⊎ ((0 < epoch_at v now) × (ext ≡ external_nullifier z v.relay (epoch_at v now - 1)))

  in_window_iff :
      (v : RlnValidator Fr Tree) (ext : Fr) (now : ℕ)
      → (in_window z v ext now ≡ true) ↔ IsTimely v ext now
  unfolding in_window
  in_window_iff v ext now = ground (
    arith,
    e.beq_iff ext (external_nullifier z v.relay (epoch_at v now)),
    e.beq_iff ext (external_nullifier z v.relay (epoch_at v now - 1)),
  )

  pub is_accepted_iff :
      (v : RlnValidator Fr Tree) (proof : FullProof Fr Groth) (signal : Bytes) (now : ℕ)
      → (is_accepted v proof signal now ≡ true) ↔ (
          (proof.proof_values.x ≡ z.hash_to_field_le signal)
          × (verify z v.relay proof ≡ true)
          × IsTimely v proof.proof_values.external_nullifier now)
  is_accepted_iff v proof signal now = ground (
    arith,
    e.beq_iff proof.proof_values.x (z.hash_to_field_le signal),
    in_window_iff v proof.proof_values.external_nullifier now,
  )

  -- A proof is not refused exactly when its share is of the signal, it verifies against the membership
  -- root, and its epoch is the one of the time or the one before it; and the validator that refuses a
  -- proof is left as it was.
  pub verify_inbound_iff :
      (v : RlnValidator Fr Tree) (proof : FullProof Fr Groth) (signal : Bytes) (now : ℕ)
      → (((verify_inbound z v proof signal now).1 ≢ invalid) ↔ (
          (proof.proof_values.x ≡ z.hash_to_field_le signal)
          × (verify z v.relay proof ≡ true)
          × IsTimely v proof.proof_values.external_nullifier now))
        × ((verify_inbound z v proof signal now).1 ≡ invalid
            → (verify_inbound z v proof signal now).0 ≡ v)
  verify_inbound_iff v proof signal now =
      rw (verdict_by_test v proof signal now) (elim (Bool-cases (is_accepted v proof signal now)) [
        | inl a ↦ rw a (((λ n. (is_accepted_iff v proof signal now).0 a), λ h. λ q. cc), λ q. cc)
        | inr r ↦ rw r (
          (
            (λ n. absurd (n refl)),
            λ h. absurd (ground (arith, r, is_accepted_iff v proof signal now)),
          ),
          λ q. refl,
        )
      ])
