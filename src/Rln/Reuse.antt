-- ===== src/Rln/Reuse.antt =====
-- What the validator says of a nullifier that is used again.
use rs_waku.Prelude.{
  ℕ, ◌≡◌, ◌≢◌, refl, ap, sym, ◌∙◌, List, [], ◌∷◌, Bool, true, false, none, some, if◌then◌else◌,
  Bool-cases, inl, inr, arith,
}
use rs_waku.Prelude.Bytes.{Bytes}
use rs_waku.Prelude.Eq.{Eq, ◌==◌, eq_refl}
use rs_waku.Prelude.Outcome.{ok}
use rs_waku.Rln.{RlnProof, NullifierLog, observe}
use rs_waku.Rln.Signaling.{share_of, share_of-observe, first_original, second_classified}
use rs_waku.Rln.Relay.{Zerokit, FullProof}
use rs_waku.Rln.Validator.{valid, invalid, is_double, RlnValidator, verify_inbound}
use rs_waku.Rln.Inbound.{is_accepted, seen_by, verdict_by_test, is_accepted_iff, verify_inbound_iff}

if_same : {A : Type 0} (b : Bool) (x : A) → (if b then x else x) ≡ x
if_same true x = refl
if_same false x = refl

module _ {Fr Tree Secret Witness Groth : Type 0} ⦃e : Eq Fr⦄
    (z : Zerokit Fr Tree Secret Witness Groth) where
  share_kept :
      (v : RlnValidator Fr Tree) (proof : FullProof Fr Groth) (signal : Bytes) (now : ℕ)
      (epoch key : Bytes) (share : Fr × Fr)
      → share_of epoch key v.log ≡ some share
      → share_of epoch key (verify_inbound z v proof signal now).0.log ≡ some share
  share_kept v proof signal now epoch key share h =
      rw (verdict_by_test z v proof signal now)
        (elim (Bool-cases (is_accepted z v proof signal now)) [
          | inl a ↦ rw a (
              share_of-observe z.fr_to_bytes_le z.compute_id_secret v.log proof.proof_values epoch
                key
              ∙ rw h (if_same _ (some share)))
          | inr r ↦ rw r h
        ])

  -- The validator after the proofs of a list, each with its signal and its time.
  abbrev pub inbound_all :
      RlnValidator Fr Tree → List (FullProof Fr Groth × Bytes × ℕ) → RlnValidator Fr Tree
  inbound_all v [] = v
  inbound_all v ((proof, signal, now) ∷ rest) =
      inbound_all (verify_inbound z v proof signal now).0 rest

  share_kept_all :
      (v : RlnValidator Fr Tree) (items : List (FullProof Fr Groth × Bytes × ℕ)) (epoch key : Bytes)
      (share : Fr × Fr)
      → share_of epoch key v.log ≡ some share
      → share_of epoch key (inbound_all v items).log ≡ some share
  share_kept_all v [] epoch key share h = h
  share_kept_all v ((proof, signal, now) ∷ rest) epoch key share h =
      share_kept_all (verify_inbound z v proof signal now).0 rest epoch key share
        (share_kept v proof signal now epoch key share h)

  -- What is not refused has been observed, and its share is of its signal.
  not_refused :
      (v : RlnValidator Fr Tree) (proof : FullProof Fr Groth) (signal : Bytes) (now : ℕ)
      → (verify_inbound z v proof signal now).1 ≢ invalid
      → (verify_inbound z v proof signal now ≡ seen_by z v proof)
        × (proof.proof_values.x ≡ z.hash_to_field_le signal)
  not_refused v proof signal now n =
      let facts = (verify_inbound_iff z v proof signal now).0.0 n in
      (
        verdict_by_test z v proof signal now
            ∙ rw ((is_accepted_iff z v proof signal now).1 facts) refl,
        facts.0,
      )

  first_valid :
      (v : RlnValidator Fr Tree) (first : FullProof Fr Groth) (signal : Bytes) (now : ℕ)
      → share_of
          (z.fr_to_bytes_le first.proof_values.external_nullifier)
          (z.fr_to_bytes_le first.proof_values.nullifier)
          v.log
        ≡ none
      → (verify_inbound z v first signal now).1 ≢ invalid
      → (verify_inbound z v first signal now).1 ≡ valid false
  first_valid v first signal now unseen taken =
      rw
        (
          (not_refused v first signal now taken).0,
          first_original z.fr_to_bytes_le z.compute_id_secret v.log first.proof_values unseen,
        )
        refl

  first_share :
      (v : RlnValidator Fr Tree) (first : FullProof Fr Groth) (signal : Bytes) (now : ℕ)
      → share_of
          (z.fr_to_bytes_le first.proof_values.external_nullifier)
          (z.fr_to_bytes_le first.proof_values.nullifier)
          v.log
        ≡ none
      → (verify_inbound z v first signal now).1 ≢ invalid
      → share_of
          (z.fr_to_bytes_le first.proof_values.external_nullifier)
          (z.fr_to_bytes_le first.proof_values.nullifier)
          (verify_inbound z v first signal now).0.log
        ≡ some (first.proof_values.x, first.proof_values.y)
  first_share v first signal now unseen taken = rw ((not_refused v first signal now taken).0) (
      share_of-observe z.fr_to_bytes_le z.compute_id_secret v.log first.proof_values
        (z.fr_to_bytes_le first.proof_values.external_nullifier)
        (z.fr_to_bytes_le first.proof_values.nullifier)
      ∙ rw
          (
            eq_refl (z.fr_to_bytes_le first.proof_values.external_nullifier),
            eq_refl (z.fr_to_bytes_le first.proof_values.nullifier),
            unseen,
          )
          refl)

  second_double :
      (log : NullifierLog Fr) (first second : RlnProof Fr) (s : Fr)
      → z.compute_id_secret (first.x, first.y) (second.x, second.y) ≡ ok s
      → share_of (z.fr_to_bytes_le first.external_nullifier) (z.fr_to_bytes_le first.nullifier) log
        ≡ some (first.x, first.y)
      → second.external_nullifier ≡ first.external_nullifier
      → second.nullifier ≡ first.nullifier
      → first.x ≢ second.x
      → is_double (observe z.fr_to_bytes_le z.compute_id_secret log second).1 ≡ true
  second_double log first second s found there same_epoch same_key differ =
      rw
        (
          second_classified z.fr_to_bytes_le z.compute_id_secret log first second there same_epoch
              same_key,
          unequal,
          found,
        )
        refl
    where
      unequal : (first.x == second.x) ≡ false
      unequal = ground (arith, e.beq_iff first.x second.x)

  -- A first proof of an epoch and nullifier is valid without double signaling; and a later one of the same
  -- epoch and nullifier, for a signal with another hash, is reported as double signaling, whatever proofs
  -- are taken in between. Neither proof is refused, and zerokit recovers a secret from any two shares with
  -- different first coordinates.
  pub reuse_is_reported :
      (v : RlnValidator Fr Tree) (first second : FullProof Fr Groth) (signal other : Bytes)
      (now later : ℕ) (between : List (FullProof Fr Groth × Bytes × ℕ))
      → ((p q : Fr × Fr) → p.0 ≢ q.0 → (s : Fr) × (z.compute_id_secret p q ≡ ok s))
      → share_of
          (z.fr_to_bytes_le first.proof_values.external_nullifier)
          (z.fr_to_bytes_le first.proof_values.nullifier)
          v.log
        ≡ none
      → (verify_inbound z v first signal now).1 ≢ invalid
      → (verify_inbound z
          (inbound_all (verify_inbound z v first signal now).0 between)
          second
          other
          later).1
        ≢ invalid
      → second.proof_values.external_nullifier ≡ first.proof_values.external_nullifier
      → second.proof_values.nullifier ≡ first.proof_values.nullifier
      → z.hash_to_field_le signal ≢ z.hash_to_field_le other
      → ((verify_inbound z v first signal now).1 ≡ valid false)
        × ((verify_inbound z
              (inbound_all (verify_inbound z v first signal now).0 between)
              second
              other
              later).1
            ≡ valid true)
  reuse_is_reported v first second signal other now later between recovers unseen taken taken_too
        same_epoch same_key differ =
      let middle = inbound_all (verify_inbound z v first signal now).0 between in
      let one = not_refused v first signal now taken in
      let two = not_refused middle second other later taken_too in
      let apart =
        λ (q : first.proof_values.x ≡ second.proof_values.x). differ (sym one.1 ∙ q ∙ two.1) in
      let (secret, found) =
        recovers (first.proof_values.x, first.proof_values.y)
          (second.proof_values.x, second.proof_values.y) apart in
      (
        first_valid v first signal now unseen taken,
        ap (λ p. p.1) two.0
            ∙ ap valid (
                second_double middle.log first.proof_values second.proof_values secret found
                  (share_kept_all (verify_inbound z v first signal now).0 between
                    (z.fr_to_bytes_le first.proof_values.external_nullifier)
                    (z.fr_to_bytes_le first.proof_values.nullifier)
                    (first.proof_values.x, first.proof_values.y)
                    (first_share v first signal now unseen taken))
                  same_epoch same_key apart),
      )
