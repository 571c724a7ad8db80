-- ===== src/Rln/Relay.antt =====
-- `RlnRelay` of crates/waku-rln/src/lib.rs: the membership tree, proofs and their check. The tree, the
-- witness and the Groth16 proof are zerokit's types, and its calls are a record.
use rs_waku.Prelude.{ℕ, List, [], ◌∷◌, Bool, false}
use rs_waku.Prelude.Bytes.{Bytes, codes}
use rs_waku.Prelude.Outcome.{Result, ok, err, ◌>>=◌}
use rs_waku.Rln.{RlnProof}

-- The calls of zerokit; an error is its text. `set_next_leaf` changes the tree.
pub record Zerokit (Fr Tree Secret Witness Groth : Type 0) : Type 0 where
  pub poseidon_hash : List Fr → Fr
  pub fr_of : ℕ → Fr
  pub hash_to_field_le : Bytes → Fr
  pub fr_to_bytes_le : Fr → Bytes
  pub compute_id_secret : Fr × Fr → Fr × Fr → Result Bytes Fr
  pub leaves_set : Tree → ℕ
  pub set_next_leaf : Tree → Fr → Tree × Result Bytes (Unit {0})
  pub get_root : Tree → Fr
  pub get_merkle_proof : Tree → ℕ → Result Bytes (List Fr × List ℕ)
  pub new_witness : Secret → Fr → Fr → List Fr → List ℕ → Fr → Fr → Result Bytes Witness
  pub generate_rln_proof : Tree → Witness → Result Bytes (Groth × RlnProof Fr)
  pub verify_with_roots : Tree → Groth → RlnProof Fr → Fr → List Fr → Result Bytes Bool

pub record RlnIdentity (Fr Secret : Type 0) : Type 0 where
  pub secret : Secret
  pub commitment : Fr
  pub user_message_limit : ℕ

-- zerokit's `RLNProof`, which `RlnProof` wraps.
pub record FullProof (Fr Groth : Type 0) : Type 0 where
  pub proof : Groth
  pub proof_values : RlnProof Fr

pub record RlnRelay (Fr Tree : Type 0) : Type 0 where
  pub rln : Tree
  pub rln_identifier : Fr

-- `.unwrap_or(false)`
abbrev pub or_false : Result Bytes Bool → Bool
or_false (ok b) = b
or_false (err e) = false

module _ {Fr Tree Secret Witness Groth : Type 0} (z : Zerokit Fr Tree Secret Witness Groth) where
  -- `RlnRelay::new`, over a fresh tree.
  abbrev pub new_relay : Tree → RlnRelay Fr Tree
  new_relay tree = record { rln = tree; rln_identifier = z.hash_to_field_le (codes "rln-relay-v2") }

  abbrev pub rate_commitment : RlnIdentity Fr Secret → Fr
  rate_commitment identity =
      z.poseidon_hash (identity.commitment ∷ z.fr_of identity.user_message_limit ∷ [])

  unfoldable pub register :
      RlnRelay Fr Tree → RlnIdentity Fr Secret → RlnRelay Fr Tree × Result Bytes ℕ
  register relay identity =
      let (tree, result) = z.set_next_leaf relay.rln (rate_commitment identity) in
      (
        record relay { rln = tree },
        elim result [ ok u ↦ ok (z.leaves_set relay.rln) | err e ↦ err e ],
      )

  abbrev pub root : RlnRelay Fr Tree → Fr
  root relay = z.get_root relay.rln

  unfoldable pub external_nullifier : RlnRelay Fr Tree → ℕ → Fr
  external_nullifier relay epoch = z.poseidon_hash (z.fr_of epoch ∷ relay.rln_identifier ∷ [])

  unfoldable pub prove :
      RlnRelay Fr Tree
      → RlnIdentity Fr Secret
      → ℕ
      → Bytes
      → ℕ
      → ℕ
      → Result Bytes (FullProof Fr Groth)
  prove relay identity index signal epoch message_id = do
    path ← z.get_merkle_proof relay.rln index
    witness ←
        z.new_witness identity.secret (z.fr_of identity.user_message_limit) (z.fr_of message_id)
          path.0 path.1 (z.hash_to_field_le signal)
          (z.poseidon_hash (z.fr_of epoch ∷ relay.rln_identifier ∷ []))
    made ← z.generate_rln_proof relay.rln witness
    ok (record { proof = made.0; proof_values = made.1 })

  unfoldable pub verify : RlnRelay Fr Tree → FullProof Fr Groth → Bool
  verify relay proof = or_false (
      z.verify_with_roots relay.rln proof.proof proof.proof_values proof.proof_values.x
        (root relay ∷ []))
