-- ===== src/Rln/ProofBytes.antt =====
-- crates/waku-rln/src/lib.rs: identities that are generated, and proofs as the bytes that go with a message.
-- zerokit's generator and its two codings are parameters; an error is its text.
use rs_waku.Prelude.{sym, ℕ, ◌≡◌, ◌≢◌, ◌⊎◌, ◌+◌, refl, ap, ◌∙◌, length}
use mathlib.Core.Path.{subst}
use rs_waku.Prelude.Bytes.{Bytes}
use rs_waku.Prelude.Eq.{Eq}
use rs_waku.Prelude.Outcome.{Result, ok, ◌>>=◌}
use rs_waku.Rln.{NullifierLog}
use rs_waku.Rln.Relay.{Zerokit, FullProof, RlnIdentity, RlnRelay, register, prove}
use rs_waku.Rln.Validator.{InboundVerdict, invalid, RlnValidator, epoch_at, verify_inbound}
use rs_waku.Rln.Honest.{IsComplete, IsMember, register-IsMember, prove-verify_inbound}

-- `keygen`, `rln_proof_to_bytes_le`, and `bytes_le_to_rln_proof`, which also tells how much it read.
pub record ProofCalls (Fr Secret Groth : Type 0) : Type 0 where
  pub keygen : Secret × Fr
  pub rln_proof_to_bytes_le : FullProof Fr Groth → Result Bytes Bytes
  pub bytes_le_to_rln_proof : Bytes → Result Bytes (FullProof Fr Groth × ℕ)

-- `NullifierLog::tracked_epochs`
abbrev pub tracked_epochs : {Fr : Type 0} → NullifierLog Fr → ℕ
tracked_epochs log = length log.seen

module _ {Fr Secret Groth : Type 0} (p : ProofCalls Fr Secret Groth) where
  -- `RlnIdentity::generate`
  abbrev pub generate : ℕ → RlnIdentity Fr Secret
  generate user_message_limit = record {
    secret = p.keygen.0;
    commitment = p.keygen.1;
    user_message_limit = user_message_limit;
  }

  unfoldable pub to_bytes : FullProof Fr Groth → Result Bytes Bytes
  to_bytes proof = p.rln_proof_to_bytes_le proof

  unfoldable pub from_bytes : Bytes → Result Bytes (FullProof Fr Groth)
  from_bytes bytes = do read ← p.bytes_le_to_rln_proof bytes; ok read.0

  -- zerokit reads back the proofs that it writes.
  abbrev pub IsReadBack : Type 0
  IsReadBack =
      (proof : FullProof Fr Groth) (bytes : Bytes)
      → p.rln_proof_to_bytes_le proof ≡ ok bytes
      → (n : ℕ) × (p.bytes_le_to_rln_proof bytes ≡ ok (proof, n))

  from_bytes-to_bytes :
      IsReadBack
      → (proof : FullProof Fr Groth) (bytes : Bytes) → to_bytes proof ≡ ok bytes
      → from_bytes bytes ≡ ok proof
  unfolding to_bytes from_bytes
  from_bytes-to_bytes law proof bytes h = let (n, q) = law proof bytes h in rw (from_bytes, q) refl

-- What a validator says of the proof that some bytes are, if they are one.
abbrev pub received :
    {Fr Tree Secret Witness Groth : Type 0}
    → ⦃e : Eq Fr⦄ → Zerokit Fr Tree Secret Witness Groth
    → ProofCalls Fr Secret Groth
    → RlnValidator Fr Tree
    → Bytes
    → Bytes
    → ℕ
    → Result Bytes InboundVerdict
received z p v bytes signal now = do
  proof ← from_bytes p bytes
  ok (verify_inbound z v proof signal now).1

module _ {Fr Tree Secret Witness Groth : Type 0} ⦃e : Eq Fr⦄
    (z : Zerokit Fr Tree Secret Witness Groth) (p : ProofCalls Fr Secret Groth) where
  -- An identity that is generated and registers on one node is a member there at the index that it gets: the
  -- bytes of a proof that it makes with that index, for a signal in an epoch, are read as a proof on another
  -- node with the same membership and domain, and are not refused there, in that epoch or the next,
  -- whatever its log has seen. zerokit's commitment is that of the secret, its tree keeps a leaf at its
  -- index, and its proofs of a leaf of the tree verify and are read back.
  pub prove-received :
      (leaf_at : Tree → ℕ → Fr) (commitment_of : Secret → Fr)
      (complete : IsComplete z leaf_at commitment_of) (back : IsReadBack p)
      (before relay : RlnRelay Fr Tree) (v : RlnValidator Fr Tree) (limit index : ℕ)
      (signal bytes : Bytes) (epoch id now : ℕ) (proof : FullProof Fr Groth)
      → p.keygen.1 ≡ commitment_of p.keygen.0
      → register z before (generate p limit) ≡ (relay, ok index)
      → v.relay ≡ relay
      → prove z relay (generate p limit) index signal epoch id ≡ ok proof
      → to_bytes p proof ≡ ok bytes
      → (epoch_at v now ≡ epoch) ⊎ (epoch_at v now ≡ epoch + 1)
      → (verdict : InboundVerdict) × (received z p v bytes signal now ≡ ok verdict)
        × (verdict ≢ invalid)
  prove-received leaf_at commitment_of complete back before relay v limit index signal bytes epoch
        id now proof own registered same made sent time =
      let member =
        register-IsMember z leaf_at commitment_of complete before relay (generate p limit) index own
          registered in
      (
        (verify_inbound z v proof signal now).1,
        ap (λ r. r >>= (λ x. ok (verify_inbound z v x signal now).1))
            (from_bytes-to_bytes p back proof bytes sent),
        prove-verify_inbound z leaf_at commitment_of complete v (generate p limit) index signal
            epoch id now proof
            (subst (λ r. IsMember z leaf_at commitment_of complete r (generate p limit) index)
              (sym same) member)
            (ap (λ r. prove z r (generate p limit) index signal epoch id) same ∙ made) time,
      )
