-- ===== src/Rln/Honest.antt =====
-- What the validator says of a proof that a member makes.
use rs_waku.Prelude.{
  ℕ, ◌≡◌, ◌≢◌, ◌⊎◌, ◌+◌, ◌-◌, refl, ap, sym, ◌∙◌, List, [], ◌∷◌, true, inl, inr, arith,
}
use rs_waku.Prelude.Bytes.{Bytes}
use rs_waku.Prelude.Eq.{Eq}
use rs_waku.Prelude.Outcome.{ok, Result-cases, >>=-eq-ok, ok-injective}
use rs_waku.Rln.{RlnProof}
use rs_waku.Rln.Relay.{
  Zerokit, FullProof, RlnIdentity, RlnRelay, external_nullifier, rate_commitment, register, prove,
  verify,
}
use rs_waku.Rln.Validator.{invalid, RlnValidator, epoch_at, verify_inbound}
use rs_waku.Rln.Inbound.{verify_inbound_iff}

-- What zerokit promises of its tree and its proofs: a leaf that is set is at its index, and a proof that is
-- made with the secret and the limit of the leaf at the index has the witness's values and verifies
-- against the root of the tree. `leaf_at` is the leaf at an index, and `commitment_of` the Poseidon hash of
-- a secret.
pub record IsComplete {Fr Tree Secret Witness Groth : Type 0}
    (z : Zerokit Fr Tree Secret Witness Groth) (leaf_at : Tree → ℕ → Fr)
    (commitment_of : Secret → Fr) : Type 0 where
  pub placed :
      (tree : Tree) (leaf : Fr)
      → (z.set_next_leaf tree leaf).1 ≡ ok tt
      → leaf_at (z.set_next_leaf tree leaf).0 (z.leaves_set tree) ≡ leaf
  pub made :
      (tree : Tree) (index : ℕ) (path : List Fr × List ℕ) (secret : Secret) (limit id x ext : Fr)
      (w : Witness) (proof : Groth × RlnProof Fr)
      → leaf_at tree index ≡ z.poseidon_hash (commitment_of secret ∷ limit ∷ [])
      → z.get_merkle_proof tree index ≡ ok path
      → z.new_witness secret limit id path.0 path.1 x ext ≡ ok w
      → z.generate_rln_proof tree w ≡ ok proof
      → (proof.1.x ≡ x)
        × (proof.1.external_nullifier ≡ ext)
        × (z.verify_with_roots tree proof.0 proof.1 proof.1.x (z.get_root tree ∷ []) ≡ ok true)

module _ {Fr Tree Secret Witness Groth : Type 0} ⦃e : Eq Fr⦄
    (z : Zerokit Fr Tree Secret Witness Groth) (leaf_at : Tree → ℕ → Fr)
    (commitment_of : Secret → Fr) (law : IsComplete z leaf_at commitment_of) where
  -- The leaf at an index is an identity's.
  abbrev pub IsMember : RlnRelay Fr Tree → RlnIdentity Fr Secret → ℕ → Type 0
  IsMember relay identity index =
      (leaf_at relay.rln index ≡ rate_commitment z identity)
      × (identity.commitment ≡ commitment_of identity.secret)

  -- An identity that registers is the member at the index that it gets.
  pub register-IsMember :
      (relay after : RlnRelay Fr Tree) (identity : RlnIdentity Fr Secret) (index : ℕ)
      → identity.commitment ≡ commitment_of identity.secret
      → register z relay identity ≡ (after, ok index)
      → IsMember after identity index
  unfolding register
  register-IsMember relay after identity index own h =
      elim (Result-cases (z.set_next_leaf relay.rln (rate_commitment z identity)).1) [
        | inl (u, q) ↦
            let same : after ≡ record relay {
              rln = (z.set_next_leaf relay.rln (rate_commitment z identity)).0;
            } =
              λ i. (sym h i).0 in
            let second : (register z relay identity).1 ≡ ok index = λ i. (h i).1 in
            let at_next : ok (z.leaves_set relay.rln) ≡ ok index = rw (register, q) at second in
            (
              rw (same, sym (ok-injective at_next))
                  (law.placed relay.rln (rate_commitment z identity) q),
              own,
            )
        | inr (x, q) ↦
            let second : (register z relay identity).1 ≡ ok index = λ i. (h i).1 in
            absurd (cc (rw (register, q) at second))
      ]

  prove_lem :
      (relay : RlnRelay Fr Tree) (identity : RlnIdentity Fr Secret) (index : ℕ) (signal : Bytes)
      (epoch id : ℕ) (proof : FullProof Fr Groth)
      → IsMember relay identity index
      → prove z relay identity index signal epoch id ≡ ok proof
      → (proof.proof_values.x ≡ z.hash_to_field_le signal)
        × (proof.proof_values.external_nullifier ≡ external_nullifier z relay epoch)
        × (verify z relay proof ≡ true)
  unfolding prove verify external_nullifier
  prove_lem relay identity index signal epoch id proof member h =
      let (path, p, h1) = >>=-eq-ok (z.get_merkle_proof relay.rln index) _ h in
      let (w, q, h2) =
        >>=-eq-ok
          (z.new_witness identity.secret (z.fr_of identity.user_message_limit) (z.fr_of id) path.0
            path.1 (z.hash_to_field_le signal)
            (z.poseidon_hash (z.fr_of epoch ∷ relay.rln_identifier ∷ [])))
          _ h1 in
      let (made, r, h3) = >>=-eq-ok (z.generate_rln_proof relay.rln w) _ h2 in
      let facts =
        law.made relay.rln index path identity.secret (z.fr_of identity.user_message_limit)
          (z.fr_of id) (z.hash_to_field_le signal)
          (z.poseidon_hash (z.fr_of epoch ∷ relay.rln_identifier ∷ [])) w made
          (member.0
            ∙ ap (λ k. z.poseidon_hash (k ∷ z.fr_of identity.user_message_limit ∷ [])) member.1)
          p q r in
      rw (sym (ok-injective h3)) (facts.0, facts.1, rw facts.2 refl)

  -- A proof that a member makes for a signal in an epoch is not refused by a validator with the same
  -- membership and domain, in that epoch or the next; zerokit's proofs are complete.
  pub prove-verify_inbound :
      (v : RlnValidator Fr Tree) (identity : RlnIdentity Fr Secret) (index : ℕ) (signal : Bytes)
      (epoch id now : ℕ) (proof : FullProof Fr Groth)
      → IsMember v.relay identity index
      → prove z v.relay identity index signal epoch id ≡ ok proof
      → (epoch_at v now ≡ epoch) ⊎ (epoch_at v now ≡ epoch + 1)
      → (verify_inbound z v proof signal now).1 ≢ invalid
  prove-verify_inbound v identity index signal epoch id now proof member h time =
      let (bound, of_epoch, verified) =
        prove_lem v.relay identity index signal epoch id proof member h in
      (verify_inbound_iff z v proof signal now).0.1 (
        bound,
        verified,
        elim time [
          | inl t ↦ inl (of_epoch ∙ ap (external_nullifier z v.relay) (sym t))
          | inr t ↦ inr (
            omega (arith, t),
            of_epoch ∙ ap (external_nullifier z v.relay) (before (epoch_at v now) t),
          )
        ],
      )
    where
      before : (current : ℕ) → current ≡ epoch + 1 → epoch ≡ current - 1
      before current t = omega (arith, t)
