-- ===== src/Rln.antt =====
-- crates/waku-rln/src/lib.rs: the log of nullifiers that finds double signaling. Field elements, their
-- bytes and the recovery of a secret from two shares are zerokit's and are parameters.
pub mod Signaling
pub mod Relay
pub mod Validator
pub mod Inbound
pub mod Reuse
pub mod Honest
pub mod ProofBytes
mod Examples
use mathlib.Core.Option
use rs_waku.Prelude.{
  ℕ, List, [], ◌∷◌, Bool, true, false, ◌&&◌, Option, none, some, if◌then◌else◌, length,
}
use rs_waku.Prelude.Bytes.{Bytes}
use rs_waku.Prelude.Eq.{Eq, ◌==◌, nat_eq, list_eq}
use rs_waku.Prelude.Assoc.{Assoc, lookup, insert, remove}
use rs_waku.Prelude.Outcome.{Result, ok, err}

-- The public values of a proof.
pub record RlnProof (Fr : Type 0) : Type 0 where
  pub root : Fr
  pub external_nullifier : Fr
  pub nullifier : Fr
  pub x : Fr
  pub y : Fr

pub data NullifierOutcome (Fr : Type 0) : Type 0 where
  original : NullifierOutcome Fr
  duplicate : NullifierOutcome Fr
  double_signaling : Fr → NullifierOutcome Fr

abbrev pub EpochNullifiers : Type 0 → Type 0
EpochNullifiers Fr = Assoc Bytes (Fr × Fr)

pub record NullifierLog (Fr : Type 0) : Type 0 where
  pub seen : Assoc Bytes (EpochNullifiers Fr)

-- The shares in an epoch.
abbrev pub bucket_of : {Fr : Type 0} → Bytes → NullifierLog Fr → EpochNullifiers Fr
bucket_of epoch log = Option.get_or (lookup epoch log.seen) []

module _ {Fr E : Type 0} ⦃e : Eq Fr⦄ (fr_to_bytes_le : Fr → Bytes)
    (compute_id_secret : Fr × Fr → Fr × Fr → Result E Fr) where
  -- What a proof is, by the share that is there for its nullifier.
  unfoldable pub classify : Option (Fr × Fr) → Fr × Fr → Result E (NullifierOutcome Fr)
  classify none share = ok original
  classify (some (px, py)) (x, y) =
      if (px == x) && (py == y) then ok duplicate else elim (compute_id_secret (px, py) (x, y)) [
        | ok s ↦ ok (double_signaling s)
        | err r ↦ err r
      ]

  -- The bucket of a proof's epoch after it.
  unfoldable pub recorded : Bytes → Fr × Fr → EpochNullifiers Fr → EpochNullifiers Fr
  recorded key share bucket = elim (lookup key bucket) [
    | none ↦ insert key share bucket
    | some s ↦ bucket
  ]

  unfoldable pub observe :
      NullifierLog Fr → RlnProof Fr → NullifierLog Fr × Result E (NullifierOutcome Fr)
  unfolding classify recorded
  observe log proof =
      let epoch = fr_to_bytes_le proof.external_nullifier in
      let key = fr_to_bytes_le proof.nullifier in
      let bucket = bucket_of epoch log in
      (
        record { seen = insert epoch (recorded key (proof.x, proof.y) bucket) log.seen },
        classify (lookup key bucket) (proof.x, proof.y),
      )

  unfoldable pub forget_epoch : NullifierLog Fr → Fr → NullifierLog Fr
  forget_epoch log external_nullifier = record {
    seen = remove (fr_to_bytes_le external_nullifier) log.seen;
  }
