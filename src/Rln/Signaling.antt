-- ===== src/Rln/Signaling.antt =====
-- What the log says of proofs that follow one another.
use mathlib.Core.Option
use rs_waku.Prelude.{
  ◌≡◌, ◌↔◌, refl, ap, ◌∙◌, [], Bool, true, false, ◌&&◌, Option, none, some, if◌then◌else◌,
  Option-cases, inl, inr, arith,
}
use rs_waku.Prelude.Bytes.{Bytes}
use rs_waku.Prelude.Eq.{Eq, ◌==◌, nat_eq, list_eq, eq_iff}
use rs_waku.Prelude.Assoc.{lookup, lookup-insert}
use rs_waku.Prelude.Outcome.{Result, ok, err}
use rs_waku.Rln.{
  RlnProof, original, duplicate, double_signaling, EpochNullifiers, NullifierLog, bucket_of,
  classify, recorded, observe,
}

-- The share that is there for a nullifier in an epoch.
abbrev pub share_of : {Fr : Type 0} → Bytes → Bytes → NullifierLog Fr → Option (Fr × Fr)
share_of epoch key log = lookup key (bucket_of epoch log)

get_or-if :
    {A : Type 0} (b : Bool) (v d : A) (o : Option A)
    → Option.get_or (if b then some v else o) d ≡ (if b then v else Option.get_or o d)
get_or-if true v d o = refl
get_or-if false v d o = refl

get_or-none :
    {A : Type 0} (b : Bool) (d : A) (o : Option A)
    → Option.get_or (if b then none else o) d ≡ (if b then d else Option.get_or o d)
get_or-none true d o = refl
get_or-none false d o = refl

bytes_iff : (a b : Bytes) → ((a == b) ≡ true) ↔ (a ≡ b)
bytes_iff a b = eq_iff a b

module _ {Fr E : Type 0} ⦃e : Eq Fr⦄ (fr_to_bytes_le : Fr → Bytes)
    (compute_id_secret : Fr × Fr → Fr × Fr → Result E Fr) where
  lookup-recorded :
      (key k : Bytes) (share : Fr × Fr) (bucket : EpochNullifiers Fr)
      → lookup k (recorded fr_to_bytes_le compute_id_secret key share bucket)
        ≡ (if key == k then some (Option.get_or (lookup k bucket) share) else lookup k bucket)
  unfolding recorded
  lookup-recorded key k share bucket = elim (Option-cases (lookup key bucket)) [
    | inl n ↦ ground (arith, n, bytes_iff key k, lookup-insert key k share bucket)
    | inr (s, q) ↦ ground (arith, q, bytes_iff key k)
  ]

  pub share_of-observe :
      (log : NullifierLog Fr) (proof : RlnProof Fr) (epoch key : Bytes)
      → share_of epoch key (observe fr_to_bytes_le compute_id_secret log proof).0 ≡ (
          if (fr_to_bytes_le proof.external_nullifier == epoch)
            && (fr_to_bytes_le proof.nullifier == key)
          then some (Option.get_or (share_of epoch key log) (proof.x, proof.y))
          else share_of epoch key log)
  unfolding observe
  share_of-observe log proof epoch key =
      let own = fr_to_bytes_le proof.external_nullifier in
      let nullifier = fr_to_bytes_le proof.nullifier in
      let bucket =
        recorded fr_to_bytes_le compute_id_secret nullifier (proof.x, proof.y)
          (bucket_of own log) in
      ap (λ o. lookup key (Option.get_or o [])) (lookup-insert own epoch bucket log.seen)
      ∙ ap (lookup key) (get_or-if (own == epoch) bucket [] (lookup epoch log.seen))
      ∙ by_epoch own nullifier (own == epoch) ((bytes_iff own epoch).0)
    where
      by_epoch :
          (own nullifier : Bytes) (b : Bool)
          → (b ≡ true → own ≡ epoch)
          → lookup key (
              if b
              then recorded fr_to_bytes_le compute_id_secret nullifier
                  (proof.x, proof.y)
                  (bucket_of own log)
              else bucket_of epoch log)
            ≡ (if b && (nullifier == key)
                then some (Option.get_or (share_of epoch key log) (proof.x, proof.y))
                else share_of epoch key log)
      by_epoch own nullifier false h = refl
      by_epoch own nullifier true h =
          ap
            (λ c. lookup key (
              recorded fr_to_bytes_le compute_id_secret nullifier (proof.x, proof.y)
                (bucket_of c log)))
            (h refl)
          ∙ lookup-recorded nullifier key (proof.x, proof.y) (bucket_of epoch log)

  pub first_original :
      (log : NullifierLog Fr) (first : RlnProof Fr)
      → share_of (fr_to_bytes_le first.external_nullifier) (fr_to_bytes_le first.nullifier) log
        ≡ none
      → (observe fr_to_bytes_le compute_id_secret log first).1 ≡ ok original
  unfolding observe classify
  first_original log first n = rw n refl

  pub second_classified :
      (log : NullifierLog Fr) (first second : RlnProof Fr)
      → share_of (fr_to_bytes_le first.external_nullifier) (fr_to_bytes_le first.nullifier) log
        ≡ some (first.x, first.y)
      → second.external_nullifier ≡ first.external_nullifier
      → second.nullifier ≡ first.nullifier
      → (observe fr_to_bytes_le compute_id_secret log second).1 ≡ (
          if (first.x == second.x) && (first.y == second.y)
          then ok duplicate
          else elim (compute_id_secret (first.x, first.y) (second.x, second.y)) [
            | ok s ↦ ok (double_signaling s)
            | err r ↦ err r
          ])
  unfolding observe classify
  second_classified log first second n h k = rw (h, k, n) refl

  -- A first proof for its epoch and nullifier is original; then one with the same epoch and nullifier is a
  -- duplicate if it has the same share, and else double signaling, with the secret that zerokit recovers
  -- from the two shares, whatever other proofs were seen before.
  pub observe_second :
      (log : NullifierLog Fr) (first second : RlnProof Fr)
      → share_of (fr_to_bytes_le first.external_nullifier) (fr_to_bytes_le first.nullifier) log
        ≡ none
      → second.external_nullifier ≡ first.external_nullifier
      → second.nullifier ≡ first.nullifier
      → ((observe fr_to_bytes_le compute_id_secret log first).1 ≡ ok original)
        × ((observe fr_to_bytes_le compute_id_secret
              (observe fr_to_bytes_le compute_id_secret log first).0
              second).1
            ≡ (if (first.x == second.x) && (first.y == second.y)
                then ok duplicate
                else elim (compute_id_secret (first.x, first.y) (second.x, second.y)) [
                  | ok s ↦ ok (double_signaling s)
                  | err r ↦ err r
                ]))
  observe_second log first second n h k = (
    first_original log first n,
    second_classified (observe fr_to_bytes_le compute_id_secret log first).0 first second there h k,
  )
    where
      epoch : Bytes
      epoch = fr_to_bytes_le first.external_nullifier

      key : Bytes
      key = fr_to_bytes_le first.nullifier

      there :
          share_of epoch key (observe fr_to_bytes_le compute_id_secret log first).0
          ≡ some (first.x, first.y)
      there =
          share_of-observe log first epoch key
          ∙ rw ((bytes_iff epoch epoch).1 refl, (bytes_iff key key).1 refl, n) refl
