-- ===== src/Rln/Examples.antt =====
-- The log and the validator at concrete proofs, with numbers for field elements.
use rs_waku.Prelude.{
  Bool, ◌≢◌, ◌↔◌, ap, sym, ◌∙◌, List, inl, length, ◌++◌, arith, ℕ, ◌≡◌, ◌+◌, refl, [], ◌∷◌, none,
  true, false,
}
use rs_waku.Prelude.Bytes.{Bytes}
use rs_waku.Prelude.Eq.{nat_eq}
use rs_waku.Prelude.Outcome.{Result, ok, ok-injective}
use rs_waku.Prelude.Assoc.{lookup, insert}
use rs_waku.Rln.{RlnProof, NullifierLog, observe}
use rs_waku.Rln.{classify, recorded}
use rs_waku.Rln.Signaling.{share_of}
use rs_waku.Rln.Relay.{
  Zerokit, FullProof, RlnIdentity, new_relay, external_nullifier, prove, verify,
}
use rs_waku.Rln.Validator.{valid, invalid, RlnValidator, new_validator, epoch_at, verify_inbound}
use rs_waku.Rln.Inbound.{IsTimely, verify_inbound_iff}
use rs_waku.Rln.Reuse.{inbound_all, reuse_is_reported}
use rs_waku.Prelude.{get_or}
use rs_waku.Rln.Validator.{InboundVerdict}
use rs_waku.Rln.ProofBytes.{ProofCalls, IsReadBack, received, prove-received}
use rs_waku.Rln.ProofBytes
use rs_waku.Rln.Relay.{RlnRelay, register}
use rs_waku.Rln.ProofBytes.{generate}
use rs_waku.Rln.Honest.{IsComplete}

abbrev to_bytes : ℕ → Bytes
to_bytes n = n ∷ []

abbrev recover : ℕ × ℕ → ℕ × ℕ → Result Bytes ℕ
recover (px, py) (x, y) = ok (px + y)

abbrev proof_of : ℕ → ℕ → RlnProof ℕ
proof_of x y = record { root = 0; external_nullifier = 1; nullifier = 2; x = x; y = y }

abbrev empty_log : NullifierLog ℕ
empty_log = record { seen = [] }

unseen : share_of (to_bytes 1) (to_bytes 2) empty_log ≡ none
unfolding lookup
unseen = refl

abbrev sum : List ℕ → ℕ
sum [] = 0
sum (n ∷ rest) = n + sum rest

abbrev first_of : Bytes → ℕ
first_of [] = 0
first_of (b ∷ bs) = b

-- Every proof verifies, and a share is of the signal's first byte.
abbrev zerokit : Zerokit ℕ (List ℕ) (Unit {0}) (ℕ × ℕ) (Unit {0})
zerokit = record {
  poseidon_hash = sum;
  fr_of = λ n. n;
  hash_to_field_le = first_of;
  fr_to_bytes_le = to_bytes;
  compute_id_secret = recover;
  leaves_set = λ tree. length tree;
  set_next_leaf = λ tree leaf. (tree ++ leaf ∷ [], ok tt);
  get_root = λ tree. 0;
  get_merkle_proof = λ tree index. ok ([], []);
  new_witness = λ secret limit id path indices x ext. ok (x, ext);
  generate_rln_proof = λ tree w.
      ok (tt, record { root = 0; external_nullifier = w.1; nullifier = 2; x = w.0; y = 7 });
  verify_with_roots = λ tree proof values x roots. ok true;
}

abbrev leaf_at : List ℕ → ℕ → ℕ
leaf_at tree index = get_or tree index 0

last_leaf : (tree : List ℕ) (leaf : ℕ) → leaf_at (tree ++ leaf ∷ []) (length tree) ≡ leaf
last_leaf [] leaf = refl
last_leaf (x ∷ tree) leaf = last_leaf tree leaf

zerokit-IsComplete : IsComplete zerokit leaf_at (λ secret. 4)
zerokit-IsComplete = record {
  placed = λ tree leaf h. last_leaf tree leaf;
  made = λ tree index path secret limit id x ext w proof m p q r. (
    sym (ap (λ m. m.1.x) (ok-injective r)) ∙ sym (ap (λ v. v.0) (ok-injective q)),
    sym (ap (λ m. m.1.external_nullifier) (ok-injective r)) ∙ sym (ap (λ v. v.1) (ok-injective q)),
    refl,
  );
}

abbrev validator : RlnValidator ℕ (List ℕ)
validator = new_validator (new_relay zerokit []) 10

abbrev proof_for : ℕ → FullProof ℕ (Unit {0})
proof_for x = record {
  proof = tt;
  proof_values = record { root = 0; external_nullifier = 119; nullifier = 2; x = x; y = 7 };
}

abbrev member : RlnIdentity ℕ (Unit {0})
member = record { secret = tt; commitment = 4; user_message_limit = 20 }

proof_of_member : prove zerokit validator.relay member 0 (1 ∷ []) 5 0 ≡ ok (proof_for 1)
unfolding prove
proof_of_member = refl

first_taken : (verify_inbound zerokit validator (proof_for 1) (1 ∷ []) 50).1 ≡ valid false
unfolding verify_inbound observe classify recorded lookup insert external_nullifier verify
first_taken = refl

abbrev after_first : RlnValidator ℕ (List ℕ)
after_first =
    inbound_all zerokit (verify_inbound zerokit validator (proof_for 1) (1 ∷ []) 50).0
      ((proof_for 1, 3 ∷ [], 51) ∷ [])

second_taken : (verify_inbound zerokit after_first (proof_for 2) (2 ∷ []) 60).1 ≡ valid true
unfolding verify_inbound observe classify recorded lookup insert external_nullifier verify
second_taken = refl

verify_inbound_iff_example :
    (((verify_inbound zerokit validator (proof_for 1) (1 ∷ []) 50).1 ≢ invalid) ↔ (
      (◌≡◌ {A = ℕ} 1 1)
      × (verify zerokit validator.relay (proof_for 1) ≡ true)
      × IsTimely zerokit validator 119 50))
    × ((verify_inbound zerokit validator (proof_for 1) (1 ∷ []) 50).1 ≡ invalid
        → (verify_inbound zerokit validator (proof_for 1) (1 ∷ []) 50).0 ≡ validator)
verify_inbound_iff_example = verify_inbound_iff zerokit validator (proof_for 1) (1 ∷ []) 50

not_refused : (b : Bool) → valid b ≢ invalid
not_refused b h = cc

unseen_yet : share_of (to_bytes 119) (to_bytes 2) validator.log ≡ none
unfolding lookup
unseen_yet = refl

epoch_five : epoch_at validator 50 ≡ 5
unfolding epoch_at
epoch_five = refl

reuse_is_reported_example :
    ((verify_inbound zerokit validator (proof_for 1) (1 ∷ []) 50).1 ≡ valid false)
    × ((verify_inbound zerokit after_first (proof_for 2) (2 ∷ []) 60).1 ≡ valid true)
reuse_is_reported_example =
    reuse_is_reported zerokit validator (proof_for 1) (proof_for 2) (1 ∷ []) (2 ∷ []) 50 60
      ((proof_for 1, 3 ∷ [], 51) ∷ []) (λ p q n. (p.0 + q.1, refl)) unseen_yet
      (λ h. not_refused false (sym first_taken ∙ h)) (λ h. not_refused true (sym second_taken ∙ h))
      refl refl (λ h. omega (arith, h))

abbrev bytes_of : FullProof ℕ (Unit {0}) → Bytes
bytes_of p =
    p.proof_values.root ∷ p.proof_values.external_nullifier ∷ p.proof_values.nullifier
    ∷ p.proof_values.x ∷ p.proof_values.y ∷ []

abbrev proof_in : Bytes → FullProof ℕ (Unit {0})
proof_in bs = record {
  proof = tt;
  proof_values = record {
    root = get_or bs 0 0;
    external_nullifier = get_or bs 1 0;
    nullifier = get_or bs 2 0;
    x = get_or bs 3 0;
    y = get_or bs 4 0;
  };
}

abbrev proof_calls : ProofCalls ℕ (Unit {0}) (Unit {0})
proof_calls = record {
  keygen = (tt, 4);
  rln_proof_to_bytes_le = λ p. ok (bytes_of p);
  bytes_le_to_rln_proof = λ bs. ok (proof_in bs, 5);
}

proof_calls-IsReadBack : IsReadBack proof_calls
proof_calls-IsReadBack proof bytes h = (5, ap (λ bs. ok (proof_in bs, 5)) (sym (ok-injective h)))

sent : ProofBytes.to_bytes proof_calls (proof_for 1) ≡ ok (bytes_of (proof_for 1))
unfolding ProofBytes.to_bytes
sent = refl

abbrev joined : RlnRelay ℕ (List ℕ)
joined = new_relay zerokit (24 ∷ [])

is_registered : register zerokit (new_relay zerokit []) (generate proof_calls 20) ≡ (joined, ok 0)
unfolding register
is_registered = refl

abbrev receiver : RlnValidator ℕ (List ℕ)
receiver = new_validator joined 10

proof_of_joined : prove zerokit joined (generate proof_calls 20) 0 (1 ∷ []) 5 0 ≡ ok (proof_for 1)
unfolding prove
proof_of_joined = refl

in_epoch_five : epoch_at receiver 50 ≡ 5
unfolding epoch_at
in_epoch_five = refl

prove-received_example :
    (verdict : InboundVerdict) × (received zerokit proof_calls receiver
        (bytes_of (proof_for 1))
        (1 ∷ [])
        50
      ≡ ok verdict)
    × (verdict ≢ invalid)
prove-received_example =
    prove-received zerokit proof_calls leaf_at (λ secret. 4) zerokit-IsComplete
      proof_calls-IsReadBack (new_relay zerokit []) joined receiver 20 0 (1 ∷ [])
      (bytes_of (proof_for 1)) 5 0 50 (proof_for 1) refl is_registered refl proof_of_joined sent
      (inl in_epoch_five)
