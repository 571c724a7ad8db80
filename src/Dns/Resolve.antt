-- ===== src/Dns/Resolve.antt =====
-- `resolve` of dns.rs, and that its ENRs are those of the signed tree.
use rs_waku.Prelude.{
  ◌≤◌, ◌≡◌, ◌↔◌, inl, inr, refl, List, [], ◌∷◌, Bool, true, false, Option, none, some, length, ltb,
  take, is_empty, All, not,
}
use rs_waku.Prelude.Bytes.{Bytes, codes}
use rs_waku.Prelude.Outcome.{Result, ok, err, ◌>>=◌, >>=-eq-ok}
use rs_waku.Prelude.Sorted.{In}
use rs_waku.Dns.{
  Calls, DnsError, EnrTreeLink, root, ok_or, or_text, refuse_if, max_records, find_starting,
  split_at, parse_enrtree, verify_root, verify_secp256k1,
}
use rs_waku.Dns.Walk.{start, walk}
use rs_waku.Dns.Tree.{Below, InTree, walk-InTree, here}
use rs_waku.Dns.Coverage.{walk_whole}
use rs_waku.Dns.Counting.{walk_not_cut}

ok_or-eq-ok : {A : Type 0} (o : Option A) (e : DnsError) {a : A} → ok_or o e ≡ ok a → o ≡ some a
ok_or-eq-ok none e h = cc
ok_or-eq-ok (some b) e h = cc

or_text-eq-ok :
    {A : Type 0} (r : Result Bytes A) (f : Bytes → DnsError) {a : A} → or_text r f ≡ ok a → r ≡ ok a
or_text-eq-ok (ok b) f h = cc
or_text-eq-ok (err e) f h = cc

-- What holds of all elements holds of each.
All-In : {A : Type 0} (P : A → Type 0) (x : A) (xs : List A) → All P xs → In x xs → P x
All-In P x [] h m = absurd m
All-In P x (y ∷ ys) h (inl e) = rw e h.0
All-In P x (y ∷ ys) h (inr m) = All-In P x ys h.1 m

refuse_if-eq-ok : (b : Bool) (e : DnsError) → refuse_if b e ≡ ok tt → b ≡ false
refuse_if-eq-ok true e h = cc
refuse_if-eq-ok false e h = refl

module _ {Enr Key Signature : Type 0} (c : Calls Enr Key Signature) where
  unfoldable pub resolve : Bytes → Result DnsError (List Enr)
  resolve address = do
    link ← parse_enrtree c address
    records ← c.txt link.domain
    text ←
        ok_or (find_starting (codes "enrtree-root:v1") records)
          (root (codes "no enrtree-root record"))
    top ← verify_root c text link.pubkey
    ok (walk c link.domain max_records start (top ∷ [])).enrs

  -- The key signs what stands before ` sig=`.
  abbrev pub IsSigned : Bytes → Bytes → Type 0
  IsSigned text pubkey =
      (signed after sig : Bytes) × (vk : Key) × (s : Signature) × (split_at (codes " sig=") text
        ≡ some (signed, after))
      × (c.base64url_decode (c.trim after) ≡ ok sig)
      × (c.key_from_bytes pubkey ≡ some vk)
      × (c.signature_from_slice (take 64 sig) ≡ some s)
      × (c.verify_prehash vk (c.keccak256 signed) s ≡ true)

  verified_key :
      (signed sig pubkey : Bytes)
      → verify_secp256k1 c signed sig pubkey ≡ ok tt
      → (vk : Key) × (s : Signature) × (c.key_from_bytes pubkey ≡ some vk)
        × (c.signature_from_slice sig ≡ some s)
        × (c.verify_prehash vk (c.keccak256 signed) s ≡ true)
  unfolding verify_secp256k1
  verified_key signed sig pubkey h =
      let (vk, e1, k1) = >>=-eq-ok (ok_or (c.key_from_bytes pubkey) _) _ h in
      let (s, e2, k2) = >>=-eq-ok (ok_or (c.signature_from_slice sig) _) _ k1 in
      (
        vk,
        s,
        ok_or-eq-ok (c.key_from_bytes pubkey) _ e1,
        ok_or-eq-ok (c.signature_from_slice sig) _ e2,
        not_false (c.verify_prehash vk (c.keccak256 signed) s) (refuse_if-eq-ok _ _ k2),
      )
    where
      not_false : (b : Bool) → not b ≡ false → b ≡ true
      not_false true e = refl
      not_false false e = cc

  verify_root-IsSigned :
      (text pubkey top : Bytes) → verify_root c text pubkey ≡ ok top → IsSigned text pubkey
  unfolding verify_root
  verify_root-IsSigned text pubkey top h =
      let ((signed, after), e1, k1) = >>=-eq-ok (ok_or (split_at (codes " sig=") text) _) _ h in
      let (sig, e2, k2) = >>=-eq-ok (or_text (c.base64url_decode (c.trim after)) _) _ k1 in
      let (long, e3, k3) = >>=-eq-ok (refuse_if (ltb (length sig) 64) _) _ k2 in
      let (verified, e4, k4) = >>=-eq-ok (verify_secp256k1 c signed (take 64 sig) pubkey) _ k3 in
      let (vk, s, p, q, r) = verified_key signed (take 64 sig) pubkey e4 in
      (
        signed,
        after,
        sig,
        vk,
        s,
        ok_or-eq-ok (split_at (codes " sig=") text) _ e1,
        or_text-eq-ok (c.base64url_decode (c.trim after)) _ e2,
        p,
        q,
        r,
      )

  returned :
      {enrs : List Enr} (found : List Enr) (r : Result DnsError (List Enr)) (P : List Enr → Type 0)
      → r ≡ ok found
      → r ≡ ok enrs
      → P found
      → P enrs
  returned {enrs} found r P e k h = let same : found ≡ enrs = cc (e, k) in rw (← same) h

  -- Whatever `resolve` returns was read from records of the domain at or below a root that the key of the
  -- address signs, each record hashing to its name.
  pub resolve_sound :
      (address : Bytes) (enrs : List Enr)
      → resolve address ≡ ok enrs
      → (link : EnrTreeLink) × (text top : Bytes) × (parse_enrtree c address ≡ ok link)
        × IsSigned text link.pubkey
        × (verify_root c text link.pubkey ≡ ok top)
        × All (InTree c link.domain top) enrs
  unfolding resolve
  resolve_sound address enrs h =
      let (link, e1, k1) = >>=-eq-ok (parse_enrtree c address) _ h in
      let (records, e2, k2) = >>=-eq-ok (c.txt link.domain) _ k1 in
      let (text, e3, k3) =
        >>=-eq-ok (ok_or (find_starting (codes "enrtree-root:v1") records) _) _ k2 in
      let (top, e4, k4) = >>=-eq-ok (verify_root c text link.pubkey) _ k3 in
      (
        link,
        text,
        top,
        e1,
        verify_root-IsSigned text link.pubkey top e4,
        e4,
        returned (walk c link.domain max_records start (top ∷ [])).enrs
            (ok (walk c link.domain max_records start (top ∷ [])).enrs)
            (All (InTree c link.domain top)) refl k4
            (walk-InTree c link.domain top max_records start (top ∷ []) (here, tt) tt),
      )

  -- If the address parses, its domain has a root record, the key signs it and there are at most 5000
  -- hashes at and below the root, then `resolve` returns the ENRs of the tree, all of them and no others.
  pub resolve_iff :
      (address : Bytes) (link : EnrTreeLink) (records : List Bytes) (text top : Bytes)
      (hashes : List Bytes)
      → parse_enrtree c address ≡ ok link
      → c.txt link.domain ≡ ok records
      → find_starting (codes "enrtree-root:v1") records ≡ some text
      → verify_root c text link.pubkey ≡ ok top
      → is_empty top ≡ false
      → ((h : Bytes) → Below c link.domain top h → In h hashes)
      → length hashes ≤ max_records
      → (enrs : List Enr) × (resolve address ≡ ok enrs)
        × ((enr : Enr) → In enr enrs ↔ InTree c link.domain top enr)
  unfolding resolve
  resolve_iff address link records text top hashes p t f v n whole small = (
    (walk c link.domain max_records start (top ∷ [])).enrs,
    rw (resolve, p, t, f, v) refl,
    λ enr. (
      All-In (InTree c link.domain top) enr (walk c link.domain max_records start (top ∷ [])).enrs
          (walk-InTree c link.domain top max_records start (top ∷ []) (here, tt) tt),
      λ (h, b, m).
          (walk_whole c link.domain max_records top n
              (walk_not_cut c link.domain top max_records hashes whole small) h b).1
            enr m,
    ),
  )
