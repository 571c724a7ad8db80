-- ===== src/Dns/Examples.antt =====
-- A small tree: a branch with one leaf, under the domain `d`. Keccak-256 and the encodings are stood in
-- for by functions that change nothing.
use rs_waku.Prelude.{
  ◌≤◌, ◌≡◌, ◌↔◌, inl, inr, refl, ap, ◌∙◌, List, [], ◌∷◌, some, length, replicate, All, arith,
  if◌then◌else◌, true,
}
use rs_waku.Prelude.Bytes.{Bytes, codes}
use rs_waku.Prelude.Eq.{◌==◌, nat_eq, list_eq}
use rs_waku.Prelude.Text.{strip_prefix, split_once, split}
use rs_waku.Prelude.Outcome.{Result, ok, err}
use rs_waku.Prelude.Sorted.{In}
use rs_waku.Dns.{
  Calls, DnsError, resolve_failed, EnrTreeLink, parse_enrtree, split_at, find_stripped,
  find_starting, verify_secp256k1, verify_root, subdomain_hash, content_of, children_of, enrs_of,
}
use rs_waku.Dns.Walk.{start, push_all, visit, walk}
use rs_waku.Dns.Tree.{Below, here, child, InTree}
use rs_waku.Dns.Counting.{IsUnique, walk_bounds}
use rs_waku.Dns.Resolve.{resolve, resolve_iff}

abbrev branch : Bytes
branch = codes "enrtree-branch:enr:abcdefghijkl"

abbrev leaf : Bytes
leaf = codes "enr:abcdefghijkl"

abbrev top : Bytes
top = codes "enrtree-branch:e"

abbrev root_text : Bytes
root_text = codes "enrtree-root:v1 e=enrtree-branch:e sig=s"

abbrev look_up : Bytes → Result DnsError (List Bytes)
look_up name =
    if name == codes "d"
    then ok (root_text ∷ [])
    else if name == codes "enrtree-branch:e.d"
    then ok (branch ∷ [])
    else if name == codes "enr:abcdefghijkl.d"
    then ok (leaf ∷ [])
    else err (resolve_failed name)

abbrev calls : Calls Bytes Bytes Bytes
calls = record {
  txt = look_up;
  keccak256 = λ s. s;
  base32_encode = λ s. s;
  base32_decode = λ s. ok s;
  base64url_decode = λ s. ok (replicate 64 0);
  key_from_bytes = λ s. some s;
  signature_from_slice = λ s. some s;
  verify_prehash = λ k m s. true;
  enr_from_str = λ s. some s;
  to_uppercase = λ s. s;
  trim = λ s. s;
  split_whitespace = split b' ';
}

abbrev address : Bytes
address = codes "enrtree://K@d"

abbrev link : EnrTreeLink
link = record { pubkey = codes "K"; domain = codes "d" }

parsed : parse_enrtree calls address ≡ ok link
unfolding parse_enrtree strip_prefix split_once
parsed = refl

rooted : find_starting (codes "enrtree-root:v1") (root_text ∷ []) ≡ some root_text
unfolding find_starting strip_prefix
rooted = refl

verified : verify_root calls root_text (codes "K") ≡ ok top
unfolding verify_root verify_secp256k1 split_at find_stripped strip_prefix split
verified = refl

children_of-top : children_of calls (content_of calls (codes "d") top) ≡ leaf ∷ []
unfolding children_of content_of subdomain_hash strip_prefix split
children_of-top = refl

children_of-leaf : children_of calls (content_of calls (codes "d") leaf) ≡ []
unfolding children_of content_of subdomain_hash strip_prefix split
children_of-leaf = refl

In-eq : (x : Bytes) (xs ys : List Bytes) → xs ≡ ys → In x xs → In x ys
In-eq x xs ys e m = rw (← e) m

below : Bytes → List Bytes
below h = children_of calls (content_of calls (codes "d") h)

whole : (h : Bytes) → Below calls (codes "d") top h → In h (top ∷ leaf ∷ [])
unfolding below
whole h here = inl refl
whole h (child {hash} {next} b m) = elim (whole hash b) [
  | inl e ↦ inr (In-eq next (below hash) (leaf ∷ []) (ap below e ∙ children_of-top) m)
  | inr (inl e) ↦ absurd (In-eq next (below hash) [] (ap below e ∙ children_of-leaf) m)
  | inr (inr n) ↦ absurd n
]

resolved : resolve calls address ≡ ok (leaf ∷ [])
unfolding resolve walk visit push_all parse_enrtree strip_prefix split_once find_starting
    verify_root verify_secp256k1 split_at find_stripped split children_of enrs_of content_of
    subdomain_hash
resolved = refl

resolve_iff_example :
    (enrs : List Bytes) × (resolve calls address ≡ ok enrs)
    × ((enr : Bytes) → In enr enrs ↔ InTree calls (codes "d") top enr)
resolve_iff_example =
    resolve_iff calls address link (root_text ∷ []) root_text top (top ∷ leaf ∷ []) parsed refl
      rooted verified refl whole (omega arith)

walk_bounds_example :
    (length (walk calls (codes "d") 1 start (top ∷ [])).asked ≤ 1)
    × IsUnique (walk calls (codes "d") 1 start (top ∷ [])).asked
    × All (Below calls (codes "d") top) (walk calls (codes "d") 1 start (top ∷ [])).asked
walk_bounds_example = walk_bounds calls (codes "d") top 1
