-- ===== src/Dns.antt =====
-- crates/waku-discv5/src/dns.rs: the resolver of `enrtree://` node lists (EIP-1459). DNS, Keccak-256,
-- the base encodings, secp256k1 and the parser of ENRs are the fields of a record, and so are the
-- functions of `str` that go by Unicode's tables. The system resolver is left out.
pub mod Walk
pub mod Tree
pub mod Coverage
pub mod Counting
pub mod Resolve
mod Examples
use mathlib.Core.Option
use rs_waku.Prelude.{
  ℕ, zero, suc, ◌≡◌, List, [], ◌∷◌, ◌++◌, map, Bool, true, false, ◌||◌, not, Option, none, some,
  if◌then◌else◌, ltb, length, take, drop, filter, is_empty,
}
use rs_waku.Prelude.Bytes.{Bytes, codes}
use rs_waku.Prelude.Eq.{◌==◌, nat_eq, list_eq, contains}
use rs_waku.Prelude.Text.{strip_prefix, split_once, split}
use rs_waku.Prelude.Outcome.{Result, ok, err, ◌>>=◌}

pub data DnsError : Type 0 where
  url : Bytes → DnsError
  root : Bytes → DnsError
  signature : DnsError
  resolve_failed : Bytes → DnsError

-- What the resolver calls: `Key` and `Signature` are those of k256, and an error of a decoder is its text.
pub record Calls (Enr Key Signature : Type 0) : Type 0 where
  pub txt : Bytes → Result DnsError (List Bytes)
  pub keccak256 : Bytes → Bytes
  pub base32_encode : Bytes → Bytes
  pub base32_decode : Bytes → Result Bytes Bytes
  pub base64url_decode : Bytes → Result Bytes Bytes
  pub key_from_bytes : Bytes → Option Key
  pub signature_from_slice : Bytes → Option Signature
  pub verify_prehash : Key → Bytes → Signature → Bool
  pub enr_from_str : Bytes → Option Enr
  pub to_uppercase : Bytes → Bytes
  pub trim : Bytes → Bytes
  pub split_whitespace : Bytes → List Bytes

pub record EnrTreeLink : Type 0 where
  pub pubkey : Bytes
  pub domain : Bytes

-- `MAX_RECORDS`
abbrev pub max_records : ℕ
max_records = 5000

-- `ok_or_else`
abbrev pub ok_or {ℓ} : {A : Type ℓ} → Option A → DnsError → Result DnsError A
ok_or none e = err e
ok_or (some a) e = ok a

-- `map_err`
abbrev pub or_text {ℓ} : {A : Type ℓ} → Result Bytes A → (Bytes → DnsError) → Result DnsError A
or_text (ok a) f = ok a
or_text (err e) f = err (f e)

-- An early return.
abbrev pub refuse_if : Bool → DnsError → Result DnsError (Unit {0})
refuse_if b e = if b then err e else ok tt

-- The text before the first `pattern` and the text after it.
unfoldable pub split_at : Bytes → Bytes → Option (Bytes × Bytes)
split_at pattern [] = none
split_at pattern (c ∷ s) =
    let later = Option.map (λ (p : Bytes × Bytes). (c ∷ p.0, p.1)) (split_at pattern s) in
    elim (strip_prefix pattern (c ∷ s)) [ some rest ↦ some ([], rest) | none ↦ later ]

-- The first that has the prefix, without it.
unfoldable pub find_stripped : Bytes → List Bytes → Option Bytes
find_stripped prefix [] = none
find_stripped prefix (t ∷ rest) =
    let later = find_stripped prefix rest in
    elim (strip_prefix prefix t) [ some s ↦ some s | none ↦ later ]

abbrev pub starts_with : Bytes → Bytes → Bool
starts_with prefix s = elim (strip_prefix prefix s) [ some rest ↦ true | none ↦ false ]

unfoldable pub find_starting : Bytes → List Bytes → Option Bytes
find_starting prefix [] = none
find_starting prefix (r ∷ rest) =
    let later = find_starting prefix rest in if starts_with prefix r then some r else later

module _ {Enr Key Signature : Type 0} (c : Calls Enr Key Signature) where
  unfoldable pub parse_enrtree : Bytes → Result DnsError EnrTreeLink
  parse_enrtree address = do
    rest ← ok_or (strip_prefix (codes "enrtree://") address) (url address)
    (b32key, domain) ← ok_or (split_once b'@' rest) (url address)
    pubkey ←
        or_text (c.base32_decode (c.to_uppercase b32key))
          (λ e. url (codes "bad base32 pubkey: " ++ e))
    ok (record { pubkey = pubkey; domain = domain })

  unfoldable pub subdomain_hash : Bytes → Bytes
  subdomain_hash content = c.base32_encode (take 16 (c.keccak256 content))

  unfoldable pub verify_secp256k1 : Bytes → Bytes → Bytes → Result DnsError (Unit {0})
  verify_secp256k1 msg sig_rs pubkey = do
    vk ← ok_or (c.key_from_bytes pubkey) signature
    sig ← ok_or (c.signature_from_slice sig_rs) signature
    refuse_if (not (c.verify_prehash vk (c.keccak256 msg) sig)) signature

  -- The hash of the root of the `e` subtree.
  unfoldable pub verify_root : Bytes → Bytes → Result DnsError Bytes
  unfolding verify_secp256k1
  verify_root text pubkey = do
    (signed, after) ← ok_or (split_at (codes " sig=") text) (root (codes "missing sig"))
    sig ← or_text (c.base64url_decode (c.trim after)) (λ e. root (codes "bad sig base64: " ++ e))
    long ← refuse_if (ltb (length sig) 64) (root (codes "sig too short"))
    verified ← verify_secp256k1 signed (take 64 sig) pubkey
    ok_or (find_stripped (codes "e=") (c.split_whitespace signed)) (root (codes "missing e="))

  -- The first record under a hash, if it hashes to it.
  unfoldable pub content_of : Bytes → Bytes → Option Bytes
  unfolding subdomain_hash
  content_of domain hash = elim (c.txt (hash ++ b'.' ∷ domain)) [
    | err e ↦ none
    | ok [] ↦ none
    | ok (content ∷ rest) ↦ if subdomain_hash content == hash then some content else none
  ]

  unfoldable pub children_of : Option Bytes → List Bytes
  children_of none = []
  children_of (some content) = elim (strip_prefix (codes "enrtree-branch:") content) [
    | none ↦ []
    | some branch ↦ filter (λ h. not (is_empty h)) (map c.trim (split b',' branch))
  ]

  unfoldable pub enrs_of : Option Bytes → List Enr
  enrs_of none = []
  enrs_of (some content) = elim (strip_prefix (codes "enrtree-branch:") content) [
    | some branch ↦ []
    | none ↦
        if starts_with (codes "enr:") content
        then elim (c.enr_from_str content) [ some enr ↦ enr ∷ [] | none ↦ [] ]
        else []
  ]
