-- ===== src/Wakunode/KeyFile.antt =====
-- `load_or_create_key` of wakunode/src/main.rs. The file system is a map from paths to contents, with the
-- paths that can be read and written; the mode of the new file is left out. An I/O error is its text.
use mathlib.Core.Path.{subst}
use rs_waku.Prelude.{
  ◌≡◌, refl, sym, ap, ◌∙◌, Bool, true, Option, none, some, if◌then◌else◌, Option-cases, Bool-cases,
  inl, inr,
}
use rs_waku.Prelude.Bytes.{Bytes, codes}
use rs_waku.Prelude.Eq.{list_eq, nat_eq, eq_refl, ◌==◌}
use rs_waku.Prelude.Assoc.{Assoc, lookup, insert, lookup-insert}
use rs_waku.Prelude.Outcome.{Result, ok, err, ◌>>=◌, >>=-eq-ok, ok-injective}

pub record Disk : Type 0 where
  pub files : Assoc Bytes Bytes
  pub can_read : Bytes → Bool
  pub can_write : Bytes → Bool

-- The calls of libp2p and of hex; `secret_of` is that of a secp256k1 key.
pub record KeyCalls (Keypair : Type 0) : Type 0 where
  pub secret_of : Keypair → Bytes
  pub from_secret : Bytes → Result Bytes Keypair
  pub hex_encode : Bytes → Bytes
  pub hex_decode : Bytes → Result Bytes Bytes
  pub trim : Bytes → Bytes

abbrev pub read_to_string : Disk → Bytes → Result Bytes Bytes
read_to_string disk path = elim (lookup path disk.files) [
  | none ↦ err (codes "not found")
  | some content ↦ if disk.can_read path then ok content else err (codes "cannot be read")
]

abbrev pub write : Disk → Bytes → Bytes → Result Bytes Disk
write disk path content =
    if disk.can_write path
    then ok (record disk { files = insert path content disk.files })
    else err (codes "cannot be written")

module _ {Keypair : Type 0} (c : KeyCalls Keypair) where
  -- The key of a file's text.
  unfoldable pub key_of_text : Bytes → Result Bytes Keypair
  key_of_text hex_str = do bytes ← c.hex_decode (c.trim hex_str); c.from_secret bytes

  -- The key, and the disk after; `generated` is what the generator gives.
  unfoldable pub load_or_create_key : Keypair → Disk → Bytes → Result Bytes (Keypair × Disk)
  unfolding key_of_text
  load_or_create_key generated disk path = elim (lookup path disk.files) [
    | some content ↦ do
      hex_str ← read_to_string disk path
      key ← key_of_text hex_str
      ok (key, disk)
    | none ↦ do
      after ← write disk path (c.hex_encode (c.secret_of generated))
      ok (generated, after)
  ]

  -- What is written of a key is read back.
  pub record IsKeyText : Type 0 where
    pub trimmed : (bytes : Bytes) → c.trim (c.hex_encode bytes) ≡ c.hex_encode bytes
    pub decoded : (bytes : Bytes) → c.hex_decode (c.hex_encode bytes) ≡ ok bytes
    pub rebuilt : (key : Keypair) → c.from_secret (c.secret_of key) ≡ ok key

  key_of_text-written :
      IsKeyText → (key : Keypair) → key_of_text (c.hex_encode (c.secret_of key)) ≡ ok key
  unfolding key_of_text
  key_of_text-written law key =
      rw (key_of_text, law.trimmed (c.secret_of key), law.decoded (c.secret_of key))
        (law.rebuilt key)

  load_of_file :
      (generated : Keypair) (disk : Disk) (path content : Bytes)
      → disk.can_read path ≡ true
      → lookup path disk.files ≡ some content
      → load_or_create_key generated disk path ≡ (key_of_text content >>= (λ key. ok (key, disk)))
  unfolding load_or_create_key
  load_of_file generated disk path content r q =
      rw (load_or_create_key, q, read_to_string, q, r) refl

  load_without_file :
      (generated : Keypair) (disk after : Disk) (path : Bytes) (key : Keypair)
      → lookup path disk.files ≡ none
      → load_or_create_key generated disk path ≡ ok (key, after)
      → (key ≡ generated)
        × (after
            ≡ record disk { files = insert path (c.hex_encode (c.secret_of generated)) disk.files })
  unfolding load_or_create_key
  load_without_file generated disk after path key n h =
      let (wrote, w, pair) =
        >>=-eq-ok (write disk path (c.hex_encode (c.secret_of generated))) (λ a. ok (generated, a))
          (rw (load_or_create_key, n) at h) in
      (
        λ i. (ok-injective (sym pair) i).0,
        elim (Bool-cases (disk.can_write path)) [
          | inl y ↦ (λ i. (ok-injective (sym pair) i).1) ∙ sym (ok-injective (rw y at w))
          | inr y ↦ cc (rw y at w)
        ],
      )

  -- The file that a load leaves at a path.
  abbrev pub file_after : Keypair → Disk → Bytes → Bytes → Option Bytes
  file_after generated disk path other = elim (lookup path disk.files) [
    | some content ↦ lookup other disk.files
    | none ↦
        if path == other
        then some (c.hex_encode (c.secret_of generated))
        else lookup other disk.files
  ]

  -- A load that succeeds leaves every file as it was, but that it writes the hex of the generated key's secret
  -- where there was no file; and every later load, whatever key is generated then, returns the same key and
  -- leaves the disk as it is. The path can be read, and a key is read back from the hex of its secret.
  pub load_or_create_key-again :
      (law : IsKeyText) (first second : Keypair) (disk after : Disk) (path other : Bytes)
      (key : Keypair)
      → disk.can_read path ≡ true
      → load_or_create_key first disk path ≡ ok (key, after)
      → (load_or_create_key second after path ≡ ok (key, after))
        × (lookup other after.files ≡ file_after first disk path other)
  load_or_create_key-again law first second disk after path other key r h =
      elim (Option-cases (lookup path disk.files)) [
        | inr (content, q) ↦
            let (found, k, pair) =
              >>=-eq-ok (key_of_text content) (λ x. ok (x, disk))
                (sym (load_of_file first disk path content r q) ∙ h) in
            let same : disk ≡ after = λ i. (ok-injective pair i).1 in
            let again : load_or_create_key second disk path ≡ ok (key, disk) =
              load_of_file second disk path content r q
              ∙ sym (load_of_file first disk path content r q)
              ∙ h
              ∙ ap (λ x. ok (key, x)) (sym same) in
            (
              subst (λ x. load_or_create_key second x path ≡ ok (key, x)) same again,
              ap (λ (x : Disk). lookup other x.files) (sym same) ∙ rw (file_after, q) refl,
            )
        | inl n ↦
            let (own, made) = load_without_file first disk after path key n h in
            let text = c.hex_encode (c.secret_of first) in
            let new = record disk { files = insert path text disk.files } in
            let again : load_or_create_key second new path ≡ ok (first, new) =
              load_of_file second new path text r
                (lookup-insert path path text disk.files ∙ rw (eq_refl path) refl)
              ∙ ap (λ k. k >>= (λ x. ok (x, new))) (key_of_text-written law first) in
            (
              subst (λ x. load_or_create_key second x path ≡ ok (key, x)) (sym made)
                  (again ∙ ap (λ k. ok (k, new)) (sym own)),
              ap (λ (x : Disk). lookup other x.files) made
                  ∙ lookup-insert path other text disk.files
                  ∙ rw (file_after, n) refl,
            )
      ]
