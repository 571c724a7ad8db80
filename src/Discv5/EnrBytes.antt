-- ===== src/Discv5/EnrBytes.antt =====
-- crates/waku-discv5/src/lib.rs: ENRs as bytes. The text of an ENR and the base64 coding are parameters.
use rs_waku.Prelude.{◌≡◌, sym, ap, ◌∙◌, ◌++◌, [], Option, some}
use mathlib.Core.Option
use rs_waku.Prelude.Bytes.{Bytes, codes}
use rs_waku.Prelude.Outcome.{Result, ok, err}
use rs_waku.Prelude.Text.{strip_prefix, strip_prefix-append}
use rs_waku.Discv5.{to_option}

pub record EnrText (Enr : Type 0) : Type 0 where
  pub to_base64 : Enr → Bytes
  pub from_str : Bytes → Result Bytes Enr
  pub base64url_encode : Bytes → Bytes
  pub base64url_decode : Bytes → Result Bytes Bytes

abbrev pub enr_prefix : Bytes
enr_prefix = codes "enr:"

module _ {Enr : Type 0} (t : EnrText Enr) where
  unfoldable pub enr_to_bytes : Enr → Bytes
  enr_to_bytes enr =
      let s = t.to_base64 enr in
      let b64 = Option.get_or (strip_prefix enr_prefix s) s in
      elim (t.base64url_decode b64) [ ok bytes ↦ bytes | err e ↦ [] ]

  unfoldable pub enr_from_bytes : Bytes → Option Enr
  enr_from_bytes bytes = to_option (t.from_str (enr_prefix ++ t.base64url_encode bytes))

  -- The text of an ENR is `enr:` and the base64 of its bytes, and the parser reads it back.
  pub record IsEnrText : Type 0 where
    pub encoded :
        (enr : Enr) → (rlp : Bytes) × (t.to_base64 enr ≡ enr_prefix ++ t.base64url_encode rlp)
    pub decoded : (bytes : Bytes) → t.base64url_decode (t.base64url_encode bytes) ≡ ok bytes
    pub parsed : (enr : Enr) → t.from_str (t.to_base64 enr) ≡ ok enr

  -- The bytes of an ENR are read back as that ENR: its text is `enr:` and the base64 of some bytes, the base64
  -- decoder reads what the encoder writes, and the parser of ENRs reads their text.
  pub enr_from_bytes-enr_to_bytes :
      IsEnrText → (enr : Enr) → enr_from_bytes (enr_to_bytes enr) ≡ some enr
  unfolding enr_from_bytes enr_to_bytes
  enr_from_bytes-enr_to_bytes law enr =
      let (rlp, text) = law.encoded enr in
      rw
        (
          enr_to_bytes,
          enr_from_bytes,
          text,
          strip_prefix-append enr_prefix (t.base64url_encode rlp),
          law.decoded rlp,
        )
        (ap to_option (ap t.from_str (sym text) ∙ law.parsed enr))
