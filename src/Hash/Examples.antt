-- ===== src/Hash/Examples.antt =====
-- The hash at concrete inputs.
use rs_waku.Prelude.{◌≡◌, ◌++◌, [], ◌∷◌, refl, arith, none, some}
use rs_waku.Prelude.Bytes.{Bytes, codes, to_be_bytes}
use rs_waku.Prelude.Int.{negsuc}
use rs_waku.Message.{WakuMessage, new}
use rs_waku.Hash.{deterministic_hash, preimage, hash_hex}
use rs_waku.Hash.Layout.{hash_boundary}
use rs_waku.Hash.Hex.{hash_hex-injective}

abbrev hello : WakuMessage
hello = new (codes "/toychat/2/huilong/proto") (codes "hello")

hex_of_two : hash_hex (0x0f ∷ 0xa0 ∷ []) ≡ codes "0fa0"
unfolding hash_hex
hex_of_two = refl

preimage_with_time :
    preimage (codes "t") (record (new (codes "c") (codes "p")) { timestamp = some (negsuc 1) })
    ≡ codes "tpc" ++ 255 ∷ 255 ∷ 255 ∷ 255 ∷ 255 ∷ 255 ∷ 255 ∷ 254 ∷ []
unfolding preimage to_be_bytes
preimage_with_time = refl

-- The identity keeps all inputs apart.
abbrev identity : Bytes → Bytes
identity bs = bs

hash_boundary_example :
    deterministic_hash identity
      (codes "t")
      (record hello { payload = codes "p" ++ codes "x"; content_topic = codes "c"; meta = none })
    ≡ deterministic_hash identity (codes "t") (record hello {
      payload = codes "p";
      content_topic = codes "x" ++ codes "c";
      meta = some [];
    })
hash_boundary_example = hash_boundary identity (codes "t") (codes "p") (codes "x") (codes "c") hello

abbrev two : Bytes
two = 1 ∷ 2 ∷ []

hash_hex-injective_example : ◌≡◌ {A = Bytes} (1 ∷ 2 ∷ []) (1 ∷ 2 ∷ [])
hash_hex-injective_example =
    hash_hex-injective (1 ∷ 2 ∷ []) (1 ∷ 2 ∷ []) (omega arith) (omega arith) refl
