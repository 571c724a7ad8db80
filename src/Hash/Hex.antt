-- ===== src/Hash/Hex.antt =====
-- The hexadecimal form of a hash.
use rs_waku.Prelude.{ℕ, ◌≡◌, ◌≤◌, ◌<◌, ◌*◌, ◌/◌, ◌%◌, ◌⊎◌, [], ◌∷◌, arith, All, length}
use rs_waku.Prelude.Bytes.{Bytes, IsBytes}
use rs_waku.Hash.{hash_hex, hex_digit}

hex_digit-injective : (c d : ℕ) → c < 16 → d < 16 → hex_digit c ≡ hex_digit d → c ≡ d
hex_digit-injective c d hc hd e = ground arith

-- `0` to `9` or `a` to `f`.
abbrev pub IsHexDigit : ℕ → Type 0
IsHexDigit c = ((48 ≤ c) × (c ≤ 57)) ⊎ ((97 ≤ c) × (c ≤ 102))

hex_digit-IsHexDigit : (d : ℕ) → d < 16 → IsHexDigit (hex_digit d)
hex_digit-IsHexDigit d h = ground arith

byte_of_digits : (a b : ℕ) → a / 16 ≡ b / 16 → a % 16 ≡ b % 16 → a ≡ b
byte_of_digits a b p q = omega arith

hash_hex_digits : (bs : Bytes) → IsBytes bs → All IsHexDigit (hash_hex bs)
unfolding hash_hex
hash_hex_digits [] h = tt
hash_hex_digits (b ∷ bs) h = (
  hex_digit-IsHexDigit (b / 16) (omega arith),
  (hex_digit-IsHexDigit (b % 16) (omega arith), hash_hex_digits bs h.1),
)

length-hash_hex : (bs : Bytes) → length (hash_hex bs) ≡ 2 * length bs
unfolding hash_hex
length-hash_hex [] = omega arith
length-hash_hex (b ∷ bs) = omega (arith, length-hash_hex bs)

-- The form of a byte string has two lowercase hexadecimal digits for each byte.
pub hash_hex_shape :
    (bs : Bytes)
    → IsBytes bs
    → (length (hash_hex bs) ≡ 2 * length bs) × All IsHexDigit (hash_hex bs)
hash_hex_shape bs h = (length-hash_hex bs, hash_hex_digits bs h)

-- Different byte strings have different forms.
pub hash_hex-injective :
    (xs ys : Bytes) → IsBytes xs → IsBytes ys → hash_hex xs ≡ hash_hex ys → xs ≡ ys
unfolding hash_hex
hash_hex-injective [] [] hx hy e = cc
hash_hex-injective [] (y ∷ ys) hx hy e = cc
hash_hex-injective (x ∷ xs) [] hx hy e = cc
hash_hex-injective (x ∷ xs) (y ∷ ys) hx hy e = ground (
  arith,
  hex_digit-injective (x / 16) (y / 16),
  hex_digit-injective (x % 16) (y % 16),
  byte_of_digits x y,
  hash_hex-injective xs ys,
)
