-- ===== src/Prelude/Bytes.antt =====
-- Byte strings: Rust's `&[u8]` and, as its UTF-8 bytes, `&str`; big-endian words.
use Prim.Native.Nat.{ℕ, zero, suc, ◌+◌, ◌*◌, ◌/◌, ◌%◌, ◌^◌, ◌<◌}
use Prim.Native.Char.{code}
use Prim.Native.String.{String}
use mathlib.Core.Path.{◌≡◌, refl, ap, ◌∙◌}
use mathlib.Core.List.{List, [], ◌∷◌, ◌++◌}
use native.Mathlib.Omega.{arith}
use rs_waku.Prelude.Lists.{All, All-append, length, length-append}

abbrev pub Bytes : Type 0
Bytes = List ℕ

abbrev pub IsByte : ℕ → Type 0
IsByte b = b < 256

abbrev pub IsBytes : Bytes → Type 0
IsBytes = All IsByte

abbrev pub IsU16 : ℕ → Type 0
IsU16 n = n < 65536

-- The bytes of an ASCII text.
abbrev pub codes : String → Bytes
codes String.[] = []
codes (String.◌∷◌ c s) = code c ∷ codes s

-- `n.to_be_bytes()` of a word of `w` bytes, and `from_be_bytes`.
unfoldable pub to_be_bytes : ℕ → ℕ → Bytes
to_be_bytes zero n = []
to_be_bytes (suc w) n = to_be_bytes w (n / 256) ++ (n % 256 ∷ [])

unfoldable pub from_be_bytes_acc : ℕ → Bytes → ℕ
from_be_bytes_acc acc [] = acc
from_be_bytes_acc acc (b ∷ bs) = from_be_bytes_acc (acc * 256 + b) bs

unfoldable pub from_be_bytes : Bytes → ℕ
unfolding from_be_bytes_acc
from_be_bytes bs = from_be_bytes_acc 0 bs

pub length-to_be_bytes : (w n : ℕ) → length (to_be_bytes w n) ≡ w
unfolding to_be_bytes
length-to_be_bytes zero n = refl
length-to_be_bytes (suc w) n =
    length-append (to_be_bytes w (n / 256)) (n % 256 ∷ [])
    ∙ omega (arith, length-to_be_bytes w (n / 256))

from_be_bytes_acc-append :
    (acc : ℕ) (xs ys : Bytes)
    → from_be_bytes_acc acc (xs ++ ys) ≡ from_be_bytes_acc (from_be_bytes_acc acc xs) ys
unfolding from_be_bytes_acc
from_be_bytes_acc-append acc [] ys = refl
from_be_bytes_acc-append acc (x ∷ xs) ys = from_be_bytes_acc-append (acc * 256 + x) xs ys

from_be_bytes_acc-to_be_bytes : (w n : ℕ) → n < 256 ^ w → from_be_bytes_acc 0 (to_be_bytes w n) ≡ n
unfolding from_be_bytes_acc to_be_bytes
from_be_bytes_acc-to_be_bytes zero n h = omega arith
from_be_bytes_acc-to_be_bytes (suc w) n h =
    from_be_bytes_acc-append 0 (to_be_bytes w (n / 256)) (n % 256 ∷ [])
    ∙ ap (λ (t : ℕ). t * 256 + n % 256) (from_be_bytes_acc-to_be_bytes w (n / 256) (omega arith))
    ∙ omega arith

-- The word comes back from its bytes.
pub from_be_bytes-to_be_bytes : (w n : ℕ) → n < 256 ^ w → from_be_bytes (to_be_bytes w n) ≡ n
unfolding from_be_bytes
from_be_bytes-to_be_bytes = from_be_bytes_acc-to_be_bytes

pub to_be_bytes-IsBytes : (w n : ℕ) → IsBytes (to_be_bytes w n)
unfolding to_be_bytes
to_be_bytes-IsBytes zero n = tt
to_be_bytes-IsBytes (suc w) n =
    All-append IsByte (to_be_bytes w (n / 256)) (n % 256 ∷ []) (to_be_bytes-IsBytes w (n / 256))
      (omega arith)

pub two_bytes : (n : ℕ) → IsU16 n → to_be_bytes 2 n ≡ n / 256 ∷ n % 256 ∷ []
unfolding to_be_bytes
two_bytes n h = ground arith

pub word_of_bytes : (a b : ℕ) → from_be_bytes (a ∷ b ∷ []) ≡ a * 256 + b
unfolding from_be_bytes
word_of_bytes a b = omega arith
