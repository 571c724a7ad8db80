-- ===== src/Prelude/Decimal.antt =====
-- Rust's decimal `Display` and `from_str` of a `u16`.
use Prim.Native.Nat.{ℕ, zero, suc, ◌+◌, ◌-◌, ◌*◌, ◌/◌, ◌%◌, ◌^◌, ◌<◌, ◌≤◌}
use mathlib.Core.Path.{◌≡◌, refl}
use mathlib.Core.Logic.{◌≢◌}
use mathlib.Core.Bool.{Bool, ◌&&◌}
use mathlib.Core.Option.{Option, none, some}
use mathlib.Core.List.{[], ◌∷◌, ◌++◌}
use native.Mathlib.Omega.{arith}
use rs_waku.Prelude.Tests.{eqb, ltb, leb, if◌then◌else◌}
use rs_waku.Prelude.Lists.{All, All-append}
use rs_waku.Prelude.Bytes.{Bytes, IsU16}

-- `rounds` bounds the number of digits; a u16 has five at most.
unfoldable pub decimal : ℕ → ℕ → Bytes
decimal zero n = []
decimal (suc rounds) n =
    let front = decimal rounds (n / 10) in
    if ltb n 10 then (48 + n) ∷ [] else front ++ ((48 + n % 10) ∷ [])

unfoldable pub show_u16 : ℕ → Bytes
unfolding decimal
show_u16 n = decimal 5 n

abbrev pub is_digit : ℕ → Bool
is_digit c = leb 48 c && leb c 57

-- The digits, with the checked multiplication and addition of `u16`.
unfoldable pub digits_u16 : ℕ → Bytes → Option ℕ
digits_u16 acc [] = some acc
digits_u16 acc (c ∷ s) =
    let rest = digits_u16 (acc * 10 + (c - 48)) s in
    if is_digit c && ltb (acc * 10 + (c - 48)) 65536 then rest else none

-- A sign `+` may stand in front; an empty text and a lone sign are refused.
unfoldable pub parse_u16 : Bytes → Option ℕ
unfolding digits_u16
parse_u16 [] = none
parse_u16 (c ∷ []) = digits_u16 0 (c ∷ [])
parse_u16 (c ∷ d ∷ s) = if eqb c b'+' then digits_u16 0 (d ∷ s) else digits_u16 0 (c ∷ d ∷ s)

digits_u16-append :
    (acc : ℕ) (xs ys : Bytes) {n : ℕ}
    → digits_u16 acc xs ≡ some n
    → digits_u16 acc (xs ++ ys) ≡ digits_u16 n ys
unfolding digits_u16
digits_u16-append acc [] ys h = ground arith
digits_u16-append acc (c ∷ xs) ys {n} h =
    ground (arith, digits_u16-append (acc * 10 + (c - 48)) xs ys {n = n})

last_digit :
    (n d : ℕ) → d < 10 → n * 10 + d < 65536 → digits_u16 n ((48 + d) ∷ []) ≡ some (n * 10 + d)
unfolding digits_u16
last_digit n d h k = ground arith

digits_u16-decimal :
    (k n : ℕ) → n < 10 ^ suc k → n < 65536 → digits_u16 0 (decimal (suc k) n) ≡ some n
unfolding decimal
digits_u16-decimal zero n h w = ground (arith, last_digit 0 n)
digits_u16-decimal (suc k) n h w = ground (
  arith,
  last_digit 0 n,
  last_digit (n / 10) (n % 10),
  digits_u16-append 0 (decimal (suc k) (n / 10)) ((48 + n % 10) ∷ []) {n = n / 10},
  digits_u16-decimal k (n / 10) (omega arith),
)

-- A digit is neither a sign nor a slash.
abbrev pub IsDigit : ℕ → Type 0
IsDigit c = (48 ≤ c) × (c ≤ 57)

decimal-IsDigit : (k n : ℕ) → n < 10 ^ suc k → All IsDigit (decimal (suc k) n)
unfolding decimal
decimal-IsDigit zero n h = ground arith
decimal-IsDigit (suc k) n h = ground (
  arith,
  All-append IsDigit (decimal (suc k) (n / 10)) ((48 + n % 10) ∷ [])
      (decimal-IsDigit k (n / 10) (omega arith)) (omega arith),
)

pub show_u16-IsDigit : (n : ℕ) → IsU16 n → All IsDigit (show_u16 n)
unfolding show_u16
show_u16-IsDigit n h = decimal-IsDigit 4 n (omega arith)

parse_digits :
    (s : Bytes) {n : ℕ} → s ≢ [] → All IsDigit s → digits_u16 0 s ≡ some n → parse_u16 s ≡ some n
unfolding parse_u16
parse_digits [] h d e = absurd (h refl)
parse_digits (c ∷ []) h d e = e
parse_digits (c ∷ x ∷ s) h d e = ground arith

snoc-ne : (xs : Bytes) (c : ℕ) → xs ++ c ∷ [] ≢ []
snoc-ne [] c h = cc
snoc-ne (x ∷ xs) c h = cc

decimal-ne : (k n : ℕ) → decimal (suc k) n ≢ []
unfolding decimal
decimal-ne zero n h = ground arith
decimal-ne (suc k) n h = ground (arith, snoc-ne (decimal (suc k) (n / 10)) (48 + n % 10))

-- `from_str` reads back what `Display` wrote.
pub parse_u16-show_u16 : (n : ℕ) → IsU16 n → parse_u16 (show_u16 n) ≡ some n
unfolding show_u16
parse_u16-show_u16 n h =
    parse_digits (decimal 5 n) (decimal-ne 4 n) (decimal-IsDigit 4 n (omega arith))
      (digits_u16-decimal 4 n (omega arith) h)

digits_u16-IsU16 : (acc : ℕ) (s : Bytes) {n : ℕ} → IsU16 acc → digits_u16 acc s ≡ some n → IsU16 n
unfolding digits_u16
digits_u16-IsU16 acc [] h e = ground arith
digits_u16-IsU16 acc (c ∷ s) {n} h e =
    ground (arith, digits_u16-IsU16 (acc * 10 + (c - 48)) s {n = n})

-- What `from_str` accepts fits 16 bits.
pub parse_u16-IsU16 : (s : Bytes) {n : ℕ} → parse_u16 s ≡ some n → IsU16 n
unfolding parse_u16
parse_u16-IsU16 [] h = cc
parse_u16-IsU16 (c ∷ []) h = digits_u16-IsU16 0 (c ∷ []) (omega arith) h
parse_u16-IsU16 (c ∷ d ∷ s) {n} h = ground (
  arith,
  digits_u16-IsU16 0 (d ∷ s) {n = n} (omega arith),
  digits_u16-IsU16 0 (c ∷ d ∷ s) {n = n} (omega arith),
)
