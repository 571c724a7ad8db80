-- ===== src/Prelude/Bits.antt =====
-- Bit operations as arithmetic: a mask of seven ones, the top bit of a byte, and a disjoint `or`.
use Prim.Native.Nat.{ℕ, zero, suc, ◌+◌, ◌*◌, ◌/◌, ◌%◌, ◌^◌, ◌≤◌, ◌<◌, max}
use Prim.Native.Nat.{bit_and, bit_or, digits, bit_or-bitwise, bit_and-bitwise, min}
use mathlib.Core.Path.{◌≡◌, refl, ap}
use mathlib.Core.Bool.{Bool, true, false, not, ◌&&◌}
use native.Mathlib.Omega.{arith}
use rs_waku.Prelude.Tests.{eqb, eqb_iff, ltb, ltb→lt}

&&_right : (a b : Bool) → (a && b) ≡ true → b ≡ true
&&_right a b h = ground arith

&&_left : (a b : Bool) → (a && b) ≡ true → a ≡ true
&&_left a b h = ground arith

-- A test of all the numbers under a bound, which evaluation decides.
tests_under : (ℕ → Bool) → ℕ → Bool
tests_under test zero = true
tests_under test (suc bound) = test bound && tests_under test bound

passes_under :
    (test : ℕ → Bool) (bound : ℕ)
    → tests_under test bound ≡ true
    → (v : ℕ) → v < bound
    → test v ≡ true
unfolding tests_under
passes_under test zero passed v small = absurd (omega arith)
passes_under test (suc bound) passed v small = ground (
  arith,
  passed,
  passes_under test bound (&&_right (test bound) (tests_under test bound) passed) v,
  &&_left (test bound) (tests_under test bound) passed,
)

abbrev beq : Bool → Bool → Bool
beq true b = b
beq false b = not b

beq→eq : (a b : Bool) → beq a b ≡ true → a ≡ b
beq→eq true b h = ground arith
beq→eq false b h = ground arith

low_table : tests_under (λ x. eqb (bit_and x 0x7f) (x % 128)) 256 ≡ true
unfolding tests_under
low_table = refl

top_table : tests_under (λ x. eqb (bit_and x 0x80) (x / 128 * 128)) 256 ≡ true
unfolding tests_under
top_table = refl

set_table : tests_under (λ x. eqb (bit_or x 0x80) (x + 128)) 128 ≡ true
unfolding tests_under
set_table = refl

pub low_bits : (b : ℕ) → b < 256 → bit_and b 0x7f ≡ b % 128
low_bits b h = (eqb_iff _ _).0 (passes_under _ 256 low_table b h)

pub top_bit : (b : ℕ) → b < 256 → bit_and b 0x80 ≡ b / 128 * 128
top_bit b h = (eqb_iff _ _).0 (passes_under _ 256 top_table b h)

pub set_top_bit : (b : ℕ) → b < 128 → bit_or b 0x80 ≡ b + 128
set_top_bit b h = (eqb_iff _ _).0 (passes_under _ 128 set_table b h)

-- One bit of a byte set by `or`, and read by `and`, for every byte and every pair of bits.
set_read_table :
    tests_under
      (λ x.
        tests_under
          (λ i.
            ltb (bit_or x (2 ^ i)) 256
            && tests_under
                (λ j.
                  beq
                    (eqb (bit_and (bit_or x (2 ^ i)) (2 ^ j)) 0)
                    (not (eqb i j) && eqb (bit_and x (2 ^ j)) 0))
                8)
          8)
      256
    ≡ true
unfolding tests_under
set_read_table = refl

pub bit_or-lt : (x i : ℕ) → x < 256 → i < 8 → bit_or x (2 ^ i) < 256
bit_or-lt x i hx hi =
    ltb→lt _ _ (&&_left _ _ (passes_under _ 8 (passes_under _ 256 set_read_table x hx) i hi))

pub bit_and-bit_or :
    (x i j : ℕ)
    → x < 256
    → i < 8
    → j < 8
    → eqb (bit_and (bit_or x (2 ^ i)) (2 ^ j)) 0 ≡ (not (eqb i j) && eqb (bit_and x (2 ^ j)) 0)
bit_and-bit_or x i j hx hi hj = beq→eq _ _ (
    passes_under _ 8 (&&_right _ _ (passes_under _ 8 (passes_under _ 256 set_read_table x hx) i hi))
      j hj)

-- The native operations stand for `digits`, bit by bit from the lowest, which needs no more fuel than
-- its first operand.
module _ (left : ℕ → ℕ) (on_bits : ℕ → ℕ → ℕ) where
  enough : (x y k l : ℕ) → x ≤ k → x ≤ l → digits left on_bits k x y ≡ digits left on_bits l x y
  enough zero y zero zero u v = refl
  enough zero y zero (suc l) u v = refl
  enough zero y (suc k) zero u v = refl
  enough zero y (suc k) (suc l) u v = refl
  enough (suc x) y zero l u v = absurd (omega arith)
  enough (suc x) y (suc k) zero u v = absurd (omega arith)
  enough (suc x) y (suc k) (suc l) u v =
      ap (λ d. d * 2 + on_bits (suc x % 2) (y % 2))
        (enough (suc x / 2) (y / 2) k l (omega arith) (omega arith))

zero-bit_or : (b : ℕ) → bit_or 0 b ≡ b
zero-bit_or b = bit_or-bitwise 0 b

pub zero-bit_and : (b : ℕ) → bit_and 0 b ≡ 0
zero-bit_and b = bit_and-bitwise 0 b

or_halves : (x y : ℕ) → max (x % 2) (y % 2) + bit_or (x / 2) (y / 2) * 2 ≡ bit_or x y
or_halves zero y = omega (arith, zero-bit_or (y / 2), zero-bit_or y)
or_halves (suc x) y =
    let half = enough (λ c. c) max (suc x / 2) (y / 2) x (suc x / 2) (omega arith) (omega arith) in
    omega (arith, half, bit_or-bitwise (suc x / 2) (y / 2), bit_or-bitwise (suc x) y)

and_halves : (x y : ℕ) → min (x % 2) (y % 2) + bit_and (x / 2) (y / 2) * 2 ≡ bit_and x y
and_halves zero y = omega (arith, zero-bit_and (y / 2), zero-bit_and y)
and_halves (suc x) y =
    let half =
      enough (λ c. zero) min (suc x / 2) (y / 2) x (suc x / 2) (omega arith) (omega arith) in
    omega (arith, half, bit_and-bitwise (suc x / 2) (y / 2), bit_and-bitwise (suc x) y)

-- `and` with no ones, by halving.
and_none : (fuel x : ℕ) → x ≤ fuel → bit_and x 0 ≡ 0
and_none fuel zero u = zero-bit_and 0
and_none zero (suc x) u = absurd (omega arith)
and_none (suc fuel) (suc x) u =
    omega (arith, and_none fuel (suc x / 2) (omega arith), and_halves (suc x) 0)

double_shift : (s k : ℕ) → k * 2 ^ suc s ≡ 2 * (k * 2 ^ s)
double_shift s k = grind arith

-- Where the low `s` bits and the rest do not meet, `or` is a sum.
pub bit_or_disjoint : (s a k : ℕ) → a < 2 ^ s → bit_or a (k * 2 ^ s) ≡ a + k * 2 ^ s
bit_or_disjoint zero zero k h = omega (arith, zero-bit_or (k * 2 ^ 0))
bit_or_disjoint zero (suc a) k h = absurd (omega arith)
bit_or_disjoint (suc s) a k h = rw (double_shift s k) (
    omega (arith, or_halves a (2 * (k * 2 ^ s)), halved, bit_or_disjoint s (a / 2) k (omega arith)))
  where
    halved : bit_or (a / 2) (2 * (k * 2 ^ s) / 2) ≡ bit_or (a / 2) (k * 2 ^ s)
    halved = ap (bit_or (a / 2)) (omega arith)

-- The masks of one to seven ones, on a number of any size.
mask_1 : (a : ℕ) → bit_and a 1 ≡ a % 2
mask_1 a = omega (arith, and_none (a / 2) (a / 2) (omega arith), and_halves a 1)

mask_2 : (a : ℕ) → bit_and a 3 ≡ a % 4
mask_2 a = omega (arith, mask_1 (a / 2), and_halves a 3)

mask_3 : (a : ℕ) → bit_and a 7 ≡ a % 8
mask_3 a = omega (arith, mask_2 (a / 2), and_halves a 7)

mask_4 : (a : ℕ) → bit_and a 15 ≡ a % 16
mask_4 a = omega (arith, mask_3 (a / 2), and_halves a 15)

mask_5 : (a : ℕ) → bit_and a 31 ≡ a % 32
mask_5 a = omega (arith, mask_4 (a / 2), and_halves a 31)

mask_6 : (a : ℕ) → bit_and a 63 ≡ a % 64
mask_6 a = omega (arith, mask_5 (a / 2), and_halves a 63)

pub bit_and_ones : (a : ℕ) → bit_and a 0x7f ≡ a % 128
bit_and_ones a = omega (arith, mask_6 (a / 2), and_halves a 127)
