-- ===== src/Types/Bits.antt =====
-- Shifts and masks of machine words, and what the bit operations do to the digits that they keep apart.
use Prim.Native.Nat.{
  ℕ, zero, suc, ◌+◌, ◌*◌, ◌/◌, ◌%◌, ◌≤◌, ◌<◌, min, max, bit_and, bit_or, digits, bit_and-bitwise,
  bit_or-bitwise,
}
use mathlib.Core.Path.{◌≡◌, refl}
use native.Mathlib.Omega.{arith}

-- The digits are the same for every count of rounds that is large enough.
module _ (z : ℕ → ℕ) (op : ℕ → ℕ → ℕ) where
  rounds : (n m a b : ℕ) → a ≤ n → a ≤ m → digits z op n a b ≡ digits z op m a b
  rounds zero zero zero b h k = refl
  rounds zero (suc m) zero b h k = refl
  rounds (suc n) zero zero b h k = refl
  rounds (suc n) (suc m) zero b h k = refl
  rounds zero m (suc a) b h k = absurd (omega arith)
  rounds (suc n) zero (suc a) b h k = absurd (omega arith)
  rounds (suc n) (suc m) (suc a) b h k =
      let e : digits z op n (suc a / 2) (b / 2) ≡ digits z op m (suc a / 2) (b / 2) =
        rounds n m (suc a / 2) (b / 2) (omega arith) (omega arith) in
      omega (arith, e)

  lowest :
      (a b : ℕ)
      → z b ≡ z (b / 2) * 2 + op 0 (b % 2)
      → digits z op a a b ≡ digits z op (a / 2) (a / 2) (b / 2) * 2 + op (a % 2) (b % 2)
  lowest zero b h = h
  lowest (suc a) b h =
      omega (arith, rounds a (suc a / 2) (suc a / 2) (b / 2) (omega arith) (omega arith))

pub bit_or_lowest : (a b : ℕ) → bit_or a b ≡ bit_or (a / 2) (b / 2) * 2 + max (a % 2) (b % 2)
bit_or_lowest a b = omega (
  arith,
  lowest (λ x. x) max a b (omega arith),
  bit_or-bitwise a b,
  bit_or-bitwise (a / 2) (b / 2),
)

pub bit_and_lowest : (a b : ℕ) → bit_and a b ≡ bit_and (a / 2) (b / 2) * 2 + min (a % 2) (b % 2)
bit_and_lowest a b = omega (
  arith,
  lowest (λ x. zero) min a b (omega arith),
  bit_and-bitwise a b,
  bit_and-bitwise (a / 2) (b / 2),
)

-- `x << k`, and the `k` ones of a mask.
abbrev pub shl : ℕ → ℕ → ℕ
shl zero x = x
shl (suc k) x = shl k x * 2

abbrev pub ones : ℕ → ℕ
ones zero = 0
ones (suc k) = ones k * 2 + 1

-- The low `k` digits, one by one.
abbrev pub low : ℕ → ℕ → ℕ
low zero x = 0
low (suc k) x = low k (x / 2) * 2 + x % 2

or_zero_rounds : (n x : ℕ) → x ≤ n → bit_or x 0 ≡ x
or_zero_rounds n zero h = bit_or-bitwise 0 0
or_zero_rounds zero (suc x) h = absurd (omega arith)
or_zero_rounds (suc n) (suc x) h =
    omega (arith, bit_or_lowest (suc x) 0, or_zero_rounds n (suc x / 2) (omega arith))

and_zero_rounds : (n x : ℕ) → x ≤ n → bit_and x 0 ≡ 0
and_zero_rounds n zero h = bit_and-bitwise 0 0
and_zero_rounds zero (suc x) h = absurd (omega arith)
and_zero_rounds (suc n) (suc x) h =
    omega (arith, bit_and_lowest (suc x) 0, and_zero_rounds n (suc x / 2) (omega arith))

-- An or with digits that the shift left free is a sum.
pub bit_or-shl : (k x y : ℕ) → y < shl k 1 → bit_or (shl k x) y ≡ shl k x + y
bit_or-shl zero x y h =
    let e : y ≡ 0 = omega arith in rw e (omega (arith, or_zero_rounds x x (omega arith)))
bit_or-shl (suc k) x y h =
    let s : shl k x * 2 / 2 ≡ shl k x = omega arith in
    let e : bit_or (shl k x * 2) y
        ≡ bit_or (shl k x * 2 / 2) (y / 2) * 2 + max (shl k x * 2 % 2) (y % 2) =
      bit_or_lowest (shl k x * 2) y in
    let e' : bit_or (shl k x * 2) y ≡ bit_or (shl k x) (y / 2) * 2 + max (shl k x * 2 % 2) (y % 2) =
      rw s at e in
    omega (arith, e', bit_or-shl k x (y / 2) (omega arith))

-- An and with a mask keeps the low digits.
pub bit_and-ones : (k x : ℕ) → bit_and x (ones k) ≡ low k x
bit_and-ones zero x = and_zero_rounds x x (omega arith)
bit_and-ones (suc k) x =
    let s : (ones k * 2 + 1) / 2 ≡ ones k = omega arith in
    let e : bit_and x (ones k * 2 + 1)
        ≡ bit_and (x / 2) ((ones k * 2 + 1) / 2) * 2 + min (x % 2) ((ones k * 2 + 1) % 2) =
      bit_and_lowest x (ones k * 2 + 1) in
    let e' : bit_and x (ones k * 2 + 1)
        ≡ bit_and (x / 2) (ones k) * 2 + min (x % 2) ((ones k * 2 + 1) % 2) =
      rw s at e in
    omega (arith, e', bit_and-ones k (x / 2))

-- A digit of a number.
unfoldable pub bit : ℕ → ℕ → ℕ
bit zero x = x % 2
bit (suc k) x = bit k (x / 2)

pub bit-bit_or : (k a b : ℕ) → bit k (bit_or a b) ≡ max (bit k a) (bit k b)
unfolding bit
bit-bit_or zero a b = omega (arith, bit_or_lowest a b)
bit-bit_or (suc k) a b =
    let e : bit_or a b / 2 ≡ bit_or (a / 2) (b / 2) = omega (arith, bit_or_lowest a b) in
    rw e (bit-bit_or k (a / 2) (b / 2))

pub bit-bit_and : (k a b : ℕ) → bit k (bit_and a b) ≡ min (bit k a) (bit k b)
unfolding bit
bit-bit_and zero a b = omega (arith, bit_and_lowest a b)
bit-bit_and (suc k) a b =
    let e : bit_and a b / 2 ≡ bit_and (a / 2) (b / 2) = omega (arith, bit_and_lowest a b) in
    rw e (bit-bit_and k (a / 2) (b / 2))

pub bit_le : (k x : ℕ) → bit k x ≤ 1
unfolding bit
bit_le zero x = omega arith
bit_le (suc k) x = bit_le k (x / 2)

-- An and with one digit.
pub bit_and-shl : (k x : ℕ) → bit_and x (shl k 1) ≡ shl k (bit k x)
unfolding bit
bit_and-shl zero x =
    let e : bit_and (x / 2) 0 ≡ 0 = and_zero_rounds (x / 2) (x / 2) (omega arith) in
    omega (arith, bit_and_lowest x 1, e)
bit_and-shl (suc k) x =
    let s : shl k 1 * 2 / 2 ≡ shl k 1 = omega arith in
    let e : bit_and x (shl k 1 * 2)
        ≡ bit_and (x / 2) (shl k 1 * 2 / 2) * 2 + min (x % 2) (shl k 1 * 2 % 2) =
      bit_and_lowest x (shl k 1 * 2) in
    let e' : bit_and x (shl k 1 * 2)
        ≡ bit_and (x / 2) (shl k 1) * 2 + min (x % 2) (shl k 1 * 2 % 2) =
      rw s at e in
    omega (arith, e', bit_and-shl k (x / 2))
