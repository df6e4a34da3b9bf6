-- ===== src/Prelude/Bits.antt =====
-- Masks: what `&` and `|` with the constants of the sources do to a number.
use Prim.Native.Nat.{
  ℕ, zero, suc, ◌+◌, ◌*◌, ◌/◌, ◌%◌, ◌≤◌, min, max, bit_and, bit_or, digits, bit_and-bitwise,
  bit_or-bitwise,
}
use mathlib.Core.Path.{◌≡◌, refl, ap}
use native.Mathlib.Omega.{arith}

-- The recursion on binary digits that the native operations stand for; its count of rounds does
-- not matter once it covers the first number.
module _ (rest : ℕ → ℕ) (op : ℕ → ℕ → ℕ) where
  digits_enough : (n m a b : ℕ) → a ≤ n → a ≤ m → digits rest op n a b ≡ digits rest op m a b
  digits_enough zero zero a b p q = refl
  digits_enough zero (suc m) zero b p q = refl
  digits_enough zero (suc m) (suc a) b p q = elim p [ ]
  digits_enough (suc n) zero zero b p q = refl
  digits_enough (suc n) zero (suc a) b p q = elim q [ ]
  digits_enough (suc n) (suc m) zero b p q = refl
  digits_enough (suc n) (suc m) (suc a) b p q =
      omega (arith, digits_enough n m (suc a / 2) (b / 2) (omega arith) (omega arith))

zero-bit_and : (b : ℕ) → bit_and 0 b ≡ 0
zero-bit_and b = bit_and-bitwise 0 b

zero-bit_or : (b : ℕ) → bit_or 0 b ≡ b
zero-bit_or b = bit_or-bitwise 0 b

-- The lowest digit of `a & b`, and the digits above it.
bit_and_digit : (a b : ℕ) → bit_and a b ≡ 2 * bit_and (a / 2) (b / 2) + min (a % 2) (b % 2)
bit_and_digit zero b = omega (arith, zero-bit_and b, zero-bit_and (b / 2))
bit_and_digit (suc a) b = omega (
  arith,
  bit_and-bitwise (suc a) b,
  bit_and-bitwise (suc a / 2) (b / 2),
  digits_enough (λ c. zero) min a (suc a / 2) (suc a / 2) (b / 2) (omega arith) (omega arith),
)

-- The lowest digit of `a | b`, and the digits above it.
bit_or_digit : (a b : ℕ) → bit_or a b ≡ 2 * bit_or (a / 2) (b / 2) + max (a % 2) (b % 2)
bit_or_digit zero b = omega (arith, zero-bit_or b, zero-bit_or (b / 2))
bit_or_digit (suc a) b = omega (
  arith,
  bit_or-bitwise (suc a) b,
  bit_or-bitwise (suc a / 2) (b / 2),
  digits_enough (λ c. c) max a (suc a / 2) (suc a / 2) (b / 2) (omega arith) (omega arith),
)

bit_and-zero_within : (n a : ℕ) → a ≤ n → bit_and a 0 ≡ 0
bit_and-zero_within n zero h = refl
bit_and-zero_within zero (suc a) h = elim h [ ]
bit_and-zero_within (suc n) (suc a) h =
    omega (arith, bit_and_digit (suc a) 0, bit_and-zero_within n (suc a / 2) (omega arith))

pub bit_and-zero : (a : ℕ) → bit_and a 0 ≡ 0
bit_and-zero a = bit_and-zero_within a a (omega arith)

bit_or-zero_within : (n a : ℕ) → a ≤ n → bit_or a 0 ≡ a
bit_or-zero_within n zero h = refl
bit_or-zero_within zero (suc a) h = elim h [ ]
bit_or-zero_within (suc n) (suc a) h =
    omega (arith, bit_or_digit (suc a) 0, bit_or-zero_within n (suc a / 2) (omega arith))

pub bit_or-zero : (a : ℕ) → bit_or a 0 ≡ a
bit_or-zero a = bit_or-zero_within a a (omega arith)

-- A mask that begins with a zero digit, and one that begins with a one.
bit_and-even : (a b : ℕ) → bit_and a (2 * b) ≡ 2 * bit_and (a / 2) b
bit_and-even a b =
    let half : 2 * b / 2 ≡ b = omega arith in
    omega (arith, bit_and_digit a (2 * b), ap (bit_and (a / 2)) half)

bit_and-odd : (a b : ℕ) → bit_and a (2 * b + 1) ≡ 2 * bit_and (a / 2) b + a % 2
bit_and-odd a b =
    let half : (2 * b + 1) / 2 ≡ b = omega arith in
    omega (arith, bit_and_digit a (2 * b + 1), ap (bit_and (a / 2)) half)

-- `x & 1`, and the single bits that the registers use.
pub bit_and-bit0 : (a : ℕ) → bit_and a 1 ≡ a % 2
bit_and-bit0 a = omega (arith, bit_and-odd a 0, bit_and-zero (a / 2))

pub bit_and-bit1 : (a : ℕ) → bit_and a 2 ≡ a / 2 % 2 * 2
bit_and-bit1 a = omega (arith, bit_and-even a 1, bit_and-bit0 (a / 2))

bit_and-bit3 : (a : ℕ) → bit_and a 8 ≡ a / 8 % 2 * 8
bit_and-bit3 a = omega (arith, bit_and-even a 4, bit_and-even (a / 2) 2, bit_and-bit1 (a / 2 / 2))

bit_and-bit5 : (a : ℕ) → bit_and a 32 ≡ a / 32 % 2 * 32
bit_and-bit5 a = omega (arith, bit_and-even a 16, bit_and-even (a / 2) 8, bit_and-bit3 (a / 2 / 2))

pub bit_and-bit7 : (a : ℕ) → bit_and a 128 ≡ a / 128 % 2 * 128
bit_and-bit7 a = omega (arith, bit_and-even a 64, bit_and-even (a / 2) 32, bit_and-bit5 (a / 2 / 2))

pub bit_and-bit8 : (a : ℕ) → bit_and a 256 ≡ a / 256 % 2 * 256
bit_and-bit8 a = omega (arith, bit_and-even a 128, bit_and-bit7 (a / 2))

pub bit_and-bit10 : (a : ℕ) → bit_and a 1024 ≡ a / 1024 % 2 * 1024
bit_and-bit10 a =
    omega (arith, bit_and-even a 512, bit_and-even (a / 2) 256, bit_and-bit8 (a / 2 / 2))

pub bit_and-bit11 : (a : ℕ) → bit_and a 2048 ≡ a / 2048 % 2 * 2048
bit_and-bit11 a = omega (arith, bit_and-even a 1024, bit_and-bit10 (a / 2))

bit_and-bit13 : (a : ℕ) → bit_and a 8192 ≡ a / 8192 % 2 * 8192
bit_and-bit13 a =
    omega (arith, bit_and-even a 4096, bit_and-even (a / 2) 2048, bit_and-bit11 (a / 2 / 2))

pub bit_and-bit15 : (a : ℕ) → bit_and a 32768 ≡ a / 32768 % 2 * 32768
bit_and-bit15 a =
    omega (arith, bit_and-even a 16384, bit_and-even (a / 2) 8192, bit_and-bit13 (a / 2 / 2))

-- `x & 0xff` is the low byte.
bit_and_three : (a : ℕ) → bit_and a 3 ≡ a % 4
bit_and_three a = omega (arith, bit_and-odd a 1, bit_and-bit0 (a / 2))

bit_and_fifteen : (a : ℕ) → bit_and a 15 ≡ a % 16
bit_and_fifteen a = omega (arith, bit_and-odd a 7, bit_and-odd (a / 2) 3, bit_and_three (a / 2 / 2))

bit_and_sixty_three : (a : ℕ) → bit_and a 63 ≡ a % 64
bit_and_sixty_three a =
    omega (arith, bit_and-odd a 31, bit_and-odd (a / 2) 15, bit_and_fifteen (a / 2 / 2))

pub bit_and_low_byte : (a : ℕ) → bit_and a 255 ≡ a % 256
bit_and_low_byte a =
    omega (arith, bit_and-odd a 127, bit_and-odd (a / 2) 63, bit_and_sixty_three (a / 2 / 2))

-- `x | 1` sets the lowest bit and keeps the others.
pub bit_or-bit0 : (a : ℕ) → bit_or a 1 ≡ 2 * (a / 2) + 1
bit_or-bit0 a = omega (arith, bit_or_digit a 1, bit_or-zero (a / 2))

-- `x & ~1` on 32 bits has a clear bit 0.
pub bit_and_clears_bit0 : (a : ℕ) → bit_and a 0xffff_fffe % 2 ≡ 0
bit_and_clears_bit0 a = omega (arith, bit_and-even a 0x7fff_ffff)
