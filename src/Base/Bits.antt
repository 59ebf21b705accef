-- ===== src/Base/Bits.antt =====
-- Binary digits of a number, and `&` and `|` with a power of two in terms of them.
use Prim.Native.Nat.{
  ℕ, zero, suc, ◌+◌, ◌-◌, ◌*◌, ◌/◌, ◌%◌, ◌^◌, ◌≤◌, ◌<◌, min, max, bit_and, bit_or, digits,
  bit_and-bitwise, bit_or-bitwise,
}
use native.Mathlib.Nat.{pow-suc, one-le-pow}
use mathlib.Core.Path.{◌≡◌, refl}
use mathlib.Core.Bool.{Bool, true, false}
use native.Mathlib.Omega.{arith}
use tanlnode.Base.Tests.{◌==◌}

module _ (past : ℕ → ℕ) (op : ℕ → ℕ → ℕ) where
  -- Any two counts that reach the number give the same digits.
  digits_count : (a b j k : ℕ) → a ≤ j → a ≤ k → digits past op j a b ≡ digits past op k a b
  digits_count zero b zero zero p q = refl
  digits_count zero b zero (suc k) p q = refl
  digits_count zero b (suc j) zero p q = refl
  digits_count zero b (suc j) (suc k) p q = refl
  digits_count (suc a) b zero k p q = absurd (omega arith)
  digits_count (suc a) b (suc j) zero p q = absurd (omega arith)
  digits_count (suc a) b (suc j) (suc k) p q =
      rw (digits_count (suc a / 2) (b / 2) j k (omega arith) (omega arith))

  -- The lowest digit, and the rest.
  digits_low :
      (a b : ℕ)
      → digits past op (suc a) (suc a) b
        ≡ digits past op (suc a / 2) (suc a / 2) (b / 2) * 2 + op (suc a % 2) (b % 2)
  digits_low a b = rw (digits_count (suc a / 2) (b / 2) a (suc a / 2) (omega arith) (omega arith))

and_low : (a b : ℕ) → bit_and a b ≡ bit_and (a / 2) (b / 2) * 2 + min (a % 2) (b % 2)
and_low zero b = rw (bit_and-bitwise 0 b, bit_and-bitwise 0 (b / 2)) (omega arith)
and_low (suc a) b =
    rw (bit_and-bitwise (suc a) b, bit_and-bitwise (suc a / 2) (b / 2))
      (digits_low (λ _. 0) min a b)

or_low : (a b : ℕ) → bit_or a b ≡ bit_or (a / 2) (b / 2) * 2 + max (a % 2) (b % 2)
or_low zero b = rw (bit_or-bitwise 0 b, bit_or-bitwise 0 (b / 2)) (omega arith)
or_low (suc a) b =
    rw (bit_or-bitwise (suc a) b, bit_or-bitwise (suc a / 2) (b / 2)) (digits_low (λ y. y) max a b)

-- The digit of weight 2 ^ j.
abbrev pub bit : ℕ → ℕ → Bool
bit zero a = a % 2 == 1
bit (suc j) a = bit j (a / 2)

pub pow_pos : (j : ℕ) → 0 < 2 ^ j
pow_pos j = one-le-pow j 2 (omega arith)

pub half_pow : (j : ℕ) → 2 ^ suc j ≡ 2 ^ j * 2
half_pow j = pow-suc 2 j

zero_and : (fuel a : ℕ) → a ≤ fuel → bit_and a 0 ≡ 0
zero_and fuel zero h = bit_and-bitwise 0 0
zero_and zero (suc a) h = absurd (omega arith)
zero_and (suc fuel) (suc a) h =
    omega (arith, and_low (suc a) 0, zero_and fuel (suc a / 2) (omega arith))

zero_or : (fuel a : ℕ) → a ≤ fuel → bit_or a 0 ≡ a
zero_or fuel zero h = bit_or-bitwise 0 0
zero_or zero (suc a) h = absurd (omega arith)
zero_or (suc fuel) (suc a) h =
    omega (arith, or_low (suc a) 0, zero_or fuel (suc a / 2) (omega arith))

pub pow_half : (j : ℕ) → 2 ^ suc j / 2 ≡ 2 ^ j
pow_half j = omega (arith, half_pow j)

pow_even : (j : ℕ) → 2 ^ suc j % 2 ≡ 0
pow_even j = omega (arith, half_pow j)

and_pow : (j a : ℕ) → bit_and a (2 ^ suc j) ≡ bit_and (a / 2) (2 ^ j) * 2
and_pow j a = rw (and_low a (2 ^ suc j), pow_half j, pow_even j) (omega arith)

or_pow : (j a : ℕ) → bit_or a (2 ^ suc j) ≡ bit_or (a / 2) (2 ^ j) * 2 + a % 2
or_pow j a = rw (or_low a (2 ^ suc j), pow_half j, pow_even j) (omega arith)

pub bit_and-clear : (j a : ℕ) → bit j a ≡ false → bit_and a (2 ^ j) ≡ 0
bit_and-clear zero a h = ground (arith, and_low a 1, zero_and (a / 2) (a / 2))
bit_and-clear (suc j) a h = omega (arith, and_pow j a, bit_and-clear j (a / 2) h)

pub bit_and-set : (j a : ℕ) → bit j a ≡ true → 0 < bit_and a (2 ^ j)
bit_and-set zero a h = ground (arith, and_low a 1)
bit_and-set (suc j) a h = omega (arith, and_pow j a, bit_and-set j (a / 2) h)

-- Setting a clear digit adds its weight.
pub bit_or-clear : (j a : ℕ) → bit j a ≡ false → bit_or a (2 ^ j) ≡ a + 2 ^ j
bit_or-clear zero a h = ground (arith, or_low a 1, zero_or (a / 2) (a / 2))
bit_or-clear (suc j) a h = omega (arith, or_pow j a, half_pow j, bit_or-clear j (a / 2) h)

half-mod : (a m : ℕ) → 0 < m → a % (m * 2) / 2 ≡ a / 2 % m
half-mod a m h = grind arith

low-mod : (a m : ℕ) → 0 < m → a % (m * 2) % 2 ≡ a % 2
low-mod a m h = grind arith

double-mod : (a m : ℕ) → 0 < m → a * 2 % (m * 2) / 2 ≡ a % m
double-mod a m h = grind arith

-- A remainder by a power of two keeps the digits below.
pub bit-mod : (j n a : ℕ) → j < n → bit j (a % 2 ^ n) ≡ bit j a
bit-mod j zero a h = elim h [ ]
bit-mod zero (suc n) a h = rw (half_pow n, low-mod a (2 ^ n) (pow_pos n)) refl
bit-mod (suc j) (suc n) a h =
    rw (half_pow n, half-mod a (2 ^ n) (pow_pos n)) (bit-mod j n (a / 2) (omega arith))

-- `a << 1` in a word of `w` digits moves each digit up.
pub bit-shl : (j w a : ℕ) → suc j < w → bit (suc j) (a * 2 % 2 ^ w) ≡ bit j a
bit-shl j zero a h = elim h [ ]
bit-shl j (suc w) a h =
    rw (half_pow w, double-mod a (2 ^ w) (pow_pos w)) (bit-mod j w a (omega arith))

add_half : (m x : ℕ) → (m * 2 + x) / 2 ≡ m + x / 2
add_half m x = omega arith

-- Below 2 ^ j the digit of that weight is clear; adding 2 ^ j sets it.
pub bit-low : (j x : ℕ) → x < 2 ^ j → bit j x ≡ false
bit-low zero x h = ground arith
bit-low (suc j) x h = bit-low j (x / 2) (omega (arith, half_pow j))

pub bit-high : (j x : ℕ) → x < 2 ^ j → bit j (2 ^ j + x) ≡ true
bit-high zero x h = ground arith
bit-high (suc j) x h =
    rw (half_pow j, add_half (2 ^ j) x) (bit-high j (x / 2) (omega (arith, half_pow j)))

-- The lower digits do not see a multiple of a higher power.
pub bit-add : (j k x : ℕ) → j < k → bit j (2 ^ k + x) ≡ bit j x
bit-add j zero x h = elim h [ ]
bit-add zero (suc k) x h = rw (half_pow k) (ground arith)
bit-add (suc j) (suc k) x h =
    rw (half_pow k, add_half (2 ^ k) x) (bit-add j k (x / 2) (omega arith))

ones_half : (p : ℕ) → 0 < p → (p * 2 - 1) / 2 ≡ p - 1
ones_half p h = omega arith

ones_low : (p : ℕ) → 0 < p → (p * 2 - 1) % 2 ≡ 1
ones_low p h = omega arith

mod-half : (a m : ℕ) → 0 < m → a / 2 % m * 2 + a % 2 ≡ a % (m * 2)
mod-half a m h = omega (arith, half-mod a m h, low-mod a m h)

-- A mask of low ones keeps the remainder.
pub bit_and-mask : (m a : ℕ) → bit_and a (2 ^ m - 1) ≡ a % 2 ^ m
bit_and-mask zero a = omega (arith, zero_and a a (omega arith))
bit_and-mask (suc m) a =
    rw
      (
        and_low a (2 ^ suc m - 1),
        half_pow m,
        ones_half (2 ^ m) (pow_pos m),
        ones_low (2 ^ m) (pow_pos m),
        bit_and-mask m (a / 2),
      )
      (omega (arith, mod-half a (2 ^ m) (pow_pos m)))
