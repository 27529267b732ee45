-- ===== src/Common/Bits.antt =====
-- `|` and `&` on words, by their lowest digit: `|` of disjoint fields is a sum, and a bit of `a | b`
-- is set when it is set in one of them.
use Prim.Native.Nat.{
  ℕ, zero, suc, ◌+◌, ◌-◌, ◌*◌, ◌/◌, ◌%◌, ◌^◌, ◌≤◌, ◌<◌, min, max, bit_and, bit_or, digits,
  bit_and-bitwise, bit_or-bitwise,
}
use mathlib.Core.Path.{◌≡◌, refl, ap, ◌∙◌}
use native.Mathlib.Omega.{arith}
use native.Mathlib.Nat.{
  pow-suc, mul_assoc, add-mul-mod_self_left, mod-eq_of_lt, mod-lt, div-add-mod,
}

abbrev or_from : ℕ → ℕ → ℕ → ℕ
or_from fuel a b = digits (λ c. c) max fuel a b

abbrev and_from : ℕ → ℕ → ℕ → ℕ
and_from fuel a b = digits (λ _. zero) min fuel a b

-- Any fuel from the first argument on gives the same digits.
or_from_enough : (k l a b : ℕ) → a ≤ k → a ≤ l → or_from k a b ≡ or_from l a b
or_from_enough zero zero a b p q = refl
or_from_enough zero (suc l) zero b p q = refl
or_from_enough zero (suc l) (suc a) b p q = absurd (omega arith)
or_from_enough (suc k) zero zero b p q = refl
or_from_enough (suc k) zero (suc a) b p q = absurd (omega arith)
or_from_enough (suc k) (suc l) zero b p q = refl
or_from_enough (suc k) (suc l) (suc a) b p q =
    omega (arith, or_from_enough k l (suc a / 2) (b / 2) (omega arith) (omega arith))

and_from_enough : (k l a b : ℕ) → a ≤ k → a ≤ l → and_from k a b ≡ and_from l a b
and_from_enough zero zero a b p q = refl
and_from_enough zero (suc l) zero b p q = refl
and_from_enough zero (suc l) (suc a) b p q = absurd (omega arith)
and_from_enough (suc k) zero zero b p q = refl
and_from_enough (suc k) zero (suc a) b p q = absurd (omega arith)
and_from_enough (suc k) (suc l) zero b p q = refl
and_from_enough (suc k) (suc l) (suc a) b p q =
    omega (arith, and_from_enough k l (suc a / 2) (b / 2) (omega arith) (omega arith))

zero-bit_or : (b : ℕ) → bit_or 0 b ≡ b
zero-bit_or b = bit_or-bitwise 0 b

zero-bit_and : (b : ℕ) → bit_and 0 b ≡ 0
zero-bit_and b = bit_and-bitwise 0 b

pub bit_or_low : (a b : ℕ) → bit_or a b ≡ bit_or (a / 2) (b / 2) * 2 + max (a % 2) (b % 2)
bit_or_low zero b = omega (arith, zero-bit_or b, zero-bit_or (b / 2))
bit_or_low (suc a) b = omega (
  arith,
  bit_or-bitwise (suc a) b,
  bit_or-bitwise (suc a / 2) (b / 2),
  or_from_enough a (suc a / 2) (suc a / 2) (b / 2) (omega arith) (omega arith),
)

pub bit_and_low : (a b : ℕ) → bit_and a b ≡ bit_and (a / 2) (b / 2) * 2 + min (a % 2) (b % 2)
bit_and_low zero b = omega (arith, zero-bit_and b, zero-bit_and (b / 2))
bit_and_low (suc a) b = omega (
  arith,
  bit_and-bitwise (suc a) b,
  bit_and-bitwise (suc a / 2) (b / 2),
  and_from_enough a (suc a / 2) (suc a / 2) (b / 2) (omega arith) (omega arith),
)

bit_or-zero_fuel : (k a : ℕ) → a ≤ k → bit_or a 0 ≡ a
bit_or-zero_fuel k zero h = refl
bit_or-zero_fuel zero (suc a) h = absurd (omega arith)
bit_or-zero_fuel (suc k) (suc a) h =
    omega (arith, bit_or_low (suc a) 0, bit_or-zero_fuel k (suc a / 2) (omega arith))

bit_and-zero_fuel : (k a : ℕ) → a ≤ k → bit_and a 0 ≡ 0
bit_and-zero_fuel k zero h = refl
bit_and-zero_fuel zero (suc a) h = absurd (omega arith)
bit_and-zero_fuel (suc k) (suc a) h =
    omega (arith, bit_and_low (suc a) 0, bit_and-zero_fuel k (suc a / 2) (omega arith))

double_shift : (b k : ℕ) → b * 2 ^ suc k ≡ 2 * (b * 2 ^ k)
double_shift b k = omega (arith, ap (λ (t : ℕ). b * t) (pow-suc 2 k))

-- A high field and a low field, joined by `|` in either order.
pub bit_or_high_low : (k b a : ℕ) → a < 2 ^ k → bit_or (b * 2 ^ k) a ≡ b * 2 ^ k + a
bit_or_high_low zero b a h = ground (arith, bit_or-zero_fuel b b (omega arith))
bit_or_high_low (suc k) b a h = ground (
  arith,
  pow-suc 2 k,
  bit_or_low (b * 2 ^ suc k) a,
  double_shift b k,
  bit_or_high_low k b (a / 2) (omega (arith, pow-suc 2 k)),
)

pub bit_or_low_high : (k a b : ℕ) → a < 2 ^ k → bit_or a (b * 2 ^ k) ≡ a + b * 2 ^ k
bit_or_low_high zero a b h = ground (arith, zero-bit_or b)
bit_or_low_high (suc k) a b h = ground (
  arith,
  pow-suc 2 k,
  bit_or_low a (b * 2 ^ suc k),
  double_shift b k,
  bit_or_low_high k (a / 2) b (omega (arith, pow-suc 2 k)),
)

-- Bit `k` of a word.
abbrev pub bit_at : ℕ → ℕ → ℕ
bit_at zero n = n % 2
bit_at (suc k) n = bit_at k (n / 2)

pub bit_at-bit_or : (k a b : ℕ) → bit_at k (bit_or a b) ≡ max (bit_at k a) (bit_at k b)
bit_at-bit_or zero a b = omega (arith, bit_or_low a b)
bit_at-bit_or (suc k) a b =
    let half : bit_or a b / 2 ≡ bit_or (a / 2) (b / 2) = omega (arith, bit_or_low a b) in
    ap (bit_at k) half ∙ bit_at-bit_or k (a / 2) (b / 2)

-- A test of one bit by a mask.
pub bit_and-mask : (k a : ℕ) → bit_and a (2 ^ k) ≡ bit_at k a * 2 ^ k
bit_and-mask zero a =
    omega (arith, bit_and_low a 1, bit_and-zero_fuel (a / 2) (a / 2) (omega arith))
bit_and-mask (suc k) a = ground (
  arith,
  bit_and_low a (2 ^ suc k),
  pow-suc 2 k,
  double_shift (bit_at k (a / 2)) k,
  bit_and-mask k (a / 2),
)

pow-pos : (k : ℕ) → 0 < 2 ^ k
pow-pos zero = omega arith
pow-pos (suc k) = omega (arith, pow-suc 2 k, pow-pos k)

-- The lowest digit of a remainder.
mod-double : (m a : ℕ) → 0 < m → a % (2 * m) ≡ a / 2 % m * 2 + a % 2
mod-double m a positive =
    let low = a / 2 % m * 2 + a % 2 in
    let split : a ≡ low + 2 * m * (a / 2 / m) =
      omega (arith, div-add-mod (a / 2) m, mul_assoc 2 m (a / 2 / m)) in
    ap (λ (n : ℕ). n % (2 * m)) split
    ∙ add-mul-mod_self_left low (2 * m) (a / 2 / m)
    ∙ mod-eq_of_lt (omega (arith, mod-lt (a / 2) positive))

-- A mask of the low bits.
pub bit_and-low_mask : (k a : ℕ) → bit_and a (2 ^ k - 1) ≡ a % 2 ^ k
bit_and-low_mask zero a = ground (arith, bit_and-zero_fuel a a (omega arith))
bit_and-low_mask (suc k) a =
    let double : 2 ^ suc k ≡ 2 * 2 ^ k = omega (arith, pow-suc 2 k) in
    let half : (2 ^ suc k - 1) / 2 ≡ 2 ^ k - 1 = omega (arith, pow-suc 2 k) in
    let rest : bit_and (a / 2) ((2 ^ suc k - 1) / 2) ≡ a / 2 % 2 ^ k =
      ap (bit_and (a / 2)) half ∙ bit_and-low_mask k (a / 2) in
    omega (
      arith,
      pow-suc 2 k,
      pow-pos k,
      bit_and_low a (2 ^ suc k - 1),
      rest,
      ap (λ (m : ℕ). a % m) double ∙ mod-double (2 ^ k) a (pow-pos k),
    )

-- `|` of words of a width is a word of that width.
pub bit_or-lt : (k a b : ℕ) → a < 2 ^ k → b < 2 ^ k → bit_or a b < 2 ^ k
bit_or-lt zero a b p q = ground (arith, zero-bit_or b)
bit_or-lt (suc k) a b p q = omega (
  arith,
  pow-suc 2 k,
  bit_or_low a b,
  bit_or-lt k (a / 2) (b / 2) (omega (arith, pow-suc 2 k)) (omega (arith, pow-suc 2 k)),
)
