-- ===== src/Common/Bits.antt =====
-- Single bits of a word: `1 << k` under `|`, `^` and `&`, read through the binary digits that the
-- native operations stand for.
use Prim.Native.Nat.{
  ℕ, zero, suc, ◌+◌, ◌-◌, ◌*◌, ◌/◌, ◌%◌, ◌^◌, ◌≤◌, ◌<◌, min, max, differ, digits, bitwise, bit_and,
  bit_or, bit_xor, bit_and-bitwise, bit_or-bitwise, bit_xor-bitwise,
}
use mathlib.Core.Path.{◌≡◌, refl, ap}
use mathlib.Core.Bool.{Bool, true, false, not, ◌&&◌}
use native.Mathlib.Nat.{le_refl, pow-suc}
use native.Mathlib.Omega.{arith}
use os_ass.Common.Tests.{if◌then◌else◌, ◌==◌}

module _ (end : ℕ → ℕ) (op : ℕ → ℕ → ℕ) where
  -- Digits beyond those of `a` are not looked at.
  more_digits : (n m a b : ℕ) → a ≤ n → n ≤ m → digits end op m a b ≡ digits end op n a b
  more_digits zero zero a b p q = refl
  more_digits zero (suc m) zero b p q = refl
  more_digits zero (suc m) (suc a) b p q = absurd (omega arith)
  more_digits (suc n) zero a b p q = absurd (omega arith)
  more_digits (suc n) (suc m) zero b p q = refl
  more_digits (suc n) (suc m) (suc a) b p q =
      omega (arith, more_digits n m (suc a / 2) (b / 2) (omega arith) (omega arith))

  lowest_digit :
      (a b : ℕ)
      → bitwise end op (suc a) b ≡ bitwise end op (suc a / 2) (b / 2) * 2 + op (suc a % 2) (b % 2)
  lowest_digit a b =
      omega (arith, more_digits (suc a / 2) a (suc a / 2) (b / 2) (le_refl _) (omega arith))

or_digit : (a b : ℕ) → bit_or a b ≡ bit_or (a / 2) (b / 2) * 2 + max (a % 2) (b % 2)
or_digit zero b = simp bit_or-bitwise (omega arith)
or_digit (suc a) b = simp bit_or-bitwise (lowest_digit (λ y. y) max a b)

xor_digit : (a b : ℕ) → bit_xor a b ≡ bit_xor (a / 2) (b / 2) * 2 + differ (a % 2) (b % 2)
xor_digit zero b = simp bit_xor-bitwise (omega arith)
xor_digit (suc a) b = simp bit_xor-bitwise (lowest_digit (λ y. y) differ a b)

and_digit : (a b : ℕ) → bit_and a b ≡ bit_and (a / 2) (b / 2) * 2 + min (a % 2) (b % 2)
and_digit zero b = simp bit_and-bitwise (omega arith)
and_digit (suc a) b = simp bit_and-bitwise (lowest_digit (λ y. 0) min a b)

-- Bit `k` of a word.
unfoldable pub bit : ℕ → ℕ → Bool
bit w zero = w % 2 == 1
bit w (suc k) = bit (w / 2) k

differ_lem : (a b : ℕ) → differ a b ≡ (a - b) + (b - a)
differ_lem zero b = omega arith
differ_lem (suc a) zero = omega arith
differ_lem (suc a) (suc b) = omega (arith, differ_lem a b)

half_power : (k : ℕ) → (2 ^ suc k / 2 ≡ 2 ^ k) × (2 ^ suc k % 2 ≡ 0)
half_power k = omega (arith, pow-suc 2 k)

or-zero : (k a : ℕ) → a ≤ k → bit_or a 0 ≡ a
or-zero k zero h = refl
or-zero zero (suc a) h = absurd (omega arith)
or-zero (suc k) (suc a) h = omega (arith, or_digit (suc a) 0, or-zero k (suc a / 2) (omega arith))

xor-zero : (k a : ℕ) → a ≤ k → bit_xor a 0 ≡ a
xor-zero k zero h = refl
xor-zero zero (suc a) h = absurd (omega arith)
xor-zero (suc k) (suc a) h =
    omega
      (arith, xor_digit (suc a) 0, differ_lem (suc a % 2) 0, xor-zero k (suc a / 2) (omega arith))

and-zero : (k a : ℕ) → a ≤ k → bit_and a 0 ≡ 0
and-zero k zero h = refl
and-zero zero (suc a) h = absurd (omega arith)
and-zero (suc k) (suc a) h =
    omega (arith, and_digit (suc a) 0, and-zero k (suc a / 2) (omega arith))

-- The upper digits of a word after an operation on one bit.
or_upper :
    (w k : ℕ) → (bit_or w 1 / 2 ≡ w / 2) × (bit_or w (2 ^ suc k) / 2 ≡ bit_or (w / 2) (2 ^ k))
or_upper w k = (
  omega (arith, or_digit w 1, or-zero (w / 2) (w / 2) (le_refl _)),
  omega (arith, or_digit w (2 ^ suc k), ap (bit_or (w / 2)) (half_power k).0, half_power k),
)

xor_upper :
    (w k : ℕ) → (bit_xor w 1 / 2 ≡ w / 2) × (bit_xor w (2 ^ suc k) / 2 ≡ bit_xor (w / 2) (2 ^ k))
xor_upper w k = (
  omega (arith, xor_digit w 1, xor-zero (w / 2) (w / 2) (le_refl _), differ_lem (w % 2) 1),
  omega (
    arith,
    xor_digit w (2 ^ suc k),
    ap (bit_xor (w / 2)) (half_power k).0,
    half_power k,
    differ_lem (w % 2) (2 ^ suc k % 2),
  ),
)

-- `|= 1 << k` sets bit `k` and no other.
pub bit-bit_or : (w k j : ℕ) → bit (bit_or w (2 ^ k)) j ≡ (if k == j then true else bit w j)
unfolding bit
bit-bit_or w zero zero = ground (arith, or_digit w 1)
bit-bit_or w zero (suc j) = rw (or_upper w 0).0 (ground arith)
bit-bit_or w (suc k) zero = ground (arith, or_digit w (2 ^ suc k), half_power k)
bit-bit_or w (suc k) (suc j) = rw (or_upper w k).1 (ground (arith, bit-bit_or (w / 2) k j))

-- `^= 1 << k` flips bit `k` and no other.
pub bit-bit_xor :
    (w k j : ℕ) → bit (bit_xor w (2 ^ k)) j ≡ (if k == j then not (bit w j) else bit w j)
unfolding bit
bit-bit_xor w zero zero = ground (arith, xor_digit w 1, differ_lem (w % 2) 1)
bit-bit_xor w zero (suc j) = rw (xor_upper w 0).0 (ground arith)
bit-bit_xor w (suc k) zero =
    ground (arith, xor_digit w (2 ^ suc k), half_power k, differ_lem (w % 2) 0)
bit-bit_xor w (suc k) (suc j) = rw (xor_upper w k).1 (ground (arith, bit-bit_xor (w / 2) k j))

-- `& 1 << k` tests bit `k`.
pub bit_and-power : (w k : ℕ) → bit_and w (2 ^ k) ≡ (if bit w k then 2 ^ k else 0)
unfolding bit
bit_and-power w zero = ground (arith, and_digit w 1, and-zero (w / 2) (w / 2) (le_refl _))
bit_and-power w (suc k) =
    ground (arith, and_digit w (2 ^ suc k), half_power k, bit_and-power (w / 2) k)

pub pow-pos : (k : ℕ) → 0 < 2 ^ k
pow-pos zero = omega arith
pow-pos (suc k) = omega (arith, pow-suc 2 k, pow-pos k)

-- `w & 1 << k` as a condition.
pub bit_test : (w k : ℕ) → (bit_and w (2 ^ k) == 0) ≡ not (bit w k)
bit_test w k = ground (arith, bit_and-power w k, pow-pos k)

-- A word with no bit set is 0.
pub eq-zero_of_bits : (n w : ℕ) → w < 2 ^ n → ((j : ℕ) → j < n → bit w j ≡ false) → w ≡ 0
unfolding bit
eq-zero_of_bits zero w h f = omega arith
eq-zero_of_bits (suc n) w h f = ground (
  arith,
  pow-suc 2 n,
  f 0 (omega arith),
  eq-zero_of_bits n (w / 2) (omega (arith, pow-suc 2 n)) (λ j lt. f (suc j) (omega arith)),
)

-- Words stay words.
pub bit_or-lt : (n a b : ℕ) → a < 2 ^ n → b < 2 ^ n → bit_or a b < 2 ^ n
bit_or-lt zero zero zero p q = omega arith
bit_or-lt zero zero (suc b) p q = absurd (omega arith)
bit_or-lt zero (suc a) b p q = absurd (omega arith)
bit_or-lt (suc n) a b p q = omega (
  arith,
  or_digit a b,
  pow-suc 2 n,
  bit_or-lt n (a / 2) (b / 2) (omega (arith, pow-suc 2 n)) (omega (arith, pow-suc 2 n)),
)

pub bit_xor-lt : (n a b : ℕ) → a < 2 ^ n → b < 2 ^ n → bit_xor a b < 2 ^ n
bit_xor-lt zero zero zero p q = omega arith
bit_xor-lt zero zero (suc b) p q = absurd (omega arith)
bit_xor-lt zero (suc a) b p q = absurd (omega arith)
bit_xor-lt (suc n) a b p q = omega (
  arith,
  xor_digit a b,
  differ_lem (a % 2) (b % 2),
  pow-suc 2 n,
  bit_xor-lt n (a / 2) (b / 2) (omega (arith, pow-suc 2 n)) (omega (arith, pow-suc 2 n)),
)

-- `a & b` has the bits that both have.
pub bit-bit_and : (a b j : ℕ) → bit (bit_and a b) j ≡ (bit a j && bit b j)
unfolding bit
bit-bit_and a b zero = ground (arith, and_digit a b)
bit-bit_and a b (suc j) =
    let upper : bit_and a b / 2 ≡ bit_and (a / 2) (b / 2) = omega (arith, and_digit a b) in
    rw upper (bit-bit_and (a / 2) (b / 2) j)
