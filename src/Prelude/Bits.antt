-- ===== src/Prelude/Bits.antt =====
-- `|` of a field above and a field below, and tests of single bits, as arithmetic.
use Prim.Native.Nat.{
  ℕ, zero, suc, ◌+◌, ◌*◌, ◌/◌, ◌%◌, ◌^◌, ◌<◌, ◌≤◌, bit_or, bit_and, min, max, digits,
}
use Prim.Native.Nat.{bit_or-bitwise, bit_and-bitwise}
use mathlib.Core.Path.{◌≡◌, refl, sym, ap, ◌∙◌}
use native.Mathlib.Decide.{ℕ_discrete}
use mathlib.Core.Bool.{Bool, ◌||◌, ◌&&◌}
use native.Mathlib.Omega.{arith}
use native.Mathlib.Nat.{le_refl, pow-suc, div-one, div-div-eq-div-mul}
use buaa_os.Prelude.Tests.{◌==◌}

-- Bit `k` of `x` is set: `x & (1 << k)`.
abbrev pub bit : ℕ → ℕ → Bool
bit k x = x / 2 ^ k % 2 == 1

module _ (z : ℕ → ℕ) (f : ℕ → ℕ → ℕ) where
  -- Fuel beyond the operand changes nothing.
  one_more : (n a b : ℕ) → a ≤ n → digits z f (suc n) a b ≡ digits z f n a b
  one_more zero zero b h = refl
  one_more zero (suc a) b h = absurd (omega arith)
  one_more (suc n) zero b h = refl
  one_more (suc n) (suc a) b h = rw (one_more n (suc a / 2) (b / 2) (omega arith)) refl

  settled : (n a b : ℕ) → a ≤ n → digits z f n a b ≡ digits z f a a b
  settled zero zero b h = refl
  settled zero (suc a) b h = absurd (omega arith)
  settled (suc n) a b h = elim (ℕ_discrete a (suc n)) [
    | yes same ↦ rw same refl
    | no other ↦ one_more n a b (omega arith) ∙ settled n a b (omega arith)
  ]

  -- The halves of the operands under a digit.
  under : (a b : ℕ) → digits z f a (suc a / 2) b ≡ digits z f (suc a / 2) (suc a / 2) b
  under a b = settled a (suc a / 2) b (omega arith)

-- The lowest digit of `|`, and those above it.
pub bit_or_lowest : (x y : ℕ) → bit_or x y ≡ max (x % 2) (y % 2) + 2 * bit_or (x / 2) (y / 2)
bit_or_lowest (suc x) y = simp bit_or-bitwise (omega (arith, under (λ y. y) max x (y / 2)))
bit_or_lowest zero y = simp bit_or-bitwise (omega arith)

-- Strong induction on the left operand, by a bound on it.
pub bit_or-zero : (n a : ℕ) → a ≤ n → bit_or a 0 ≡ a
bit_or-zero n zero h = refl
bit_or-zero zero (suc a) h = absurd (omega arith)
bit_or-zero (suc n) (suc a) h =
    omega (arith, bit_or_lowest (suc a) 0, bit_or-zero n (suc a / 2) (omega arith))

-- `(q << k) | r` is a sum when `r` has at most `k` bits.
pub bit_or-shifted : (k q r : ℕ) → r < 2 ^ k → bit_or (q * 2 ^ k) r ≡ q * 2 ^ k + r
bit_or-shifted zero q r h = ground (arith, bit_or-zero q q (le_refl q))
bit_or-shifted (suc k) q r h = ground (
  arith,
  bit_or_lowest (q * 2 ^ suc k) r,
  ap (λ (t : ℕ). q * t) (pow-suc 2 k),
  bit_or-shifted k q (r / 2) (omega arith),
)

bit_or-half : (a b : ℕ) → bit_or a b / 2 ≡ bit_or (a / 2) (b / 2)
bit_or-half a b = omega (arith, bit_or_lowest a b)

half_of_shift : (k a : ℕ) → a / 2 ^ suc k ≡ a / 2 ^ k / 2
half_of_shift k a = rw pow-suc (sym (div-div-eq-div-mul a (2 ^ k) 2))

-- A shift to the right goes into `|`.
pub bit_or-div : (k a b : ℕ) → bit_or a b / 2 ^ k ≡ bit_or (a / 2 ^ k) (b / 2 ^ k)
bit_or-div zero a b = rw (div-one a, div-one b) (div-one (bit_or a b))
bit_or-div (suc k) a b =
    rw (half_of_shift k (bit_or a b), half_of_shift k a, half_of_shift k b, bit_or-div k a b)
      (bit_or-half (a / 2 ^ k) (b / 2 ^ k))

-- A bit of `a | b` is a bit of `a` or of `b`.
pub bit-bit_or : (k a b : ℕ) → bit k (bit_or a b) ≡ (bit k a || bit k b)
bit-bit_or k a b = ground (arith, bit_or-div k a b, bit_or_lowest (a / 2 ^ k) (b / 2 ^ k))

-- The lowest digit of `&`, and those above it.
pub bit_and_lowest : (x y : ℕ) → bit_and x y ≡ min (x % 2) (y % 2) + 2 * bit_and (x / 2) (y / 2)
bit_and_lowest (suc x) y = simp bit_and-bitwise (omega (arith, under (λ y. 0) min x (y / 2)))
bit_and_lowest zero y = simp bit_and-bitwise (omega arith)

bit_and-half : (a b : ℕ) → bit_and a b / 2 ≡ bit_and (a / 2) (b / 2)
bit_and-half a b = omega (arith, bit_and_lowest a b)

pub bit_and-div : (k a b : ℕ) → bit_and a b / 2 ^ k ≡ bit_and (a / 2 ^ k) (b / 2 ^ k)
bit_and-div zero a b = rw (div-one a, div-one b) (div-one (bit_and a b))
bit_and-div (suc k) a b =
    rw (half_of_shift k (bit_and a b), half_of_shift k a, half_of_shift k b, bit_and-div k a b)
      (bit_and-half (a / 2 ^ k) (b / 2 ^ k))

-- A bit of `a & b` is a bit of both.
pub bit-bit_and : (k a b : ℕ) → bit k (bit_and a b) ≡ (bit k a && bit k b)
bit-bit_and k a b = ground (arith, bit_and-div k a b, bit_and_lowest (a / 2 ^ k) (b / 2 ^ k))

pub bit_and-zero : (n a : ℕ) → a ≤ n → bit_and a 0 ≡ 0
bit_and-zero zero zero l = refl
bit_and-zero zero (suc a) l = absurd (omega arith)
bit_and-zero (suc n) a l = omega (arith, bit_and_lowest a 0, bit_and-zero n (a / 2))

pub zero-bit_and : (n a : ℕ) → a ≤ n → bit_and 0 a ≡ 0
zero-bit_and zero zero l = refl
zero-bit_and zero (suc a) l = absurd (omega arith)
zero-bit_and (suc n) a l = omega (arith, bit_and_lowest 0 a, zero-bit_and n (a / 2))
