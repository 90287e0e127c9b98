-- ===== src/Prelude/Bits.antt =====
-- The bits of a `std::uint64_t`: `1ull << i`, `|=` and `(mask >> i) & 1ull`.
use Prim.Native.Nat.{
  ℕ, zero, suc, ◌+◌, ◌*◌, ◌/◌, ◌%◌, ◌^◌, ◌≤◌, ◌<◌, min, max, digits, bit_and, bit_or,
  bit_and-bitwise, bit_or-bitwise,
}
use mathlib.Core.Bool.{Bool, false, ◌||◌}
use mathlib.Core.Path.{◌≡◌, refl, ap, sym, ◌∙◌}
use native.Mathlib.Nat.{pow-suc, pow-le-pow_right, div-div-eq-div-mul, mod-eq_of_lt}
use native.Mathlib.Omega.{arith}
use sy_log.Prelude.Tests.{◌==◌}

-- `1ull << i`
abbrev pub shift_one : ℕ → ℕ
shift_one i = 2 ^ i % 2 ^ 64

-- `((mask >> i) & 1ull) != 0`
unfoldable pub has_bit : ℕ → ℕ → Bool
has_bit mask i = bit_and (mask / 2 ^ i) 1 == 1

-- The fuel of the library's digit recursion is of no account once it reaches the number.
module _ (rest : ℕ → ℕ) (op : ℕ → ℕ → ℕ) where
  digits-enough : (n m a b : ℕ) → a ≤ n → a ≤ m → digits rest op n a b ≡ digits rest op m a b
  digits-enough zero zero zero b h k = refl
  digits-enough zero (suc m) zero b h k = refl
  digits-enough (suc n) zero zero b h k = refl
  digits-enough (suc n) (suc m) zero b h k = refl
  digits-enough zero m (suc a) b h k = absurd (omega arith)
  digits-enough (suc n) zero (suc a) b h k = absurd (omega arith)
  digits-enough (suc n) (suc m) (suc a) b h k =
      ap (λ (t : ℕ). t * 2 + op (suc a % 2) (b % 2))
        (digits-enough n m (suc a / 2) (b / 2) (omega arith) (omega arith))

or-halves : (a b : ℕ) → bit_or a b ≡ bit_or (a / 2) (b / 2) * 2 + max (a % 2) (b % 2)
or-halves zero b = omega (arith, bit_or-bitwise 0 b, bit_or-bitwise 0 (b / 2))
or-halves (suc a) b = omega (
  arith,
  bit_or-bitwise (suc a) b,
  bit_or-bitwise (suc a / 2) (b / 2),
  digits-enough (λ y. y) max a (suc a / 2) (suc a / 2) (b / 2) (omega arith) (omega arith),
)

and-halves : (a b : ℕ) → bit_and a b ≡ bit_and (a / 2) (b / 2) * 2 + min (a % 2) (b % 2)
and-halves zero b = omega (arith, bit_and-bitwise 0 b, bit_and-bitwise 0 (b / 2))
and-halves (suc a) b = omega (
  arith,
  bit_and-bitwise (suc a) b,
  bit_and-bitwise (suc a / 2) (b / 2),
  digits-enough (λ _. 0) min a (suc a / 2) (suc a / 2) (b / 2) (omega arith) (omega arith),
)

and-zero_below : (n a : ℕ) → a ≤ n → bit_and a 0 ≡ 0
and-zero_below n zero h = omega (arith, and-halves 0 0)
and-zero_below zero (suc a) h = absurd (omega arith)
and-zero_below (suc n) (suc a) h =
    omega (arith, and-halves (suc a) 0, and-zero_below n (suc a / 2) (omega arith))

and-one : (a : ℕ) → bit_and a 1 ≡ a % 2
and-one a = omega (arith, and-halves a 1, and-zero_below (a / 2) (a / 2) (omega arith))

or-zero_below : (n a : ℕ) → a ≤ n → bit_or a 0 ≡ a
or-zero_below n zero h = omega (arith, or-halves 0 0, bit_or-bitwise 0 0)
or-zero_below zero (suc a) h = absurd (omega arith)
or-zero_below (suc n) (suc a) h =
    omega (arith, or-halves (suc a) 0, or-zero_below n (suc a / 2) (omega arith))

-- Bit 0 is the parity, and the others are the bits of the half.
has_bit-zero : (m : ℕ) → has_bit m 0 ≡ (m % 2 == 1)
unfolding has_bit
has_bit-zero m = ground (arith, and-one (m / 1))

has_bit-suc : (m i : ℕ) → has_bit m (suc i) ≡ has_bit (m / 2) i
unfolding has_bit
has_bit-suc m i =
    ap (λ (t : ℕ). bit_and t 1 == 1)
      (ap (λ (t : ℕ). m / t) twice ∙ sym (div-div-eq-div-mul m 2 (2 ^ i)))
  where
    twice : 2 ^ suc i ≡ 2 * 2 ^ i
    twice = omega (arith, pow-suc 2 i)

or-one_halves : (m : ℕ) → (bit_or m 1 / 2 ≡ m / 2) × (bit_or m 1 % 2 ≡ 1)
or-one_halves m =
    let low = or-zero_below (m / 2) (m / 2) (omega arith) in
    let split = or-halves m 1 in (omega arith, omega arith)

or-shift_halves :
    (i m : ℕ)
    → (bit_or m (2 ^ suc i) / 2 ≡ bit_or (m / 2) (2 ^ i)) × (bit_or m (2 ^ suc i) % 2 ≡ m % 2)
or-shift_halves i m =
    let twice = pow-suc 2 i in
    let half : 2 ^ suc i / 2 ≡ 2 ^ i = omega arith in
    let split = or-halves m (2 ^ suc i) in
    let same = ap (bit_or (m / 2)) half in (omega arith, omega arith)

-- Setting bit i turns that bit on and leaves the others.
pub has_bit-or : (i m j : ℕ) → has_bit (bit_or m (2 ^ i)) j ≡ (i == j || has_bit m j)
has_bit-or zero m zero = ground (arith, has_bit-zero (bit_or m 1), (or-one_halves m).1)
has_bit-or zero m (suc j) = ground (
  arith,
  has_bit-suc (bit_or m 1) j,
  has_bit-suc m j,
  ap (λ (t : ℕ). has_bit t j) (or-one_halves m).0,
)
has_bit-or (suc i) m zero =
    ground (arith, has_bit-zero (bit_or m (2 ^ suc i)), has_bit-zero m, (or-shift_halves i m).1)
has_bit-or (suc i) m (suc j) = ground (
  arith,
  has_bit-suc (bit_or m (2 ^ suc i)) j,
  has_bit-suc m j,
  ap (λ (t : ℕ). has_bit t j) (or-shift_halves i m).0,
  has_bit-or i (m / 2) j,
)

pub has_bit-zero_mask : (j : ℕ) → has_bit 0 j ≡ false
has_bit-zero_mask zero = has_bit-zero 0
has_bit-zero_mask (suc j) = has_bit-suc 0 j ∙ has_bit-zero_mask j

-- Below 64 the shift does not lose its bit.
pub shift_one-eq : (i : ℕ) → i < 64 → shift_one i ≡ 2 ^ i
shift_one-eq i h =
    mod-eq_of_lt
      (omega (arith, pow-le-pow_right {n = 2} (omega arith) {i = i} {j = 63} (omega arith)))
