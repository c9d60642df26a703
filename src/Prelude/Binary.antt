-- ===== src/Prelude/Binary.antt =====
-- Laws of `|` and `&` on numbers, from their binary digits.
use Prim.Native.Nat.{
  ℕ, zero, suc, ◌+◌, ◌-◌, ◌*◌, ◌/◌, ◌%◌, ◌^◌, ◌≤◌, ◌<◌, min, max, bit_and, bit_or, digits,
  bit_and-bitwise, bit_or-bitwise,
}
use mathlib.Core.Path.{◌≡◌, refl, ap, ◌∙◌}
use native.Mathlib.Nat.{
  pow-suc, one-le-pow, mul_comm, div-div-eq-div-mul, div-add-mod, mod-lt, mod-eq_of_lt,
  mul-add-mod_self_left,
}
use native.Mathlib.Decide.{dec_lt}
use native.Mathlib.Omega.{arith}

-- The lowest digit of `&` and of `|`, from the recursion on digits that they stand for. The fuel
-- of that recursion does not matter once it covers the first number.
module _ (z : ℕ → ℕ) (f : ℕ → ℕ → ℕ) where
  enough_fuel : (k l : ℕ) (a b : ℕ) → a ≤ k → a ≤ l → digits z f k a b ≡ digits z f l a b
  enough_fuel zero zero zero b p q = refl
  enough_fuel zero (suc l) zero b p q = refl
  enough_fuel (suc k) zero zero b p q = refl
  enough_fuel (suc k) (suc l) zero b p q = refl
  enough_fuel zero l (suc a) b p q = absurd (omega arith)
  enough_fuel (suc k) zero (suc a) b p q = absurd (omega arith)
  enough_fuel (suc k) (suc l) (suc a) b p q =
      let half = enough_fuel k l (suc a / 2) (b / 2) (omega arith) (omega arith) in
      ap (λ (t : ℕ). t * 2 + f (suc a % 2) (b % 2)) half

pub bit_or_digit : (a b : ℕ) → bit_or a b ≡ bit_or (a / 2) (b / 2) * 2 + max (a % 2) (b % 2)
bit_or_digit zero b = omega (arith, bit_or-bitwise 0 b, bit_or-bitwise 0 (b / 2))
bit_or_digit (suc a) b = omega (
  arith,
  bit_or-bitwise (suc a) b,
  bit_or-bitwise (suc a / 2) (b / 2),
  enough_fuel (λ y. y) max a (suc a / 2) (suc a / 2) (b / 2) (omega arith) (omega arith),
)

pub bit_and_digit : (a b : ℕ) → bit_and a b ≡ bit_and (a / 2) (b / 2) * 2 + min (a % 2) (b % 2)
bit_and_digit zero b = omega (arith, bit_and-bitwise 0 b, bit_and-bitwise 0 (b / 2))
bit_and_digit (suc a) b = omega (
  arith,
  bit_and-bitwise (suc a) b,
  bit_and-bitwise (suc a / 2) (b / 2),
  enough_fuel (λ y. 0) min a (suc a / 2) (suc a / 2) (b / 2) (omega arith) (omega arith),
)

bit_or-zero_le : (k a : ℕ) → a ≤ k → bit_or a 0 ≡ a
bit_or-zero_le k zero h = refl
bit_or-zero_le zero (suc a) h = absurd (omega arith)
bit_or-zero_le (suc k) (suc a) h =
    omega (arith, bit_or_digit (suc a) 0, bit_or-zero_le k (suc a / 2) (omega arith))

bit_and-zero_le : (k a : ℕ) → a ≤ k → bit_and a 0 ≡ 0
bit_and-zero_le k zero h = refl
bit_and-zero_le zero (suc a) h = absurd (omega arith)
bit_and-zero_le (suc k) (suc a) h =
    omega (arith, bit_and_digit (suc a) 0, bit_and-zero_le k (suc a / 2) (omega arith))

pub bit_and-one : (a : ℕ) → bit_and a 1 ≡ a % 2
bit_and-one a = omega (arith, bit_and_digit a 1, bit_and-zero_le (a / 2) (a / 2) (omega arith))

-- `|` of fields that do not overlap is a sum.
pub bit_or_disjoint : (k q r : ℕ) → r < 2 ^ k → bit_or (q * 2 ^ k) r ≡ q * 2 ^ k + r
bit_or_disjoint zero q r h =
    let r0 : r ≡ 0 = omega arith in
    rw r0 (omega (arith, bit_or-zero_le (q * 1) (q * 1) (omega arith)))
bit_or_disjoint (suc k) q r h =
    let double : q * 2 ^ suc k ≡ q * 2 ^ k * 2 =
      omega (arith, ap (λ (t : ℕ). q * t) (pow-suc 2 k)) in
    let low : r / 2 < 2 ^ k = omega (arith, pow-suc 2 k) in
    rw double (
      omega (
        arith,
        bit_or_digit (q * 2 ^ k * 2) r,
        ap (λ (t : ℕ). bit_or t (r / 2)) halved,
        bit_or_disjoint k q (r / 2) low,
      ))
  where
    halved : q * 2 ^ k * 2 / 2 ≡ q * 2 ^ k
    halved = omega arith

mod_double : (a d : ℕ) → 1 ≤ d → a % (d * 2) ≡ a / 2 % d * 2 + a % 2
mod_double a d h = grind arith

-- `&` with k ones keeps the k lowest digits.
pub bit_and_ones : (k a : ℕ) → bit_and a (2 ^ k - 1) ≡ a % 2 ^ k
bit_and_ones zero a = ground (arith, bit_and-zero_le a a)
bit_and_ones (suc k) a =
    let one : 1 ≤ 2 ^ k = one-le-pow k 2 (omega arith) in
    let double : 2 ^ suc k ≡ 2 ^ k * 2 = omega (arith, pow-suc 2 k) in
    let halved : (2 ^ k * 2 - 1) / 2 ≡ 2 ^ k - 1 = omega arith in
    rw double (
      omega (
        arith,
        bit_and_digit a (2 ^ k * 2 - 1),
        ap (λ (t : ℕ). bit_and (a / 2) t) halved,
        bit_and_ones k (a / 2),
        mod_double a (2 ^ k) one,
      ))

-- `&` with ones that stand at `k` and above.
pub bit_and_shifted : (k a m : ℕ) → bit_and a (m * 2 ^ k) ≡ bit_and (a / 2 ^ k) m * 2 ^ k
bit_and_shifted zero a m =
    let e : m * 1 ≡ m = omega arith in let f : a / 1 ≡ a = omega arith in rw (e, f) (omega arith)
bit_and_shifted (suc k) a m =
    let double : 2 ^ suc k ≡ 2 ^ k * 2 = omega (arith, pow-suc 2 k) in
    let split : a / (2 ^ k * 2) ≡ a / 2 / 2 ^ k =
      rw (mul_comm (2 ^ k) 2, div-div-eq-div-mul) refl in
    let halved : m * (2 ^ k * 2) / 2 ≡ m * 2 ^ k = omega arith in
    rw double (
      omega (
        arith,
        bit_and_digit a (m * (2 ^ k * 2)),
        ap (λ (t : ℕ). bit_and (a / 2) t) halved,
        bit_and_shifted k (a / 2) m,
        ap (λ (t : ℕ). bit_and t m * 2 ^ k) split,
      ))

pub mod_double_high : (a d : ℕ) → 1 ≤ d → a % (d * 2) ≡ a / d % 2 * d + a % d
mod_double_high a d h =
    let q = a / d in
    let low = q % 2 * d + a % d in
    let digits_of : a ≡ d * 2 * (q / 2) + low =
      omega (arith, div-add-mod a d, ap (λ (t : ℕ). d * t) (div-add-mod q 2)) in
    let small : low < d * 2 = elim (dec_lt (q % 2) 1) [
      | yes z ↦ let e : q % 2 ≡ 0 = omega (arith, z) in rw e (omega (arith, mod-lt a {m = d} h))
      | no z ↦ let e : q % 2 ≡ 1 = omega (arith, z) in rw e (omega (arith, mod-lt a {m = d} h))
    ] in
    ap (λ (t : ℕ). t % (d * 2)) digits_of
    ∙ mul-add-mod_self_left (d * 2) (q / 2) low
    ∙ mod-eq_of_lt small
