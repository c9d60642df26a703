-- ===== src/Network/Utils/Fields.antt =====
-- Fields of bits, and how `get_bits_attr_value` reads them.
use james_os.Prelude.{
  ℕ, zero, suc, ◌+◌, ◌-◌, ◌*◌, ◌/◌, ◌%◌, ◌^◌, ◌≤◌, ◌<◌, ◌≡◌, refl, ap, ap₂, List, ◌==◌, arith,
  bit_and, bit_or, Bool-cases, inl, inr, u8, ◌>>>◌, ==→eq, ==→ne,
}
use native.Mathlib.Nat.{pow-suc, one-le-pow}
use james_os.Prelude.Binary.{bit_and-one, bit_or_disjoint, mod_double_high}
use james_os.Prelude.Bits.{bit_in, bit_in-lt}
use james_os.Network.Utils.{get_bits_loop, get_bits_attr_value}

-- Bit `p` of a header, the highest bit of a byte first.
unfoldable pub bit_at : List ℕ → ℕ → ℕ
bit_at m p = bit_in m (p / 8) (7 - p % 8)

-- The number that the `n` bits from `p` on stand for, the highest first.
unfoldable pub field : List ℕ → ℕ → ℕ → ℕ
field m p zero = 0
field m p (suc n) = bit_at m p * 2 ^ n + field m (p + 1) n

-- Digit `k` of a number.
unfoldable pub digit : ℕ → ℕ → ℕ
digit v k = bit_and (v >>> k) 1

pub bit_at-lt : (m : List ℕ) (p : ℕ) → bit_at m p < 2
unfolding bit_at
bit_at-lt m p = bit_in-lt m _ _

joined : (n r : ℕ) → bit_or (r * 2 * 2 ^ n) (1 * 2 ^ n) ≡ (r * 2 + 1) * 2 ^ n
joined n r =
    let one : 1 ≤ 2 ^ n = one-le-pow n 2 (omega arith) in
    let double : r * 2 ^ suc n ≡ r * 2 * 2 ^ n =
      omega (arith, ap (λ (t : ℕ). r * t) (pow-suc 2 n)) in
    let unit : 1 * 2 ^ n ≡ 2 ^ n = omega arith in
    rw (← double, unit, bit_or_disjoint (suc n) r (2 ^ n) (omega (arith, pow-suc 2 n)))
      (omega (arith, double))

-- The reading loop, with what it has read so far in the high digits.
get_bits_loop-field :
    (m : List ℕ) (left p cnt r : ℕ)
    → p + left ≤ 2048
    → left ≤ 32
    → (0 < left → cnt + 1 ≡ left)
    → get_bits_loop m p cnt (r * 2 ^ left) left ≡ r * 2 ^ left + field m p left
unfolding get_bits_loop field bit_at
get_bits_loop-field m zero p cnt r hp hl hc = omega arith
get_bits_loop-field m (suc n) p cnt r hp hl hc =
    let last : cnt ≡ n = omega (arith, hc (omega arith)) in
    let byte : u8 (p / 8) ≡ p / 8 = omega arith in
    let double : r * 2 ^ suc n ≡ r * 2 * 2 ^ n =
      omega (arith, ap (λ (t : ℕ). r * t) (pow-suc 2 n)) in
    let one : 1 ≤ 2 ^ n = one-le-pow n 2 (omega arith) in
    let next : (0 < n → u8 (n + 255) + 1 ≡ n) = λ h. omega arith in
    rw (last, byte, double)
      (elim (Bool-cases (bit_at m p == 0)) [
        | inl clear ↦
            let e : bit_at m p ≡ 0 = ==→eq _ _ clear in
            rw (clear, e)
              (omega (
                arith,
                get_bits_loop-field m n (p + 1) (u8 (n + 255)) (r * 2) (omega arith) (omega arith)
                    next,
              ))
        | inr set' ↦
            let e : bit_at m p ≡ 1 = omega (arith, bit_at-lt m p, ==→ne _ _ set') in
            rw (set', e, joined n r)
              (omega (
                arith,
                get_bits_loop-field m n (p + 1) (u8 (n + 255)) (r * 2 + 1) (omega arith)
                    (omega arith) next,
              ))
      ])

-- `get_bits_attr_value` reads the field, of up to 32 bits among the first 2048.
pub get_bits-field :
    (m : List ℕ) (offset size : ℕ)
    → offset + size ≤ 2048
    → size ≤ 32
    → get_bits_attr_value m offset size ≡ field m offset size
unfolding get_bits_attr_value
get_bits-field m offset size ho hs =
    let none_yet : 0 * 2 ^ size ≡ 0 = omega arith in
    omega (
      arith,
      rw none_yet at
          (get_bits_loop-field m size offset (u8 (size + 255)) 0 ho hs (λ h. omega arith)),
    )

pub field_ext :
    (m m' : List ℕ) (p n : ℕ)
    → ((q : ℕ) → p ≤ q → q < p + n → bit_at m q ≡ bit_at m' q)
    → field m p n ≡ field m' p n
unfolding field
field_ext m m' p zero same = refl
field_ext m m' p (suc n) same =
    ap₂ (λ (a b : ℕ). a * 2 ^ n + b) (same p (omega arith) (omega arith))
      (field_ext m m' (p + 1) n (λ q lo hi. same q (omega arith) (omega arith)))

pub field_digits :
    (m : List ℕ) (v p n : ℕ)
    → ((q : ℕ) → p ≤ q → q < p + n → bit_at m q ≡ digit v (p + n - 1 - q))
    → field m p n ≡ v % 2 ^ n
unfolding field digit
field_digits m v p zero same = omega arith
field_digits m v p (suc n) same =
    let top : p + suc n - 1 - p ≡ n = omega arith in
    let rest = field_digits m v (p + 1) n λ q lo hi.
      let e : p + suc n - 1 - q ≡ p + 1 + n - 1 - q = omega arith in
      rw e at (same q (omega arith) (omega arith)) in
    let double : 2 ^ suc n ≡ 2 ^ n * 2 = omega (arith, pow-suc 2 n) in
    rw (double, rw top at (same p (omega arith) (omega arith)), bit_and-one (v / 2 ^ n), rest)
      (omega (arith, mod_double_high v (2 ^ n) (one-le-pow n 2 (omega arith))))
