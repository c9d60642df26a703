-- ===== src/Network/Utils/Words.antt =====
-- The 16-bit words of a header, as fields of bits and as pairs of bytes.
use james_os.Prelude.{
  ℕ, zero, suc, ◌+◌, ◌-◌, ◌*◌, ◌/◌, ◌%◌, ◌^◌, ◌≤◌, ◌<◌, ◌≡◌, ◌≢◌, refl, sym, ◌∙◌, ap, List, ◌==◌,
  if◌then◌else◌, arith, length, get_or, get_or-lt, IsBytes, Bool-cases, inl, inr, ==→eq, ==→ne,
}
use native.Mathlib.Nat.{pow-suc}
use james_os.Prelude.Bits.{bit_of, bit_in, byte_of_bits_lem}
use james_os.Network.Utils.{set_bits_attr_value}
use james_os.Network.Utils.Fields.{bit_at, field, field_ext, field_digits}
use james_os.Network.Utils.Writes.{bit_at-set_bits, set_bits-keeps}

abbrev pub word : List ℕ → ℕ → ℕ
word m k = get_or m (2 * k) 0 * 256 + get_or m (2 * k + 1) 0

bit_at_byte :
    (m : List ℕ) (k t p : ℕ) → p ≡ 8 * k + t → t < 8 → bit_at m p ≡ bit_of (get_or m k 0) (7 - t)
unfolding bit_at bit_in
bit_at_byte m k t p at h =
    let byte : p / 8 ≡ k = omega arith in let bit : p % 8 ≡ t = omega arith in rw (byte, bit)

field-byte : (m : List ℕ) (k p : ℕ) → IsBytes m → p ≡ 8 * k → field m p 8 ≡ get_or m k 0
unfolding field
field-byte m k p hm at = omega (
  arith,
  byte_of_bits_lem (get_or m k 0) (get_or-lt m k hm),
  bit_at_byte m k 0 p (omega arith) (omega arith),
  bit_at_byte m k 1 (p + 1) (omega arith) (omega arith),
  bit_at_byte m k 2 (p + 1 + 1) (omega arith) (omega arith),
  bit_at_byte m k 3 (p + 1 + 1 + 1) (omega arith) (omega arith),
  bit_at_byte m k 4 (p + 1 + 1 + 1 + 1) (omega arith) (omega arith),
  bit_at_byte m k 5 (p + 1 + 1 + 1 + 1 + 1) (omega arith) (omega arith),
  bit_at_byte m k 6 (p + 1 + 1 + 1 + 1 + 1 + 1) (omega arith) (omega arith),
  bit_at_byte m k 7 (p + 1 + 1 + 1 + 1 + 1 + 1 + 1) (omega arith) (omega arith),
)

-- A field of `n` bits and one of eight bits behind it.
abbrev and_eight : ℕ → ℕ
and_eight n = suc (suc (suc (suc (suc (suc (suc (suc n)))))))

pow-and_eight : (n : ℕ) → 2 ^ and_eight n ≡ 2 ^ n * 256
pow-and_eight n = simp pow-suc (omega arith)

field-suc : (m : List ℕ) (p n : ℕ) → field m p (suc n) ≡ bit_at m p * 2 ^ n + field m (p + 1) n
unfolding field
field-suc m p n = refl

field-and_eight :
    (m : List ℕ) (p n : ℕ) → field m p (and_eight n) ≡ field m p n * 256 + field m (p + n) 8
field-and_eight m p zero = let e : p + 0 ≡ p = omega arith in rw e (unfold field in omega arith)
field-and_eight m p (suc n) =
    let e : p + suc n ≡ p + 1 + n = omega arith in rw e (first_bit (field-and_eight m (p + 1) n))
  where
    first_bit :
        field m (p + 1) (and_eight n) ≡ field m (p + 1) n * 256 + field m (p + 1 + n) 8
        → field m p (and_eight (suc n)) ≡ field m p (suc n) * 256 + field m (p + 1 + n) 8
    first_bit ih = omega (
      arith,
      ih,
      field-suc m p (and_eight n),
      field-suc m p n,
      ap (λ (t : ℕ). bit_at m p * t) (pow-and_eight n),
    )

pub field-word : (m : List ℕ) (k : ℕ) → IsBytes m → field m (16 * k) 16 ≡ word m k
field-word m k hm = omega (
  arith,
  field-and_eight m (16 * k) 8,
  field-byte m (2 * k) (16 * k) hm (omega arith),
  field-byte m (2 * k + 1) (16 * k + 8) hm (omega arith),
)

-- Writing a word changes no other word.
pub word-set_bits :
    (m : List ℕ) (w v k : ℕ)
    → IsBytes m
    → 16 * w + 16 ≤ 8 * length m
    → 16 * w + 16 ≤ 2048
    → word (set_bits_attr_value m (16 * w) 16 v) k ≡ (if k == w then v % 65536 else word m k)
word-set_bits m w v k hm fits ho =
    let m' = set_bits_attr_value m (16 * w) 16 v in
    let hm' = (set_bits-keeps m (16 * w) 16 v hm).0 in
    let at = λ (q : ℕ). bit_at-set_bits m (16 * w) 16 v q hm fits ho (omega arith) in
    elim (Bool-cases (k == w)) [
      | inl same ↦
          let e : k ≡ w = ==→eq k w same in
          rw (same, e)
            (sym (field-word m' w hm')
              ∙ field_digits m' v (16 * w) 16 (λ q lo hi. ground (arith, at q)))
      | inr other ↦
          let e : k ≢ w = ==→ne k w other in
          rw other (
            sym (field-word m' k hm')
            ∙ field_ext m' m (16 * k) 16 (λ q lo hi. ground (arith, at q))
            ∙ field-word m k hm)
    ]
