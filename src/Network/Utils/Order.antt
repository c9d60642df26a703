-- ===== src/Network/Utils/Order.antt =====
-- The byte order functions are their own inverses.
use james_os.Prelude.{
  ℕ, ◌+◌, ◌-◌, ◌*◌, ◌/◌, ◌%◌, ◌^◌, ◌≤◌, ◌<◌, ◌≡◌, refl, ◌∙◌, ap, true, ◌==◌, ==_iff, arith, bit_and,
}
use james_os.Prelude.Binary.{bit_and_ones, bit_and_shifted}
use james_os.Prelude.Bits.{passes_up_to, use_table}
use james_os.Network.Utils.{htonb_high, htonb_low, htonb, ntohb, htons, ntohs, htonl, ntohl}

high_mask : (a k : ℕ) → bit_and a (255 * 2 ^ k) ≡ a / 2 ^ k % 256 * 2 ^ k
high_mask a k = bit_and_shifted k a 255 ∙ ap (λ (t : ℕ). t * 2 ^ k) (bit_and_ones 8 (a / 2 ^ k))

-- The bytes change places.
pub htons_bytes : (x : ℕ) → x < 65536 → htons x ≡ x % 256 * 256 + x / 256
unfolding htons
htons_bytes x h = omega (arith, bit_and_ones 8 x, high_mask x 8)

pub htonl_bytes :
    (x : ℕ)
    → x < 4294967296
    → htonl x ≡ x % 256 * 16777216 + x / 256 % 256 * 65536 + x / 65536 % 256 * 256 + x / 16777216
unfolding htonl
htonl_bytes x h = omega (arith, bit_and_ones 8 x, high_mask x 8, high_mask x 16, high_mask x 24)

pub ntohs_bytes : (x : ℕ) → x < 65536 → ntohs x ≡ x % 256 * 256 + x / 256
unfolding ntohs
ntohs_bytes x narrow = htons_bytes x narrow

-- `ntohs` and `ntohl` undo `htons` and `htonl` on all values of their widths, and the results keep
-- to the widths.
pub ntoh-hton :
    (s l : ℕ)
    → s < 2 ^ 16
    → l < 2 ^ 32
    → (ntohs (htons s) ≡ s) × (htons s < 2 ^ 16) × (ntohl (htonl l) ≡ l) × (htonl l < 2 ^ 32)
unfolding ntohs ntohl
ntoh-hton s l hs hl = (
  omega (arith, htons_bytes s hs, htons_bytes (htons s)),
  omega (arith, htons_bytes s hs),
  omega (arith, htonl_bytes l hl, htonl_bytes (htonl l)),
  omega (arith, htonl_bytes l hl),
)

-- A byte rotated to the left by `bits`.
abbrev rotated : ℕ → ℕ → ℕ
rotated x bits = x * 2 ^ bits % 256 + x / 2 ^ (8 - bits)

rotation_table : passes_up_to (λ x. passes_up_to (λ b. htonb x b == rotated x b) 9) 256 ≡ true
unfolding passes_up_to htonb htonb_high htonb_low
rotation_table = refl

inverse_table : passes_up_to (λ x. passes_up_to (λ b. ntohb (htonb x b) b == x) 9) 256 ≡ true
unfolding passes_up_to ntohb htonb htonb_high htonb_low
inverse_table = refl

-- For up to eight bits, `htonb` rotates a byte to the left by that number of bits, and `ntohb`
-- with the same number rotates it back.
pub ntohb-htonb :
    (x bits : ℕ)
    → x < 256
    → bits ≤ 8
    → (htonb x bits ≡ x * 2 ^ bits % 256 + x / 2 ^ (8 - bits)) × (ntohb (htonb x bits) bits ≡ x)
ntohb-htonb x bits hx hb = (
  (==_iff _ _).0 (use_table _ 9 (use_table _ 256 rotation_table x hx) bits (omega arith)),
  (==_iff _ _).0 (use_table _ 9 (use_table _ 256 inverse_table x hx) bits (omega arith)),
)
