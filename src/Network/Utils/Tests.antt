-- ===== src/Network/Utils/Tests.antt =====
-- Runs of the network helpers, and the theorems at concrete headers.
use james_os.Prelude.{ℕ, ◌*◌, ◌%◌, ◌^◌, ◌≡◌, refl, List, [], ◌∷◌, some, arith, inr, IsBytes}
use james_os.Prelude.Bits.{bit_in, or_bit_in, and_not_bit_in, or_bit, and_not_bit, bit_of}
use james_os.Network.Utils.{
  htonb, htonb_high, htonb_low, htons, ntohs, htonl, set_bits_attr_value, set_bits_loop,
  get_bits_attr_value, get_bits_loop, internet_checksum, checksum_sum, sum_loop, carry_loop,
}
use james_os.Network.Utils.Writes.{get_bits-set_bits}
use james_os.Network.Utils.Checksum.{internet_checksum-verifies}

abbrev header : List ℕ
header = 0x45 ∷ 0 ∷ 0 ∷ 0x1c ∷ 0xab ∷ 0xcd ∷ 0x12 ∷ 0x34 ∷ []

abbrev body : List ℕ
body = 1 ∷ 2 ∷ 3 ∷ []

byte_order : (htons 0x1234 ≡ 0x3412) × (htonl 0x12345678 ≡ 0x78563412) × (htonb 0xa5 4 ≡ 0x5a)
unfolding htons htonl htonb htonb_high htonb_low
byte_order = (refl, refl, refl)

written : get_bits_attr_value (set_bits_attr_value header 4 12 0xabc) 4 12 ≡ 0xabc
unfolding set_bits_attr_value set_bits_loop get_bits_attr_value get_bits_loop bit_in or_bit_in
    and_not_bit_in or_bit and_not_bit bit_of
written = refl

checksum_value : internet_checksum (set_bits_attr_value header 32 16 0) 8 body 3 [] 0 ≡ some 42157
unfolding internet_checksum checksum_sum sum_loop carry_loop htons ntohs set_bits_attr_value
    set_bits_loop or_bit_in and_not_bit_in or_bit and_not_bit bit_of
checksum_value = refl

bytes : IsBytes header
bytes = (
  omega arith,
  (
    omega arith,
    (omega arith, (omega arith, (omega arith, (omega arith, (omega arith, (omega arith, (tt))))))),
  ),
)

get_bits-set_bits_example :
    (get_bits_attr_value (set_bits_attr_value header 4 12 0xabc) 4 12 ≡ 0xabc % 2 ^ 12)
    × (get_bits_attr_value (set_bits_attr_value header 4 12 0xabc) 32 16
        ≡ get_bits_attr_value header 32 16)
get_bits-set_bits_example =
    get_bits-set_bits header 4 12 0xabc 32 16 bytes (omega arith) (omega arith) (omega arith)
      (omega arith) (omega arith) (inr (omega arith))

internet_checksum-verifies_example :
    internet_checksum
      (set_bits_attr_value (set_bits_attr_value header (16 * 2) 16 0) (16 * 2) 16 42157)
      8
      body
      3
      []
      0
    ≡ some 0
internet_checksum-verifies_example =
    internet_checksum-verifies header 8 body 3 [] 0 2 bytes
      (omega arith, (omega arith, (omega arith, (tt)))) tt (omega arith) (omega arith) (omega arith)
      (omega arith) checksum_value
