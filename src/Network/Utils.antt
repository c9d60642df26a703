-- ===== src/Network/Utils.antt =====
-- src/network/network_utils.c: byte order, fields of bits and of bytes in a header, the internet
-- checksum and the pseudo header.
pub mod Order
pub mod Fields
pub mod Writes
pub mod Words
pub mod Checksum
pub mod Batch
pub mod Blocks
mod Tests
use james_os.Prelude.{
  ℕ, zero, suc, ◌+◌, ◌-◌, ◌*◌, ◌/◌, ◌%◌, ◌^◌, List, Option, none, some, ◌==◌, if◌then◌else◌, not,
  get_or, set, length, bit_and, bit_or, u8, u16, u32, ◌<<<◌, ◌>>>◌, minus_one,
}
use mathlib.Core.Option
use james_os.Prelude.Bits.{bit_in, or_bit_in, and_not_bit_in}

-- The two loops of `htonb`, from round `i` on with `left` to go: the high bits of the byte go
-- down, the low bits go up.
pub htonb_high : ℕ → ℕ → ℕ → ℕ → ℕ → ℕ
htonb_high byte bits tmp i zero = tmp
htonb_high byte bits tmp i (suc left) =
    htonb_high byte bits (u8 (tmp + bit_and (byte >>> (7 - i)) 1 <<< (bits - 1 - i))) (i + 1) left

pub htonb_low : ℕ → ℕ → ℕ → ℕ → ℕ → ℕ
htonb_low byte bits tmp i zero = tmp
htonb_low byte bits tmp i (suc left) =
    htonb_low byte bits (u8 (tmp + bit_and (byte >>> i) 1 <<< (bits + i))) (i + 1) left

-- `bits` is at most 8.
pub htonb : ℕ → ℕ → ℕ
htonb byte bits = htonb_low byte bits (htonb_high byte bits 0 0 bits) 0 (8 - bits)

pub ntohb : ℕ → ℕ → ℕ
ntohb byte bits = htonb byte (8 - bits)

pub htons : ℕ → ℕ
htons shrt = let tmp = u16 (bit_and shrt 0xff <<< 8) in u16 (tmp + bit_and shrt 0xff00 >>> 8)

pub ntohs : ℕ → ℕ
ntohs shrt = htons shrt

pub htonl : ℕ → ℕ
htonl lng =
    let a = bit_and lng 0xff000000 >>> 24 in
    let b = bit_and lng 0x00ff0000 >>> 8 in
    let c = u32 (bit_and lng 0x0000ff00 <<< 8) in
    let d = u32 (bit_and lng 0x000000ff <<< 24) in u32 (u32 (u32 (a + b) + c) + d)

pub ntohl : ℕ → ℕ
ntohl lng = htonl lng

-- The loop of `set_bits_attr_value` from bit `i` on, with `left` to go. `byte` and `cnt` are
-- `uint8_t`.
pub set_bits_loop : ℕ → List ℕ → ℕ → ℕ → ℕ → List ℕ
set_bits_loop value attr i cnt zero = attr
set_bits_loop value attr i cnt (suc left) =
    let byte = u8 (i / 8) in
    let bit = 7 - i % 8 in
    set_bits_loop value
      (if bit_and (value >>> cnt) 1 == 0
        then and_not_bit_in attr byte bit
        else or_bit_in attr byte bit)
      (i + 1) (u8 (cnt + 255)) left

pub set_bits_attr_value : List ℕ → ℕ → ℕ → ℕ → List ℕ
set_bits_attr_value attr offset size value = set_bits_loop value attr offset (u8 (size + 255)) size

-- The loop of `get_bits_attr_value`; `cnt` is at most 31 when it is used.
pub get_bits_loop : List ℕ → ℕ → ℕ → ℕ → ℕ → ℕ
get_bits_loop attr i cnt ret zero = ret
get_bits_loop attr i cnt ret (suc left) =
    let byte = u8 (i / 8) in
    let bit = 7 - i % 8 in
    get_bits_loop attr (i + 1) (u8 (cnt + 255))
      (if bit_in attr byte bit == 0 then ret else bit_or ret (1 <<< cnt)) left

pub get_bits_attr_value : List ℕ → ℕ → ℕ → ℕ
get_bits_attr_value attr offset size = get_bits_loop attr offset (u8 (size + 255)) 0 size

-- A 16-bit load, low byte first.
abbrev pub load16 : List ℕ → ℕ → ℕ
load16 bytes i = get_or bytes (2 * i) 0 + get_or bytes (2 * i + 1) 0 * 256

-- One of the three loops over words, from word `i` on with `left` to go.
pub sum_loop : List ℕ → ℕ → ℕ → ℕ → ℕ
sum_loop bytes sum i zero = sum
sum_loop bytes sum i (suc left) = sum_loop bytes (u32 (sum + ntohs (load16 bytes i))) (i + 1) left

-- The loop that folds the carries in; `none` is for too little fuel.
pub carry_loop : ℕ → ℕ → Option ℕ
carry_loop zero sum = none
carry_loop (suc fuel) sum =
    let carry_out = bit_and (sum >>> 16) 0xffff in
    let sum' = u32 (bit_and sum 0xffff + carry_out) in
    let rest = carry_loop fuel sum' in if carry_out == 0 then some sum' else rest

-- The sum of all words: the header, the pseudo header and the data with its odd last byte.
pub checksum_sum : List ℕ → ℕ → List ℕ → ℕ → List ℕ → ℕ → ℕ
checksum_sum header header_size data_bytes data_size pseudo pseudo_size =
    let a = sum_loop header 0 0 (header_size / 2) in
    let b = sum_loop pseudo a 0 (pseudo_size / 2) in
    let c = sum_loop data_bytes b 0 (data_size / 2) in
    if data_size % 2 == 0
    then c
    else u32 (c + ntohs (bit_and (load16 data_bytes (data_size / 2)) 0xff))

-- The folding loop needs three rounds at most.
pub internet_checksum : List ℕ → ℕ → List ℕ → ℕ → List ℕ → ℕ → Option ℕ
internet_checksum header header_size data_bytes data_size pseudo pseudo_size =
    Option.map (λ sum. u16 (minus_one - sum))
      (carry_loop 3 (checksum_sum header header_size data_bytes data_size pseudo pseudo_size))

pub pseudo_header_build : List ℕ → ℕ → ℕ → ℕ → ℕ → ℕ → List ℕ
pseudo_header_build pseudo source_ip destination_ip fixed protocol length' =
    let a = set_bits_attr_value pseudo 0 32 source_ip in
    let b = set_bits_attr_value a 32 32 destination_ip in
    let c = set_bits_attr_value b 64 8 fixed in
    let d = set_bits_attr_value c 72 8 protocol in set_bits_attr_value d 80 16 length'

-- `memcpy` from one block to another, `size` bytes from `i` on to `j` on.
unfoldable pub copy_block : List ℕ → ℕ → List ℕ → ℕ → ℕ → List ℕ
copy_block source i dest j zero = dest
copy_block source i dest j (suc left) =
    copy_block source (i + 1) (set dest j (get_or source i 0)) (j + 1) left

-- Offsets and sizes of whole bytes.
unfoldable pub get_bytes_attr_value : List ℕ → ℕ → ℕ → List ℕ → List ℕ
get_bytes_attr_value attr offset size ret = copy_block attr offset ret 0 size

unfoldable pub set_bytes_attr_value : List ℕ → ℕ → ℕ → List ℕ → List ℕ
set_bytes_attr_value attr offset size value = copy_block value 0 attr offset size
