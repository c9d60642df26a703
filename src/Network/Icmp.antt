-- ===== src/Network/Icmp.antt =====
-- src/network/icmp.c: building a message, arrays, sending, and the echo.
pub mod Message
pub mod Echo
mod Tests
use james_os.Prelude.{
  ℕ, ◌+◌, ◌*◌, ◌/◌, ◌%◌, List, [], ◌∷◌, Option, some, ◌==◌, if◌then◌else◌, get_or, u32,
}
use mathlib.Core.Option
use james_os.Network.Utils.{
  set_bytes_attr_value, get_bytes_attr_value, copy_block, ntohs, internet_checksum,
}
use james_os.Network.Ethernet.{bytes_of_16}

abbrev pub icmp4_header_size : ℕ
icmp4_header_size = 8

-- `struct icmp4`
pub record Icmp4 : Type 0 where
  pub header : List ℕ
  pub payload : List ℕ

-- The bytes of a `uint32_t` in the memory, and the number that four bytes are.
abbrev pub bytes_of_32 : ℕ → List ℕ
bytes_of_32 n = n % 256 ∷ n / 256 % 256 ∷ n / 65536 % 256 ∷ n / 16777216 ∷ []

abbrev pub load32 : List ℕ → ℕ
load32 bytes =
    get_or bytes 0 0
    + get_or bytes 1 0 * 256
    + get_or bytes 2 0 * 65536
    + get_or bytes 3 0 * 16777216

-- The header with the checksum set to 0.
pub icmp4_fields : List ℕ → ℕ → ℕ → ℕ → List ℕ
icmp4_fields header type code rest_of_header =
    let h0 = set_bytes_attr_value header 0 1 (type ∷ []) in
    let h1 = set_bytes_attr_value h0 1 1 (code ∷ []) in
    let h2 = set_bytes_attr_value h1 4 4 (bytes_of_32 rest_of_header) in
    set_bytes_attr_value h2 2 2 (bytes_of_16 0)

-- `none` where the checksum is not computed, which does not happen.
pub build_icmp4 : Icmp4 → ℕ → ℕ → ℕ → List ℕ → ℕ → Option Icmp4
build_icmp4 icmp type code rest_of_header payload size =
    let header = icmp4_fields icmp.header type code rest_of_header in
    let copied = copy_block payload 0 icmp.payload 0 size in
    Option.map
      (λ checksum. record {
        header = set_bytes_attr_value header 2 2 (bytes_of_16 (ntohs checksum));
        payload = copied;
      })
      (internet_checksum header icmp4_header_size copied size [] 0)

pub icmp4_to_array : Icmp4 → ℕ → List ℕ → List ℕ
icmp4_to_array icmp size array =
    let a = copy_block icmp.header 0 array 0 icmp4_header_size in
    copy_block icmp.payload 0 a icmp4_header_size size

-- 4294967288 is -8 as a `uint32_t`.
pub array_to_icmp4 : Icmp4 → List ℕ → ℕ → Icmp4
array_to_icmp4 icmp array size = record {
  header = copy_block array 0 icmp.header 0 icmp4_header_size;
  payload = copy_block array icmp4_header_size icmp.payload 0 (u32 (size + 4294967288));
}

-- The array that is sent in an IPv4 packet of protocol 1; `icmp` and `array` are its blocks.
pub send_icmp4_packet : Icmp4 → List ℕ → ℕ → ℕ → ℕ → List ℕ → ℕ → Option (List ℕ)
send_icmp4_packet icmp array type code rest_of_header payload size =
    Option.map (λ built. icmp4_to_array built size array)
      (build_icmp4 icmp type code rest_of_header payload size)

-- What is sent in reply: nothing, or one array, to the address the message came from. `block` is for
-- the message, `icmp` and `array` are the blocks of the reply.
pub recv_icmp4_packet : Icmp4 → Icmp4 → List ℕ → List ℕ → ℕ → Option (List (List ℕ))
recv_icmp4_packet block icmp array received size =
    let message = array_to_icmp4 block received size in
    let rest_of_header = load32 (get_bytes_attr_value message.header 4 4 (bytes_of_32 0)) in
    if get_or message.header 0 0 == 8
    then Option.map (λ sent. sent ∷ [])
        (send_icmp4_packet icmp array 0 0 rest_of_header message.payload (u32 (size + 4294967288)))
    else some []
