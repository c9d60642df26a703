-- ===== src/Network/Ethernet.antt =====
-- src/network/ethernet.c: building a frame, frames as arrays, and the choice of the protocol on
-- receipt. A 16-bit number stands in the memory with its low byte first.
pub mod Arrays
mod Tests
use james_os.Prelude.{ℕ, ◌+◌, ◌*◌, ◌/◌, ◌%◌, List, [], ◌∷◌, ◌==◌, if◌then◌else◌, get_or, u32}
use james_os.Network.Utils.{get_bytes_attr_value, set_bytes_attr_value, copy_block}

abbrev pub ether_header_size : ℕ
ether_header_size = 14

-- In host byte order.
abbrev pub ether_type_ipv4 : ℕ
ether_type_ipv4 = 0x0008

abbrev pub ether_type_arp : ℕ
ether_type_arp = 0x0608

-- `struct ether_frame`
pub record EtherFrame : Type 0 where
  pub header : List ℕ
  pub payload : List ℕ

-- The bytes of a `uint16_t` in the memory.
abbrev pub bytes_of_16 : ℕ → List ℕ
bytes_of_16 n = n % 256 ∷ n / 256 ∷ []

-- `mac_addr` is the address of the network card.
pub build_ether_frame : EtherFrame → List ℕ → List ℕ → ℕ → List ℕ → ℕ → EtherFrame
build_ether_frame frame mac_addr dest type payload data_size =
    let h0 = set_bytes_attr_value frame.header 0 6 dest in
    let h1 = set_bytes_attr_value h0 6 6 mac_addr in
    record {
      header = set_bytes_attr_value h1 12 2 (bytes_of_16 type);
      payload = copy_block payload 0 frame.payload 0 data_size;
    }

pub ethernet_to_array : EtherFrame → ℕ → List ℕ → List ℕ
ethernet_to_array frame data_size array =
    let a = copy_block frame.header 0 array 0 ether_header_size in
    copy_block frame.payload 0 a ether_header_size data_size

-- 4294967282 is -14 as a `uint32_t`.
pub array_to_ethernet : EtherFrame → List ℕ → ℕ → EtherFrame
array_to_ethernet frame array size = record {
  header = copy_block array 0 frame.header 0 ether_header_size;
  payload = copy_block array ether_header_size frame.payload 0 (u32 (size + 4294967282));
}

-- The array that `send_ethernet_frame` gives to `nht_enqueue_send_frame`; `frame` and `array` are
-- its blocks.
pub send_ethernet_frame : EtherFrame → List ℕ → List ℕ → List ℕ → List ℕ → ℕ → ℕ → List ℕ
send_ethernet_frame frame array mac_addr mac payload data_size type =
    ethernet_to_array (build_ether_frame frame mac_addr mac type payload data_size) data_size array

-- Where the data of a frame goes, with the size, and for IPv4 the address it came from.
pub data Received : Type 0 where
  to_ipv4 : List ℕ → List ℕ → ℕ → Received
  to_arp : List ℕ → Received
  undefined_protocol : Received

-- `source_addr` is the array for the source address.
pub recv_ethernet_frame : EtherFrame → List ℕ → List ℕ → ℕ → Received
recv_ethernet_frame block source_addr array size =
    let frame = array_to_ethernet block array size in
    let ether_type = get_or frame.header 12 0 + get_or frame.header 13 0 * 256 in
    if ether_type == ether_type_ipv4
    then to_ipv4 (get_bytes_attr_value frame.header 6 6 source_addr) frame.payload
        (u32 (size + 4294967282))
    else if ether_type == ether_type_arp
    then to_arp frame.payload
    else undefined_protocol
