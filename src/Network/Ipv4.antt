-- ===== src/Network/Ipv4.antt =====
-- src/network/ip.c: building an IPv4 packet, turning it into an array and back, and the choice of
-- the protocol on receipt. A block that `kmalloc_u` hands out is a list of the size asked for,
-- with any contents.
mod Tests
pub mod Build
pub mod Arrays
pub mod Delivery
use james_os.Prelude.{
  ℕ, ◌+◌, ◌-◌, List, [], Option, none, some, ◌==◌, if◌then◌else◌, length, u16, u32,
}
use mathlib.Core.Option
use james_os.Network.Utils.{set_bits_attr_value, get_bits_attr_value, internet_checksum, copy_block}

abbrev pub ipv4_header_size : ℕ
ipv4_header_size = 20

-- `struct ipv4_packet`
pub record Ipv4Packet : Type 0 where
  pub header : List ℕ
  pub payload : List ℕ

-- The arguments of `build_ipv4_packet` that go into the header.
pub record Ipv4Fields : Type 0 where
  pub version : ℕ
  pub ihl : ℕ
  pub dscp : ℕ
  pub ecn : ℕ
  pub total_length : ℕ
  pub identification : ℕ
  pub flags : ℕ
  pub fragment_offset : ℕ
  pub time_to_live : ℕ
  pub protocol : ℕ
  pub source_ip : ℕ
  pub destination_ip : ℕ

-- The header with its fields, the checksum set to 0.
pub ipv4_fields : Ipv4Fields → List ℕ → List ℕ
ipv4_fields f header =
    let h0 = set_bits_attr_value header 0 4 f.version in
    let h1 = set_bits_attr_value h0 4 4 f.ihl in
    let h2 = set_bits_attr_value h1 8 6 f.dscp in
    let h3 = set_bits_attr_value h2 14 2 f.ecn in
    let h4 = set_bits_attr_value h3 16 16 f.total_length in
    let h5 = set_bits_attr_value h4 32 16 f.identification in
    let h6 = set_bits_attr_value h5 48 3 f.flags in
    let h7 = set_bits_attr_value h6 51 13 f.fragment_offset in
    let h8 = set_bits_attr_value h7 64 8 f.time_to_live in
    let h9 = set_bits_attr_value h8 72 8 f.protocol in
    let h10 = set_bits_attr_value h9 96 32 f.source_ip in
    let h11 = set_bits_attr_value h10 128 32 f.destination_ip in set_bits_attr_value h11 80 16 0

-- `none` where the checksum is not computed, which does not happen.
pub build_ipv4_packet : Ipv4Packet → Ipv4Fields → List ℕ → ℕ → Option Ipv4Packet
build_ipv4_packet ip f payload size =
    let header = ipv4_fields f ip.header in
    Option.map
      (λ checksum. record {
        header = set_bits_attr_value header 80 16 checksum;
        payload = copy_block payload 0 ip.payload 0 size;
      })
      (internet_checksum header ipv4_header_size [] 0 [] 0)

pub ipv4_to_array : Ipv4Packet → ℕ → List ℕ → List ℕ
ipv4_to_array packet size array =
    let a = copy_block packet.header 0 array 0 ipv4_header_size in
    copy_block packet.payload 0 a ipv4_header_size size

-- 4294967276 is -20 as a `uint32_t`.
pub array_to_ipv4 : Ipv4Packet → List ℕ → ℕ → Ipv4Packet
array_to_ipv4 packet array size = record {
  header = copy_block array 0 packet.header 0 ipv4_header_size;
  payload = copy_block array ipv4_header_size packet.payload 0 (u32 (size + 4294967276));
}

-- The array that is sent in a frame of the type for IPv4; `packet` and `array` are its blocks and
-- `source_ip` is the address of the network card.
pub send_ipv4_packet : Ipv4Packet → List ℕ → ℕ → ℕ → List ℕ → ℕ → ℕ → ℕ → ℕ → Option (List ℕ)
send_ipv4_packet packet array source_ip ip payload size dscp ecn protocol =
    let fields : Ipv4Fields = record {
      version = 4;
      ihl = 5;
      dscp = dscp;
      ecn = ecn;
      total_length = u16 (size + ipv4_header_size);
      identification = 0;
      flags = 0;
      fragment_offset = 0;
      time_to_live = 64;
      protocol = protocol;
      source_ip = source_ip;
      destination_ip = ip;
    } in
    Option.map (λ built. ipv4_to_array built size array)
      (build_ipv4_packet packet fields payload size)

-- What the next protocol gets: the address of the frame, the source address, the data and its size.
pub data Delivered : Type 0 where
  to_icmp4 : List ℕ → ℕ → List ℕ → ℕ → Delivered
  to_udp : List ℕ → ℕ → List ℕ → ℕ → Delivered
  to_tcp : List ℕ → ℕ → List ℕ → ℕ → Delivered
  dropped : Delivered

-- The size of the data is the total length in the packet less 20.
pub recv_ipv4_packet : Ipv4Packet → List ℕ → List ℕ → ℕ → Delivered
recv_ipv4_packet block mac array size =
    let packet = array_to_ipv4 block array size in
    let protocol = get_bits_attr_value packet.header 72 8 in
    let ip = get_bits_attr_value packet.header 96 32 in
    let data_size = u32 (get_bits_attr_value packet.header 16 16 + 4294967276) in
    if protocol == 1
    then to_icmp4 mac ip packet.payload data_size
    else if protocol == 17
    then to_udp mac ip packet.payload data_size
    else if protocol == 6
    then to_tcp mac ip packet.payload data_size
    else dropped
