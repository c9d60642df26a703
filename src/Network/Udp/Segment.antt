-- ===== src/Network/Udp/Segment.antt =====
-- src/network/udp.c: building a segment, arrays, sending and receipt. A port in a call of
-- `udp_send_segment` is in the order of the network, as its callers give it.
pub mod Delivery
mod Tests
use james_os.Prelude.{ℕ, ◌+◌, ◌*◌, List, Option, u16, u32}
use mathlib.Core.Option
use james_os.Multitask.{System}
use james_os.Network.Utils.{
  set_bytes_attr_value, copy_block, htons, ntohs, load16, internet_checksum, pseudo_header_build,
}
use james_os.Network.Ethernet.{bytes_of_16}
use james_os.Network.Udp.{UdpPorts, udp_forward_segment_to_process}

abbrev pub udp_header_size : ℕ
udp_header_size = 8

-- `struct udp_segment`
pub record UdpSegment : Type 0 where
  pub header : List ℕ
  pub payload : List ℕ

-- The header with the checksum set to 0.
pub udp_fields : List ℕ → ℕ → ℕ → ℕ → List ℕ
udp_fields header source_port destination_port length' =
    let h0 = set_bytes_attr_value header 0 2 (bytes_of_16 source_port) in
    let h1 = set_bytes_attr_value h0 2 2 (bytes_of_16 destination_port) in
    let h2 = set_bytes_attr_value h1 4 2 (bytes_of_16 (htons length')) in
    set_bytes_attr_value h2 6 2 (bytes_of_16 0)

-- `none` where the checksum is not computed, which does not happen.
pub build_udp_segment : UdpSegment → ℕ → ℕ → ℕ → List ℕ → ℕ → List ℕ → Option UdpSegment
build_udp_segment udp source_port destination_port length' payload size pseudo =
    let header = udp_fields udp.header source_port destination_port length' in
    Option.map
      (λ checksum. record {
        header = set_bytes_attr_value header 6 2 (bytes_of_16 (htons checksum));
        payload = copy_block payload 0 udp.payload 0 size;
      })
      (internet_checksum header udp_header_size payload size pseudo 12)

pub udp_to_array : UdpSegment → ℕ → List ℕ → List ℕ
udp_to_array udp size array =
    let a = copy_block udp.header 0 array 0 udp_header_size in
    copy_block udp.payload 0 a udp_header_size size

-- 4294967288 is -8 as a `uint32_t`.
pub array_to_udp : UdpSegment → List ℕ → ℕ → UdpSegment
array_to_udp segment array size = record {
  header = copy_block array 0 segment.header 0 udp_header_size;
  payload = copy_block array udp_header_size segment.payload 0 (u32 (size + 4294967288));
}

-- The array that is sent with protocol 17; `segment`, `array` and `pseudo` are its blocks and
-- `source_ip` is the address of the network card.
pub udp_send_segment : UdpSegment → List ℕ → List ℕ → ℕ → ℕ → ℕ → ℕ → List ℕ → ℕ → Option (List ℕ)
udp_send_segment segment array pseudo source_ip source_port destination_port ip payload size =
    let p = pseudo_header_build pseudo source_ip ip 0 17 (u16 (size + udp_header_size)) in
    Option.map (λ built. udp_to_array built size array)
      (build_udp_segment segment source_port destination_port (u16 (udp_header_size + size)) payload
        size p)

-- The port table and the scheduler after receipt; the source port stays in the order of the network.
pub udp_recv_segment :
    UdpPorts → System → UdpSegment → ℕ → List ℕ → List ℕ → ℕ → Option (UdpPorts × System)
udp_recv_segment t s block ip mac array size =
    let segment = array_to_udp block array size in
    let destination_port = ntohs (load16 segment.header 1) in
    let source_port = load16 segment.header 0 in
    udp_forward_segment_to_process t s destination_port segment.payload (u32 (size + 4294967288))
      source_port ip mac
