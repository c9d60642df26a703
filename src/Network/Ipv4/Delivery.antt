-- ===== src/Network/Ipv4/Delivery.antt =====
-- A packet that is sent and received.
use james_os.Prelude.{
  ℕ, ◌+◌, ◌^◌, ◌≤◌, ◌<◌, ◌≡◌, refl, ◌∙◌, ap, List, some, ◌==◌, if◌then◌else◌, arith, length,
  IsBytes, u16, u32,
}
use mathlib.Core.Option
use james_os.Network.Utils.{copy_block, set_bits_attr_value, get_bits_attr_value}
use james_os.Network.Utils.Blocks.{copy_block-whole, length-copy_block}
use james_os.Network.Ipv4.{
  Ipv4Packet, Ipv4Fields, ipv4_fields, ipv4_to_array, send_ipv4_packet, recv_ipv4_packet, to_icmp4,
  to_udp, to_tcp, dropped,
}
use james_os.Network.Ipv4.Build.{fields_read, build_ipv4_packet-made}
use james_os.Network.Ipv4.Arrays.{array_to_ipv4-ipv4_to_array}

length-ipv4_to_array :
    (packet : Ipv4Packet) (size : ℕ) (array : List ℕ)
    → length (ipv4_to_array packet size array) ≡ length array
unfolding ipv4_to_array
length-ipv4_to_array packet size array =
    length-copy_block packet.payload 0 (copy_block packet.header 0 array 0 20) 20 size
    ∙ length-copy_block packet.header 0 array 0 20

-- Data that is sent with a protocol is always put into a packet of 20 bytes more, and the kernel that receives the
-- packet hands the data, all of it, to that protocol, with the address of the sender; data of an
-- unknown protocol is dropped. The data has at most 65515 bytes, and the blocks have the sizes that
-- are allocated for them.
pub recv_ipv4_packet-send_ipv4_packet :
    (packet block : Ipv4Packet) (array payload mac : List ℕ)
    (source_ip ip size dscp ecn protocol : ℕ)
    → IsBytes packet.header
    → length packet.header ≡ 20
    → length packet.payload ≡ size
    → length array ≡ size + 20
    → length block.header ≡ 20
    → length block.payload ≡ size
    → length payload ≡ size
    → size ≤ 65515
    → source_ip < 2 ^ 32
    → protocol < 256
    → (sent : List ℕ) × (send_ipv4_packet packet array source_ip ip payload size dscp ecn protocol
        ≡ some sent)
      × (length sent ≡ size + 20)
      × (recv_ipv4_packet block mac sent (size + 20) ≡ (
          if protocol == 1
          then to_icmp4 mac source_ip payload size
          else if protocol == 17
          then to_udp mac source_ip payload size
          else if protocol == 6
          then to_tcp mac source_ip payload size
          else dropped))
unfolding send_ipv4_packet recv_ipv4_packet
recv_ipv4_packet-send_ipv4_packet packet block array payload mac source_ip ip size dscp ecn protocol
      hb lh lp la lbh lbp lpay short ns np =
    let f : Ipv4Fields = record {
      version = 4;
      ihl = 5;
      dscp = dscp;
      ecn = ecn;
      total_length = u16 (size + 20);
      identification = 0;
      flags = 0;
      fragment_offset = 0;
      time_to_live = 64;
      protocol = protocol;
      source_ip = source_ip;
      destination_ip = ip;
    } in
    let (c, built, len) = build_ipv4_packet-made packet f payload size hb in
    let out : Ipv4Packet = record {
      header = set_bits_attr_value (ipv4_fields f packet.header) 80 16 c;
      payload = copy_block payload 0 packet.payload 0 size;
    } in
    let whole : out.payload ≡ payload = copy_block-whole payload packet.payload size lpay lp in
    let read = fields_read f packet.header c hb lh in
    let data_size : u32 (get_bits_attr_value out.header 16 16 + 4294967276) ≡ size =
      omega (arith, read.total_length, short) in
    let from : get_bits_attr_value out.header 96 32 ≡ source_ip =
      omega (arith, read.source_ip, ns) in
    let kind : get_bits_attr_value out.header 72 8 ≡ protocol = omega (arith, read.protocol, np) in
    (
      ipv4_to_array out size array,
      ap (Option.map (λ (b : Ipv4Packet). ipv4_to_array b size array)) built,
      length-ipv4_to_array out size array ∙ la,
      rw
          (
            array_to_ipv4-ipv4_to_array out block array size (len ∙ lh) (ap length whole ∙ lpay) la
                lbh lbp (omega (arith, short)),
            data_size,
            from,
            kind,
            whole,
          )
          refl,
    )
