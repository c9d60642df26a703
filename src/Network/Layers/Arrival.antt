-- ===== src/Network/Layers/Arrival.antt =====
-- Data on its way from one kernel to another.
use james_os.Prelude.{
  ℕ, ◌+◌, ◌^◌, ◌≤◌, ◌<◌, ◌≡◌, refl, ◌∙◌, ap, List, some, ◌==◌, if◌then◌else◌, arith, length,
  IsBytes,
}
use mathlib.Core.Option
use james_os.Network.Ethernet.Arrays.{recv_ethernet_frame-send_ethernet_frame}
use james_os.Network.Ipv4.{to_icmp4, to_udp, to_tcp, dropped}
use james_os.Network.Ipv4.Delivery.{recv_ipv4_packet-send_ipv4_packet}
use james_os.Network.Layers.{
  OutBlocks, InBlocks, through_ipv4, l2_upper_interface, l3_upper_interface, l3_lower_interface,
  l2_lower_interface,
}

-- The blocks for `size` bytes of data on the way out, of the sizes that are allocated for them.
pub record FitsOut (b : OutBlocks) (size : ℕ) : Type 0 where
  pub packet_bytes : IsBytes b.packet.header
  pub packet_header : length b.packet.header ≡ 20
  pub packet_payload : length b.packet.payload ≡ size
  pub packet_array : length b.packet_array ≡ size + 20
  pub frame_header : length b.frame.header ≡ 14
  pub frame_payload : length b.frame.payload ≡ size + 20
  pub frame_array : length b.frame_array ≡ size + 20 + 14

-- The same on the way in.
pub record FitsIn (b : InBlocks) (size : ℕ) : Type 0 where
  pub frame_header : length b.frame.header ≡ 14
  pub frame_payload : length b.frame.payload ≡ size + 20
  pub source_addr : length b.source_addr ≡ 6
  pub packet_header : length b.packet.header ≡ 20
  pub packet_payload : length b.packet.payload ≡ size

-- Data that is sent over IPv4 and Ethernet is always put into a frame, and a kernel that gets the
-- frame hands all of it to ICMP, UDP or TCP, with the hardware address and the IP address of the
-- sender, by the protocol 1, 17 or 6 that it was sent with; data of another protocol is dropped. The
-- data has at most 65515 bytes, and the blocks have the sizes that are allocated for them.
pub l2_lower_interface-l3_upper_interface :
    (o : OutBlocks) (i : InBlocks) (mac_addr mac payload : List ℕ)
    (ip_addr ip size dscp ecn protocol : ℕ)
    → FitsOut o size
    → FitsIn i size
    → length mac_addr ≡ 6
    → length payload ≡ size
    → size ≤ 65515
    → ip_addr < 2 ^ 32
    → protocol < 256
    → (frame : List ℕ) × (l3_upper_interface o mac_addr ip_addr ip mac payload size dscp ecn
          protocol
        ≡ some frame)
      × (l2_lower_interface i frame (size + 20 + 14)
          ≡ through_ipv4 (
              if protocol == 1
              then to_icmp4 mac_addr ip_addr payload size
              else if protocol == 17
              then to_udp mac_addr ip_addr payload size
              else if protocol == 6
              then to_tcp mac_addr ip_addr payload size
              else dropped))
unfolding l3_upper_interface l2_upper_interface l2_lower_interface l3_lower_interface
l2_lower_interface-l3_upper_interface o i mac_addr mac payload ip_addr ip size dscp ecn protocol fo
      fi lm lp short ns np =
    let (sent, made, len, got) =
      recv_ipv4_packet-send_ipv4_packet o.packet i.packet o.packet_array payload mac_addr ip_addr ip
        size dscp ecn protocol fo.packet_bytes fo.packet_header fo.packet_payload fo.packet_array
        fi.packet_header fi.packet_payload lp short ns np in
    let swap : 20 + size ≡ size + 20 = omega arith in
    let through =
      recv_ethernet_frame-send_ethernet_frame o.frame i.frame o.frame_array i.source_addr mac_addr
        mac sent (size + 20) 0x0008 fo.frame_header fo.frame_payload fo.frame_array fi.frame_header
        fi.frame_payload len lm fi.source_addr (omega arith) (omega (arith, short)) in
    (
      l2_upper_interface o mac_addr mac sent (size + 20) 0x0008,
      ap (Option.map (λ (s : List ℕ). l2_upper_interface o mac_addr mac s (20 + size) 0x0008)) made
          ∙ rw swap refl,
      ap (l3_lower_interface i) through ∙ ap through_ipv4 got,
    )
