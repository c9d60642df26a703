-- ===== src/Network/Layers.antt =====
-- src/network/l2_interface.c and l3_interface.c, as IPv4 uses them: how a packet goes into a frame,
-- and how a frame that arrives reaches the protocol above IPv4.
pub mod Arrival
mod Tests
use james_os.Prelude.{ℕ, ◌+◌, List, Option}
use mathlib.Core.Option
use james_os.Network.Ethernet.{
  EtherFrame, Received, to_ipv4, to_arp, undefined_protocol, ether_type_ipv4, send_ethernet_frame,
  recv_ethernet_frame,
}
use james_os.Network.Ipv4.{
  Ipv4Packet, Delivered, ipv4_header_size, send_ipv4_packet, recv_ipv4_packet,
}

-- The blocks that are allocated on the way out, and on the way in.
pub record OutBlocks : Type 0 where
  pub packet : Ipv4Packet
  pub packet_array : List ℕ
  pub frame : EtherFrame
  pub frame_array : List ℕ

pub record InBlocks : Type 0 where
  pub frame : EtherFrame
  pub source_addr : List ℕ
  pub packet : Ipv4Packet

-- `l2_upper_interface` for Ethernet: the array that is given to `nht_enqueue_send_frame`, which drops
-- it if the ring of frames is full.
pub l2_upper_interface : OutBlocks → List ℕ → List ℕ → List ℕ → ℕ → ℕ → List ℕ
l2_upper_interface b mac_addr mac payload size type =
    send_ethernet_frame b.frame b.frame_array mac_addr mac payload size type

-- `l3_upper_interface` for IPv4: the packet goes through `l2_upper_interface` for Ethernet.
-- `mac_addr` and `ip_addr` are those of the network card.
pub l3_upper_interface :
    OutBlocks → List ℕ → ℕ → ℕ → List ℕ → List ℕ → ℕ → ℕ → ℕ → ℕ → Option (List ℕ)
l3_upper_interface b mac_addr ip_addr ip mac payload size dscp ecn protocol =
    Option.map
      (λ sent. l2_upper_interface b mac_addr mac sent (ipv4_header_size + size) ether_type_ipv4)
      (send_ipv4_packet b.packet b.packet_array ip_addr ip payload size dscp ecn protocol)

-- What a frame reaches.
pub data Reached : Type 0 where
  through_ipv4 : Delivered → Reached
  at_arp : List ℕ → Reached
  nothing : Reached

pub l3_lower_interface : InBlocks → Received → Reached
l3_lower_interface b (to_ipv4 mac payload size) =
    through_ipv4 (recv_ipv4_packet b.packet mac payload size)
l3_lower_interface b (to_arp payload) = at_arp payload
l3_lower_interface b undefined_protocol = nothing

pub l2_lower_interface : InBlocks → List ℕ → ℕ → Reached
l2_lower_interface b array size =
    l3_lower_interface b (recv_ethernet_frame b.frame b.source_addr array size)
