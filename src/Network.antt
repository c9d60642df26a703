-- ===== src/Network.antt =====
-- src/network: the helpers of the protocols, and the protocols.
pub mod Utils
pub mod Ipv4
pub mod Tcp
pub mod Udp
pub mod Ethernet
pub mod Arp
pub mod Icmp
pub mod Layers
