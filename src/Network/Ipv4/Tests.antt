-- ===== src/Network/Ipv4/Tests.antt =====
-- A packet that is built, turned into an array and read.
use james_os.Prelude.{◌≡◌, refl, [], ◌∷◌, some, arith, replicate, replicate-IsBytes}
use james_os.Network.Utils.{internet_checksum}
use james_os.Network.Ipv4.{Ipv4Packet, Ipv4Fields, build_ipv4_packet}
use james_os.Network.Ipv4.Build.{Carries, build_ipv4_packet-Carries}

abbrev fields : Ipv4Fields
fields = record {
  version = 4;
  ihl = 5;
  dscp = 0;
  ecn = 0;
  total_length = 23;
  identification = 0;
  flags = 0;
  fragment_offset = 0;
  time_to_live = 64;
  protocol = 17;
  source_ip = 0x0a000001;
  destination_ip = 0x0a000002;
}

abbrev packet : Ipv4Packet
packet = record { header = replicate 20 0xff; payload = replicate 3 0 }

build_ipv4_packet-Carries_example :
    (out : Ipv4Packet) × (build_ipv4_packet packet fields (1 ∷ 2 ∷ 3 ∷ []) 3 ≡ some out)
    × Carries fields out.header
    × (internet_checksum out.header 20 [] 0 [] 0 ≡ some 0)
build_ipv4_packet-Carries_example =
    build_ipv4_packet-Carries packet fields (1 ∷ 2 ∷ 3 ∷ []) 3
      (replicate-IsBytes 20 0xff (omega arith)) refl
