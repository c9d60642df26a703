-- ===== src/Network/Layers/Tests.antt =====
-- Two bytes of UDP on their way from 10.0.0.1 to 10.0.0.2.
use james_os.Prelude.{
  ℕ, ◌+◌, ◌≡◌, refl, List, [], ◌∷◌, some, ◌==◌, if◌then◌else◌, arith, replicate, replicate-IsBytes,
}
use james_os.Network.Ipv4.{to_icmp4, to_udp, to_tcp, dropped}
use james_os.Network.Layers.{
  OutBlocks, InBlocks, through_ipv4, l3_upper_interface, l2_lower_interface,
}
use james_os.Network.Layers.Arrival.{FitsOut, FitsIn, l2_lower_interface-l3_upper_interface}

abbrev out_blocks : OutBlocks
out_blocks = record {
  packet = record { header = replicate 20 0xff; payload = replicate 2 0 };
  packet_array = replicate 22 7;
  frame = record { header = replicate 14 1; payload = replicate 22 0 };
  frame_array = replicate 36 9;
}

abbrev in_blocks : InBlocks
in_blocks = record {
  frame = record { header = replicate 14 3; payload = replicate 22 4 };
  source_addr = replicate 6 0;
  packet = record { header = replicate 20 5; payload = replicate 2 6 };
}

out_fits : FitsOut out_blocks 2
out_fits = record {
  packet_bytes = replicate-IsBytes 20 0xff (omega arith);
  packet_header = refl;
  packet_payload = refl;
  packet_array = refl;
  frame_header = refl;
  frame_payload = refl;
  frame_array = refl;
}

in_fits : FitsIn in_blocks 2
in_fits = record {
  frame_header = refl;
  frame_payload = refl;
  source_addr = refl;
  packet_header = refl;
  packet_payload = refl;
}

l2_lower_interface-l3_upper_interface_example :
    (frame : List ℕ) × (l3_upper_interface out_blocks
        (replicate 6 2)
        0x0a000001
        0x0a000002
        (replicate 6 8)
        (1 ∷ 2 ∷ [])
        2
        0
        0
        17
      ≡ some frame)
    × (l2_lower_interface in_blocks frame (2 + 20 + 14)
        ≡ through_ipv4 (
            if 17 == 1
            then to_icmp4 (replicate 6 2) 0x0a000001 (1 ∷ 2 ∷ []) 2
            else if 17 == 17
            then to_udp (replicate 6 2) 0x0a000001 (1 ∷ 2 ∷ []) 2
            else if 17 == 6
            then to_tcp (replicate 6 2) 0x0a000001 (1 ∷ 2 ∷ []) 2
            else dropped))
l2_lower_interface-l3_upper_interface_example =
    l2_lower_interface-l3_upper_interface out_blocks in_blocks (replicate 6 2) (replicate 6 8)
      (1 ∷ 2 ∷ []) 0x0a000001 0x0a000002 2 0 0 17 out_fits in_fits refl refl (omega arith)
      (omega arith) (omega arith)
