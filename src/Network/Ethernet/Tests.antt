-- ===== src/Network/Ethernet/Tests.antt =====
-- Three bytes of ARP data in a frame.
use james_os.Prelude.{◌+◌, ◌≡◌, refl, arith, [], ◌∷◌, ◌==◌, if◌then◌else◌, replicate}
use james_os.Network.Ethernet.{
  EtherFrame, send_ethernet_frame, recv_ethernet_frame, to_ipv4, to_arp, undefined_protocol,
}
use james_os.Network.Ethernet.Arrays.{recv_ethernet_frame-send_ethernet_frame}

abbrev block : EtherFrame
block = record { header = replicate 14 0; payload = 1 ∷ 1 ∷ 1 ∷ [] }

recv_ethernet_frame-send_ethernet_frame_example :
    recv_ethernet_frame block
      (replicate 6 0)
      (send_ethernet_frame block
        (replicate 17 0)
        (replicate 6 9)
        (replicate 6 8)
        (4 ∷ 5 ∷ 6 ∷ [])
        3
        0x0608)
      (3 + 14)
    ≡ (if 0x0608 == 0x0008
        then to_ipv4 (replicate 6 9) (4 ∷ 5 ∷ 6 ∷ []) 3
        else if 0x0608 == 0x0608
        then to_arp (4 ∷ 5 ∷ 6 ∷ [])
        else undefined_protocol)
recv_ethernet_frame-send_ethernet_frame_example =
    recv_ethernet_frame-send_ethernet_frame block block (replicate 17 0) (replicate 6 0)
      (replicate 6 9) (replicate 6 8) (4 ∷ 5 ∷ 6 ∷ []) 3 0x0608 refl refl refl refl refl refl refl
      refl (omega arith) (omega arith)
