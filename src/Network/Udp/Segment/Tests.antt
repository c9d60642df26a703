-- ===== src/Network/Udp/Segment/Tests.antt =====
-- Two bytes sent to port 0x3500, to a kernel in which no process has a port.
use james_os.Prelude.{
  ℕ, ◌+◌, ◌≡◌, refl, arith, List, [], ◌∷◌, some, replicate, replicate-IsBytes, IsBytes,
}
use james_os.Multitask.{multitask_init, boot}
use james_os.Network.Utils.{htons}
use james_os.Network.Udp.{UdpPorts, udp_forward_segment_to_process}
use james_os.Network.Udp.Segment.{UdpSegment, udp_send_segment, udp_recv_segment}
use james_os.Network.Udp.Segment.Delivery.{udp_recv_segment-udp_send_segment}

abbrev block : UdpSegment
block = record { header = replicate 8 0; payload = 9 ∷ 9 ∷ [] }

abbrev unbound : UdpPorts
unbound = record { pids = []; payloads = []; net_addresses = [] }

two_bytes : IsBytes (1 ∷ 2 ∷ [])
two_bytes = (omega arith, (omega arith, tt))

udp_recv_segment-udp_send_segment_example :
    (sent : List ℕ) × (udp_send_segment block
        (replicate 10 7)
        []
        0x0a000001
        0x1234
        (htons 0x3500)
        0x0a000002
        (1 ∷ 2 ∷ [])
        2
      ≡ some sent)
    × (udp_recv_segment unbound (multitask_init boot) block 0x0a000001 (replicate 6 2) sent (2 + 8)
        ≡ udp_forward_segment_to_process unbound
            (multitask_init boot)
            0x3500
            (1 ∷ 2 ∷ [])
            2
            0x1234
            0x0a000001
            (replicate 6 2))
udp_recv_segment-udp_send_segment_example =
    udp_recv_segment-udp_send_segment unbound (multitask_init boot) block block (replicate 10 7) []
      (1 ∷ 2 ∷ []) (replicate 6 2) 0x0a000001 0x0a000002 0x0a000001 0x1234 0x3500 2 refl refl refl
      refl refl refl (replicate-IsBytes 8 0 (omega arith)) two_bytes tt (omega arith) (omega arith)
      (omega arith)
