-- ===== src/Network/Tcp/Tests.antt =====
-- A segment that is built and tested, and ports that are bound.
use james_os.Prelude.{
  ℕ, ◌+◌, ◌*◌, ◌≡◌, refl, [], some, arith, length-replicate, replicate, replicate-IsBytes,
}
use james_os.Network.Utils.{internet_checksum, pseudo_header_build}
use james_os.Network.Tcp.{TcpSegment, TcpFields, tcp_build_segment, tcp_bind}
use james_os.Network.Tcp.Build.{Carries, tcp_build_segment-Carries}
use james_os.Network.Tcp.Bind.{FirstFree, tcp_bind-FirstFree}

-- The segment that `tcp_connect` sends.
abbrev connect : TcpFields
connect = record {
  source_port = 32768;
  destination_port = 80;
  sequence_number = 0;
  ack_number = 0;
  data_offset = 5;
  reserved = 0;
  ecn = 0;
  cwr = 0;
  ece = 0;
  urg = 0;
  ack = 0;
  psh = 0;
  rst = 0;
  syn = 1;
  fin = 0;
  window_size = 1024;
  urgent_pointer = 0;
}

abbrev segment : TcpSegment
segment = record { header = replicate 64 0xff; payload = [] }

tcp_build_segment-Carries_example :
    (out : TcpSegment) × (tcp_build_segment segment connect [] [] 0 1 2 (replicate 12 0) []
      ≡ some out)
    × Carries connect out.header
    × (internet_checksum out.header
          (5 * 4)
          []
          0
          (pseudo_header_build (replicate 12 0) 1 2 0 6 (0 + 5 * 4))
          12
        ≡ some 0)
tcp_build_segment-Carries_example =
    tcp_build_segment-Carries segment connect [] [] 0 1 2 (replicate 12 0) []
      (replicate-IsBytes 64 0xff (omega arith)) refl tt tt (replicate-IsBytes 12 0 (omega arith))
      (omega arith) (omega arith) (omega arith)

tcp_bind-FirstFree_example : FirstFree (replicate 65535 0) 7 (tcp_bind (replicate 65535 0) 7 0)
tcp_bind-FirstFree_example =
    tcp_bind-FirstFree (replicate 65535 0) 7 (length-replicate {A = ℕ} 65535 0)
