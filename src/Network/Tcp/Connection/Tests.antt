-- ===== src/Network/Tcp/Connection/Tests.antt =====
-- A handshake between ports 32768 and 80, and three bytes that arrive and are read.
use james_os.Prelude.{
  ℕ, ◌%◌, ◌≡◌, refl, ◌∙◌, arith, List, [], ◌∷◌, some, replicate, replicate-IsBytes,
  length-replicate,
}
use james_os.Prelude.Bits.{bit_in, bit_of}
use james_os.Libc.Bitmap.Fill.{bitmap_read-zeros}
use james_os.Network.Utils.Fields.{field, bit_at, get_bits-field}
use james_os.Network.Utils.{get_bits_attr_value}
use james_os.Network.Tcp.Connection.{TcpPort, RecvWindow, Reply, closed, tcp_send_ack, recv_data}
use james_os.Network.Tcp.Connection.Receive.{Blocks}
use james_os.Network.Tcp.Connection.Handshake.{Sender}
use james_os.Network.Tcp.Connection.Window.{HasRoom, taken}
use james_os.Network.Tcp.Connection.Arrival.{recv_data-returns}
use james_os.Network.Tcp.Connection.Read.{tcp_read, ReadBack, tcp_read-recv_data}

abbrev window : RecvWindow
window = record {
  last_acked_byte = 1;
  first_window_byte = 1;
  bitmap = replicate 128 0;
  buffer = replicate 1024 0;
}

abbrev blocks : Blocks
blocks = record {
  options = [];
  recv = window;
  send = record { last_acked_byte = 0; window_size = 0 };
}

abbrev port : TcpPort
port = record {
  state = closed;
  connection_stablished_or_reseted = 0;
  recv_window = window;
  send_window = record { last_acked_byte = 0; window_size = 0 };
}

abbrev sender : ℕ → ℕ → Sender
sender source_ip ip = record {
  block = record { header = replicate 64 0xff; payload = [] };
  pseudo = replicate 12 0;
  source_ip = source_ip;
  ip = ip;
}

window-HasRoom : HasRoom window
window-HasRoom = record {
  bytes = replicate-IsBytes 128 0 (omega arith);
  bits = refl;
  buffer = length-replicate {A = ℕ} 1024 0;
}

-- A header with sequence number 1, and nothing else.
abbrev header : List ℕ
header = 0 ∷ 0 ∷ 0 ∷ 0 ∷ 0 ∷ 0 ∷ 0 ∷ 1 ∷ []

begins : get_bits_attr_value header 32 32 ≡ 1
unfolding field bit_at bit_in bit_of
begins = get_bits-field header 32 32 (omega arith) (omega arith) ∙ refl

window_empty : (b : ℕ) → taken window b ≡ 0
window_empty b = bitmap_read-zeros 128 (b % 1024)

recv_data-returns_example :
    (out : RecvWindow × List Reply) × (recv_data header (7 ∷ 8 ∷ 9 ∷ []) 3 window ≡ some out)
recv_data-returns_example =
    recv_data-returns header (7 ∷ 8 ∷ 9 ∷ []) 3 window (omega arith) (omega arith)

tcp_read-recv_data_example :
    (w' : RecvWindow) × (recv_data header (7 ∷ 8 ∷ 9 ∷ []) 3 window
      ≡ some (w', tcp_send_ack header 4 ∷ []))
    × ReadBack (7 ∷ 8 ∷ 9 ∷ []) 4 3 (tcp_read w' (0 ∷ 0 ∷ 0 ∷ []) 10)
tcp_read-recv_data_example =
    tcp_read-recv_data header (7 ∷ 8 ∷ 9 ∷ []) (0 ∷ 0 ∷ 0 ∷ []) 1 3 10 window begins refl refl
      (omega arith) (omega arith) (omega arith) (omega arith) (omega arith) (omega arith)
      window-HasRoom window_empty
