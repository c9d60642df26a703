-- ===== src/Network/Tcp/Connection/Receive.antt =====
-- src/network/tcp.c: a segment that is received, for the port that its header names; segments as
-- arrays; and the two ways a connection begins.
use james_os.Prelude.{
  ℕ, zero, suc, ◌+◌, ◌-◌, ◌*◌, ◌^◌, List, [], ◌∷◌, Option, some, Bool, true, false, if◌then◌else◌,
  u32,
}
use mathlib.Core.Option
use james_os.Network.Utils.{get_bits_attr_value, copy_block}
use james_os.Network.Tcp.{TcpSegment, TcpFields}
use james_os.Network.Tcp.Connection.{
  TcpState, waiting_threeway_syn, waiting_threeway_syn_ack, waiting_threeway_ack, connected,
  fin_wait_1, fin_wait_2, closing, time_wait, close_wait, last_ack, closed, TcpPort, RecvWindow,
  SendWindow, Reply, tcp_state_threeway_syn_handler, tcp_state_threeway_syn_ack_handler,
  tcp_state_threeway_ack_handler, tcp_state_connected_handler, tcp_init_window, sliding_window_size,
}

-- The header's bytes and the data in the blocks of a segment.
pub array_to_tcp : TcpSegment → List ℕ → ℕ → TcpSegment
array_to_tcp segment array size =
    let data_offset = get_bits_attr_value array 96 4 in
    record {
      header = copy_block array 0 segment.header 0 (data_offset * 4);
      payload =
          copy_block array (data_offset * 4) segment.payload 0
            (u32 (size + 2 ^ 32 - data_offset * 4));
    }

pub tcp_to_array : TcpSegment → ℕ → List ℕ → List ℕ
tcp_to_array tcp data_size array =
    let data_offset = get_bits_attr_value tcp.header 96 4 in
    copy_block tcp.payload 0 (copy_block tcp.header 0 array 0 (data_offset * 4)) (data_offset * 4)
      data_size

-- The segment that `tcp_connect` sends until it is answered.
unfoldable pub connect_fields : ℕ → ℕ → TcpFields
connect_fields src_port dest_port = record {
  source_port = src_port;
  destination_port = dest_port;
  sequence_number = 0;
  ack_number = 0;
  data_offset = 5;
  reserved = 0;
  ecn = 0;
  cwr = 0;
  ece = 0;
  urg = 0;
  ack = 0;
  psh = 0;
  rst = 0;
  syn = 1;
  fin = 0;
  window_size = sliding_window_size;
  urgent_pointer = 0;
}

-- What `tcp_connect` does to the port before it sends.
unfoldable pub tcp_connect_port : TcpPort → TcpPort
tcp_connect_port port = record port { state = waiting_threeway_syn_ack }

unfoldable pub tcp_listen : TcpPort → TcpPort
tcp_listen port = record port { state = waiting_threeway_syn }

-- The blocks that receiving a segment may take.
pub record Blocks : Type 0 where
  pub options : List ℕ
  pub recv : RecvWindow
  pub send : SendWindow

-- The cases where a handler's answer decides.
unfoldable pub to_waiting_ack : Blocks → ℕ → ℕ → TcpPort → Bool × List Reply → TcpPort × List Reply
to_waiting_ack blocks sequence_number window_size port (true, replies) = (
  tcp_init_window blocks.recv blocks.send sequence_number window_size
      (record port { state = waiting_threeway_ack }),
  replies,
)
to_waiting_ack blocks sequence_number window_size port (false, replies) = (port, replies)

unfoldable pub to_connected : Blocks → ℕ → ℕ → TcpPort → Bool × List Reply → TcpPort × List Reply
to_connected blocks sequence_number window_size port (true, replies) = (
  tcp_init_window blocks.recv blocks.send sequence_number window_size
      (record port { state = connected; connection_stablished_or_reseted = 1 }),
  replies,
)
to_connected blocks sequence_number window_size port (false, replies) = (port, replies)

unfoldable pub to_close_wait : Bool × TcpPort × List Reply → TcpPort × List Reply
to_close_wait (true, port, replies) = (record port { state = close_wait }, replies)
to_close_wait (false, port, replies) = (port, replies)

-- The switch of `tcp_recv_segment` on the state of the port. In state `fin_wait_1` the last of the
-- three assignments is what remains.
unfoldable pub recv_on_port :
    Blocks → List ℕ → List ℕ → ℕ → TcpState → TcpPort → Option (TcpPort × List Reply)
recv_on_port blocks header payload data_size waiting_threeway_syn port = some (
    to_waiting_ack blocks (get_bits_attr_value header 32 32) (get_bits_attr_value header 112 16)
      port (tcp_state_threeway_syn_handler blocks.options header))
recv_on_port blocks header payload data_size waiting_threeway_syn_ack port = some (
    to_connected blocks (get_bits_attr_value header 32 32) (get_bits_attr_value header 112 16) port
      (tcp_state_threeway_syn_ack_handler header data_size))
recv_on_port blocks header payload data_size waiting_threeway_ack port =
    some (
      if tcp_state_threeway_ack_handler header then record port { state = connected } else port,
      [],
    )
recv_on_port blocks header payload data_size connected port =
    Option.map to_close_wait
      (tcp_state_connected_handler blocks.options header payload data_size port)
recv_on_port blocks header payload data_size fin_wait_1 port =
    some (record port { state = time_wait }, [])
recv_on_port blocks header payload data_size fin_wait_2 port =
    some (record port { state = time_wait }, [])
recv_on_port blocks header payload data_size closing port =
    some (record port { state = time_wait }, [])
recv_on_port blocks header payload data_size time_wait port =
    some (record port { state = closed }, [])
recv_on_port blocks header payload data_size close_wait port =
    some (record port { state = last_ack }, [])
recv_on_port blocks header payload data_size last_ack port =
    some (record port { state = closed }, [])
recv_on_port blocks header payload data_size closed port = some (port, [])

-- The table of ports with one entry changed, and the replies. Out of the table nothing happens.
pub at_port :
    (TcpPort → Option (TcpPort × List Reply))
    → List TcpPort
    → ℕ
    → Option (List TcpPort × List Reply)
at_port f [] port = some ([], [])
at_port f (p ∷ table) zero = Option.map (λ (p', replies). (p' ∷ table, replies)) (f p)
at_port f (p ∷ table) (suc port) =
    Option.map (λ (table', replies). (p ∷ table', replies)) (at_port f table port)

pub tcp_recv_segment :
    Blocks → TcpSegment → List ℕ → ℕ → List TcpPort → Option (List TcpPort × List Reply)
tcp_recv_segment blocks block array segment_size tcp_port_table =
    let segment = array_to_tcp block array segment_size in
    let port = get_bits_attr_value segment.header 16 16 in
    let data_offset = get_bits_attr_value array 96 4 in
    let data_size = u32 (segment_size + 2 ^ 32 - data_offset * 4) in
    at_port (λ p. recv_on_port blocks segment.header segment.payload data_size p.state p)
      tcp_port_table port
