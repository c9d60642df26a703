-- ===== src/Network/Tcp/Connection.antt =====
-- src/network/tcp.c: the state of a port, the segments that are received for it, the replies, and
-- the window of received bytes. A reply is given by the arguments of `tcp_build_segment`.
pub mod Receive
pub mod Replies
pub mod Handshake
pub mod Window
pub mod Arrival
pub mod Read
mod Tests
use james_os.Prelude.{
  ℕ, zero, suc, ◌+◌, ◌-◌, ◌*◌, ◌^◌, ◌%◌, List, [], ◌∷◌, Option, none, some, Bool, true, false, not,
  ◌==◌, ltb, leb, if◌then◌else◌, get_or, set, u8, u32,
}
use mathlib.Core.Option
use james_os.Libc.Minmax.{max, min}
use james_os.Libc.Bitmap.{bitmap_set, bitmap_clear, bitmap_read}
use james_os.Network.Utils.{get_bits_attr_value, get_bytes_attr_value, copy_block}
use james_os.Network.Tcp.{
  TcpSegment, TcpFields, tcp_build_segment, tcp_recv_threeway_syn, tcp_recv_threeway_syn_ack,
  tcp_recv_threeway_ack, tcp_recv_psh_ack, tcp_recv_fin_ack,
}

-- The numbers 0 to 10 of the header file, in order.
pub data TcpState : Type 0 where
  waiting_threeway_syn : TcpState
  waiting_threeway_syn_ack : TcpState
  waiting_threeway_ack : TcpState
  connected : TcpState
  fin_wait_1 : TcpState
  fin_wait_2 : TcpState
  closing : TcpState
  time_wait : TcpState
  close_wait : TcpState
  last_ack : TcpState
  closed : TcpState

pub record SendWindow : Type 0 where
  pub last_acked_byte : ℕ
  pub window_size : ℕ

pub record RecvWindow : Type 0 where
  pub last_acked_byte : ℕ
  pub first_window_byte : ℕ
  pub bitmap : List ℕ
  pub buffer : List ℕ

-- Of an entry of the table of ports, what receiving uses.
pub record TcpPort : Type 0 where
  pub state : TcpState
  pub connection_stablished_or_reseted : ℕ
  pub recv_window : RecvWindow
  pub send_window : SendWindow

pub record Reply : Type 0 where
  pub fields : TcpFields
  pub options : List ℕ

abbrev pub sliding_window_size : ℕ
sliding_window_size = 1024

-- `options` is the block for the options.
unfoldable pub tcp_send_syn_ack : List ℕ → List ℕ → Reply
tcp_send_syn_ack options header =
    let data_offset = get_bits_attr_value header 96 4 in
    let options_size = u32 (data_offset * 4 + 2 ^ 32 - 20) in
    record {
      options = get_bytes_attr_value header 20 options_size options;
      fields = record {
        source_port = get_bits_attr_value header 16 16;
        destination_port = get_bits_attr_value header 0 16;
        sequence_number = 0;
        ack_number = u32 (get_bits_attr_value header 32 32 + 1);
        data_offset = data_offset;
        reserved = get_bits_attr_value header 100 3;
        ecn = 0;
        cwr = 0;
        ece = 0;
        urg = 0;
        ack = 1;
        psh = 0;
        rst = 0;
        syn = 1;
        fin = 0;
        window_size = sliding_window_size;
        urgent_pointer = get_bits_attr_value header 144 16;
      };
    }

unfoldable pub tcp_send_ack : List ℕ → ℕ → Reply
tcp_send_ack header ack_number = record {
  options = [];
  fields = record {
    source_port = get_bits_attr_value header 16 16;
    destination_port = get_bits_attr_value header 0 16;
    sequence_number = get_bits_attr_value header 64 32;
    ack_number = ack_number;
    data_offset = 5;
    reserved = get_bits_attr_value header 100 3;
    ecn = 0;
    cwr = 0;
    ece = 0;
    urg = 0;
    ack = 1;
    psh = 0;
    rst = 0;
    syn = 0;
    fin = 0;
    window_size = sliding_window_size;
    urgent_pointer = get_bits_attr_value header 144 16;
  };
}

pub tcp_send_fin_ack : List ℕ → List ℕ → Reply
tcp_send_fin_ack options header =
    let data_offset = get_bits_attr_value header 96 4 in
    let options_size = u32 (data_offset * 4 + 2 ^ 32 - 20) in
    record {
      options = get_bytes_attr_value header 20 options_size options;
      fields = record {
        source_port = get_bits_attr_value header 16 16;
        destination_port = get_bits_attr_value header 0 16;
        sequence_number = get_bits_attr_value header 64 32;
        ack_number = u32 (get_bits_attr_value header 32 32 + 1);
        data_offset = data_offset;
        reserved = get_bits_attr_value header 100 3;
        ecn = 0;
        cwr = 0;
        ece = 0;
        urg = 0;
        ack = 1;
        psh = 0;
        rst = 0;
        syn = 0;
        fin = 1;
        window_size = sliding_window_size;
        urgent_pointer = get_bits_attr_value header 144 16;
      };
    }

pub tcp_state_threeway_syn_handler : List ℕ → List ℕ → Bool × List Reply
tcp_state_threeway_syn_handler options header =
    if tcp_recv_threeway_syn header
    then (true, tcp_send_syn_ack options header ∷ [])
    else (false, [])

pub tcp_state_threeway_syn_ack_handler : List ℕ → ℕ → Bool × List Reply
tcp_state_threeway_syn_ack_handler header data_size =
    let ack_number = u32 (get_bits_attr_value header 32 32 + data_size + 1) in
    if tcp_recv_threeway_syn_ack header
    then (true, tcp_send_ack header ack_number ∷ [])
    else (false, [])

pub tcp_state_threeway_ack_handler : List ℕ → Bool
tcp_state_threeway_ack_handler header = if tcp_recv_threeway_ack header then true else false

-- One byte of the received data into the window, if it has not come before.
pub recv_byte : List ℕ → ℕ → ℕ → RecvWindow → RecvWindow
recv_byte payload sequence_number curr_byte window =
    let at = curr_byte % sliding_window_size in
    if not (bitmap_read window.bitmap at == 0) then window else record window {
      bitmap = bitmap_set window.bitmap at;
      buffer = set window.buffer at (get_or payload (u32 (curr_byte + 2 ^ 32 - sequence_number)) 0);
    }

-- The loop over the received bytes: the byte after the last, and the window. Each round takes one
-- from the fuel, and there is no result without fuel.
pub recv_loop : List ℕ → ℕ → ℕ → ℕ → ℕ → RecvWindow → Option (ℕ × RecvWindow)
recv_loop payload sequence_number zero curr_byte last_byte window = none
recv_loop payload sequence_number (suc fuel) curr_byte last_byte window =
    let rest =
      recv_loop payload sequence_number fuel (u32 (curr_byte + 1)) last_byte
        (recv_byte payload sequence_number curr_byte window) in
    if leb curr_byte last_byte then rest else some (curr_byte, window)

-- What follows the loop: the highest byte that can be acknowledged.
pub send_highest_ack : List ℕ → ℕ → ℕ × RecvWindow → RecvWindow × List Reply
send_highest_ack header last_acked_byte (curr_byte, window) =
    if ltb last_acked_byte curr_byte
    then (record window { last_acked_byte = curr_byte }, tcp_send_ack header curr_byte ∷ [])
    else (window, [])

-- The data of a segment with PSH and ACK. The loop has at most 1024 rounds.
pub recv_data : List ℕ → List ℕ → ℕ → RecvWindow → Option (RecvWindow × List Reply)
recv_data header payload data_size window =
    let sequence_number = get_bits_attr_value header 32 32 in
    let last_received_byte = u32 (sequence_number + data_size + 2 ^ 32 - 1) in
    let last_possible_byte = u32 (window.first_window_byte + sliding_window_size + 2 ^ 32 - 1) in
    let curr_byte = max window.last_acked_byte sequence_number in
    let last_byte = min last_possible_byte last_received_byte in
    if ltb last_possible_byte sequence_number
    then some (window, [])
    else if ltb last_received_byte window.last_acked_byte
    then some (window, tcp_send_ack header window.last_acked_byte ∷ [])
    else Option.map (send_highest_ack header window.last_acked_byte)
        (recv_loop payload sequence_number 1025 curr_byte last_byte window)

pub tcp_state_connected_handler :
    List ℕ → List ℕ → List ℕ → ℕ → TcpPort → Option (Bool × TcpPort × List Reply)
tcp_state_connected_handler options header payload data_size port =
    let acked : TcpPort = record port {
      send_window = record port.send_window { last_acked_byte = get_bits_attr_value header 64 32 };
    } in
    if tcp_recv_threeway_ack header
    then some (false, acked, [])
    else if tcp_recv_psh_ack header
    then Option.map (λ (window, replies). (false, record port { recv_window = window }, replies))
        (recv_data header payload data_size port.recv_window)
    else if tcp_recv_fin_ack header
    then some (true, port, tcp_send_fin_ack options header ∷ [])
    else some (false, port, [])

-- The two windows are new blocks, `recv` and `send`; the bitmap is not cleared.
unfoldable pub tcp_init_window : RecvWindow → SendWindow → ℕ → ℕ → TcpPort → TcpPort
tcp_init_window recv send sequence_number window_size port = record port {
  recv_window = record recv {
    last_acked_byte = u32 (sequence_number + 1);
    first_window_byte = u32 (sequence_number + 1);
  };
  send_window = record {
    last_acked_byte = 1;
    window_size = if ltb window_size sliding_window_size then window_size else sliding_window_size;
  };
}
