-- ===== src/Network/Tcp.antt =====
-- src/network/tcp.c: building a segment, its flags, the tests of the handshake, arrays and the
-- binding of ports. The blocks that `kmalloc_u` hands out and the local variables of a function
-- are arguments, with any contents.
pub mod Build
pub mod Flags
pub mod Bind
pub mod Connection
mod Tests
use james_os.Prelude.{
  ℕ, zero, suc, ◌+◌, ◌-◌, ◌*◌, ◌^◌, List, [], Option, none, some, Bool, true, false, not, ◌&&◌,
  ◌==◌, if◌then◌else◌, get_or, set, u32,
}
use mathlib.Core.Option
use james_os.Network.Utils.{
  set_bits_attr_value, get_bits_attr_value, set_bytes_attr_value, internet_checksum,
  pseudo_header_build, copy_block,
}

-- `struct tcp_segment`; the header has 64 bytes.
pub record TcpSegment : Type 0 where
  pub header : List ℕ
  pub payload : List ℕ

-- The arguments of `tcp_build_segment` that go into the header.
pub record TcpFields : Type 0 where
  pub source_port : ℕ
  pub destination_port : ℕ
  pub sequence_number : ℕ
  pub ack_number : ℕ
  pub data_offset : ℕ
  pub reserved : ℕ
  pub ecn : ℕ
  pub cwr : ℕ
  pub ece : ℕ
  pub urg : ℕ
  pub ack : ℕ
  pub psh : ℕ
  pub rst : ℕ
  pub syn : ℕ
  pub fin : ℕ
  pub window_size : ℕ
  pub urgent_pointer : ℕ

pub tcp_fields : TcpFields → List ℕ → List ℕ
tcp_fields f header =
    let h0 = set_bits_attr_value header 0 16 f.source_port in
    let h1 = set_bits_attr_value h0 16 16 f.destination_port in
    let h2 = set_bits_attr_value h1 32 32 f.sequence_number in
    let h3 = set_bits_attr_value h2 64 32 f.ack_number in
    let h4 = set_bits_attr_value h3 96 4 f.data_offset in
    let h5 = set_bits_attr_value h4 100 3 f.reserved in
    let h6 = set_bits_attr_value h5 103 1 f.ecn in
    let h7 = set_bits_attr_value h6 104 1 f.cwr in
    let h8 = set_bits_attr_value h7 105 1 f.ece in
    let h9 = set_bits_attr_value h8 106 1 f.urg in
    let h10 = set_bits_attr_value h9 107 1 f.ack in
    let h11 = set_bits_attr_value h10 108 1 f.psh in
    let h12 = set_bits_attr_value h11 109 1 f.rst in
    let h13 = set_bits_attr_value h12 110 1 f.syn in
    let h14 = set_bits_attr_value h13 111 1 f.fin in
    let h15 = set_bits_attr_value h14 112 16 f.window_size in
    set_bits_attr_value h15 144 16 f.urgent_pointer

-- The header with its fields and options.
pub tcp_options : TcpFields → List ℕ → List ℕ → List ℕ
tcp_options f options header =
    set_bytes_attr_value (tcp_fields f header) 20 (u32 (f.data_offset * 4 + 2 ^ 32 - 20)) options

-- `source_ip` is the address of the network card; `pseudo` and `block` are the pseudo header's and
-- the data's memory. The result is the segment that the source fills in place; the C function has no
-- return statement, and its callers do not use its value.
pub tcp_build_segment :
    TcpSegment → TcpFields → List ℕ → List ℕ → ℕ → ℕ → ℕ → List ℕ → List ℕ → Option TcpSegment
tcp_build_segment tcp f options payload size source_ip ip pseudo block =
    let pseudo' = pseudo_header_build pseudo source_ip ip 0 6 (size + f.data_offset * 4) in
    let header = set_bits_attr_value (tcp_options f options tcp.header) 128 16 0 in
    Option.map
      (λ checksum. record {
        header = set_bits_attr_value header 128 16 checksum;
        payload = if size == 0 then tcp.payload else copy_block payload 0 block 0 size;
      })
      (internet_checksum header (f.data_offset * 4) payload size pseudo' 12)

-- `struct tcp_flags`
pub record TcpFlags : Type 0 where
  pub ecn : ℕ
  pub cwr : ℕ
  pub ece : ℕ
  pub urg : ℕ
  pub ack : ℕ
  pub psh : ℕ
  pub rst : ℕ
  pub syn : ℕ
  pub fin : ℕ

pub tcp_get_flags : List ℕ → TcpFlags
tcp_get_flags header = record {
  ecn = get_bits_attr_value header 103 1;
  cwr = get_bits_attr_value header 104 1;
  ece = get_bits_attr_value header 105 1;
  urg = get_bits_attr_value header 106 1;
  ack = get_bits_attr_value header 107 1;
  psh = get_bits_attr_value header 108 1;
  rst = get_bits_attr_value header 109 1;
  syn = get_bits_attr_value header 110 1;
  fin = get_bits_attr_value header 111 1;
}

-- A field as a condition of C.
abbrev pub is_set : ℕ → Bool
is_set n = not (n == 0)

pub tcp_recv_threeway_syn : List ℕ → Bool
tcp_recv_threeway_syn header =
    let f = tcp_get_flags header in
    not (is_set f.ecn)
    && not (is_set f.cwr)
    && not (is_set f.ece)
    && not (is_set f.urg)
    && not (is_set f.ack)
    && not (is_set f.psh)
    && not (is_set f.rst)
    && is_set f.syn
    && not (is_set f.fin)

pub tcp_recv_threeway_syn_ack : List ℕ → Bool
tcp_recv_threeway_syn_ack header =
    let f = tcp_get_flags header in
    not (is_set f.ecn)
    && not (is_set f.cwr)
    && not (is_set f.ece)
    && not (is_set f.urg)
    && is_set f.ack
    && not (is_set f.psh)
    && not (is_set f.rst)
    && is_set f.syn
    && not (is_set f.fin)

pub tcp_recv_threeway_ack : List ℕ → Bool
tcp_recv_threeway_ack header =
    let f = tcp_get_flags header in
    not (is_set f.ecn)
    && not (is_set f.cwr)
    && not (is_set f.ece)
    && not (is_set f.urg)
    && is_set f.ack
    && not (is_set f.psh)
    && not (is_set f.rst)
    && not (is_set f.syn)
    && not (is_set f.fin)

pub tcp_recv_psh_ack : List ℕ → Bool
tcp_recv_psh_ack header =
    let f = tcp_get_flags header in
    not (is_set f.ecn)
    && not (is_set f.cwr)
    && not (is_set f.ece)
    && not (is_set f.urg)
    && is_set f.ack
    && is_set f.psh
    && not (is_set f.rst)
    && not (is_set f.syn)
    && not (is_set f.fin)

pub tcp_recv_fin_ack : List ℕ → Bool
tcp_recv_fin_ack header =
    let f = tcp_get_flags header in
    not (is_set f.ecn)
    && not (is_set f.cwr)
    && not (is_set f.ece)
    && not (is_set f.urg)
    && is_set f.ack
    && not (is_set f.psh)
    && not (is_set f.rst)
    && not (is_set f.syn)
    && is_set f.fin

-- The search of `tcp_bind` for a free ephemeral port, from `i` on with `left` to go; 0 for none.
-- The table is the column of `pid`.
pub free_port : List ℕ → ℕ → ℕ → ℕ
free_port pids i zero = 0
free_port pids i (suc left) =
    let rest = free_port pids (i + 1) left in if get_or pids i 0 == 0 then i else rest

-- `none` for -1.
pub tcp_bind : List ℕ → ℕ → ℕ → Option (ℕ × List ℕ)
tcp_bind pids current_pid port =
    let chosen = if port == 0 then free_port pids 32768 28232 else port in
    if chosen == 0 then none else some (chosen, set pids chosen current_pid)
