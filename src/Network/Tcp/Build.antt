-- ===== src/Network/Tcp/Build.antt =====
-- A segment that is built has the fields it was built with, and a checksum that verifies.
use james_os.Prelude.{
  ℕ, ◌+◌, ◌-◌, ◌*◌, ◌^◌, ◌%◌, ◌≤◌, ◌≡◌, ◌⊎◌, refl, ◌∙◌, ap, List, [], ◌∷◌, some, arith, length,
  IsBytes, inl, inr, u32,
}
use mathlib.Core.Option
use james_os.Network.Utils.{
  set_bits_attr_value, get_bits_attr_value, set_bytes_attr_value, internet_checksum,
  pseudo_header_build,
}
use james_os.Network.Utils.Writes.{get_bits-set_bits, set_bits-keeps}
use james_os.Network.Utils.Checksum.{internet_checksum-folded, internet_checksum-verifies}
use james_os.Network.Utils.Batch.{
  Write, write, write_all, value_at, write_all-keeps, get_bits-write_all,
}
use james_os.Network.Utils.Blocks.{
  pseudo_header_build-keeps, length-copy_block, copy_block-IsBytes, get_bits-copy_block,
}
use james_os.Network.Tcp.{TcpSegment, TcpFields, tcp_fields, tcp_options, tcp_build_segment}

-- The writes of the fields, the last one first.
abbrev writes : TcpFields → List Write
writes f =
    write 144 16 f.urgent_pointer
    ∷ write 112 16 f.window_size
    ∷ write 111 1 f.fin
    ∷ write 110 1 f.syn
    ∷ write 109 1 f.rst
    ∷ write 108 1 f.psh
    ∷ write 107 1 f.ack
    ∷ write 106 1 f.urg
    ∷ write 105 1 f.ece
    ∷ write 104 1 f.cwr
    ∷ write 103 1 f.ecn
    ∷ write 100 3 f.reserved
    ∷ write 96 4 f.data_offset
    ∷ write 64 32 f.ack_number
    ∷ write 32 32 f.sequence_number
    ∷ write 16 16 f.destination_port
    ∷ write 0 16 f.source_port
    ∷ []

tcp_fields-writes : (f : TcpFields) (h : List ℕ) → tcp_fields f h ≡ write_all (writes f) h
unfolding tcp_fields write_all
tcp_fields-writes f h = refl

-- What the fields of a header read as.
pub record Carries (f : TcpFields) (h : List ℕ) : Type 0 where
  pub source_port : get_bits_attr_value h 0 16 ≡ f.source_port % 2 ^ 16
  pub destination_port : get_bits_attr_value h 16 16 ≡ f.destination_port % 2 ^ 16
  pub sequence_number : get_bits_attr_value h 32 32 ≡ f.sequence_number % 2 ^ 32
  pub ack_number : get_bits_attr_value h 64 32 ≡ f.ack_number % 2 ^ 32
  pub data_offset : get_bits_attr_value h 96 4 ≡ f.data_offset % 2 ^ 4
  pub reserved : get_bits_attr_value h 100 3 ≡ f.reserved % 2 ^ 3
  pub ecn : get_bits_attr_value h 103 1 ≡ f.ecn % 2 ^ 1
  pub cwr : get_bits_attr_value h 104 1 ≡ f.cwr % 2 ^ 1
  pub ece : get_bits_attr_value h 105 1 ≡ f.ece % 2 ^ 1
  pub urg : get_bits_attr_value h 106 1 ≡ f.urg % 2 ^ 1
  pub ack : get_bits_attr_value h 107 1 ≡ f.ack % 2 ^ 1
  pub psh : get_bits_attr_value h 108 1 ≡ f.psh % 2 ^ 1
  pub rst : get_bits_attr_value h 109 1 ≡ f.rst % 2 ^ 1
  pub syn : get_bits_attr_value h 110 1 ≡ f.syn % 2 ^ 1
  pub fin : get_bits_attr_value h 111 1 ≡ f.fin % 2 ^ 1
  pub window_size : get_bits_attr_value h 112 16 ≡ f.window_size % 2 ^ 16
  pub urgent_pointer : get_bits_attr_value h 144 16 ≡ f.urgent_pointer % 2 ^ 16

module _ (f : TcpFields) (options h : List ℕ) (hb : IsBytes h) (ob : IsBytes options)
    (len : length h ≡ 64) (low : 5 ≤ f.data_offset) (high : f.data_offset ≤ 15) where
  options_size : u32 (f.data_offset * 4 + 2 ^ 32 - 20) + 20 ≡ f.data_offset * 4
  options_size = omega (arith, low, high)

  fields_keep : IsBytes (tcp_fields f h) × (length (tcp_fields f h) ≡ 64)
  fields_keep =
      let (bytes, same) = write_all-keeps (writes f) h hb in
      rw (tcp_fields-writes f h) (bytes, same ∙ len)

  pub options_keep : IsBytes (tcp_options f options h) × (length (tcp_options f options h) ≡ 64)
  unfolding tcp_options set_bytes_attr_value
  options_keep =
      let (bytes, same) = fields_keep in
      (
        copy_block-IsBytes options 0 (tcp_fields f h) 20 (u32 (f.data_offset * 4 + 2 ^ 32 - 20)) ob
            bytes,
        length-copy_block options 0 (tcp_fields f h) 20 (u32 (f.data_offset * 4 + 2 ^ 32 - 20))
            ∙ same,
      )

  field_read :
      (c o s v : ℕ)
      → o + s ≤ 160
      → s ≤ 32
      → (o + s ≤ 128) ⊎ (144 ≤ o)
      → value_at o s (writes f) ≡ some v
      → get_bits_attr_value
          (set_bits_attr_value (set_bits_attr_value (tcp_options f options h) 128 16 0) 128 16 c)
          o
          s
        ≡ v % 2 ^ s
  unfolding tcp_options set_bytes_attr_value
  field_read c o s v inside narrow apart e =
      let (bytes, same) = options_keep in
      let (bytes', same') = set_bits-keeps (tcp_options f options h) 128 16 0 bytes in
      let n = u32 (f.data_offset * 4 + 2 ^ 32 - 20) in
      let unsum =
        (get_bits-set_bits (set_bits_attr_value (tcp_options f options h) 128 16 0) 128 16 c o s
          bytes' (omega (arith, same, same')) (omega arith) (omega arith) (omega arith) narrow
          apart).1 in
      let unzero =
        (get_bits-set_bits (tcp_options f options h) 128 16 0 o s bytes (omega (arith, same))
          (omega arith) (omega arith) (omega arith) narrow apart).1 in
      unsum
      ∙ unzero
      ∙ get_bits-copy_block options 0 (tcp_fields f h) 20 n o s
          (omega (arith, options_size, fields_keep.1, high)) (omega arith) (omega arith) narrow
      ∙ rw (tcp_fields-writes f h) (
          get_bits-write_all (writes f) 64 h o s v hb len (omega arith) refl (omega arith) narrow e)

  pub fields_read :
      (c : ℕ)
      → Carries f
          (set_bits_attr_value (set_bits_attr_value (tcp_options f options h) 128 16 0) 128 16 c)
  fields_read c = record {
    source_port =
        field_read c 0 16 f.source_port (omega arith) (omega arith) (inl (omega arith)) refl;
    destination_port =
        field_read c 16 16 f.destination_port (omega arith) (omega arith) (inl (omega arith)) refl;
    sequence_number =
        field_read c 32 32 f.sequence_number (omega arith) (omega arith) (inl (omega arith)) refl;
    ack_number =
        field_read c 64 32 f.ack_number (omega arith) (omega arith) (inl (omega arith)) refl;
    data_offset =
        field_read c 96 4 f.data_offset (omega arith) (omega arith) (inl (omega arith)) refl;
    reserved = field_read c 100 3 f.reserved (omega arith) (omega arith) (inl (omega arith)) refl;
    ecn = field_read c 103 1 f.ecn (omega arith) (omega arith) (inl (omega arith)) refl;
    cwr = field_read c 104 1 f.cwr (omega arith) (omega arith) (inl (omega arith)) refl;
    ece = field_read c 105 1 f.ece (omega arith) (omega arith) (inl (omega arith)) refl;
    urg = field_read c 106 1 f.urg (omega arith) (omega arith) (inl (omega arith)) refl;
    ack = field_read c 107 1 f.ack (omega arith) (omega arith) (inl (omega arith)) refl;
    psh = field_read c 108 1 f.psh (omega arith) (omega arith) (inl (omega arith)) refl;
    rst = field_read c 109 1 f.rst (omega arith) (omega arith) (inl (omega arith)) refl;
    syn = field_read c 110 1 f.syn (omega arith) (omega arith) (inl (omega arith)) refl;
    fin = field_read c 111 1 f.fin (omega arith) (omega arith) (inl (omega arith)) refl;
    window_size =
        field_read c 112 16 f.window_size (omega arith) (omega arith) (inl (omega arith)) refl;
    urgent_pointer =
        field_read c 144 16 f.urgent_pointer (omega arith) (omega arith) (inr (omega arith)) refl;
  }

-- `tcp_build_segment` always returns a segment. On a header of 64 bytes, with a data offset from 5
-- to 15 and up to 100000 bytes of data, each of the seventeen fields reads as the argument it was
-- built with, cut to the field's width, and the internet checksum over the header with its
-- options, the data and the pseudo header is 0, which is a receiver's test.
pub tcp_build_segment-Carries :
    (tcp : TcpSegment) (f : TcpFields) (options payload : List ℕ) (size source_ip ip : ℕ)
    (pseudo block : List ℕ)
    → IsBytes tcp.header
    → length tcp.header ≡ 64
    → IsBytes options
    → IsBytes payload
    → IsBytes pseudo
    → 5 ≤ f.data_offset
    → f.data_offset ≤ 15
    → size ≤ 100000
    → (out : TcpSegment) × (tcp_build_segment tcp f options payload size source_ip ip pseudo block
        ≡ some out)
      × Carries f out.header
      × (internet_checksum out.header
            (f.data_offset * 4)
            payload
            size
            (pseudo_header_build pseudo source_ip ip 0 6 (size + f.data_offset * 4))
            12
          ≡ some 0)
unfolding tcp_build_segment
tcp_build_segment-Carries tcp f options payload size source_ip ip pseudo block hb len ob pb ub low
      high short =
    let (bytes, same) = options_keep f options tcp.header hb ob len low high in
    let h = tcp_options f options tcp.header in
    let bytes0 = (set_bits-keeps h 128 16 0 bytes).0 in
    let pseudo' = pseudo_header_build pseudo source_ip ip 0 6 (size + f.data_offset * 4) in
    let pbytes = pseudo_header_build-keeps pseudo source_ip ip 0 6 (size + f.data_offset * 4) ub in
    let computed =
      internet_checksum-folded (set_bits_attr_value h 128 16 0) (f.data_offset * 4) payload size
        pseudo' 12 bytes0 pb pbytes (omega arith) in
    (
      _,
      ap (Option.map _) computed,
      fields_read f options tcp.header hb ob len low high _,
      internet_checksum-verifies h (f.data_offset * 4) payload size pseudo' 12 8 bytes pb pbytes
          (omega arith) (omega arith) (omega (arith, same)) (omega arith) computed,
    )
