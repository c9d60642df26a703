-- ===== src/Network/Ipv4/Build.antt =====
-- A packet that is built has the fields it was built with, and a checksum that verifies.
use james_os.Prelude.{
  ℕ, ◌+◌, ◌-◌, ◌^◌, ◌%◌, ◌≤◌, ◌≡◌, refl, ◌∙◌, ap, List, [], ◌∷◌, some, arith, length, IsBytes,
}
use james_os.Network.Utils.{copy_block, set_bits_attr_value, get_bits_attr_value, internet_checksum}
use james_os.Network.Utils.Checksum.{
  internet_checksum-folded, folded, total, internet_checksum-verifies,
}
use james_os.Network.Utils.Writes.{set_bits-keeps}
use james_os.Network.Utils.Batch.{
  Write, write, write_all, value_at, write_all-keeps, get_bits-write_all,
}
use mathlib.Core.Option
use james_os.Network.Ipv4.{Ipv4Packet, Ipv4Fields, ipv4_fields, build_ipv4_packet}

-- The writes of `build_ipv4_packet`, the last one first, without and with the zero checksum.
abbrev before : Ipv4Fields → List Write
before f =
    write 128 32 f.destination_ip
    ∷ write 96 32 f.source_ip
    ∷ write 72 8 f.protocol
    ∷ write 64 8 f.time_to_live
    ∷ write 51 13 f.fragment_offset
    ∷ write 48 3 f.flags
    ∷ write 32 16 f.identification
    ∷ write 16 16 f.total_length
    ∷ write 14 2 f.ecn
    ∷ write 8 6 f.dscp
    ∷ write 4 4 f.ihl
    ∷ write 0 4 f.version
    ∷ []

abbrev writes : Ipv4Fields → List Write
writes f = write 80 16 0 ∷ before f

ipv4_fields-writes : (f : Ipv4Fields) (h : List ℕ) → ipv4_fields f h ≡ write_all (writes f) h
unfolding ipv4_fields write_all
ipv4_fields-writes f h = refl

-- What the fields of a header read as.
pub record Carries (f : Ipv4Fields) (h : List ℕ) : Type 0 where
  pub version : get_bits_attr_value h 0 4 ≡ f.version % 2 ^ 4
  pub ihl : get_bits_attr_value h 4 4 ≡ f.ihl % 2 ^ 4
  pub dscp : get_bits_attr_value h 8 6 ≡ f.dscp % 2 ^ 6
  pub ecn : get_bits_attr_value h 14 2 ≡ f.ecn % 2 ^ 2
  pub total_length : get_bits_attr_value h 16 16 ≡ f.total_length % 2 ^ 16
  pub identification : get_bits_attr_value h 32 16 ≡ f.identification % 2 ^ 16
  pub flags : get_bits_attr_value h 48 3 ≡ f.flags % 2 ^ 3
  pub fragment_offset : get_bits_attr_value h 51 13 ≡ f.fragment_offset % 2 ^ 13
  pub time_to_live : get_bits_attr_value h 64 8 ≡ f.time_to_live % 2 ^ 8
  pub protocol : get_bits_attr_value h 72 8 ≡ f.protocol % 2 ^ 8
  pub source_ip : get_bits_attr_value h 96 32 ≡ f.source_ip % 2 ^ 32
  pub destination_ip : get_bits_attr_value h 128 32 ≡ f.destination_ip % 2 ^ 32

module _ (f : Ipv4Fields) (h : List ℕ) (c : ℕ) (hb : IsBytes h) (len : length h ≡ 20) where
  field_read :
      (o s v : ℕ)
      → o + s ≤ 160
      → s ≤ 32
      → value_at o s (write 80 16 c ∷ writes f) ≡ some v
      → get_bits_attr_value (set_bits_attr_value (ipv4_fields f h) 80 16 c) o s ≡ v % 2 ^ s
  unfolding write_all
  field_read o s v inside narrow e = rw (ipv4_fields-writes f h) (
      get_bits-write_all (write 80 16 c ∷ writes f) 20 h o s v hb len (omega arith) refl inside
        narrow e)

  pub fields_read : Carries f (set_bits_attr_value (ipv4_fields f h) 80 16 c)
  fields_read = record {
    version = field_read 0 4 f.version (omega arith) (omega arith) refl;
    ihl = field_read 4 4 f.ihl (omega arith) (omega arith) refl;
    dscp = field_read 8 6 f.dscp (omega arith) (omega arith) refl;
    ecn = field_read 14 2 f.ecn (omega arith) (omega arith) refl;
    total_length = field_read 16 16 f.total_length (omega arith) (omega arith) refl;
    identification = field_read 32 16 f.identification (omega arith) (omega arith) refl;
    flags = field_read 48 3 f.flags (omega arith) (omega arith) refl;
    fragment_offset = field_read 51 13 f.fragment_offset (omega arith) (omega arith) refl;
    time_to_live = field_read 64 8 f.time_to_live (omega arith) (omega arith) refl;
    protocol = field_read 72 8 f.protocol (omega arith) (omega arith) refl;
    source_ip = field_read 96 32 f.source_ip (omega arith) (omega arith) refl;
    destination_ip = field_read 128 32 f.destination_ip (omega arith) (omega arith) refl;
  }

-- What is built, with some checksum.
pub build_ipv4_packet-made :
    (ip : Ipv4Packet) (f : Ipv4Fields) (payload : List ℕ) (size : ℕ)
    → IsBytes ip.header
    → (c : ℕ) × (build_ipv4_packet ip f payload size
        ≡ some (record {
          header = set_bits_attr_value (ipv4_fields f ip.header) 80 16 c;
          payload = copy_block payload 0 ip.payload 0 size;
        }))
      × (length (set_bits_attr_value (ipv4_fields f ip.header) 80 16 c) ≡ length ip.header)
unfolding build_ipv4_packet
build_ipv4_packet-made ip f payload size hb =
    let (bytes, same) = write_all-keeps (writes f) ip.header hb in
    let bytes' : IsBytes (ipv4_fields f ip.header) = rw (ipv4_fields-writes f ip.header) bytes in
    let c = 65535 - folded (total (ipv4_fields f ip.header) 20 [] 0 [] 0) in
    (
      c,
      ap (Option.map _) (
          internet_checksum-folded (ipv4_fields f ip.header) 20 [] 0 [] 0 bytes' tt tt
            (omega arith)),
      (set_bits-keeps (ipv4_fields f ip.header) 80 16 c bytes').1
          ∙ ap length (ipv4_fields-writes f ip.header)
          ∙ same,
    )

verifies :
    (f : Ipv4Fields) (h : List ℕ) (c : ℕ)
    → IsBytes h
    → length h ≡ 20
    → internet_checksum (ipv4_fields f h) 20 [] 0 [] 0 ≡ some c
    → internet_checksum (set_bits_attr_value (ipv4_fields f h) 80 16 c) 20 [] 0 [] 0 ≡ some 0
unfolding ipv4_fields write_all
verifies f h c hb len computed =
    let (bytes, same) = write_all-keeps (before f) h hb in
    internet_checksum-verifies (write_all (before f) h) 20 [] 0 [] 0 5 bytes tt tt (omega arith)
      (omega arith) (omega (arith, same, len)) (omega arith) computed

-- `build_ipv4_packet` always returns a packet. On a header of 20 bytes, each of the twelve fields
-- of the header that is returned reads as the argument it was built with, cut to the field's
-- width, and the internet checksum over the header is 0, which is a receiver's test.
pub build_ipv4_packet-Carries :
    (ip : Ipv4Packet) (f : Ipv4Fields) (payload : List ℕ) (size : ℕ)
    → IsBytes ip.header
    → length ip.header ≡ 20
    → (out : Ipv4Packet) × (build_ipv4_packet ip f payload size ≡ some out)
      × Carries f out.header
      × (internet_checksum out.header 20 [] 0 [] 0 ≡ some 0)
unfolding build_ipv4_packet
build_ipv4_packet-Carries ip f payload size hb len =
    let (bytes, same) = write_all-keeps (writes f) ip.header hb in
    let bytes' : IsBytes (ipv4_fields f ip.header) = rw (ipv4_fields-writes f ip.header) bytes in
    let len' : length (ipv4_fields f ip.header) ≡ 20 =
      ap length (ipv4_fields-writes f ip.header) ∙ same ∙ len in
    let computed =
      internet_checksum-folded (ipv4_fields f ip.header) 20 [] 0 [] 0 bytes' tt tt (omega arith) in
    (
      _,
      ap (Option.map _) computed,
      fields_read f ip.header _ hb len,
      verifies f ip.header _ hb len computed,
    )
