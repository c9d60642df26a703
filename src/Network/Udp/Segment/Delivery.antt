-- ===== src/Network/Udp/Segment/Delivery.antt =====
-- A segment that is sent and received.
use james_os.Prelude.{
  ℕ, ◌+◌, ◌-◌, ◌*◌, ◌≤◌, ◌<◌, ◌≡◌, refl, ◌∙◌, ap, ap₂, List, some, arith, length, get_or, u16, u32,
  IsBytes,
}
use mathlib.Core.Option
use james_os.Multitask.{System}
use james_os.Network.Utils.{
  copy_block, set_bytes_attr_value, htons, ntohs, load16, pseudo_header_build,
}
use james_os.Network.Utils.Order.{ntoh-hton}
use james_os.Network.Utils.Checksum.{internet_checksum-folded, folded, total}
use james_os.Network.Utils.Blocks.{
  copy_block-IsBytes, copy_block-joined, copy_block-whole, get_or-copy_block, length-copy_block,
  pseudo_header_build-keeps,
}
use james_os.Network.Ethernet.{bytes_of_16}
use james_os.Network.Udp.{UdpPorts, udp_forward_segment_to_process}
use james_os.Network.Udp.Segment.{
  UdpSegment, udp_fields, build_udp_segment, udp_to_array, array_to_udp, udp_send_segment,
  udp_recv_segment,
}

array_to_udp-udp_to_array :
    (segment block : UdpSegment) (array : List ℕ) (size : ℕ)
    → length segment.header ≡ 8
    → length segment.payload ≡ size
    → length array ≡ size + 8
    → length block.header ≡ 8
    → length block.payload ≡ size
    → size < 65536
    → array_to_udp block (udp_to_array segment size array) (size + 8) ≡ segment
unfolding udp_to_array array_to_udp
array_to_udp-udp_to_array segment block array size lh lp la lh' lp' fits =
    let rest : u32 (size + 8 + 4294967288) ≡ size = omega (arith, fits) in
    let (same, same') =
      copy_block-joined segment.header segment.payload array block.header block.payload 8 size lh lp
        (la ∙ omega arith) lh' lp' in
    rw rest (ap₂ (λ (h p : List ℕ). record { header = h; payload = p }) same same')

-- A 16-bit field that is written and one that is left as it is.
load16-written :
    (header : List ℕ) (w n : ℕ)
    → 2 * w + 2 ≤ length header
    → n < 65536
    → load16 (set_bytes_attr_value header (2 * w) 2 (bytes_of_16 n)) w ≡ n
unfolding set_bytes_attr_value
load16-written header w n fits narrow =
    let byte = get_or-copy_block (bytes_of_16 n) 0 header (2 * w) 2 in
    let z0 : 0 + 2 * w - 2 * w ≡ 0 = omega arith in
    let z1 : 0 + (2 * w + 1) - 2 * w ≡ 1 = omega arith in
    ground (
      arith,
      byte (2 * w) fits,
      byte (2 * w + 1) fits,
      narrow,
      ap (λ (t : ℕ). get_or (bytes_of_16 n) t 0) z0,
      ap (λ (t : ℕ). get_or (bytes_of_16 n) t 0) z1,
    )

load16-other :
    (header : List ℕ) (v w n : ℕ)
    → 2 * w + 2 ≤ length header
    → v < w
    → load16 (set_bytes_attr_value header (2 * w) 2 (bytes_of_16 n)) v ≡ load16 header v
unfolding set_bytes_attr_value
load16-other header v w n fits lt =
    let byte = get_or-copy_block (bytes_of_16 n) 0 header (2 * w) 2 in
    ground (arith, byte (2 * v) fits, byte (2 * v + 1) fits, lt)

length-field :
    (header : List ℕ) (i n : ℕ)
    → length (set_bytes_attr_value header i 2 (bytes_of_16 n)) ≡ length header
unfolding set_bytes_attr_value
length-field header i n = length-copy_block (bytes_of_16 n) 0 header i 2

-- The two ports in the header that is sent, whatever the checksum.
module _ (header : List ℕ) (source_port destination_port length' checksum : ℕ)
    (lh : length header ≡ 8) where
  abbrev sent : List ℕ
  sent =
      set_bytes_attr_value (udp_fields header source_port destination_port length') 6 2
        (bytes_of_16 checksum)

  abbrev h0 : List ℕ
  h0 = set_bytes_attr_value header 0 2 (bytes_of_16 source_port)

  abbrev h1 : List ℕ
  h1 = set_bytes_attr_value h0 2 2 (bytes_of_16 destination_port)

  abbrev h2 : List ℕ
  h2 = set_bytes_attr_value h1 4 2 (bytes_of_16 (htons length'))

  l0 : length h0 ≡ 8
  l0 = length-field header 0 source_port ∙ lh

  l1 : length h1 ≡ 8
  l1 = length-field h0 2 destination_port ∙ l0

  l2 : length h2 ≡ 8
  l2 = length-field h1 4 (htons length') ∙ l1

  l3 : length (udp_fields header source_port destination_port length') ≡ 8
  unfolding udp_fields
  l3 = length-field h2 6 0 ∙ l2

  length-sent : length sent ≡ 8
  length-sent =
      length-field (udp_fields header source_port destination_port length') 6 checksum ∙ l3

  ports-sent : (v : ℕ) → v < 2 → load16 sent v ≡ load16 h1 v
  unfolding udp_fields
  ports-sent v lt =
      load16-other (udp_fields header source_port destination_port length') v 3 checksum
        (omega (arith, l3)) (omega (arith, lt))
      ∙ load16-other h2 v 3 0 (omega (arith, l2)) (omega (arith, lt))
      ∙ load16-other h1 v 2 (htons length') (omega (arith, l1)) (omega (arith, lt))

  source-sent : source_port < 65536 → load16 sent 0 ≡ source_port
  source-sent narrow =
      ports-sent 0 (omega arith)
      ∙ load16-other h0 0 1 destination_port (omega (arith, l0)) (omega arith)
      ∙ load16-written header 0 source_port (omega (arith, lh)) narrow

  destination-sent : destination_port < 65536 → load16 sent 1 ≡ destination_port
  destination-sent narrow =
      ports-sent 1 (omega arith) ∙ load16-written h0 1 destination_port (omega (arith, l0)) narrow

field-IsBytes :
    (header : List ℕ) (i n : ℕ)
    → IsBytes header
    → n < 65536
    → IsBytes (set_bytes_attr_value header i 2 (bytes_of_16 n))
unfolding set_bytes_attr_value
field-IsBytes header i n hb narrow =
    copy_block-IsBytes (bytes_of_16 n) 0 header i 2 (omega arith, (omega (arith, narrow), tt)) hb

udp_fields-IsBytes :
    (header : List ℕ) (source_port destination_port length' : ℕ)
    → IsBytes header
    → source_port < 65536
    → destination_port < 65536
    → length' < 65536
    → IsBytes (udp_fields header source_port destination_port length')
unfolding udp_fields
udp_fields-IsBytes header source_port destination_port length' hb ns nd nl =
    let narrow : htons length' < 65536 = (ntoh-hton length' 0 nl (omega arith)).1 in
    field-IsBytes _ 6 0
      (field-IsBytes _ 4 (htons length')
        (field-IsBytes _ 2 destination_port (field-IsBytes header 0 source_port hb ns) nd) narrow)
      (omega arith)

-- What the receiver reads in a segment.
recv_udp_to_array :
    (t : UdpPorts) (s : System) (segment block : UdpSegment) (array mac : List ℕ) (from size : ℕ)
    → length segment.header ≡ 8
    → length segment.payload ≡ size
    → length array ≡ size + 8
    → length block.header ≡ 8
    → length block.payload ≡ size
    → size < 65528
    → udp_recv_segment t s block from mac (udp_to_array segment size array) (size + 8)
      ≡ udp_forward_segment_to_process t s
          (ntohs (load16 segment.header 1))
          segment.payload
          size
          (load16 segment.header 0)
          from
          mac
unfolding udp_recv_segment
recv_udp_to_array t s segment block array mac from size lh lp la lbh lbp short =
    let rest : u32 (size + 8 + 4294967288) ≡ size = omega (arith, short) in
    rw
      (
        array_to_udp-udp_to_array segment block array size lh lp la lbh lbp (omega (arith, short)),
        rest,
      )
      refl

-- Data that is sent to a port, given in the order of the network, is always put into a segment, and
-- the kernel that receives the segment delivers the data, all of it, to the process of that port,
-- with the port of the sender as the sender gave it. The data is shorter than 65528 bytes, and the
-- blocks have the sizes that are allocated for them.
pub udp_recv_segment-udp_send_segment :
    (t : UdpPorts) (s : System) (segment block : UdpSegment) (array pseudo payload : List ℕ)
    (mac : List ℕ) (source_ip ip from source_port port size : ℕ)
    → length segment.header ≡ 8
    → length segment.payload ≡ size
    → length array ≡ size + 8
    → length block.header ≡ 8
    → length block.payload ≡ size
    → length payload ≡ size
    → IsBytes segment.header
    → IsBytes payload
    → IsBytes pseudo
    → source_port < 65536
    → port < 65536
    → size < 65528
    → (sent : List ℕ) × (udp_send_segment segment array pseudo source_ip source_port
          (htons port)
          ip
          payload
          size
        ≡ some sent)
      × (udp_recv_segment t s block from mac sent (size + 8)
          ≡ udp_forward_segment_to_process t s port payload size source_port from mac)
unfolding udp_send_segment build_udp_segment
udp_recv_segment-udp_send_segment t s segment block array pseudo payload mac source_ip ip from
      source_port port size lh lp la lbh lbp lpay hb pb sb ns nd short =
    let (back, narrow, _, _) = ntoh-hton port 0 nd (omega arith) in
    let len = u16 (8 + size) in
    let header = udp_fields segment.header source_port (htons port) len in
    let p = pseudo_header_build pseudo source_ip ip 0 17 (u16 (size + 8)) in
    let sum =
      internet_checksum-folded header 8 payload size p 12
        (udp_fields-IsBytes segment.header source_port (htons port) len hb ns narrow (omega arith))
        pb (pseudo_header_build-keeps pseudo source_ip ip 0 17 (u16 (size + 8)) sb)
        (omega (arith, short)) in
    let c = 65535 - folded (total header 8 payload size p 12) in
    let built : UdpSegment = record {
      header = set_bytes_attr_value header 6 2 (bytes_of_16 (htons c));
      payload = copy_block payload 0 segment.payload 0 size;
    } in
    let whole = copy_block-whole payload segment.payload size lpay lp in
    (
      udp_to_array built size array,
      ap
          (λ r.
            Option.map (λ (b : UdpSegment). udp_to_array b size array)
              (Option.map
                (λ k. record {
                  header = set_bytes_attr_value header 6 2 (bytes_of_16 (htons k));
                  payload = copy_block payload 0 segment.payload 0 size;
                })
                r))
          sum,
      rw
          (
            recv_udp_to_array t s built block array mac from size
                (length-sent segment.header source_port (htons port) len (htons c) lh)
                (ap length whole ∙ lpay) la lbh lbp short,
            whole,
            destination-sent segment.header source_port (htons port) len (htons c) lh narrow,
            source-sent segment.header source_port (htons port) len (htons c) lh ns,
            back,
          )
          refl,
    )
