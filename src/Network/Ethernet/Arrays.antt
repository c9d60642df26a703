-- ===== src/Network/Ethernet/Arrays.antt =====
-- A frame that is sent and received.
use james_os.Prelude.{
  u32, ℕ, ◌+◌, ◌-◌, ◌*◌, ◌<◌, ◌≡◌, refl, sym, ◌∙◌, ap, ap₂, List, ◌==◌, if◌then◌else◌, arith,
  length, get_or, get_or_ext, ltb, leb, ◌&&◌,
}
use james_os.Network.Utils.{copy_block, get_bytes_attr_value, set_bytes_attr_value}
use james_os.Network.Utils.Blocks.{
  copy_block-joined, copy_block-whole, get_or-copy_block, length-copy_block,
}
use james_os.Network.Ethernet.{
  EtherFrame, build_ether_frame, ethernet_to_array, array_to_ethernet, send_ethernet_frame, to_ipv4,
  to_arp, undefined_protocol, recv_ethernet_frame, bytes_of_16,
}

array_to_ethernet-ethernet_to_array :
    (frame block : EtherFrame) (array : List ℕ) (size : ℕ)
    → length frame.header ≡ 14
    → length frame.payload ≡ size
    → length array ≡ size + 14
    → length block.header ≡ 14
    → length block.payload ≡ size
    → size < 4294967282
    → array_to_ethernet block (ethernet_to_array frame size array) (size + 14) ≡ frame
unfolding ethernet_to_array array_to_ethernet
array_to_ethernet-ethernet_to_array frame block array size lh lp la lh' lp' fits =
    let rest : u32 (size + 14 + 4294967282) ≡ size = omega (arith, fits) in
    let (same, same') =
      copy_block-joined frame.header frame.payload array block.header block.payload 14 size lh lp
        (la ∙ omega arith) lh' lp' in
    rw rest (ap₂ (λ (h p : List ℕ). record { header = h; payload = p }) same same')

-- The header that is built: the two addresses, and the type, low byte first.
module _ (frame : EtherFrame) (mac_addr dest : List ℕ) (type : ℕ) (payload : List ℕ) (size : ℕ)
    (lh : length frame.header ≡ 14) where
  abbrev built : List ℕ
  built = (build_ether_frame frame mac_addr dest type payload size).header

  get_or-built :
      (q : ℕ)
      → get_or built q 0 ≡ (
          if leb 12 q && ltb q 14
          then get_or (bytes_of_16 type) (q - 12) 0
          else if leb 6 q && ltb q 12
          then get_or mac_addr (q - 6) 0
          else if ltb q 6
          then get_or dest q 0
          else get_or frame.header q 0)
  unfolding build_ether_frame set_bytes_attr_value
  get_or-built q =
      let h0 = copy_block dest 0 frame.header 0 6 in
      let h1 = copy_block mac_addr 0 h0 6 6 in
      let l0 = length-copy_block dest 0 frame.header 0 6 in
      let l1 = length-copy_block mac_addr 0 h0 6 6 in
      let z12 : 0 + q - 12 ≡ q - 12 = omega arith in
      let z6 : 0 + q - 6 ≡ q - 6 = omega arith in
      let z0 : 0 + q - 0 ≡ q = omega arith in
      ground (
        arith,
        get_or-copy_block (bytes_of_16 type) 0 h1 12 2 q (omega (arith, lh, l0, l1)),
        get_or-copy_block mac_addr 0 h0 6 6 q (omega (arith, lh, l0)),
        get_or-copy_block dest 0 frame.header 0 6 q (omega (arith, lh)),
        ap (λ (t : ℕ). get_or (bytes_of_16 type) t 0) z12,
        ap (λ (t : ℕ). get_or mac_addr t 0) z6,
        ap (λ (t : ℕ). get_or dest t 0) z0,
      )

  length-built : length built ≡ 14
  unfolding build_ether_frame set_bytes_attr_value
  length-built =
      let h0 = copy_block dest 0 frame.header 0 6 in
      let h1 = copy_block mac_addr 0 h0 6 6 in
      length-copy_block (bytes_of_16 type) 0 h1 12 2
      ∙ length-copy_block mac_addr 0 h0 6 6
      ∙ length-copy_block dest 0 frame.header 0 6
      ∙ lh

  source_of_built :
      (source_addr : List ℕ)
      → length mac_addr ≡ 6
      → length source_addr ≡ 6
      → get_bytes_attr_value built 6 6 source_addr ≡ mac_addr
  unfolding get_bytes_attr_value
  source_of_built source_addr lm ls =
      get_or_ext 0 (copy_block built 6 source_addr 0 6) mac_addr
        (length-copy_block built 6 source_addr 0 6 ∙ ls ∙ sym lm)
        (λ q lt.
          let inside : q < 6 = omega (arith, lt, length-copy_block built 6 source_addr 0 6, ls) in
          let index : 6 + q - 0 ≡ 6 + q = omega arith in
          let back : 6 + q - 6 ≡ q = omega arith in
          ground (
            arith,
            get_or-copy_block built 6 source_addr 0 6 q (omega (arith, ls)),
            inside,
            ap (λ (t : ℕ). get_or built t 0) index,
            get_or-built (6 + q),
            ap (λ (t : ℕ). get_or mac_addr t 0) back,
          ))

-- Data that is sent in a frame, to whatever address, is what a card that gets the array takes out of
-- it: an IPv4 packet with the address of the card that sent it, or an ARP packet, by the type of the
-- frame. The blocks have the sizes that are allocated for them,
-- and the size of the array has 32 bits.
pub recv_ethernet_frame-send_ethernet_frame :
    (frame block : EtherFrame) (array source_addr mac_addr mac payload : List ℕ) (size type : ℕ)
    → length frame.header ≡ 14
    → length frame.payload ≡ size
    → length array ≡ size + 14
    → length block.header ≡ 14
    → length block.payload ≡ size
    → length payload ≡ size
    → length mac_addr ≡ 6
    → length source_addr ≡ 6
    → type < 65536
    → size < 4294967282
    → recv_ethernet_frame block source_addr
        (send_ethernet_frame frame array mac_addr mac payload size type)
        (size + 14)
      ≡ (if type == 0x0008
          then to_ipv4 mac_addr payload size
          else if type == 0x0608
          then to_arp payload
          else undefined_protocol)
unfolding recv_ethernet_frame send_ethernet_frame
recv_ethernet_frame-send_ethernet_frame frame block array source_addr mac_addr mac payload size type
      lh lp la lbh lbp lpay lm ls narrow fits =
    let sent = build_ether_frame frame mac_addr mac type payload size in
    let whole : sent.payload ≡ payload =
      unfold build_ether_frame in copy_block-whole payload frame.payload size lpay lp in
    let back =
      array_to_ethernet-ethernet_to_array sent block array size
        (length-built frame mac_addr mac type payload size lh) (ap length whole ∙ lpay) la lbh
        lbp in
    let byte = get_or-built frame mac_addr mac type payload size lh in
    let read : get_or sent.header 12 0 + get_or sent.header 13 0 * 256 ≡ type =
      omega (arith, byte 12, byte 13) in
    let rest : u32 (size + 14 + 4294967282) ≡ size = omega (arith, fits) in
    rw
      (
        back,
        read,
        rest,
        whole,
        source_of_built frame mac_addr mac type payload size lh source_addr lm ls,
      )
      refl
