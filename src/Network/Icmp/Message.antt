-- ===== src/Network/Icmp/Message.antt =====
-- The header of a message that is built, and the array that is sent.
use james_os.Prelude.{
  ℕ, ◌+◌, ◌-◌, ◌*◌, ◌%◌, ◌/◌, ◌≤◌, ◌<◌, ◌≡◌, refl, ◌∙◌, ap, List, [], ◌∷◌, some, ◌==◌, ◌⊎◌,
  if◌then◌else◌, leb, arith, length, get_or, get_or-lt, IsBytes,
}
use mathlib.Core.Option
use james_os.Network.Utils.{
  copy_block, set_bytes_attr_value, get_bytes_attr_value, ntohs, internet_checksum,
}
use james_os.Network.Utils.Checksum.{internet_checksum-folded, folded, total}
use james_os.Network.Utils.Blocks.{copy_block-IsBytes, get_or-copy_block, length-copy_block}
use james_os.Network.Ethernet.{bytes_of_16}
use james_os.Network.Icmp.{
  Icmp4, bytes_of_32, load32, icmp4_fields, build_icmp4, icmp4_to_array, send_icmp4_packet,
}

digits_of_32 :
    (a b c d : ℕ)
    → a < 256
    → b < 256
    → c < 256
    → d < 256
    → bytes_of_32 (a + b * 256 + c * 65536 + d * 16777216) ≡ a ∷ b ∷ c ∷ d ∷ []
digits_of_32 a b c d la lb lc ld =
    let n = a + b * 256 + c * 65536 + d * 16777216 in
    let e0 : n % 256 ≡ a = omega (arith, la, lb, lc, ld) in
    let e1 : n / 256 % 256 ≡ b = omega (arith, la, lb, lc, ld) in
    let e2 : n / 65536 % 256 ≡ c = omega (arith, la, lb, lc, ld) in
    let e3 : n / 16777216 ≡ d = omega (arith, la, lb, lc, ld) in rw (e0, e1, e2, e3) refl

-- Four bytes that are read as a number and written again.
pub bytes_of_32-load32 :
    (header : List ℕ)
    → IsBytes header
    → bytes_of_32 (load32 (get_bytes_attr_value header 4 4 (bytes_of_32 0)))
      ≡ get_or header 4 0 ∷ get_or header 5 0 ∷ get_or header 6 0 ∷ get_or header 7 0 ∷ []
unfolding get_bytes_attr_value
bytes_of_32-load32 header hb =
    let read = get_or-copy_block header 4 (bytes_of_32 0) 0 4 in
    let b4 : get_or (copy_block header 4 (bytes_of_32 0) 0 4) 0 0 ≡ get_or header 4 0 =
      read 0 (omega arith) in
    let b5 : get_or (copy_block header 4 (bytes_of_32 0) 0 4) 1 0 ≡ get_or header 5 0 =
      read 1 (omega arith) in
    let b6 : get_or (copy_block header 4 (bytes_of_32 0) 0 4) 2 0 ≡ get_or header 6 0 =
      read 2 (omega arith) in
    let b7 : get_or (copy_block header 4 (bytes_of_32 0) 0 4) 3 0 ≡ get_or header 7 0 =
      read 3 (omega arith) in
    rw (b4, b5, b6, b7)
      (digits_of_32 (get_or header 4 0) (get_or header 5 0) (get_or header 6 0) (get_or header 7 0)
        (get_or-lt header 4 hb) (get_or-lt header 5 hb) (get_or-lt header 6 hb)
        (get_or-lt header 7 hb))

-- The header of a message outside its checksum, whatever that is.
module _ (header : List ℕ) (type code rest checksum : ℕ) (lh : length header ≡ 8) where
  abbrev made : List ℕ
  made = set_bytes_attr_value (icmp4_fields header type code rest) 2 2 (bytes_of_16 checksum)

  length-made : length made ≡ 8
  unfolding icmp4_fields set_bytes_attr_value
  length-made =
      let h0 = copy_block (type ∷ []) 0 header 0 1 in
      let h1 = copy_block (code ∷ []) 0 h0 1 1 in
      let h2 = copy_block (bytes_of_32 rest) 0 h1 4 4 in
      let h3 = copy_block (bytes_of_16 0) 0 h2 2 2 in
      length-copy_block (bytes_of_16 checksum) 0 h3 2 2
      ∙ length-copy_block (bytes_of_16 0) 0 h2 2 2
      ∙ length-copy_block (bytes_of_32 rest) 0 h1 4 4
      ∙ length-copy_block (code ∷ []) 0 h0 1 1
      ∙ length-copy_block (type ∷ []) 0 header 0 1
      ∙ lh

  pub get_or-made :
      (q : ℕ)
      → q < 2 ⊎ 4 ≤ q
      → q < 8
      → get_or made q 0
        ≡ (if leb 4 q then get_or (bytes_of_32 rest) (q - 4) 0 else if q == 0 then type else code)
  unfolding icmp4_fields set_bytes_attr_value
  get_or-made q outside lt =
      let h0 = copy_block (type ∷ []) 0 header 0 1 in
      let h1 = copy_block (code ∷ []) 0 h0 1 1 in
      let h2 = copy_block (bytes_of_32 rest) 0 h1 4 4 in
      let h3 = copy_block (bytes_of_16 0) 0 h2 2 2 in
      let l0 = length-copy_block (type ∷ []) 0 header 0 1 in
      let l1 = length-copy_block (code ∷ []) 0 h0 1 1 in
      let l2 = length-copy_block (bytes_of_32 rest) 0 h1 4 4 in
      let l3 = length-copy_block (bytes_of_16 0) 0 h2 2 2 in
      let z4 : 0 + q - 4 ≡ q - 4 = omega arith in
      let z1 : q ≡ 1 → get_or (code ∷ []) (0 + q - 1) 0 ≡ code = λ e. rw e refl in
      let z0 : q ≡ 0 → get_or (type ∷ []) (0 + q - 0) 0 ≡ type = λ e. rw e refl in
      ground (
        arith,
        outside,
        lt,
        get_or-copy_block (bytes_of_16 checksum) 0 h3 2 2 q (omega (arith, lh, l0, l1, l2, l3)),
        get_or-copy_block (bytes_of_16 0) 0 h2 2 2 q (omega (arith, lh, l0, l1, l2)),
        get_or-copy_block (bytes_of_32 rest) 0 h1 4 4 q (omega (arith, lh, l0, l1)),
        get_or-copy_block (code ∷ []) 0 h0 1 1 q (omega (arith, lh, l0)),
        get_or-copy_block (type ∷ []) 0 header 0 1 q (omega (arith, lh)),
        ap (λ (t : ℕ). get_or (bytes_of_32 rest) t 0) z4,
        z1,
        z0,
      )

-- The header without its checksum.
pub get_or-fields :
    (header : List ℕ) (type code rest q : ℕ)
    → length header ≡ 8
    → q < 8
    → get_or (icmp4_fields header type code rest) q 0 ≡ (
        if leb 4 q
        then get_or (bytes_of_32 rest) (q - 4) 0
        else if leb 2 q
        then 0
        else if q == 0
        then type
        else code)
unfolding icmp4_fields set_bytes_attr_value
get_or-fields header type code rest q lh lt =
    let h0 = copy_block (type ∷ []) 0 header 0 1 in
    let h1 = copy_block (code ∷ []) 0 h0 1 1 in
    let h2 = copy_block (bytes_of_32 rest) 0 h1 4 4 in
    let l0 = length-copy_block (type ∷ []) 0 header 0 1 in
    let l1 = length-copy_block (code ∷ []) 0 h0 1 1 in
    let l2 = length-copy_block (bytes_of_32 rest) 0 h1 4 4 in
    let z4 : 0 + q - 4 ≡ q - 4 = omega arith in
    let z3 : q ≡ 3 → get_or (bytes_of_16 0) (0 + q - 2) 0 ≡ 0 = λ e. rw e refl in
    let z2 : q ≡ 2 → get_or (bytes_of_16 0) (0 + q - 2) 0 ≡ 0 = λ e. rw e refl in
    let z1 : q ≡ 1 → get_or (code ∷ []) (0 + q - 1) 0 ≡ code = λ e. rw e refl in
    let z0 : q ≡ 0 → get_or (type ∷ []) (0 + q - 0) 0 ≡ type = λ e. rw e refl in
    ground (
      arith,
      lt,
      get_or-copy_block (bytes_of_16 0) 0 h2 2 2 q (omega (arith, lh, l0, l1, l2)),
      get_or-copy_block (bytes_of_32 rest) 0 h1 4 4 q (omega (arith, lh, l0, l1)),
      get_or-copy_block (code ∷ []) 0 h0 1 1 q (omega (arith, lh, l0)),
      get_or-copy_block (type ∷ []) 0 header 0 1 q (omega (arith, lh)),
      ap (λ (t : ℕ). get_or (bytes_of_32 rest) t 0) z4,
      z3,
      z2,
      z1,
      z0,
    )

pub length-fields :
    (header : List ℕ) (type code rest : ℕ)
    → length (icmp4_fields header type code rest) ≡ length header
unfolding icmp4_fields set_bytes_attr_value
length-fields header type code rest =
    let h0 = copy_block (type ∷ []) 0 header 0 1 in
    let h1 = copy_block (code ∷ []) 0 h0 1 1 in
    length-copy_block (bytes_of_16 0) 0 (copy_block (bytes_of_32 rest) 0 h1 4 4) 2 2
    ∙ length-copy_block (bytes_of_32 rest) 0 h1 4 4
    ∙ length-copy_block (code ∷ []) 0 h0 1 1
    ∙ length-copy_block (type ∷ []) 0 header 0 1

-- The checksum in the header that is sent.
pub get_or-checksum :
    (header : List ℕ) (c : ℕ)
    → length header ≡ 8
    → (get_or (set_bytes_attr_value header 2 2 (bytes_of_16 c)) 2 0 ≡ c % 256)
      × (get_or (set_bytes_attr_value header 2 2 (bytes_of_16 c)) 3 0 ≡ c / 256)
unfolding set_bytes_attr_value
get_or-checksum header c lh = (
  get_or-copy_block (bytes_of_16 c) 0 header 2 2 2 (omega (arith, lh)),
  get_or-copy_block (bytes_of_16 c) 0 header 2 2 3 (omega (arith, lh)),
)

pub get_or-icmp4_to_array :
    (icmp : Icmp4) (array : List ℕ) (size q : ℕ)
    → length array ≡ size + 8
    → q < size + 8
    → get_or (icmp4_to_array icmp size array) q 0
      ≡ (if leb 8 q then get_or icmp.payload (q - 8) 0 else get_or icmp.header q 0)
unfolding icmp4_to_array
get_or-icmp4_to_array icmp array size q la lt =
    let a = copy_block icmp.header 0 array 0 8 in
    let z8 : 0 + q - 8 ≡ q - 8 = omega arith in
    let z0 : 0 + q - 0 ≡ q = omega arith in
    ground (
      arith,
      lt,
      get_or-copy_block icmp.payload 0 a 8 size q
          (omega (arith, la, length-copy_block icmp.header 0 array 0 8)),
      get_or-copy_block icmp.header 0 array 0 8 q (omega (arith, la)),
      ap (λ (t : ℕ). get_or icmp.payload t 0) z8,
      ap (λ (t : ℕ). get_or icmp.header t 0) z0,
    )

pub length-icmp4_to_array :
    (icmp : Icmp4) (array : List ℕ) (size : ℕ)
    → length (icmp4_to_array icmp size array) ≡ length array
unfolding icmp4_to_array
length-icmp4_to_array icmp array size =
    length-copy_block icmp.payload 0 (copy_block icmp.header 0 array 0 8) 8 size
    ∙ length-copy_block icmp.header 0 array 0 8

icmp4_fields-IsBytes :
    (header : List ℕ) (type code rest : ℕ)
    → IsBytes header
    → type < 256
    → code < 256
    → rest < 4294967296
    → IsBytes (icmp4_fields header type code rest)
unfolding icmp4_fields set_bytes_attr_value
icmp4_fields-IsBytes header type code rest hb lt lc lr =
    copy_block-IsBytes (bytes_of_16 0) 0 _ 2 2 (omega arith, (omega arith, tt))
      (copy_block-IsBytes (bytes_of_32 rest) 0 _ 4 4
        (omega arith, (omega arith, (omega arith, (omega (arith, lr), tt))))
        (copy_block-IsBytes (code ∷ []) 0 _ 1 1 (lc, tt)
          (copy_block-IsBytes (type ∷ []) 0 header 0 1 (lt, tt) hb)))

-- What is sent, with some checksum.
pub send_icmp4_packet-sends :
    (icmp : Icmp4) (array : List ℕ) (type code rest : ℕ) (payload : List ℕ) (size : ℕ)
    → IsBytes icmp.header
    → IsBytes icmp.payload
    → IsBytes payload
    → type < 256
    → code < 256
    → rest < 4294967296
    → size < 65528
    → (k : ℕ) × (k < 65536)
      × (internet_checksum
            (icmp4_fields icmp.header type code rest)
            8
            (copy_block payload 0 icmp.payload 0 size)
            size
            []
            0
          ≡ some k)
      × (send_icmp4_packet icmp array type code rest payload size
          ≡ some (
              icmp4_to_array
                (record {
                  header =
                      set_bytes_attr_value
                        (icmp4_fields icmp.header type code rest)
                        2
                        2
                        (bytes_of_16 (ntohs k));
                  payload = copy_block payload 0 icmp.payload 0 size;
                })
                size
                array))
unfolding send_icmp4_packet build_icmp4
send_icmp4_packet-sends icmp array type code rest payload size hb ib pb lt lc lr short =
    let header = icmp4_fields icmp.header type code rest in
    let copied = copy_block payload 0 icmp.payload 0 size in
    let sum =
      internet_checksum-folded header 8 copied size [] 0
        (icmp4_fields-IsBytes icmp.header type code rest hb lt lc lr)
        (copy_block-IsBytes payload 0 icmp.payload 0 size pb ib) tt (omega (arith, short)) in
    (
      65535 - folded (total header 8 copied size [] 0),
      omega arith,
      sum,
      ap
          (λ r.
            Option.map (λ (b : Icmp4). icmp4_to_array b size array)
              (Option.map
                (λ k. record {
                  header = set_bytes_attr_value header 2 2 (bytes_of_16 (ntohs k));
                  payload = copied;
                })
                r))
          sum,
    )

pub load32-lt : (bytes : List ℕ) → IsBytes bytes → load32 bytes < 4294967296
load32-lt bytes hb =
    omega (
      arith,
      get_or-lt bytes 0 hb,
      get_or-lt bytes 1 hb,
      get_or-lt bytes 2 hb,
      get_or-lt bytes 3 hb,
    )
