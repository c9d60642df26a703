-- ===== src/Network/Icmp/Echo.antt =====
-- The reply to an echo request.
use james_os.Prelude.{
  ℕ, zero, suc, ◌+◌, ◌*◌, ◌/◌, ◌%◌, ap₂, ◌-◌, ◌≤◌, ◌<◌, ◌≡◌, refl, ◌∙◌, ap, List, [], ◌∷◌, Option,
  some, inl, inr, Bool-cases, leb, arith, length, get_or, get_or_ext, drop, sym, u32, IsBytes,
}
use mathlib.Core.Option
use james_os.Network.Utils.{
  copy_block, set_bytes_attr_value, get_bytes_attr_value, ntohs, internet_checksum,
}
use james_os.Network.Utils.Blocks.{copy_block-IsBytes, get_or-copy_block, length-copy_block}
use james_os.Network.Utils.Order.{ntohs_bytes}
use james_os.Network.Ethernet.{bytes_of_16}
use james_os.Network.Icmp.{
  Icmp4, bytes_of_32, load32, icmp4_fields, icmp4_to_array, array_to_icmp4, send_icmp4_packet,
  recv_icmp4_packet,
}
use james_os.Network.Icmp.Message.{
  bytes_of_32-load32, get_or-icmp4_to_array, length-icmp4_to_array, send_icmp4_packet-sends,
  load32-lt, get_or-made, get_or-fields, length-fields, get_or-checksum,
}

-- A byte of the data, copied twice.
payload_byte :
    (received block reply : List ℕ) (size q : ℕ)
    → length block ≡ size
    → length reply ≡ size
    → 8 ≤ q
    → q < size + 8
    → get_or (copy_block (copy_block received 8 block 0 size) 0 reply 0 size) (q - 8) 0
      ≡ get_or received q 0
payload_byte received block reply size q lb lr le lt =
    let z : 0 + (q - 8) - 0 ≡ q - 8 = omega arith in
    let z' : 8 + (q - 8) - 0 ≡ q = omega (arith, le) in
    ground (
      arith,
      le,
      lt,
      get_or-copy_block (copy_block received 8 block 0 size) 0 reply 0 size (q - 8)
          (omega (arith, lr)),
      get_or-copy_block received 8 block 0 size (q - 8) (omega (arith, lb)),
      ap (λ (t : ℕ). get_or (copy_block received 8 block 0 size) t 0) z,
      ap (λ (t : ℕ). get_or received t 0) z',
    )

-- The header of the message that is taken out of an array.
header_byte :
    (received block : List ℕ) (q : ℕ)
    → length block ≡ 8
    → q < 8
    → get_or (copy_block received 0 block 0 8) q 0 ≡ get_or received q 0
header_byte received block q lb lt =
    let z : 0 + q - 0 ≡ q = omega arith in
    ground (
      arith,
      lt,
      get_or-copy_block received 0 block 0 8 q (omega (arith, lb)),
      ap (λ (t : ℕ). get_or received t 0) z,
    )

get_or-drop : (n : ℕ) (xs : List ℕ) (i : ℕ) → get_or (drop n xs) i 0 ≡ get_or xs (n + i) 0
get_or-drop zero xs i = ap (λ (t : ℕ). get_or xs t 0) (omega arith)
get_or-drop (suc n) [] i = refl
get_or-drop (suc n) (x ∷ xs) i =
    get_or-drop n xs i ∙ ap (λ (t : ℕ). get_or (x ∷ xs) t 0) (index n i)
  where
    index : (n i : ℕ) → suc (n + i) ≡ suc n + i
    index n i = omega arith

length-drop_lem : (n : ℕ) (xs : List ℕ) → n ≤ length xs → length (drop n xs) + n ≡ length xs
length-drop_lem zero xs le = omega arith
length-drop_lem (suc n) [] le = absurd (omega (arith, le))
length-drop_lem (suc n) (x ∷ xs) le = omega (arith, length-drop_lem n xs (omega (arith, le)))

four_more : (i : ℕ) → suc (suc (suc (suc i))) ≡ 4 + i
four_more i = omega arith

-- A block with two bytes 0, two of its own, and the rest of another block.
echo_bytes :
    (reply received : List ℕ) (n : ℕ)
    → length reply ≡ n
    → length received ≡ n
    → 4 ≤ n
    → get_or reply 0 0 ≡ 0
    → get_or reply 1 0 ≡ 0
    → ((q : ℕ) → 4 ≤ q → q < n → get_or reply q 0 ≡ get_or received q 0)
    → reply ≡ 0 ∷ 0 ∷ get_or reply 2 0 ∷ get_or reply 3 0 ∷ drop 4 received
echo_bytes reply received n lr lv le zero_0 zero_1 same =
    get_or_ext 0 reply (0 ∷ 0 ∷ get_or reply 2 0 ∷ get_or reply 3 0 ∷ drop 4 received)
      (omega (arith, lr, lv, le, length-drop_lem 4 received)) bytes
  where
    bytes :
        (i : ℕ)
        → i < length reply
        → get_or reply i 0
          ≡ get_or (0 ∷ 0 ∷ get_or reply 2 0 ∷ get_or reply 3 0 ∷ drop 4 received) i 0
    bytes zero lt = zero_0
    bytes (suc zero) lt = zero_1
    bytes (suc (suc zero)) lt = refl
    bytes (suc (suc (suc zero))) lt = refl
    bytes (suc (suc (suc (suc i)))) lt =
        same (suc (suc (suc (suc i)))) (omega arith) (omega (arith, lt, lr))
        ∙ ap (λ (t : ℕ). get_or received t 0) (four_more i)
        ∙ sym (get_or-drop 4 received i)

four_bytes :
    (header : List ℕ) (k : ℕ)
    → k < 4
    → get_or
        (get_or header 4 0 ∷ get_or header 5 0 ∷ get_or header 6 0 ∷ get_or header 7 0 ∷ [])
        k
        0
      ≡ get_or header (k + 4) 0
four_bytes header zero lt = refl
four_bytes header (suc zero) lt = refl
four_bytes header (suc (suc zero)) lt = refl
four_bytes header (suc (suc (suc zero))) lt = refl
four_bytes header (suc (suc (suc (suc k)))) lt = absurd (omega (arith, lt))

-- The header of a reply to a message, without its checksum.
abbrev pub zero_header : List ℕ → List ℕ
zero_header received =
    0
    ∷ 0
    ∷ 0
    ∷ 0
    ∷ get_or received 4 0
    ∷ get_or received 5 0
    ∷ get_or received 6 0
    ∷ get_or received 7 0
    ∷ []

body_copied :
    (received block reply : List ℕ) (size : ℕ)
    → length block ≡ size
    → length reply ≡ size
    → length received ≡ size + 8
    → copy_block (copy_block received 8 block 0 size) 0 reply 0 size ≡ drop 8 received
body_copied received block reply size lb lr lv =
    get_or_ext 0 (copy_block (copy_block received 8 block 0 size) 0 reply 0 size) (drop 8 received)
      (omega (arith, long, lr, lv, length-drop_lem 8 received))
      (λ q lt.
        let inside : q < size = omega (arith, lt, long, lr) in
        let index : q + 8 - 8 ≡ q = omega arith in
        ap (λ (t : ℕ). get_or (copy_block (copy_block received 8 block 0 size) 0 reply 0 size) t 0)
          (sym index)
        ∙ payload_byte received block reply size (q + 8) lb lr (omega arith) (omega (arith, inside))
        ∙ ap (λ (t : ℕ). get_or received t 0) (omega arith)
        ∙ sym (get_or-drop 8 received q))
  where
    long : length (copy_block (copy_block received 8 block 0 size) 0 reply 0 size) ≡ length reply
    long = length-copy_block (copy_block received 8 block 0 size) 0 reply 0 size

-- The reply to a message with `header` and `payload`, with some checksum.
module _ (block icmp : Icmp4) (array received : List ℕ) (size c : ℕ) (lbh : length block.header ≡ 8)
    (lbp : length block.payload ≡ size) (lih : length icmp.header ≡ 8)
    (lip : length icmp.payload ≡ size) (la : length array ≡ size + 8) (bbh : IsBytes block.header)
    (br : IsBytes received) where
  abbrev header : List ℕ
  header = copy_block received 0 block.header 0 8

  abbrev rest : ℕ
  rest = load32 (get_bytes_attr_value header 4 4 (bytes_of_32 0))

  abbrev answer : Icmp4
  answer = record {
    header = set_bytes_attr_value (icmp4_fields icmp.header 0 0 rest) 2 2 (bytes_of_16 c);
    payload = copy_block (copy_block received 8 block.payload 0 size) 0 icmp.payload 0 size;
  }

  rest-lt : rest < 4294967296
  unfolding get_bytes_attr_value
  rest-lt = load32-lt (copy_block header 4 (bytes_of_32 0) 0 4) (
      copy_block-IsBytes header 4 (bytes_of_32 0) 0 4
        (copy_block-IsBytes received 0 block.header 0 8 br bbh)
        (omega arith, (omega arith, (omega arith, (omega arith, tt)))))

  rest_byte : (q : ℕ) → 4 ≤ q → q < 8 → get_or (bytes_of_32 rest) (q - 4) 0 ≡ get_or received q 0
  rest_byte q le lt =
      ap (λ (bs : List ℕ). get_or bs (q - 4) 0)
        (bytes_of_32-load32 header (copy_block-IsBytes received 0 block.header 0 8 br bbh))
      ∙ four_bytes header (q - 4) (omega (arith, le, lt))
      ∙ ap (λ (t : ℕ). get_or header t 0) (omega (arith, le))
      ∙ header_byte received block.header q lbh lt

  zero_fields : icmp4_fields icmp.header 0 0 rest ≡ zero_header received
  zero_fields =
      get_or_ext 0 (icmp4_fields icmp.header 0 0 rest) (zero_header received)
        (length-fields icmp.header 0 0 rest ∙ lih)
        (λ q lt. bytes q (omega (arith, lt, length-fields icmp.header 0 0 rest, lih)))
    where
      bytes :
          (q : ℕ)
          → q < 8
          → get_or (icmp4_fields icmp.header 0 0 rest) q 0 ≡ get_or (zero_header received) q 0
      bytes zero lt = get_or-fields icmp.header 0 0 rest 0 lih lt
      bytes (suc zero) lt = get_or-fields icmp.header 0 0 rest 1 lih lt
      bytes (suc (suc zero)) lt = get_or-fields icmp.header 0 0 rest 2 lih lt
      bytes (suc (suc (suc zero))) lt = get_or-fields icmp.header 0 0 rest 3 lih lt
      bytes (suc (suc (suc (suc zero)))) lt =
          get_or-fields icmp.header 0 0 rest 4 lih lt ∙ rest_byte 4 (omega arith) lt
      bytes (suc (suc (suc (suc (suc zero))))) lt =
          get_or-fields icmp.header 0 0 rest 5 lih lt ∙ rest_byte 5 (omega arith) lt
      bytes (suc (suc (suc (suc (suc (suc zero)))))) lt =
          get_or-fields icmp.header 0 0 rest 6 lih lt ∙ rest_byte 6 (omega arith) lt
      bytes (suc (suc (suc (suc (suc (suc (suc zero))))))) lt =
          get_or-fields icmp.header 0 0 rest 7 lih lt ∙ rest_byte 7 (omega arith) lt
      bytes (suc (suc (suc (suc (suc (suc (suc (suc q)))))))) lt = absurd (omega (arith, lt))

  same_byte :
      (q : ℕ)
      → 4 ≤ q
      → q < size + 8
      → get_or (icmp4_to_array answer size array) q 0 ≡ get_or received q 0
  same_byte q le lt =
      get_or-icmp4_to_array answer array size q la lt ∙ (elim (Bool-cases (leb 8 q)) [
        | inl far ↦ rw far (
            payload_byte received block.payload icmp.payload size q lbp lip (ground (arith, far))
              lt)
        | inr near ↦ rw near (
            get_or-made icmp.header 0 0 rest c lih q (inr le) (ground (arith, near))
            ∙ elim (Bool-cases (leb 4 q)) [
              | inl at ↦ rw at (rest_byte q le (ground (arith, near)))
              | inr before ↦ absurd (ground (arith, before, le))
            ])
      ])

  first_byte : (q : ℕ) → q < 2 → get_or (icmp4_to_array answer size array) q 0 ≡ 0
  first_byte q lt = ground (
    arith,
    lt,
    get_or-icmp4_to_array answer array size q la (omega (arith, lt)),
    get_or-made icmp.header 0 0 rest c lih q (inl lt) (omega (arith, lt)),
  )

-- A request is answered with its rest of the header and its data.
recv_icmp4_packet-sends :
    (block icmp : Icmp4) (array received : List ℕ) (size : ℕ)
    → length block.header ≡ 8
    → size < 65528
    → get_or received 0 0 ≡ 8
    → recv_icmp4_packet block icmp array received (size + 8)
      ≡ Option.map
          (λ (l : List ℕ). l ∷ [])
          (send_icmp4_packet icmp array 0 0
            (load32
              (get_bytes_attr_value (copy_block received 0 block.header 0 8) 4 4 (bytes_of_32 0)))
            (copy_block received 8 block.payload 0 size)
            size)
unfolding recv_icmp4_packet array_to_icmp4
recv_icmp4_packet-sends block icmp array received size lbh short echo =
    let cut : u32 (size + 8 + 4294967288) ≡ size = omega (arith, short) in
    let is_echo = header_byte received block.header 0 lbh (omega arith) ∙ echo in
    rw (cut, is_echo) refl

-- An echo request is answered, always, with a message of the same size: of type and code 0, and from
-- byte 4 on with the bytes of the request, which are the rest of the header and all data. Its
-- checksum, high byte first, is the internet checksum of the message that has 0 in its place. The data is shorter than 65528 bytes, and the blocks have the sizes that are allocated
-- for them.
pub recv_icmp4_packet-echoes :
    (block icmp : Icmp4) (array received : List ℕ) (size : ℕ)
    → length block.header ≡ 8
    → length block.payload ≡ size
    → length icmp.header ≡ 8
    → length icmp.payload ≡ size
    → length array ≡ size + 8
    → length received ≡ size + 8
    → IsBytes block.header
    → IsBytes block.payload
    → IsBytes icmp.header
    → IsBytes icmp.payload
    → IsBytes received
    → size < 65528
    → get_or received 0 0 ≡ 8
    → (high low : ℕ) × (recv_icmp4_packet block icmp array received (size + 8)
        ≡ some ((0 ∷ 0 ∷ high ∷ low ∷ drop 4 received) ∷ []))
      × (internet_checksum (zero_header received) 8 (drop 8 received) size [] 0
          ≡ some (high * 256 + low))
recv_icmp4_packet-echoes block icmp array received size lbh lbp lih lip la lv bbh bbp bih bip br
      short echo =
    let header = copy_block received 0 block.header 0 8 in
    let payload = copy_block received 8 block.payload 0 size in
    let hb = copy_block-IsBytes received 0 block.header 0 8 br bbh in
    let pb = copy_block-IsBytes received 8 block.payload 0 size br bbp in
    let rest = load32 (get_bytes_attr_value header 4 4 (bytes_of_32 0)) in
    let (k, narrow, sum, sent) =
      send_icmp4_packet-sends icmp array 0 0 rest payload size bih bip pb (omega arith)
        (omega arith) (rest-lt block icmp array received size 0 lbh lbp lih lip la bbh br) short in
    let c = ntohs k in
    let out =
      icmp4_to_array (answer block icmp array received size c lbh lbp lih lip la bbh br) size
        array in
    let same : out ≡ 0 ∷ 0 ∷ get_or out 2 0 ∷ get_or out 3 0 ∷ drop 4 received =
      echo_bytes out received (size + 8) (length-icmp4_to_array _ array size ∙ la) lv (omega arith)
        (first_byte block icmp array received size c lbh lbp lih lip la bbh br 0 (omega arith))
        (first_byte block icmp array received size c lbh lbp lih lip la bbh br 1 (omega arith))
        (same_byte block icmp array received size c lbh lbp lih lip la bbh br) in
    let fields = icmp4_fields icmp.header 0 0 rest in
    let lf = length-fields icmp.header 0 0 rest ∙ lih in
    let (high, low) = get_or-checksum fields c lf in
    let ans = answer block icmp array received size c lbh lbp lih lip la bbh br in
    let out2 : get_or out 2 0 ≡ c % 256 =
      get_or-icmp4_to_array ans array size 2 la (omega arith) ∙ high in
    let out3 : get_or out 3 0 ≡ c / 256 =
      get_or-icmp4_to_array ans array size 3 la (omega arith) ∙ low in
    let swapped : get_or out 2 0 * 256 + get_or out 3 0 ≡ k =
      omega (arith, out2, out3, narrow, ntohs_bytes k narrow) in
    let header_same = zero_fields block icmp array received size c lbh lbp lih lip la bbh br in
    let body_same = body_copied received block.payload icmp.payload size lbp lip lv in
    (
      get_or out 2 0,
      get_or out 3 0,
      recv_icmp4_packet-sends block icmp array received size lbh short echo
          ∙ ap (λ (r : Option (List ℕ)). Option.map (λ (l : List ℕ). l ∷ []) r)
              (sent ∙ ap some same),
      ap₂ (λ (h b : List ℕ). internet_checksum h 8 b size [] 0) (sym header_same) (sym body_same)
          ∙ sum
          ∙ ap some (sym swapped),
    )
