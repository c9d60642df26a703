-- ===== src/Network/Utils/Blocks.antt =====
-- What `copy_block` leaves, byte by byte.
use james_os.Prelude.{
  ℕ, zero, suc, ◌+◌, ◌-◌, ◌*◌, ◌/◌, ◌%◌, ◌≤◌, ◌<◌, ◌≡◌, refl, sym, ◌∙◌, ap, List, ◌&&◌, ◌==◌, ltb,
  leb, if◌then◌else◌, arith, length, get_or, set, IsBytes, get_or-set, length-set, set-IsBytes,
  get_or-lt, get_or_ext, Bool-cases, inl, inr, ==→eq,
}
use james_os.Prelude.Bits.{bit_in, bit_of}
use james_os.Network.Utils.Writes.{set_bits-keeps}
use james_os.Network.Utils.{pseudo_header_build, copy_block, get_bits_attr_value}
use james_os.Network.Utils.Fields.{bit_at, field_ext, get_bits-field}

pub length-copy_block :
    (source : List ℕ) (i : ℕ) (dest : List ℕ) (j n : ℕ)
    → length (copy_block source i dest j n) ≡ length dest
unfolding copy_block
length-copy_block source i dest j zero = refl
length-copy_block source i dest j (suc n) =
    length-copy_block source (i + 1) (set dest j (get_or source i 0)) (j + 1) n
    ∙ length-set dest j (get_or source i 0)

pub copy_block-IsBytes :
    (source : List ℕ) (i : ℕ) (dest : List ℕ) (j n : ℕ)
    → IsBytes source
    → IsBytes dest
    → IsBytes (copy_block source i dest j n)
unfolding copy_block
copy_block-IsBytes source i dest j zero hs hd = hd
copy_block-IsBytes source i dest j (suc n) hs hd =
    copy_block-IsBytes source (i + 1) (set dest j (get_or source i 0)) (j + 1) n hs
      (set-IsBytes dest j (get_or source i 0) hd (get_or-lt source i hs))

pub get_or-copy_block :
    (source : List ℕ) (i : ℕ) (dest : List ℕ) (j n q : ℕ)
    → j + n ≤ length dest
    → get_or (copy_block source i dest j n) q 0
      ≡ (if leb j q && ltb q (j + n) then get_or source (i + q - j) 0 else get_or dest q 0)
unfolding copy_block
get_or-copy_block source i dest j zero q fits = ground arith
get_or-copy_block source i dest j (suc n) q fits =
    let first = get_or source i 0 in
    let ih =
      get_or-copy_block source (i + 1) (set dest j first) (j + 1) n q
        (omega (arith, length-set dest j first)) in
    let index : i + 1 + q - (j + 1) ≡ i + q - j = omega arith in
    rw index at ih ∙ elim (Bool-cases (j == q)) [
      | inl same ↦
          let start : i + q - j ≡ i = omega (arith, ==→eq j q same) in
          rw start (ground (arith, get_or-set dest j q first 0, same))
      | inr other ↦ ground (arith, get_or-set dest j q first 0, other)
    ]

-- A field before the copied bytes reads as before.
pub get_bits-copy_block :
    (source : List ℕ) (i : ℕ) (dest : List ℕ) (j n o s : ℕ)
    → j + n ≤ length dest
    → o + s ≤ 8 * j
    → o + s ≤ 2048
    → s ≤ 32
    → get_bits_attr_value (copy_block source i dest j n) o s ≡ get_bits_attr_value dest o s
unfolding bit_at bit_in
get_bits-copy_block source i dest j n o s fits apart short narrow =
    get_bits-field (copy_block source i dest j n) o s short narrow
    ∙ field_ext (copy_block source i dest j n) dest o s
        (λ q lo hi. ap (λ (b : ℕ). bit_of b (7 - q % 8)) (before q (omega arith)))
    ∙ sym (get_bits-field dest o s short narrow)
  where
    before :
        (q : ℕ)
        → q < 8 * j
        → get_or (copy_block source i dest j n) (q / 8) 0 ≡ get_or dest (q / 8) 0
    before q lt = ground (arith, get_or-copy_block source i dest j n (q / 8) fits)

-- A header of `k` bytes and `n` bytes of data, put into one block one after the other and taken
-- apart again, are as before.
pub copy_block-joined :
    (header : List ℕ) (payload : List ℕ) (block header' payload' : List ℕ) (k n : ℕ)
    → length header ≡ k
    → length payload ≡ n
    → length block ≡ k + n
    → length header' ≡ k
    → length payload' ≡ n
    → (copy_block (copy_block payload 0 (copy_block header 0 block 0 k) k n) 0 header' 0 k ≡ header)
      × (copy_block (copy_block payload 0 (copy_block header 0 block 0 k) k n) k payload' 0 n
          ≡ payload)
copy_block-joined header payload block header' payload' k n lh lp lb lh' lp' =
    let a = copy_block header 0 block 0 k in
    let b = copy_block payload 0 a k n in
    let la : length a ≡ k + n = length-copy_block header 0 block 0 k ∙ lb in
    (
      get_or_ext 0 (copy_block b 0 header' 0 k) header
          (length-copy_block b 0 header' 0 k ∙ lh' ∙ sym lh)
          (λ q lt.
            let inside : q < k = omega (arith, lt, length-copy_block b 0 header' 0 k) in
            first q inside),
      get_or_ext 0 (copy_block b k payload' 0 n) payload
          (length-copy_block b k payload' 0 n ∙ lp' ∙ sym lp)
          (λ q lt.
            let inside : q < n = omega (arith, lt, length-copy_block b k payload' 0 n) in
            second q inside),
    )
  where
    joined : List ℕ
    joined = copy_block payload 0 (copy_block header 0 block 0 k) k n

    room : length (copy_block header 0 block 0 k) ≡ k + n
    room = length-copy_block header 0 block 0 k ∙ lb

    first : (q : ℕ) → q < k → get_or (copy_block joined 0 header' 0 k) q 0 ≡ get_or header q 0
    first q lt = ground (
      arith,
      get_or-copy_block joined 0 header' 0 k q (omega arith),
      get_or-copy_block payload 0 (copy_block header 0 block 0 k) k n q (omega (arith, room)),
      get_or-copy_block header 0 block 0 k q (omega arith),
    )

    second : (q : ℕ) → q < n → get_or (copy_block joined k payload' 0 n) q 0 ≡ get_or payload q 0
    second q lt = ground (
      arith,
      get_or-copy_block joined k payload' 0 n q (omega arith),
      get_or-copy_block payload 0 (copy_block header 0 block 0 k) k n (k + q) (omega (arith, room)),
      ap (λ (t : ℕ). get_or payload t 0) index,
    )
      where
        index : 0 + (k + q) - k ≡ q
        index = omega arith

pub pseudo_header_build-keeps :
    (pseudo : List ℕ) (a b c d e : ℕ)
    → IsBytes pseudo
    → IsBytes (pseudo_header_build pseudo a b c d e)
unfolding pseudo_header_build
pseudo_header_build-keeps pseudo a b c d e hp =
    let p1 = (set_bits-keeps pseudo 0 32 a hp).0 in
    let p2 = (set_bits-keeps _ 32 32 b p1).0 in
    let p3 = (set_bits-keeps _ 64 8 c p2).0 in
    let p4 = (set_bits-keeps _ 72 8 d p3).0 in (set_bits-keeps _ 80 16 e p4).0

-- A whole block.
pub copy_block-whole :
    (source dest : List ℕ) (n : ℕ)
    → length source ≡ n
    → length dest ≡ n
    → copy_block source 0 dest 0 n ≡ source
copy_block-whole source dest n ls ld =
    get_or_ext 0 (copy_block source 0 dest 0 n) source
      (length-copy_block source 0 dest 0 n ∙ ld ∙ sym ls)
      (λ q lt.
        let inside : q < n = omega (arith, lt, length-copy_block source 0 dest 0 n, ld) in
        let index : 0 + q - 0 ≡ q = omega arith in
        ground (
          arith,
          get_or-copy_block source 0 dest 0 n q (omega (arith, ld)),
          inside,
          ap (λ (t : ℕ). get_or source t 0) index,
        ))
