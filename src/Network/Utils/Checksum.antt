-- ===== src/Network/Utils/Checksum.antt =====
-- `internet_checksum`: the folding loop ends, and a header that carries its checksum sums to zero.
use james_os.Prelude.{
  ℕ, zero, suc, ◌+◌, ◌-◌, ◌*◌, ◌/◌, ◌%◌, ◌≤◌, ◌<◌, ◌≡◌, leb, ltb, ◌&&◌, sym, ◌∙◌, ap, List, some,
  ◌==◌, if◌then◌else◌, arith, bit_and, length, get_or, get_or-lt, IsBytes, Bool-cases, inl, inr,
  u16, ==→eq, minus_one,
}
use mathlib.Core.Option
use mathlib.Core.Option.{some-injective}
use james_os.Prelude.Binary.{bit_and_ones}
use james_os.Network.Utils.{
  set_bits_attr_value, ntohs, load16, sum_loop, carry_loop, checksum_sum, internet_checksum,
}
use james_os.Network.Utils.Order.{htons_bytes}
use james_os.Network.Utils.Words.{word, word-set_bits}
use james_os.Network.Utils.Writes.{set_bits-keeps}

-- The ones' complement sum: the remainder by 0xffff, with 0xffff for a positive multiple of it.
unfoldable pub folded : ℕ → ℕ
folded sum = if sum == 0 then 0 else (sum - 1) % 65535 + 1

carry_round :
    (fuel sum : ℕ)
    → sum < 4294967296
    → carry_loop (suc fuel) sum
      ≡ (if sum / 65536 == 0 then some sum else carry_loop fuel (sum % 65536 + sum / 65536))
unfolding carry_loop
carry_round fuel sum h =
    let high : bit_and (sum / 65536) 65535 ≡ sum / 65536 =
      omega (arith, bit_and_ones 16 (sum / 65536)) in
    let low : bit_and sum 65535 ≡ sum % 65536 = bit_and_ones 16 sum in
    let narrow : (sum % 65536 + sum / 65536) % 4294967296 ≡ sum % 65536 + sum / 65536 =
      omega arith in
    rw (high, low, narrow)
      (elim (Bool-cases (sum / 65536 == 0)) [
        | inl done ↦ rw done (ap some (omega (arith, ==→eq _ _ done)))
        | inr more ↦ rw more
      ])

-- Three rounds fold any 32-bit sum.
carry_loop-folded : (sum : ℕ) → sum < 4294967296 → carry_loop 3 sum ≡ some (folded sum)
unfolding folded
carry_loop-folded sum h =
    let second = sum % 65536 + sum / 65536 in
    let third = second % 65536 + second / 65536 in
    ground (
      arith,
      carry_round 2 sum h,
      carry_round 1 second (omega arith),
      carry_round 0 third (omega arith),
    )

folded-lt : (sum : ℕ) → folded sum < 65536
unfolding folded
folded-lt sum = ground arith

-- The sum of the words, each with its high byte first.
unfoldable pub word_sum : List ℕ → ℕ → ℕ → ℕ
word_sum bytes i zero = 0
word_sum bytes i (suc left) = word bytes i + word_sum bytes (i + 1) left

load16_swapped : (bytes : List ℕ) (i : ℕ) → IsBytes bytes → ntohs (load16 bytes i) ≡ word bytes i
unfolding ntohs
load16_swapped bytes i hb =
    let lo = get_or-lt bytes (2 * i) hb in
    let hi = get_or-lt bytes (2 * i + 1) hb in
    omega (arith, htons_bytes (load16 bytes i) (omega (arith, lo, hi)))

sum_loop-word_sum :
    (left : ℕ) (bytes : List ℕ) (sum i : ℕ)
    → IsBytes bytes
    → sum + word_sum bytes i left < 4294967296
    → sum_loop bytes sum i left ≡ sum + word_sum bytes i left
unfolding sum_loop word_sum
sum_loop-word_sum zero bytes sum i hb fits = omega arith
sum_loop-word_sum (suc n) bytes sum i hb fits =
    let narrow : (sum + word bytes i) % 4294967296 ≡ sum + word bytes i = omega arith in
    rw (load16_swapped bytes i hb, narrow)
      (omega (arith, sum_loop-word_sum n bytes (sum + word bytes i) (i + 1) hb (omega arith)))

word-lt : (m : List ℕ) (k : ℕ) → IsBytes m → word m k < 65536
word-lt m k hm = omega (arith, get_or-lt m (2 * k) hm, get_or-lt m (2 * k + 1) hm)

word_sum-le : (left : ℕ) (m : List ℕ) (i : ℕ) → IsBytes m → word_sum m i left ≤ 65535 * left
unfolding word_sum
word_sum-le zero m i hm = omega arith
word_sum-le (suc n) m i hm = omega (arith, word-lt m i hm, word_sum-le n m (i + 1) hm)

-- What a packet sums to: the words of its three parts and an odd last byte of the data.
abbrev pub total : List ℕ → ℕ → List ℕ → ℕ → List ℕ → ℕ → ℕ
total header hs body ds pseudo ps =
    word_sum header 0 (hs / 2)
    + word_sum pseudo 0 (ps / 2)
    + word_sum body 0 (ds / 2)
    + (if ds % 2 == 0 then 0 else get_or body (2 * (ds / 2)) 0 * 256)

last_byte :
    (body : List ℕ) (k : ℕ)
    → IsBytes body
    → ntohs (bit_and (load16 body k) 255) ≡ get_or body (2 * k) 0 * 256
unfolding ntohs
last_byte body k hb =
    let lo = get_or-lt body (2 * k) hb in
    let e : bit_and (load16 body k) 255 ≡ get_or body (2 * k) 0 =
      omega (arith, bit_and_ones 8 (load16 body k), lo) in
    rw e (omega (arith, htons_bytes (get_or body (2 * k) 0) (omega (arith, lo)), lo))

module _ (header : List ℕ) (hs : ℕ) (body : List ℕ) (ds : ℕ) (pseudo : List ℕ) (ps : ℕ) where
  -- At most 65536 words in all.
  abbrev pub Fits : Type 0
  Fits = hs / 2 + ps / 2 + ds / 2 + 1 ≤ 65536

  total-lt :
      IsBytes header
      → IsBytes body
      → IsBytes pseudo
      → Fits
      → total header hs body ds pseudo ps < 4294967296
  total-lt hh hb hp fits = ground (
    arith,
    word_sum-le (hs / 2) header 0 hh,
    word_sum-le (ps / 2) pseudo 0 hp,
    word_sum-le (ds / 2) body 0 hb,
    get_or-lt body (2 * (ds / 2)) hb,
  )

  checksum_sum-total :
      IsBytes header
      → IsBytes body
      → IsBytes pseudo
      → Fits
      → checksum_sum header hs body ds pseudo ps ≡ total header hs body ds pseudo ps
  unfolding checksum_sum
  checksum_sum-total hh hb hp fits =
      let a = word_sum header 0 (hs / 2) in
      let b = a + word_sum pseudo 0 (ps / 2) in
      let le1 = word_sum-le (hs / 2) header 0 hh in
      let le2 = word_sum-le (ps / 2) pseudo 0 hp in
      let le3 = word_sum-le (ds / 2) body 0 hb in
      let e1 : sum_loop header 0 0 (hs / 2) ≡ a =
        omega (arith, sum_loop-word_sum (hs / 2) header 0 0 hh (omega (arith, le1))) in
      let e2 : sum_loop pseudo a 0 (ps / 2) ≡ b =
        sum_loop-word_sum (ps / 2) pseudo a 0 hp (omega (arith, le1, le2)) in
      let e3 = sum_loop-word_sum (ds / 2) body b 0 hb (omega (arith, le1, le2, le3)) in
      rw (e1, e2, e3, last_byte body (ds / 2) hb)
        (elim (Bool-cases (ds % 2 == 0)) [
          | inl even ↦ rw even (omega arith)
          | inr odd ↦ rw odd (omega (arith, le1, le2, le3, get_or-lt body (2 * (ds / 2)) hb))
        ])

  -- The checksum is always computed: the loop that folds the carries in ends within three rounds.
  -- It is the complement of the ones' complement sum of all 16-bit words, the high byte of a word
  -- first, an odd last byte of the data being the high byte of a word. The parts hold bytes and
  -- have at most 65536 words together.
  pub internet_checksum-folded :
      IsBytes header
      → IsBytes body
      → IsBytes pseudo
      → Fits
      → internet_checksum header hs body ds pseudo ps
        ≡ some (65535 - folded (total header hs body ds pseudo ps))
  unfolding internet_checksum
  internet_checksum-folded hh hb hp fits =
      let t = total header hs body ds pseudo ps in
      let sums : carry_loop 3 (checksum_sum header hs body ds pseudo ps) ≡ some (folded t) =
        ap (carry_loop 3) (checksum_sum-total hh hb hp fits)
        ∙ carry_loop-folded t (total-lt hh hb hp fits) in
      ap (Option.map (λ sum. u16 (minus_one - sum))) sums ∙ ap some (omega (arith, folded-lt t))

-- Writing word `w` changes the sum by what stood there.
word_sum-set_bits :
    (left i : ℕ) (m : List ℕ) (w v : ℕ)
    → IsBytes m
    → 16 * w + 16 ≤ 8 * length m
    → 16 * w + 16 ≤ 2048
    → word_sum (set_bits_attr_value m (16 * w) 16 v) i left
        + (if leb i w && ltb w (i + left) then word m w else 0)
      ≡ word_sum m i left + (if leb i w && ltb w (i + left) then v % 65536 else 0)
unfolding word_sum
word_sum-set_bits zero i m w v hm fits ho = ground arith
word_sum-set_bits (suc n) i m w v hm fits ho =
    ground (arith, word_sum-set_bits n (i + 1) m w v hm fits ho, word-set_bits m w v i hm fits ho)

complement_folds : (s : ℕ) → 65535 - folded (s + (65535 - folded s)) ≡ 0
unfolding folded
complement_folds s = ground arith

-- The way the headers are built: word `w` is set to zero, the checksum `c` is computed, and `c` is
-- written to word `w`. Then the checksum of the result is zero, which is the receiver's test. Word
-- `w` lies in the part of the header that is summed, which has at most 256 bytes, the parts hold
-- bytes and have fewer than 65536 words together.
pub internet_checksum-verifies :
    (header : List ℕ) (hs : ℕ) (body : List ℕ) (ds : ℕ) (pseudo : List ℕ) (ps w : ℕ) {c : ℕ}
    → IsBytes header
    → IsBytes body
    → IsBytes pseudo
    → hs / 2 + ps / 2 + ds / 2 + 2 ≤ 65536
    → w < hs / 2
    → hs ≤ length header
    → hs ≤ 256
    → internet_checksum (set_bits_attr_value header (16 * w) 16 0) hs body ds pseudo ps ≡ some c
    → internet_checksum
        (set_bits_attr_value (set_bits_attr_value header (16 * w) 16 0) (16 * w) 16 c)
        hs
        body
        ds
        pseudo
        ps
      ≡ some 0
internet_checksum-verifies header hs body ds pseudo ps w {c} hh hb hp fits inside long short
      computed =
    let zeroed = set_bits_attr_value header (16 * w) 16 0 in
    let out = set_bits_attr_value zeroed (16 * w) 16 c in
    let t = total zeroed hs body ds pseudo ps in
    let (bytes, same) = set_bits-keeps header (16 * w) 16 0 hh in
    let bytes' = (set_bits-keeps zeroed (16 * w) 16 c bytes).0 in
    let cleared : word zeroed w ≡ 0 =
      ground (arith, word-set_bits header w 0 w hh (omega arith) (omega arith)) in
    let both : some c ≡ some (65535 - folded t) =
      sym computed
      ∙ internet_checksum-folded zeroed hs body ds pseudo ps bytes hb hp (omega arith) in
    let value : c ≡ 65535 - folded t = cc in
    let sums : total out hs body ds pseudo ps ≡ t + (65535 - folded t) = ground (
      arith,
      word_sum-set_bits (hs / 2) 0 zeroed w c bytes (omega (arith, same)) (omega arith),
      cleared,
      value,
    ) in
    internet_checksum-folded out hs body ds pseudo ps bytes' hb hp (omega arith)
    ∙ ap (λ (s : ℕ). some (65535 - folded s)) sums
    ∙ ap some (complement_folds t)
