-- ===== src/Network/Utils/Writes.antt =====
-- A field that `set_bits_attr_value` writes is read back by `get_bits_attr_value`.
use james_os.Prelude.{
  ℕ, zero, suc, ◌+◌, ◌-◌, ◌*◌, ◌/◌, ◌%◌, ◌^◌, ◌≤◌, ◌<◌, ◌≡◌, ◌⊎◌, refl, sym, ◌∙◌, ap, List, Bool,
  true, false, ◌&&◌, ◌==◌, ltb, leb, if◌then◌else◌, not, arith, bit_and, length, IsBytes,
  Bool-cases, inl, inr, u8, ◌>>>◌, ==→eq,
}
use james_os.Prelude.Binary.{bit_and-one}
use james_os.Prelude.Bits.{
  or_bit_in, and_not_bit_in, put_bit, bit_value, bit_in-put_bit, length-put_bit, put_bit-IsBytes,
}
use james_os.Network.Utils.{set_bits_loop, set_bits_attr_value, get_bits_attr_value}
use james_os.Network.Utils.Fields.{bit_at, digit, get_bits-field, field_ext, field_digits}

-- The writing loop stores the digits of the value, the highest first, and nothing else.
bit_at-put :
    (v : Bool) (m : List ℕ) (p q : ℕ)
    → IsBytes m
    → p < 8 * length m
    → bit_at (put_bit v m (p / 8) (7 - p % 8)) q ≡ (if p == q then bit_value v else bit_at m q)
unfolding bit_at
bit_at-put v m p q hm hp = rw (
  bit_in-put_bit v m (p / 8) (7 - p % 8) (q / 8) (7 - q % 8) hm (omega arith) (omega arith)
      (omega arith),
  same_place p q,
)
  where
    same_place : (p q : ℕ) → ((p / 8 == q / 8) && (7 - p % 8 == 7 - q % 8)) ≡ (p == q)
    same_place p q = ground arith

-- What stands at bit `q` after the loop wrote `left` digits of `v` from `p` on.
abbrev written : ℕ → List ℕ → ℕ → ℕ → ℕ → ℕ
written v m p left q =
    if leb p q && ltb q (p + left) then digit v (p + left - 1 - q) else bit_at m q

digit-lt : (v k : ℕ) → digit v k < 2
unfolding digit
digit-lt v k = omega (arith, bit_and-one (v >>> k))

set_bits_loop-suc :
    (v : ℕ) (m : List ℕ) (p n : ℕ)
    → p + suc n ≤ 2048
    → suc n ≤ 32
    → set_bits_loop v m p n (suc n)
      ≡ set_bits_loop v
          (put_bit (not (digit v n == 0)) m (p / 8) (7 - p % 8))
          (p + 1)
          (u8 (n + 255))
          n
unfolding set_bits_loop digit
set_bits_loop-suc v m p n hp hs =
    ap (λ (t : List ℕ). set_bits_loop v t (p + 1) (u8 (n + 255)) n) chosen
  where
    byte : u8 (p / 8) ≡ p / 8
    byte = omega arith

    chosen :
        (if bit_and (v >>> n) 1 == 0
          then and_not_bit_in m (u8 (p / 8)) (7 - p % 8)
          else or_bit_in m (u8 (p / 8)) (7 - p % 8))
        ≡ put_bit (not (bit_and (v >>> n) 1 == 0)) m (p / 8) (7 - p % 8)
    chosen = rw byte (elim (Bool-cases (bit_and (v >>> n) 1 == 0)) [ inl e ↦ rw e | inr e ↦ rw e ])

digit_value : (v n : ℕ) → bit_value (not (digit v n == 0)) ≡ digit v n
digit_value v n = ground (arith, digit-lt v n)

written-put :
    (v n : ℕ) (m : List ℕ) (p q : ℕ)
    → IsBytes m
    → p < 8 * length m
    → written v (put_bit (not (digit v n == 0)) m (p / 8) (7 - p % 8)) (p + 1) n q
      ≡ written v m p (suc n) q
written-put v n m p q hm hp =
    let here : p + suc n - 1 - p ≡ n = omega arith in
    let later : p + 1 + n - 1 - q ≡ p + suc n - 1 - q = omega arith in
    rw later (elim (Bool-cases (p == q)) [
      | inl same ↦
          let e : p ≡ q = ==→eq p q same in
          rw (← e) (
            ground (
              arith,
              bit_at-put (not (digit v n == 0)) m p p hm hp,
              digit_value v n,
              ap (digit v) here,
            ))
      | inr other ↦ ground (arith, bit_at-put (not (digit v n == 0)) m p q hm hp)
    ])

set_bits_loop-written :
    (v left : ℕ) (m : List ℕ) (p cnt q : ℕ)
    → IsBytes m
    → p + left ≤ 8 * length m
    → p + left ≤ 2048
    → left ≤ 32
    → (0 < left → cnt + 1 ≡ left)
    → bit_at (set_bits_loop v m p cnt left) q ≡ written v m p left q
set_bits_loop-written v zero m p cnt q hm fits hp hl hc = unfold set_bits_loop in ground arith
set_bits_loop-written v (suc n) m p cnt q hm fits hp hl hc =
    let last : cnt ≡ n = omega (arith, hc (omega arith)) in
    let m' = put_bit (not (digit v n == 0)) m (p / 8) (7 - p % 8) in
    let next : (0 < n → u8 (n + 255) + 1 ≡ n) = λ h. omega arith in
    rw (last, set_bits_loop-suc v m p n hp hl)
      (set_bits_loop-written v n m' (p + 1) (u8 (n + 255)) q (put_bit-IsBytes _ m _ _ hm)
          (omega (arith, length-put_bit (not (digit v n == 0)) m (p / 8) (7 - p % 8))) (omega arith)
          (omega arith) next
        ∙ written-put v n m p q hm (omega arith))

-- What `set_bits_attr_value` leaves at each bit.
pub bit_at-set_bits :
    (m : List ℕ) (offset size v q : ℕ)
    → IsBytes m
    → offset + size ≤ 8 * length m
    → offset + size ≤ 2048
    → size ≤ 32
    → bit_at (set_bits_attr_value m offset size v) q ≡ (
        if leb offset q && ltb q (offset + size)
        then digit v (offset + size - 1 - q)
        else bit_at m q)
unfolding set_bits_attr_value
bit_at-set_bits m offset size v q hm fits ho hs =
    set_bits_loop-written v size m offset (u8 (size + 255)) q hm fits ho hs (λ h. omega arith)

set_bits_loop-keeps :
    (v left : ℕ) (m : List ℕ) (p cnt : ℕ)
    → IsBytes m
    → IsBytes (set_bits_loop v m p cnt left) × (length (set_bits_loop v m p cnt left) ≡ length m)
unfolding set_bits_loop
set_bits_loop-keeps v zero m p cnt hm = (hm, refl)
set_bits_loop-keeps v (suc n) m p cnt hm = elim (Bool-cases (bit_and (v >>> cnt) 1 == 0)) [
  | inl e ↦ rw e (through false _ (set_bits_loop-keeps v n (put false) (p + 1) (u8 (cnt + 255))))
  | inr e ↦ rw e (through true _ (set_bits_loop-keeps v n (put true) (p + 1) (u8 (cnt + 255))))
]
  where
    put : Bool → List ℕ
    put b = put_bit b m (u8 (p / 8)) (7 - p % 8)

    through :
        (b : Bool) (out : List ℕ)
        → (IsBytes (put b) → IsBytes out × (length out ≡ length (put b)))
        → IsBytes out × (length out ≡ length m)
    through b out rest =
        let (bytes, same) = rest (put_bit-IsBytes b m _ _ hm) in
        (bytes, same ∙ length-put_bit b m _ _)

pub set_bits-keeps :
    (m : List ℕ) (offset size v : ℕ)
    → IsBytes m
    → IsBytes (set_bits_attr_value m offset size v)
      × (length (set_bits_attr_value m offset size v) ≡ length m)
unfolding set_bits_attr_value
set_bits-keeps m offset size v hm = set_bits_loop-keeps v size m offset (u8 (size + 255)) hm

-- A field of up to 32 bits among the first 2048 bits of a header of bytes: what
-- `set_bits_attr_value` writes, cut to the field's width, `get_bits_attr_value` reads back, and
-- every field that does not overlap it reads as before.
pub get_bits-set_bits :
    (m : List ℕ) (offset size v offset' size' : ℕ)
    → IsBytes m
    → offset + size ≤ 8 * length m
    → offset + size ≤ 2048
    → size ≤ 32
    → offset' + size' ≤ 2048
    → size' ≤ 32
    → (offset' + size' ≤ offset) ⊎ (offset + size ≤ offset')
    → (get_bits_attr_value (set_bits_attr_value m offset size v) offset size ≡ v % 2 ^ size)
      × (get_bits_attr_value (set_bits_attr_value m offset size v) offset' size'
          ≡ get_bits_attr_value m offset' size')
get_bits-set_bits m offset size v offset' size' hm fits ho hs ho' hs' apart =
    let m' = set_bits_attr_value m offset size v in
    (
      get_bits-field m' offset size ho hs
          ∙ field_digits m' v offset size
              (λ q lo hi. ground (arith, bit_at-set_bits m offset size v q hm fits ho hs)),
      get_bits-field m' offset' size' ho' hs'
          ∙ field_ext m' m offset' size'
              (λ q lo hi. ground (arith, bit_at-set_bits m offset size v q hm fits ho hs))
          ∙ sym (get_bits-field m offset' size' ho' hs'),
    )
