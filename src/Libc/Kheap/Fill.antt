-- ===== src/Libc/Kheap/Fill.antt =====
-- What `fill` leaves in the bitset, bit by bit.
use james_os.Prelude.{
  ℕ, zero, suc, ◌+◌, ◌*◌, ◌/◌, ◌%◌, ◌≤◌, ◌<◌, ◌≡◌, refl, List, Bool, ◌&&◌, ◌==◌, ltb, leb,
  if◌then◌else◌, arith, length, IsBytes,
}
use james_os.Prelude.Bits.{
  bit_in, put_bit, bit_value, bit_in-put_bit, length-put_bit, put_bit-IsBytes, same_place,
}
use james_os.Libc.Kheap.{fill_loop, fill}

-- Bit `p` of the bitset.
abbrev pub bit_at : List ℕ → ℕ → ℕ
bit_at m p = bit_in m (p / 8) (p % 8)

bit_at-put :
    (v : Bool) (m : List ℕ) (p q : ℕ)
    → IsBytes m
    → p < 8 * length m
    → bit_at (put_bit v m (p / 8) (p % 8)) q ≡ (if p == q then bit_value v else bit_at m q)
bit_at-put v m p q hm hp = rw (
  bit_in-put_bit v m (p / 8) (p % 8) (q / 8) (q % 8) hm (omega arith) (omega arith) (omega arith),
  same_place p q,
)

pub fill-keeps :
    (v : Bool) (m : List ℕ) (i left : ℕ)
    → IsBytes m
    → IsBytes (fill v m i left) × (length (fill v m i left) ≡ length m)
unfolding fill fill_loop
fill-keeps v m i zero hm = (hm, refl)
fill-keeps v m i (suc left) hm =
    let (bytes, same) =
      fill-keeps v (put_bit v m (i / 8) (i % 8)) (i + 1) left (put_bit-IsBytes v m _ _ hm) in
    (bytes, omega (arith, same, length-put_bit v m (i / 8) (i % 8)))

-- `fill` writes `value` to the `size` bits from `begin` on, and changes no other bit.
pub bit_at-fill :
    (v : Bool) (m : List ℕ) (begin size q : ℕ)
    → IsBytes m
    → begin + size ≤ 8 * length m
    → bit_at (fill v m begin size) q
      ≡ (if leb begin q && ltb q (begin + size) then bit_value v else bit_at m q)
unfolding fill fill_loop
bit_at-fill v m begin zero q hm hs = ground arith
bit_at-fill v m begin (suc left) q hm hs =
    let m' = put_bit v m (begin / 8) (begin % 8) in
    let same : length m' ≡ length m = length-put_bit v m (begin / 8) (begin % 8) in
    ground (
      arith,
      bit_at-fill v m' (begin + 1) left q (put_bit-IsBytes v m _ _ hm) (omega (arith, same)),
      bit_at-put v m begin q hm (omega arith),
    )
