-- ===== src/Libc/Bitmap/Fill.antt =====
-- What `bitmap_set`, `bitmap_clear` and `bitmap_fill` leave in the bitmap, bit by bit.
use james_os.Prelude.{
  ℕ, zero, suc, ◌+◌, ◌*◌, ◌/◌, ◌%◌, ◌^◌, ◌≤◌, ◌<◌, ◌≡◌, refl, List, Bool, true, false, not, ◌&&◌,
  ◌==◌, ltb, if◌then◌else◌, arith, length, IsBytes, replicate, get_or-replicate,
}
use james_os.Prelude.Bits.{
  put_bit, bit_value, bit_in-put_bit, length-put_bit, put_bit-IsBytes, same_place, bit_in, zero_bit,
}
use james_os.Prelude.Ring.{next-mod, ahead}
use james_os.Libc.Bitmap.{
  bitmap_set, bitmap_clear, bitmap_read, position_at, fill_loop, bitmap_fill,
}

-- `if (bit) bitmap_set else bitmap_clear`
abbrev put : Bool → List ℕ → ℕ → List ℕ
put v m p = if v then bitmap_set m p else bitmap_clear m p

put_lem : (v : Bool) (m : List ℕ) (p : ℕ) → put v m p ≡ put_bit v m (p / 8) (p % 8)
unfolding bitmap_set bitmap_clear
put_lem true m p = refl
put_lem false m p = refl

pub bitmap_read-put :
    (v : Bool) (m : List ℕ) (p q : ℕ)
    → IsBytes m
    → p < 8 * length m
    → bitmap_read (put v m p) q ≡ (if p == q then bit_value v else bitmap_read m q)
unfolding bitmap_read
bitmap_read-put v m p q hm hp = rw (
  put_lem v m p,
  bit_in-put_bit v m (p / 8) (p % 8) (q / 8) (q % 8) hm (omega arith) (omega arith) (omega arith),
  same_place p q,
)

pub put-keeps :
    (v : Bool) (m : List ℕ) (p : ℕ)
    → IsBytes m
    → IsBytes (put v m p) × (length (put v m p) ≡ length m)
put-keeps v m p hm = rw put_lem (put_bit-IsBytes v m _ _ hm, length-put_bit v m _ _)

-- The bits that `n` rounds from position `r` on reach.
abbrev pub reached : ℕ → ℕ → ℕ → ℕ → Bool
reached size r n q = ltb q size && ltb (ahead size r q) n

reached-suc :
    (size r n q : ℕ)
    → r < size
    → reached size r (suc n) q
      ≡ (if r == q then true else reached size (if r + 1 == size then 0 else r + 1) n q)
reached-suc size r n q h = ground arith

-- The loop writes the `left` positions from round `i` on, going round at the end of the bitmap.
fill_loop-read :
    (size begin bit : ℕ) (m : List ℕ) (i left q : ℕ)
    → 0 < size
    → IsBytes m
    → size ≤ 8 * length m
    → begin + i + left < 2 ^ 32
    → bitmap_read (fill_loop size begin bit m i left) q ≡ (
        if reached size ((begin + i) % size) left q
        then bit_value (not (bit == 0))
        else bitmap_read m q)
unfolding fill_loop
fill_loop-read size begin bit m i zero q pos hm hs hb = ground arith
fill_loop-read size begin bit m i (suc left) q pos hm hs hb =
    let v = not (bit == 0) in
    let p = position_at size begin i in
    let m' = put v m p in
    let fits : size ≤ 8 * length m' = rw (put-keeps v m p hm).1 hs in
    let r = (begin + i) % size in
    let assoc : begin + (i + 1) ≡ begin + i + 1 = omega arith in
    let next : (begin + (i + 1)) % size ≡ (if r + 1 == size then 0 else r + 1) =
      rw assoc (next-mod size (begin + i) pos) in
    ground (
      arith,
      rw next at (
          fill_loop-read size begin bit m' (i + 1) left q pos (put-keeps v m p hm).0 fits
            (omega arith)),
      bitmap_read-put v m p q hm (omega arith),
      reached-suc size r left q,
    )

-- `bitmap_fill` writes `bit` to the `bits_size` positions from `begin_bit` on, going round at the
-- end of the bitmap, and changes no other bit of the array. The bitmap is not empty and lies in
-- the array, and the positions do not wrap in 32 bits.
pub bitmap_fill-read :
    (size begin : ℕ) (m : List ℕ) (bits_size bit q : ℕ)
    → 0 < size
    → IsBytes m
    → size ≤ 8 * length m
    → begin + bits_size < 2 ^ 32
    → bitmap_read (bitmap_fill size begin m bits_size bit) q ≡ (
        if reached size (begin % size) bits_size q
        then bit_value (not (bit == 0))
        else bitmap_read m q)
unfolding bitmap_fill
bitmap_fill-read size begin m n bit q pos hm hs hb =
    let e : begin + 0 ≡ begin = omega arith in
    rw e at (fill_loop-read size begin bit m 0 n q pos hm hs (omega arith))

pub bitmap_read-zeros : (n q : ℕ) → bitmap_read (replicate n 0) q ≡ 0
unfolding bitmap_read bit_in
bitmap_read-zeros n q = rw (get_or-replicate {A = ℕ} n (q / 8) 0) (zero_bit (q % 8) (omega arith))
