-- ===== src/Libc/Bitmap/Tests.antt =====
-- Runs of the bitmap routines, and the theorems at concrete inputs.
use james_os.Prelude.{ℕ, ◌≡◌, refl, List, [], ◌∷◌, arith, minus_one}
use james_os.Prelude.Bits.{bit_of, or_bit, bit_in, or_bit_in}
use james_os.Libc.Bitmap.{
  bitmap_set, bitmap_clear, bitmap_read, fill_loop, find_loop, bitmap_fill, bitmap_find_sequence,
}
use james_os.Libc.Bitmap.Fill.{bitmap_fill-read}
use james_os.Libc.Bitmap.Find.{FindsFirst, bitmap_find_sequence_lem}

abbrev two_bytes : List ℕ
two_bytes = 0xf1 ∷ 0x00 ∷ []

-- Round the end: positions 14, 15, 0 and 1.
fills_round_the_end : bitmap_fill 16 14 two_bytes 4 1 ≡ 0xf3 ∷ 0xc0 ∷ []
unfolding bitmap_fill fill_loop bitmap_set bitmap_clear or_bit_in or_bit
fills_round_the_end = refl

finds_a_hole : bitmap_find_sequence 16 0 two_bytes 3 0 ≡ 1
unfolding bitmap_find_sequence find_loop bitmap_read bit_in bit_of
finds_a_hole = refl

finds_none : bitmap_find_sequence 16 0 two_bytes 9 0 ≡ minus_one
unfolding bitmap_find_sequence find_loop bitmap_read bit_in bit_of
finds_none = refl

bitmap_fill-read_example : bitmap_read (bitmap_fill 16 14 two_bytes 4 1) 0 ≡ 1
bitmap_fill-read_example =
    bitmap_fill-read 16 14 two_bytes 4 1 0 (omega arith) (omega arith) (omega arith) (omega arith)

bitmap_find_sequence_lem_example :
    FindsFirst two_bytes 16 12 6 0 (bitmap_find_sequence 16 12 two_bytes 6 0)
bitmap_find_sequence_lem_example =
    bitmap_find_sequence_lem two_bytes 16 12 6 0 (omega arith) (omega arith)
