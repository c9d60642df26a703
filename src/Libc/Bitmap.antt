-- ===== src/Libc/Bitmap.antt =====
-- src/libc/bitmap.c: a bitmap in an array of bytes, the lowest bit of a byte first.
pub mod Fill
pub mod Find
mod Tests
use james_os.Prelude.{
  ℕ, zero, suc, ◌+◌, ◌/◌, ◌%◌, ◌≡◌, List, Bool, not, ◌==◌, if◌then◌else◌, u32, minus_one,
}
use james_os.Prelude.Bits.{bit_in, or_bit_in, and_not_bit_in}

pub bitmap_set : List ℕ → ℕ → List ℕ
bitmap_set bitmap position = or_bit_in bitmap (position / 8) (position % 8)

pub bitmap_clear : List ℕ → ℕ → List ℕ
bitmap_clear bitmap position = and_not_bit_in bitmap (position / 8) (position % 8)

pub bitmap_read : List ℕ → ℕ → ℕ
bitmap_read bitmap position = bit_in bitmap (position / 8) (position % 8)

module _ (bitmap_size begin_bit : ℕ) where
  -- The position of round `i`, in `uint32_t` arithmetic.
  abbrev pub position_at : ℕ → ℕ
  position_at i = u32 (begin_bit + i) % bitmap_size

  -- The loop of `bitmap_fill` from round `i` on, with `left` rounds to go.
  pub fill_loop : ℕ → List ℕ → ℕ → ℕ → List ℕ
  fill_loop bit bitmap i zero = bitmap
  fill_loop bit bitmap i (suc left) =
      let position = position_at i in
      fill_loop bit
        (if not (bit == 0) then bitmap_set bitmap position else bitmap_clear bitmap position)
        (i + 1) left

  -- The loop of `bitmap_find_sequence`: `current` is `current_sequence_size`, and `found` is
  -- `return_position`.
  pub find_loop : List ℕ → ℕ → ℕ → ℕ → ℕ → ℕ → ℕ → ℕ
  find_loop bitmap expected_size expected_bit i current found zero = minus_one
  find_loop bitmap expected_size expected_bit i current found (suc left) =
      let position = position_at i in
      let current' = u32 (current + 1) in
      let found' = if current' == 1 then position else found in
      let longer = find_loop bitmap expected_size expected_bit (i + 1) current' found' left in
      let again = find_loop bitmap expected_size expected_bit (i + 1) 0 found left in
      if bitmap_read bitmap position == expected_bit
      then if current' == expected_size then found' else longer
      else again

  pub bitmap_fill : List ℕ → ℕ → ℕ → List ℕ
  bitmap_fill bitmap bits_size bit = fill_loop bit bitmap 0 bits_size

  pub bitmap_find_sequence : List ℕ → ℕ → ℕ → ℕ
  bitmap_find_sequence bitmap expected_size expected_bit =
      find_loop bitmap expected_size expected_bit 0 0 minus_one bitmap_size
