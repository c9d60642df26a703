-- ===== src/Libc/Paging/Frames.antt =====
-- The frames that are taken.
use james_os.Prelude.{
  ℕ, zero, suc, ◌+◌, ◌*◌, ◌/◌, ◌%◌, ◌≤◌, ◌<◌, ◌≡◌, ◌∙◌, ap, ap₂, ==→eq, ==→ne, List, true, false,
  Bool-cases, Option, none, some, inl, inr, ◌==◌, leb, if◌then◌else◌, arith, length, get_or,
  IsBytes,
}
use mathlib.Core.Path.{subst}
use james_os.Prelude.Bits.{full_bit, same_place, bit_in, bit_in-lt, bit_in-put_bit}
use james_os.Libc.Paging.{
  Memory, frame_bits, frame_bytes, first, first_frame, set_frame, clear_frame,
}

-- The bit of a frame: 1 for a frame that is taken.
unfoldable pub frame_bit : List ℕ → ℕ → ℕ
frame_bit bitmap frame = bit_in bitmap (frame / 8) (frame % 8)

-- The search from frame `n` to frame `k`: the first that is free, or none.
unfoldable pub IsFirstFree : List ℕ → ℕ → ℕ → Option ℕ → Type 0
IsFirstFree bitmap n k none = (i : ℕ) → n ≤ i → i < k → frame_bit bitmap i ≡ 1
IsFirstFree bitmap n k (some f) =
    (n ≤ f)
    × (f < k)
    × (frame_bit bitmap f ≡ 0)
    × ((i : ℕ) → n ≤ i → i < f → frame_bit bitmap i ≡ 1)

IsFirstFree-after :
    (r : Option ℕ) (bitmap : List ℕ) (n m k : ℕ)
    → n ≤ m
    → m ≤ k
    → ((i : ℕ) → n ≤ i → i < m → frame_bit bitmap i ≡ 1)
    → IsFirstFree bitmap m k r
    → IsFirstFree bitmap n k r
unfolding IsFirstFree
IsFirstFree-after none bitmap n m k le le' taken rest = λ i from to. elim (Bool-cases (leb m i)) [
  | inl late ↦ rest i (ground (arith, late)) to
  | inr early ↦ taken i from (ground (arith, early))
]
IsFirstFree-after (some f) bitmap n m k le le' taken (from, to, free, rest) = (
  omega (arith, le, from),
  to,
  free,
  λ i from' to'. elim (Bool-cases (leb m i)) [
    | inl late ↦ rest i (ground (arith, late)) to'
    | inr early ↦ taken i from' (ground (arith, early))
  ],
)

frame_bits-IsFirstFree :
    (left : ℕ) (bitmap : List ℕ) (i j : ℕ)
    → j + left ≡ 8
    → IsFirstFree bitmap (i * 8 + j) (i * 8 + 8) (frame_bits bitmap i j left)
unfolding frame_bits IsFirstFree
frame_bits-IsFirstFree zero bitmap i j e = λ q le lt. omega (arith, e, le, lt)
frame_bits-IsFirstFree (suc n) bitmap i j e =
    let here : frame_bit bitmap (i * 8 + j) ≡ bit_in bitmap i j =
      unfold frame_bit in ap₂ (bit_in bitmap) (omega (arith, e)) (omega (arith, e)) in
    let next : i * 8 + j + 1 ≡ i * 8 + (j + 1) = omega arith in
    elim (Bool-cases (bit_in bitmap i j == 0)) [
      | inl free ↦
          rw free
            (omega arith, omega (arith, e), here ∙ ==→eq _ _ free, λ q le lt. omega (arith, le, lt))
      | inr taken ↦ rw taken (
          IsFirstFree-after (frame_bits bitmap i (j + 1) n) bitmap (i * 8 + j) (i * 8 + j + 1)
            (i * 8 + 8) (omega arith) (omega (arith, e))
            (λ q le lt.
              ap (frame_bit bitmap) (omega (arith, le, lt))
              ∙ here
              ∙ omega (arith, bit_in-lt bitmap i j, ==→ne _ _ taken))
            (rw (next) (frame_bits-IsFirstFree n bitmap i (j + 1) (omega (arith, e)))))
    ]

IsFirstFree-first :
    (r r' : Option ℕ) (bitmap : List ℕ) (n m k : ℕ)
    → n ≤ m
    → m ≤ k
    → IsFirstFree bitmap n m r
    → IsFirstFree bitmap m k r'
    → IsFirstFree bitmap n k (first r r')
unfolding IsFirstFree first
IsFirstFree-first none r' bitmap n m k le le' taken rest =
    IsFirstFree-after r' bitmap n m k le le' taken rest
IsFirstFree-first (some f) r' bitmap n m k le le' (from, to, free, before) rest =
    (from, omega (arith, to, le'), free, before)

-- A byte 0xff has no bit that is 0.
full_byte :
    (bitmap : List ℕ) (i : ℕ)
    → get_or bitmap i 0 ≡ 0xff
    → (q : ℕ) → i * 8 ≤ q
    → q < i * 8 + 8
    → frame_bit bitmap q ≡ 1
unfolding frame_bit bit_in
full_byte bitmap i full q from to =
    let at : q / 8 ≡ i = omega (arith, from, to) in rw at (rw full (full_bit (q % 8) (omega arith)))

frame_bytes-IsFirstFree :
    (left : ℕ) (bitmap : List ℕ) (i : ℕ)
    → IsFirstFree bitmap (i * 8) ((i + left) * 8) (frame_bytes bitmap i left)
unfolding frame_bytes IsFirstFree
frame_bytes-IsFirstFree zero bitmap i = λ q le lt. omega (arith, le, lt)
frame_bytes-IsFirstFree (suc n) bitmap i =
    let end : (i + 1 + n) * 8 ≡ (i + suc n) * 8 = omega arith in
    let begin : (i + 1) * 8 ≡ i * 8 + 8 = omega arith in
    let rest : IsFirstFree bitmap (i * 8 + 8) ((i + suc n) * 8) (frame_bytes bitmap (i + 1) n) =
      subst (λ k. IsFirstFree bitmap (i * 8 + 8) k (frame_bytes bitmap (i + 1) n)) end
        (subst (λ m. IsFirstFree bitmap m ((i + 1 + n) * 8) (frame_bytes bitmap (i + 1) n)) begin
          (frame_bytes-IsFirstFree n bitmap (i + 1))) in
    elim (Bool-cases (get_or bitmap i 0 == 0xff)) [
      | inl full ↦ rw full (
          IsFirstFree-after (frame_bytes bitmap (i + 1) n) bitmap (i * 8) (i * 8 + 8)
            ((i + suc n) * 8) (omega arith) (omega arith) (full_byte bitmap i (==→eq _ _ full))
            rest)
      | inr free ↦ rw free (
          IsFirstFree-first (frame_bits bitmap i 0 8) (frame_bytes bitmap (i + 1) n) bitmap (i * 8)
            (i * 8 + 8) ((i + suc n) * 8) (omega arith) (omega arith)
            (subst (λ m. IsFirstFree bitmap m (i * 8 + 8) (frame_bits bitmap i 0 8)) (omega arith)
              (frame_bits-IsFirstFree 8 bitmap i 0 (omega arith)))
            rest)
    ]

-- Where the number of frames is a multiple of 8, `first_frame` gives the lowest frame that is
-- free, and none only when no frame is free.
pub first_frame-IsFirstFree :
    (m : Memory) → m.nframes % 8 ≡ 0 → IsFirstFree m.bitmap 0 m.nframes (first_frame m)
unfolding first_frame
first_frame-IsFirstFree m whole =
    let all : (0 + m.nframes / 8) * 8 ≡ m.nframes = omega (arith, whole) in
    subst (λ k. IsFirstFree m.bitmap 0 k (frame_bytes m.bitmap 0 (m.nframes / 8))) all
      (frame_bytes-IsFirstFree (m.nframes / 8) m.bitmap 0)

-- Taking and freeing a frame change its bit, and no other.
pub frame_bit-set_frame :
    (bitmap : List ℕ) (frame other : ℕ)
    → IsBytes bitmap
    → frame / 8 < length bitmap
    → frame_bit (set_frame frame bitmap) other
      ≡ (if frame == other then 1 else frame_bit bitmap other)
unfolding set_frame frame_bit
frame_bit-set_frame bitmap frame other h lt = rw (← same_place frame other) (
    bit_in-put_bit true bitmap (frame / 8) (frame % 8) (other / 8) (other % 8) h lt (omega arith)
      (omega arith))

pub frame_bit-clear_frame :
    (bitmap : List ℕ) (frame other : ℕ)
    → IsBytes bitmap
    → frame / 8 < length bitmap
    → frame_bit (clear_frame frame bitmap) other
      ≡ (if frame == other then 0 else frame_bit bitmap other)
unfolding clear_frame frame_bit
frame_bit-clear_frame bitmap frame other h lt = rw (← same_place frame other) (
    bit_in-put_bit false bitmap (frame / 8) (frame % 8) (other / 8) (other % 8) h lt (omega arith)
      (omega arith))
