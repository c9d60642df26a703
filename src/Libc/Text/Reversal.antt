-- ===== src/Libc/Text/Reversal.antt =====
-- What `reverse` leaves, byte by byte.
use james_os.Prelude.{
  ℕ, zero, suc, ◌+◌, ◌-◌, ◌≤◌, ◌<◌, ◌≡◌, ◌≢◌, refl, ap, ◌∙◌, List, [], ◌∷◌, ◌&&◌, ltb, leb,
  if◌then◌else◌, arith, length, length-set, get_or, set, get_or-set, Bool-cases, inl, inr,
}
use james_os.Libc.Text.{strlen, reverse_loop, reverse}

-- Bytes `i` to `j` - 1 of `s` in the opposite order, at place `q`.
abbrev mirrored : List ℕ → ℕ → ℕ → ℕ → ℕ
mirrored s i j q = if leb i q && ltb q j then get_or s (i + j - 1 - q) 0 else get_or s q 0

swap_step :
    (s : List ℕ) (i j q : ℕ)
    → i + 1 < j
    → j ≤ length s
    → mirrored (set (set s i (get_or s (j - 1) 0)) (j - 1) (get_or s i 0)) (i + 1) (j - 1) q
      ≡ mirrored s i j q
swap_step s i j q lt fits =
    let a = get_or s (j - 1) 0 in
    let b = get_or s i 0 in
    let s1 = set s i a in
    let len : length s1 ≡ length s = length-set s i a in
    let index : i + 1 + (j - 1) - 1 - q ≡ i + j - 1 - q = omega arith in
    rw index (
      ground (
        arith,
        get_or-set s1 (j - 1) q b 0 (omega (arith, len)),
        get_or-set s i q a 0 (omega arith),
        get_or-set s1 (j - 1) (i + j - 1 - q) b 0 (omega (arith, len)),
        get_or-set s i (i + j - 1 - q) a 0 (omega arith),
        at_end,
        at_start,
      ))
  where
    at_end : q ≡ i → get_or s (i + j - 1 - q) 0 ≡ get_or s (j - 1) 0
    at_end e = ap (λ (k : ℕ). get_or s k 0) (omega arith)

    at_start : q ≡ j - 1 → get_or s (i + j - 1 - q) 0 ≡ get_or s i 0
    at_start e = ap (λ (k : ℕ). get_or s k 0) (omega arith)

pub reverse_loop-mirrored :
    (fuel : ℕ) (s : List ℕ) (i j q : ℕ)
    → j ≤ length s
    → j ≤ i + fuel
    → get_or (reverse_loop fuel s i j) q 0 ≡ mirrored s i j q
unfolding reverse_loop
reverse_loop-mirrored zero s i j q fits enough = ground arith
reverse_loop-mirrored (suc n) s i j q fits enough = elim (Bool-cases (ltb (i + 1) j)) [
  | inl more ↦
      let a = get_or s (j - 1) 0 in
      let b = get_or s i 0 in
      let len : length (set (set s i a) (j - 1) b) ≡ length s =
        length-set (set s i a) (j - 1) b ∙ length-set s i a in
      rw more (
        reverse_loop-mirrored n (set (set s i a) (j - 1) b) (i + 1) (j - 1) q (omega (arith, len))
          (omega arith)
        ∙ swap_step s i j q (ground (arith, more)) fits)
  | inr done ↦ rw done (ground (arith, done, alone))
]
  where
    alone : q ≡ i → j ≡ i + 1 → get_or s (i + j - 1 - q) 0 ≡ get_or s q 0
    alone e e' = ap (λ (k : ℕ). get_or s k 0) (omega arith)

length-reverse_loop :
    (fuel : ℕ) (s : List ℕ) (i j : ℕ) → length (reverse_loop fuel s i j) ≡ length s
unfolding reverse_loop
length-reverse_loop zero s i j = refl
length-reverse_loop (suc n) s i j =
    let a = get_or s (j - 1) 0 in
    let b = get_or s i 0 in
    ground (
      arith,
      length-reverse_loop n (set (set s i a) (j - 1) b) (i + 1) (j - 1),
      length-set (set s i a) (j - 1) b,
      length-set s i a,
    )

pub strlen-le : (s : List ℕ) → strlen s ≤ length s
unfolding strlen
strlen-le [] = omega arith
strlen-le (c ∷ s) = ground (arith, strlen-le s)

-- The first 0 is the end of the text.
pub strlen-first :
    (s : List ℕ) (n : ℕ)
    → n < length s
    → get_or s n 0 ≡ 0
    → ((k : ℕ) → k < n → get_or s k 0 ≢ 0)
    → strlen s ≡ n
unfolding strlen
strlen-first [] n lt e before = absurd (omega arith)
strlen-first (c ∷ s) zero lt e before = ground (arith, e)
strlen-first (c ∷ s) (suc n) lt e before =
    let rest = strlen-first s n (omega arith) e (λ k l. before (suc k) (omega arith)) in
    ground (arith, rest, before 0 (omega arith))

pub length-reverse : (s : List ℕ) → length (reverse s) ≡ length s
unfolding reverse
length-reverse s = length-reverse_loop (strlen s) s 0 (strlen s)

-- `reverse` turns the text before the first 0 round and changes nothing after it.
pub get_or-reverse :
    (s : List ℕ) (q : ℕ)
    → get_or (reverse s) q 0
      ≡ (if ltb q (strlen s) then get_or s (strlen s - 1 - q) 0 else get_or s q 0)
unfolding reverse
get_or-reverse s q =
    let index : 0 + strlen s - 1 - q ≡ strlen s - 1 - q = omega arith in
    reverse_loop-mirrored (strlen s) s 0 (strlen s) q (strlen-le s) (omega arith)
    ∙ rw index (ground arith)
