-- ===== src/Libc/Text.antt =====
-- src/libc/string.c: the length of a text, its reversal in place, and numbers in decimal. A text is
-- an array of bytes up to the first 0.
pub mod Reversal
pub mod Decimal
mod Tests
use james_os.Prelude.{
  ℕ, zero, suc, ◌+◌, ◌-◌, ◌*◌, ◌/◌, ◌%◌, List, [], ◌∷◌, ◌==◌, ltb, if◌then◌else◌, get_or, set,
}

pub strlen : List ℕ → ℕ
strlen [] = 0
strlen (c ∷ s) = let rest = strlen s in if c == 0 then 0 else rest + 1

-- The loop of `reverse`, where `j` is one more than in the source, since it starts at -1 for the
-- empty text. Each round takes one from the fuel.
pub reverse_loop : ℕ → List ℕ → ℕ → ℕ → List ℕ
reverse_loop zero s i j = s
reverse_loop (suc fuel) s i j =
    let swapped = set (set s i (get_or s (j - 1) 0)) (j - 1) (get_or s i 0) in
    let rest = reverse_loop fuel swapped (i + 1) (j - 1) in if ltb (i + 1) j then rest else s

pub reverse : List ℕ → List ℕ
reverse s = reverse_loop (strlen s) s 0 (strlen s)

-- The digits, the lowest first, from `s[i]` on: the text and the place after the last digit. A
-- 32-bit number has at most ten.
pub itoa_loop : ℕ → ℕ → List ℕ → ℕ → List ℕ × ℕ
itoa_loop zero n s i = (s, i)
itoa_loop (suc fuel) n s i =
    let s' = set s i (n % 10 + 48) in
    let rest = itoa_loop fuel (n / 10) s' (i + 1) in if n / 10 == 0 then (s', i + 1) else rest

-- The number is unsigned, so no sign is written.
pub itoa : ℕ → List ℕ → List ℕ
itoa n s = let (digits, i) = itoa_loop 10 n s 0 in reverse (set digits i 0)
