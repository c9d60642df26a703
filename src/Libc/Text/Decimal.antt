-- ===== src/Libc/Text/Decimal.antt =====
-- What `itoa` writes, and that it reads back as the number.
use james_os.Prelude.{
  ℕ, zero, suc, ◌+◌, ◌-◌, ◌*◌, ◌/◌, ◌%◌, ◌^◌, ◌≤◌, ◌<◌, ◌≡◌, ◌≢◌, ◌⊎◌, sym, ap, ◌∙◌, List, ◌==◌,
  ltb, if◌then◌else◌, arith, length, length-set, get_or, set, get_or-set, Bool-cases, inl, inr,
  ==→eq, ==→ne,
}
use native.Mathlib.Nat.{pow-suc}
use james_os.Libc.Text.{strlen, reverse, itoa_loop, itoa}
use james_os.Libc.Text.Reversal.{strlen-first, length-reverse, get_or-reverse}

-- The value of the `n` digits from `s[i]` on, the highest first.
unfoldable pub read_decimal : List ℕ → ℕ → ℕ → ℕ → ℕ
read_decimal s i zero acc = acc
read_decimal s i (suc n) acc = read_decimal s (i + 1) n (acc * 10 + (get_or s i 0 - 48))

-- The same, the lowest first.
low_first : List ℕ → ℕ → ℕ → ℕ
low_first s i zero = 0
low_first s i (suc n) = get_or s i 0 - 48 + 10 * low_first s (i + 1) n

low_first-last :
    (s : List ℕ) (n i : ℕ)
    → low_first s i (suc n) ≡ low_first s i n + (get_or s (i + n) 0 - 48) * 10 ^ n
unfolding low_first
low_first-last s zero i = let place : i + 0 ≡ i = omega arith in rw place (omega arith)
low_first-last s (suc n) i =
    let place : i + 1 + n ≡ i + suc n = omega arith in
    let d = get_or s (i + suc n) 0 - 48 in
    let ih : low_first s (i + 1) (suc n) ≡ low_first s (i + 1) n + d * 10 ^ n =
      rw place at (low_first-last s n (i + 1)) in
    let power : d * 10 ^ suc n ≡ 10 * (d * 10 ^ n) = rw (pow-suc 10 n) (grind arith) in
    omega (arith, ih, power)

read-low_first :
    (t s : List ℕ) (n i j acc : ℕ)
    → ((k : ℕ) → k < n → get_or t (i + k) 0 ≡ get_or s (j + n - 1 - k) 0)
    → read_decimal t i n acc ≡ acc * 10 ^ n + low_first s j n
unfolding read_decimal low_first
read-low_first t s zero i j acc same = omega arith
read-low_first t s (suc n) i j acc same =
    let top : get_or t i 0 ≡ get_or s (j + n) 0 =
      ap (λ (k : ℕ). get_or t k 0) (sym (at_start i))
      ∙ same 0 (omega arith)
      ∙ ap (λ (k : ℕ). get_or s k 0) (omega arith) in
    let d = get_or t i 0 - 48 in
    let ih = read-low_first t s n (i + 1) j (acc * 10 + d) (λ k lt.
      ap (λ (q : ℕ). get_or t q 0) (omega arith)
      ∙ same (k + 1) (omega arith)
      ∙ ap (λ (q : ℕ). get_or s q 0) (omega arith)) in
    let power : (acc * 10 + d) * 10 ^ n ≡ acc * 10 ^ suc n + d * 10 ^ n =
      rw (pow-suc 10 n) (grind arith) in
    let same_digit : d * 10 ^ n ≡ (get_or s (j + n) 0 - 48) * 10 ^ n =
      ap (λ (c : ℕ). (c - 48) * 10 ^ n) top in
    let last : get_or s j 0 - 48 + 10 * low_first s (j + 1) n
        ≡ low_first s j n + (get_or s (j + n) 0 - 48) * 10 ^ n =
      unfold low_first in low_first-last s n j in
    omega (arith, ih, power, same_digit, last)
  where
    at_start : (i : ℕ) → i + 0 ≡ i
    at_start i = omega arith

-- What the loop of `itoa` leaves.
record Digits (s : List ℕ) (i n : ℕ) (s' : List ℕ) (e : ℕ) : Type 0 where
  same_length : length s' ≡ length s
  some_digits : i < e
  kept : (q : ℕ) → (q < i) ⊎ (e ≤ q) → get_or s' q 0 ≡ get_or s q 0
  digit : (q : ℕ) → i ≤ q → q < e → (48 ≤ get_or s' q 0) × (get_or s' q 0 ≤ 57)
  value : low_first s' i (e - i) ≡ n

last_digit :
    (n : ℕ) (s : List ℕ) (i : ℕ)
    → n / 10 ≡ 0
    → i < length s
    → Digits s i n (set s i (n % 10 + 48)) (i + 1)
unfolding low_first
last_digit n s i e fits =
    let c = n % 10 + 48 in
    let one : i + 1 - i ≡ 1 = omega arith in
    let here = get_or-set s i i c 0 fits in
    record {
      same_length = length-set s i c;
      some_digits = omega arith;
      kept = λ q away. ground (arith, get_or-set s i q c 0 fits, away);
      digit = λ q lo hi.
          (ground (arith, get_or-set s i q c 0 fits), ground (arith, get_or-set s i q c 0 fits));
      value = rw one (ground (arith, here, e));
    }

next-Digits :
    (n : ℕ) (s : List ℕ) (i : ℕ) (s' : List ℕ) (e : ℕ)
    → i < length s
    → Digits (set s i (n % 10 + 48)) (i + 1) (n / 10) s' e
    → Digits s i n s' e
unfolding low_first
next-Digits n s i s' e fits d =
    let c = n % 10 + 48 in
    let here : get_or s' i 0 ≡ c =
      d.kept i (inl (omega arith)) ∙ ground (arith, get_or-set s i i c 0 fits) in
    let size : e - i ≡ suc (e - (i + 1)) = omega (arith, d.some_digits) in
    record {
      same_length = d.same_length ∙ length-set s i c;
      some_digits = omega (arith, d.some_digits);
      kept = λ q away.
          d.kept q (ground (arith, away))
          ∙ ground (arith, get_or-set s i q c 0 fits, away, d.some_digits);
      digit = λ q lo hi. elim (Bool-cases (i == q)) [
        | inl same ↦ rw (← ==→eq i q same, here) (omega arith, omega arith)
        | inr other ↦ d.digit q (ground (arith, other)) hi
      ];
      value = rw size (omega (arith, here, d.value));
    }

itoa_loop-Digits :
    (fuel n : ℕ) (s : List ℕ) (i : ℕ)
    → n < 10 ^ fuel
    → 0 < fuel
    → i + fuel ≤ length s
    → Digits s i n (itoa_loop fuel n s i).0 (itoa_loop fuel n s i).1
      × ((itoa_loop fuel n s i).1 ≤ i + fuel)
unfolding itoa_loop
itoa_loop-Digits zero n s i small pos fits = absurd (omega arith)
itoa_loop-Digits (suc f) n s i small pos fits = elim (Bool-cases (n / 10 == 0)) [
  | inl done ↦ rw done (last_digit n s i (==→eq _ _ done) (omega arith), omega arith)
  | inr more ↦
      let c = n % 10 + 48 in
      let power : n / 10 < 10 ^ f = omega (arith, pow-suc 10 f) in
      let rounds : 0 < f = still f power (==→ne _ _ more) in
      let (d, e) =
        itoa_loop-Digits f (n / 10) (set s i c) (i + 1) power rounds
          (omega (arith, length-set s i c)) in
      rw more (next-Digits n s i _ _ (omega arith) d, omega (arith, e))
]
  where
    still : (f : ℕ) → n / 10 < 10 ^ f → n / 10 ≢ 0 → 0 < f
    still zero lt ne = absurd (ne (omega arith))
    still (suc f) lt ne = omega arith

-- The end of `itoa`: the 0 after the digits, and the reversal.
module _ (s : List ℕ) (n : ℕ) (s' : List ℕ) (e : ℕ) (d : Digits s 0 n s' e)
    (room : e < length s) where
  ended : List ℕ
  ended = set s' e 0

  ended_at : (q : ℕ) → get_or ended q 0 ≡ (if e == q then 0 else get_or s' q 0)
  unfolding ended
  ended_at q = get_or-set s' e q 0 0 (omega (arith, d.same_length, room))

  digit_at : (q : ℕ) → q < e → (48 ≤ get_or ended q 0) × (get_or ended q 0 ≤ 57)
  digit_at q lt =
      let (lo, hi) = d.digit q (omega arith) lt in
      (ground (arith, ended_at q, lt, lo), ground (arith, ended_at q, lt, hi))

  ended_size : strlen ended ≡ e
  ended_size =
      strlen-first ended e (omega (arith, length-ended, room)) (ground (arith, ended_at e))
        (λ k lt z. absurd (omega (arith, (digit_at k lt).0, z)))
    where
      length-ended : length ended ≡ length s
      length-ended = unfold ended in (length-set s' e 0 ∙ d.same_length)

  reversed_at :
      (q : ℕ)
      → get_or (reverse ended) q 0
        ≡ (if ltb q e then get_or ended (e - 1 - q) 0 else get_or ended q 0)
  reversed_at q = rw ended_size at (get_or-reverse ended q)

  reversed_digit :
      (q : ℕ) → q < e → (48 ≤ get_or (reverse ended) q 0) × (get_or (reverse ended) q 0 ≤ 57)
  reversed_digit q lt =
      let (lo, hi) = digit_at (e - 1 - q) (omega (arith, lt)) in
      (ground (arith, reversed_at q, lt, lo), ground (arith, reversed_at q, lt, hi))

  reversed_size : strlen (reverse ended) ≡ e
  reversed_size =
      strlen-first (reverse ended) e (omega (arith, length-ended, room))
        (ground (arith, ended_at e, reversed_at e))
        (λ k lt z. absurd (omega (arith, (reversed_digit k lt).0, z)))
    where
      length-ended : length (reverse ended) ≡ length s
      length-ended = length-reverse ended ∙ unfold ended in (length-set s' e 0 ∙ d.same_length)

  same_digit : (k : ℕ) → k < e → get_or (reverse ended) (0 + k) 0 ≡ get_or s' (0 + e - 1 - k) 0
  same_digit k lt =
      let index : e - 1 - k ≡ 0 + e - 1 - k = omega arith in
      let start : 0 + k ≡ k = omega arith in
      rw (start, ← index) (ground (arith, reversed_at k, ended_at (e - 1 - k)))

  reversed_value : read_decimal (reverse ended) 0 e 0 ≡ n
  reversed_value =
      let whole : e - 0 ≡ e = omega arith in
      omega (arith, read-low_first (reverse ended) s' e 0 0 0 same_digit, rw whole at d.value)

  reversed_after : (q : ℕ) → e < q → get_or (reverse ended) q 0 ≡ get_or s q 0
  reversed_after q lt =
      ground (arith, reversed_at q, ended_at q) ∙ d.kept q (inr (omega (arith, lt)))

-- For a 32-bit number and an array of at least 11 bytes, `itoa` writes a text of one to ten
-- decimal digits that reads as the number, and changes no byte after the 0 that ends the text.
pub itoa-reads :
    (n : ℕ) (s : List ℕ)
    → n < 2 ^ 32
    → 11 ≤ length s
    → (0 < strlen (itoa n s))
      × (strlen (itoa n s) ≤ 10)
      × (read_decimal (itoa n s) 0 (strlen (itoa n s)) 0 ≡ n)
      × ((q : ℕ)
          → q < strlen (itoa n s)
          → (48 ≤ get_or (itoa n s) q 0) × (get_or (itoa n s) q 0 ≤ 57))
      × ((q : ℕ) → strlen (itoa n s) < q → get_or (itoa n s) q 0 ≡ get_or s q 0)
unfolding itoa
itoa-reads n s small room =
    let (d, le) = itoa_loop-Digits 10 n s 0 (omega arith) (omega arith) (omega (arith, room)) in
    let s' = (itoa_loop 10 n s 0).0 in
    let e = (itoa_loop 10 n s 0).1 in
    let fits : e < length s = omega (arith, le, room) in
    unfold ended in
    rw (reversed_size s n s' e d fits) (
      d.some_digits,
      omega (arith, le),
      reversed_value s n s' e d fits,
      reversed_digit s n s' e d fits,
      reversed_after s n s' e d fits,
    )
