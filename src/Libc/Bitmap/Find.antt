-- ===== src/Libc/Bitmap/Find.antt =====
-- `bitmap_find_sequence` returns the first run, and -1 only if there is none.
use james_os.Prelude.{
  ℕ, zero, suc, ◌+◌, ◌-◌, ◌^◌, ◌≤◌, ◌<◌, ◌≡◌, ◌⊎◌, refl, List, ◌==◌, if◌then◌else◌, arith,
  Bool-cases, inl, inr, ==→eq, ==→ne, u32, minus_one,
}
use mathlib.Core.Path.{subst}
use james_os.Prelude.Runs.{
  NoneBy, Scanned, IsFirst, Scanned-start, Scanned-hit, Scanned-miss, Scanned-full,
}
use james_os.Libc.Bitmap.{bitmap_read, position_at, find_loop, bitmap_find_sequence}

module _ (m : List ℕ) (size begin n bit : ℕ) where
  -- Round `i` reads the expected bit.
  abbrev pub ReadsBit : ℕ → Type 0
  ReadsBit i = bitmap_read m (position_at size begin i) ≡ bit

  -- `found` is the position at which the present run begins.
  abbrev Placed : ℕ → ℕ → ℕ → Type 0
  Placed i current found = 0 < current → found ≡ position_at size begin (i - current)

  -- `result` is the position of the first run, or -1 where no round has one.
  abbrev pub FindsFirst : ℕ → Type 0
  FindsFirst result =
      ((start : ℕ) × IsFirst ReadsBit n size start × (result ≡ position_at size begin start))
      ⊎ ((result ≡ minus_one) × NoneBy ReadsBit n size)

  Placed-hit :
      (i current found : ℕ)
      → current ≤ i
      → Placed i current found
      → (if current + 1 == 1 then position_at size begin i else found)
        ≡ position_at size begin (i + 1 - (current + 1))
  Placed-hit i current found behind place =
      let start : i + 1 - (current + 1) ≡ i - current = omega arith in
      rw start (ground (arith, place))

  find_loop-FindsFirst :
      (left i current found : ℕ)
      → i + left ≡ size
      → size < 2 ^ 32
      → Scanned ReadsBit n i current
      → Placed i current found
      → FindsFirst (find_loop size begin m n bit i current found left)
  unfolding find_loop
  find_loop-FindsFirst zero i current found e wide s place =
      let ends : i ≡ size = omega arith in
      inr (refl, subst (λ t. NoneBy ReadsBit n t) ends s.none_yet)
  find_loop-FindsFirst (suc left) i current found e wide s place =
      let narrow : u32 (current + 1) ≡ current + 1 = omega (arith, s.behind) in
      let found' : ℕ = if current + 1 == 1 then position_at size begin i else found in
      let placed = Placed-hit i current found s.behind place in
      rw narrow (elim (Bool-cases (bitmap_read m (position_at size begin i) == bit)) [
        | inl hit ↦
            let hit' = ==→eq _ _ hit in
            rw hit (elim (Bool-cases (current + 1 == n)) [
              | inl full ↦
                  let full' = ==→eq _ _ full in
                  rw full (
                    inl (
                      i + 1 - n,
                      Scanned-full ReadsBit n size i current s hit' full' (omega arith),
                      subst (λ t. found' ≡ position_at size begin (i + 1 - t)) full' placed,
                    ))
              | inr more ↦ rw more (
                  find_loop-FindsFirst left (i + 1) (current + 1) _ (omega arith) wide
                    (Scanned-hit ReadsBit n i current s hit'
                      (omega (arith, s.short, ==→ne _ _ more)))
                    (λ _. placed))
            ])
        | inr miss ↦ rw miss (
            find_loop-FindsFirst left (i + 1) 0 found (omega arith) wide
              (Scanned-miss ReadsBit n i current s (==→ne _ _ miss)) (λ h. absurd (omega arith)))
      ])

-- `bitmap_find_sequence` looks at the rounds 0, 1, … below the size of the bitmap, each at the
-- position `begin_bit` plus the round, going round at the end of the bitmap. For a sequence of at
-- least one bit, it returns the position of the first round from which `n` rounds in a row read
-- `bit`, if there is such a round, and -1 only if there is none.
pub bitmap_find_sequence_lem :
    (m : List ℕ) (size begin n bit : ℕ)
    → 0 < n
    → size < 2 ^ 32
    → FindsFirst m size begin n bit (bitmap_find_sequence size begin m n bit)
unfolding bitmap_find_sequence
bitmap_find_sequence_lem m size begin n bit pos wide =
    find_loop-FindsFirst m size begin n bit size 0 0 minus_one (omega arith) wide
      (Scanned-start _ n pos) (λ h. absurd (omega arith))
