-- ===== src/Libc/Text/Tests.antt =====
-- Numbers in decimal.
use james_os.Prelude.{ℕ, ◌≤◌, ◌<◌, ◌≡◌, refl, arith, [], ◌∷◌, get_or, replicate, codes, ◌++◌}
use james_os.Libc.Text.{strlen, reverse, reverse_loop, itoa, itoa_loop}
use james_os.Libc.Text.Decimal.{read_decimal, itoa-reads}

itoa_runs : itoa 4094 (replicate 11 7) ≡ codes "4094" ++ (0 ∷ 7 ∷ 7 ∷ 7 ∷ 7 ∷ 7 ∷ 7 ∷ [])
unfolding itoa itoa_loop reverse reverse_loop strlen
itoa_runs = refl

-- The largest number fills an array of 10 bytes and has no room for the 0 in it.
ten_digits : itoa 4294967295 (replicate 11 7) ≡ codes "4294967295" ++ (0 ∷ [])
unfolding itoa itoa_loop reverse reverse_loop strlen
ten_digits = refl

itoa-reads_example :
    (0 < strlen (itoa 4094 (replicate 11 7)))
    × (strlen (itoa 4094 (replicate 11 7)) ≤ 10)
    × (read_decimal (itoa 4094 (replicate 11 7)) 0 (strlen (itoa 4094 (replicate 11 7))) 0 ≡ 4094)
    × ((q : ℕ)
        → q < strlen (itoa 4094 (replicate 11 7))
        → (48 ≤ get_or (itoa 4094 (replicate 11 7)) q 0)
          × (get_or (itoa 4094 (replicate 11 7)) q 0 ≤ 57))
    × ((q : ℕ)
        → strlen (itoa 4094 (replicate 11 7)) < q
        → get_or (itoa 4094 (replicate 11 7)) q 0 ≡ get_or (replicate 11 7) q 0)
itoa-reads_example = itoa-reads 4094 (replicate 11 7) (omega arith) (omega arith)
