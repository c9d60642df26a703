-- ===== src/Libc/Mem/Tests.antt =====
-- Runs of the block operations, and the theorems at concrete blocks.
use james_os.Prelude.{ℕ, ◌≡◌, refl, List, [], ◌∷◌, arith}
use james_os.Prelude.Int.{pos, negsuc}
use james_os.Libc.Mem.{byte_at, copy_up, copy_down, memcpy, memmov, memcmp}
use james_os.Libc.Mem.Copy.{memmov-moved}

abbrev memory : List ℕ
memory = 1 ∷ 2 ∷ 3 ∷ 4 ∷ 5 ∷ 6 ∷ []

memcpy_repeats : memcpy memory 0 1 4 ≡ 1 ∷ 1 ∷ 1 ∷ 1 ∷ 1 ∷ 6 ∷ []
unfolding memcpy copy_up
memcpy_repeats = refl

memmov_shifts : memmov memory 0 1 4 ≡ 1 ∷ 1 ∷ 2 ∷ 3 ∷ 4 ∷ 6 ∷ []
unfolding memmov copy_up copy_down
memmov_shifts = refl

memcmp_orders :
    (memcmp memory 0 1 3 ≡ negsuc 0) × (memcmp memory 2 1 3 ≡ pos 1) × (memcmp memory 2 2 3 ≡ pos 0)
unfolding memcmp
memcmp_orders = (refl, refl, refl)

memmov-moved_example : byte_at (memmov memory 0 1 4) 4 ≡ 4
memmov-moved_example = memmov-moved memory 0 1 4 4 (omega arith)
