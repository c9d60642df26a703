-- ===== src/Libc/Minmax.antt =====
-- src/libc/minmax.c.
use james_os.Prelude.{ℕ, ltb, if◌then◌else◌}

unfoldable pub max : ℕ → ℕ → ℕ
max i j = if ltb j i then i else j

unfoldable pub min : ℕ → ℕ → ℕ
min i j = if ltb i j then i else j
