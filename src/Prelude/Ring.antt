-- ===== src/Prelude/Ring.antt =====
-- Positions that go round at the end of a buffer of `size` cells.
use Prim.Native.Nat.{ℕ, ◌+◌, ◌-◌, ◌%◌, ◌<◌}
use mathlib.Core.Path.{◌≡◌}
use native.Mathlib.Nat.{mod-add-mod, mod-eq_of_lt, mod_self}
use native.Mathlib.Omega.{arith}
use james_os.Prelude.Tests.{◌==◌, ltb, if◌then◌else◌}

-- The next position, from the remainder of the one before.
pub next-mod :
    (size s : ℕ) → 0 < size → (s + 1) % size ≡ (if s % size + 1 == size then 0 else s % size + 1)
next-mod size s h =
    ground (arith, mod-add-mod s size 1, mod-eq_of_lt {n = s % size + 1} {m = size}, mod_self size)

-- How far `q` lies behind `r` on the ring.
abbrev pub ahead : ℕ → ℕ → ℕ → ℕ
ahead size r q = if ltb q r then q + size - r else q - r
