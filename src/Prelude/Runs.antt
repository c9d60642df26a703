-- ===== src/Prelude/Runs.antt =====
-- A scan for the first `n` places in a row that satisfy a test, as the allocators make it: the
-- length of the present run is counted, and set back to zero at each miss.
use Prim.Native.Nat.{ℕ, ◌+◌, ◌-◌, ◌≤◌, ◌<◌}
use mathlib.Core.Path.{◌≡◌, subst}
use native.Mathlib.Decide.{ℕ_discrete, dec_le}
use native.Mathlib.Omega.{arith}

module _ (Hit : ℕ → Type 0) where
  -- `k` places from `j` on are hits.
  abbrev pub Run : ℕ → ℕ → Type 0
  Run j k = (i : ℕ) → j ≤ i → i < j + k → Hit i

  pub Run-suc :
      (i current : ℕ)
      → current ≤ i
      → Run (i - current) current
      → Hit i
      → Run (i - current) (current + 1)
  Run-suc i current behind run hit j lo hi = elim (ℕ_discrete j i) [
    | yes e ↦ subst Hit (omega (arith, e)) hit
    | no ne ↦ run j lo (omega (arith, ne))
  ]

  module _ (n : ℕ) where
    -- No whole run ends by place `i`.
    abbrev pub NoneBy : ℕ → Type 0
    NoneBy i = (j : ℕ) → j + n ≤ i → ¬ Run j n

    -- What the scan knows at place `i`: the last `current` places are a run, the place before them
    -- is no hit, and no whole run has been seen.
    pub record Scanned (i current : ℕ) : Type 0 where
      pub behind : current ≤ i
      pub short : current < n
      pub run : Run (i - current) current
      pub stopped : (j : ℕ) → j + current + 1 ≡ i → ¬ Hit j
      pub none_yet : NoneBy i

    -- The first whole run begins at `start` and ends by `size`.
    pub record IsFirst (size start : ℕ) : Type 0 where
      pub fits : start + n ≤ size
      pub run : Run start n
      pub first : (j : ℕ) → j < start → ¬ Run j n

    pub Scanned-start : 0 < n → Scanned 0 0
    Scanned-start pos = record {
      behind = omega arith;
      short = pos;
      run = λ j lo hi. absurd (omega arith);
      stopped = λ j e. absurd (omega arith);
      none_yet = λ j h r. absurd (omega arith);
    }

    -- A run that ends just after `i` would begin at the miss before the present one.
    NoneBy-hit : (i current : ℕ) → Scanned i current → current + 1 < n → NoneBy (i + 1)
    NoneBy-hit i current s short j ends r = elim (dec_le (j + n) i) [
      | yes h ↦ s.none_yet j h r
      | no h ↦
          s.stopped (i - current - 1) (omega (arith, h))
            (r (i - current - 1) (omega (arith, h)) (omega (arith, h)))
    ]

    NoneBy-miss : (i current : ℕ) → Scanned i current → ¬ Hit i → NoneBy (i + 1)
    NoneBy-miss i current s miss j ends r = elim (dec_le (j + n) i) [
      | yes h ↦ s.none_yet j h r
      | no h ↦ miss (r i (omega (arith, h, s.short)) (omega (arith, h)))
    ]

    pub Scanned-hit :
        (i current : ℕ)
        → Scanned i current
        → Hit i
        → current + 1 < n
        → Scanned (i + 1) (current + 1)
    Scanned-hit i current s hit short = record {
      behind = omega (arith, s.behind);
      short = short;
      run = subst (λ t. Run t (current + 1)) start (Run-suc i current s.behind s.run hit);
      stopped = λ j e. s.stopped j (omega arith);
      none_yet = NoneBy-hit i current s short;
    }
      where
        start : i - current ≡ i + 1 - (current + 1)
        start = omega arith

    pub Scanned-miss : (i current : ℕ) → Scanned i current → ¬ Hit i → Scanned (i + 1) 0
    Scanned-miss i current s miss = record {
      behind = omega arith;
      short = omega (arith, s.short);
      run = λ j lo hi. absurd (omega arith);
      stopped = λ j e h. miss (subst Hit (omega (arith, e)) h);
      none_yet = NoneBy-miss i current s miss;
    }

    pub Scanned-full :
        (size i current : ℕ)
        → Scanned i current
        → Hit i
        → current + 1 ≡ n
        → i < size
        → IsFirst size (i + 1 - n)
    Scanned-full size i current s hit full lt = record {
      fits = omega (arith, s.behind);
      run =
          subst (λ t. Run t n) start
            (subst (λ t. Run (i - current) t) full (Run-suc i current s.behind s.run hit));
      first = λ j l r. s.none_yet j (omega (arith, s.behind)) r;
    }
      where
        start : i - current ≡ i + 1 - n
        start = omega arith
