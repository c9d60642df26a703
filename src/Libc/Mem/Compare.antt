-- ===== src/Libc/Mem/Compare.antt =====
-- `memcmp` tells the order of two blocks by their first difference.
use james_os.Prelude.{
  ℕ, zero, suc, ◌+◌, ◌<◌, ◌≡◌, ◌⊎◌, refl, List, ltb, arith, inl, inr, Bool-cases, ltb→lt, ltb→le,
}
use james_os.Prelude.Int.{ℤ, pos, negsuc}
use james_os.Libc.Mem.{byte_at, memcmp}

module _ (mem : List ℕ) where
  -- The first `n` bytes of the blocks agree.
  abbrev pub Agree : ℕ → ℕ → ℕ → Type 0
  Agree source targ n = (i : ℕ) → i < n → byte_at mem (source + i) ≡ byte_at mem (targ + i)

  -- The blocks agree before offset `at`, and there the first has the smaller byte.
  pub record Below (source targ len : ℕ) : Type 0 where
    pub at : ℕ
    pub inside : at < len
    pub before : Agree source targ at
    pub less : byte_at mem (source + at) < byte_at mem (targ + at)

  abbrev pub Compares : ℕ → ℕ → ℕ → ℤ → Type 0
  Compares source targ len result =
      ((result ≡ pos 0) × Agree source targ len)
      ⊎ ((result ≡ negsuc 0) × Below source targ len)
      ⊎ ((result ≡ pos 1) × Below targ source len)

  Agree-suc :
      (source targ n : ℕ)
      → byte_at mem source ≡ byte_at mem targ
      → Agree (source + 1) (targ + 1) n
      → Agree source targ (suc n)
  Agree-suc source targ n here rest zero lt =
      let s : source + 0 ≡ source = omega arith in
      let t : targ + 0 ≡ targ = omega arith in rw (s, t) here
  Agree-suc source targ n here rest (suc i) lt =
      let s : source + 1 + i ≡ source + suc i = omega arith in
      let t : targ + 1 + i ≡ targ + suc i = omega arith in rw (s, t) at (rest i (omega arith))

  Below-suc :
      (source targ n : ℕ)
      → byte_at mem source ≡ byte_at mem targ
      → Below (source + 1) (targ + 1) n
      → Below source targ (suc n)
  Below-suc source targ n here b =
      let s : source + 1 + b.at ≡ source + suc b.at = omega arith in
      let t : targ + 1 + b.at ≡ targ + suc b.at = omega arith in
      record {
        at = suc b.at;
        inside = omega (arith, b.inside);
        before = Agree-suc source targ b.at here b.before;
        less = rw (s, t) at b.less;
      }

  Below-here :
      (source targ n : ℕ) → byte_at mem source < byte_at mem targ → Below source targ (suc n)
  Below-here source targ n lt =
      let s : source + 0 ≡ source = omega arith in
      let t : targ + 0 ≡ targ = omega arith in
      record {
        at = 0;
        inside = omega arith;
        before = λ i h. absurd (omega arith);
        less = rw (s, t) lt;
      }

  Compares-suc :
      (source targ n : ℕ) (result : ℤ)
      → byte_at mem source ≡ byte_at mem targ
      → Compares (source + 1) (targ + 1) n result
      → Compares source targ (suc n) result
  Compares-suc source targ n r here (inl (e, agree)) = inl (e, Agree-suc source targ n here agree)
  Compares-suc source targ n r here (inr (inl (e, b))) =
      inr (inl (e, Below-suc source targ n here b))
  Compares-suc source targ n r here (inr (inr (e, b))) =
      inr (inr (e, Below-suc targ source n (omega (arith, here)) b))

-- `memcmp` returns 0 where the blocks agree on all `len` bytes; otherwise -1 or 1, and the first
-- byte in which they differ is the smaller one in the first or in the second block.
pub memcmp-Compares :
    (mem : List ℕ) (source targ len : ℕ) → Compares mem source targ len (memcmp mem source targ len)
unfolding memcmp
memcmp-Compares mem source targ zero = inl (refl, λ i h. absurd (omega arith))
memcmp-Compares mem source targ (suc n) =
    elim (Bool-cases (ltb (byte_at mem source) (byte_at mem targ))) [
      | inl less ↦ rw less (inr (inl (refl, Below-here mem source targ n (ltb→lt _ _ less))))
      | inr no_less ↦ rw no_less (elim (Bool-cases (ltb (byte_at mem targ) (byte_at mem source))) [
        | inl more ↦ rw more (inr (inr (refl, Below-here mem targ source n (ltb→lt _ _ more))))
        | inr same ↦ rw same (
            Compares-suc mem source targ n _ (omega (arith, ltb→le _ _ no_less, ltb→le _ _ same))
              (memcmp-Compares mem (source + 1) (targ + 1) n))
      ])
    ]
