-- ===== src/Libc/Mem/Copy.antt =====
-- What `memcpy`, `memmov` and `memset` leave in memory, byte by byte.
use james_os.Prelude.{
  ap, refl, ◌∙◌, ℕ, zero, suc, ◌+◌, ◌-◌, ◌≤◌, ◌<◌, ◌≡◌, ◌⊎◌, List, ◌&&◌, ◌==◌, ltb, leb,
  if◌then◌else◌, arith, length, length-set, set, get_or-set, inl, inr, Bool-cases, ltb→lt, ltb→le,
}
use james_os.Libc.Mem.{byte_at, move, copy_up, copy_down, memcpy, memset, memmov}

-- Byte `q` of a memory that got the `n` bytes from `source` on at `dest`.
abbrev pub moved : List ℕ → ℕ → ℕ → ℕ → ℕ → ℕ
moved mem source dest n q =
    if leb dest q && ltb q (dest + n) then byte_at mem (source + (q - dest)) else byte_at mem q

copy_up-moved :
    (left i : ℕ) (mem : List ℕ) (source dest q : ℕ)
    → dest + i + left ≤ length mem
    → (dest ≤ source) ⊎ (source + i + left ≤ dest)
    → byte_at (copy_up mem source dest i left) q ≡ moved mem (source + i) (dest + i) left q
unfolding copy_up
copy_up-moved zero i mem source dest q fits apart = ground arith
copy_up-moved (suc left) i mem source dest q fits apart =
    let x = byte_at mem (source + i) in
    let mem' = set mem (dest + i) x in
    let at : dest + i < length mem = omega arith in
    ground (
      arith,
      length-set mem (dest + i) x,
      copy_up-moved left (i + 1) mem' source dest q,
      get_or-set mem (dest + i) q x 0 at,
      get_or-set mem (dest + i) (source + (i + 1) + (q - (dest + (i + 1)))) x 0 at,
    )

-- The last byte is moved first.
moved-down :
    (left : ℕ) (mem : List ℕ) (source dest q : ℕ)
    → source < dest
    → dest + left < length mem
    → moved (move mem (source + left) (dest + left)) source dest left q
      ≡ moved mem source dest (suc left) q
moved-down left mem source dest q lt at =
    let x = byte_at mem (source + left) in
    ground (
      arith,
      get_or-set mem (dest + left) q x 0 at,
      get_or-set mem (dest + left) (source + (q - dest)) x 0 at,
    )

copy_down-suc :
    (left : ℕ) (mem : List ℕ) (source dest : ℕ)
    → copy_down mem (source + suc left) (dest + suc left) (suc left)
      ≡ copy_down (move mem (source + left) (dest + left)) (source + left) (dest + left) left
unfolding copy_down
copy_down-suc left mem source dest =
    let s : source + suc left - 1 ≡ source + left = omega arith in
    let d : dest + suc left - 1 ≡ dest + left = omega arith in rw (s, d)

copy_down-moved :
    (left : ℕ) (mem : List ℕ) (source dest q : ℕ)
    → source < dest
    → dest + left ≤ length mem
    → byte_at (copy_down mem (source + left) (dest + left) left) q ≡ moved mem source dest left q
copy_down-moved zero mem source dest q lt fits = unfold copy_down in ground arith
copy_down-moved (suc left) mem source dest q lt fits =
    ap (λ (m : List ℕ). byte_at m q) (copy_down-suc left mem source dest)
    ∙ copy_down-moved left (move mem (source + left) (dest + left)) source dest q lt
        (omega (arith, length-set mem (dest + left) (byte_at mem (source + left))))
    ∙ moved-down left mem source dest q lt (omega arith)

-- `memcpy` copies `nbytes` bytes from `source` to `dest` and changes no other byte, where the
-- destination lies in memory and does not begin inside the source block after its first byte.
pub memcpy-moved :
    (mem : List ℕ) (source dest nbytes q : ℕ)
    → dest + nbytes ≤ length mem
    → (dest ≤ source) ⊎ (source + nbytes ≤ dest)
    → byte_at (memcpy mem source dest nbytes) q ≡ moved mem source dest nbytes q
unfolding memcpy
memcpy-moved mem source dest n q fits apart =
    let s : source + 0 ≡ source = omega arith in
    let d : dest + 0 ≡ dest = omega arith in
    rw (s, d) at (copy_up-moved n 0 mem source dest q (omega arith) (ground arith))

-- `memmov` copies `nbytes` bytes from `source` to `dest` and changes no other byte, where the
-- destination lies in memory, also for blocks that overlap.
pub memmov-moved :
    (mem : List ℕ) (source dest len q : ℕ)
    → dest + len ≤ length mem
    → byte_at (memmov mem source dest len) q ≡ moved mem source dest len q
unfolding memmov
memmov-moved mem source dest len q fits =
    let s : source + 0 ≡ source = omega arith in
    let d : dest + 0 ≡ dest = omega arith in
    elim (Bool-cases (source == dest)) [
      | inl same ↦ ground arith
      | inr other ↦ rw other (elim (Bool-cases (ltb source dest)) [
        | inl below ↦ rw below (copy_down-moved len mem source dest q (ltb→lt _ _ below) fits)
        | inr above ↦ rw above (
            rw (s, d) at
              (copy_up-moved len 0 mem source dest q (omega arith) (inl (ltb→le _ _ above))))
      ])
    ]

-- `memset` writes `val` to the `len` bytes from `dest` on and changes no other byte.
pub byte_at-memset :
    (len : ℕ) (mem : List ℕ) (dest val q : ℕ)
    → dest + len ≤ length mem
    → byte_at (memset mem dest val len) q
      ≡ (if leb dest q && ltb q (dest + len) then val else byte_at mem q)
unfolding memset
byte_at-memset zero mem dest val q fits = ground arith
byte_at-memset (suc len) mem dest val q fits = ground (
  arith,
  length-set mem dest val,
  byte_at-memset len (set mem dest val) (dest + 1) val q,
  get_or-set mem dest q val 0,
)

length-copy_up :
    (left : ℕ) (mem : List ℕ) (source dest i : ℕ)
    → length (copy_up mem source dest i left) ≡ length mem
unfolding copy_up
length-copy_up zero mem source dest i = refl
length-copy_up (suc left) mem source dest i =
    length-copy_up left (move mem (source + i) (dest + i)) source dest (i + 1)
    ∙ length-set mem (dest + i) (byte_at mem (source + i))

pub length-memcpy :
    (mem : List ℕ) (source dest n : ℕ) → length (memcpy mem source dest n) ≡ length mem
unfolding memcpy
length-memcpy mem source dest n = length-copy_up n mem source dest 0
