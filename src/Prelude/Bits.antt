-- ===== src/Prelude/Bits.antt =====
-- One bit of a byte, as C reads and writes it: `x |= 1 << b`, `x &= ~(1 << b)` and
-- `(x >> b) & 1`, in a variable and in an array of bytes.
use Prim.Native.Nat.{ℕ, zero, suc, ◌+◌, ◌-◌, ◌*◌, ◌/◌, ◌%◌, ◌<◌}
use Prim.Native.Nat.{bit_and, bit_or}
use mathlib.Core.Path.{◌≡◌, refl, ap}
use mathlib.Core.Bool.{Bool, true, false, ◌&&◌}
use mathlib.Core.Logic.{◌≢◌, inl, inr}
use mathlib.Core.List.{List}
use native.Mathlib.Omega.{arith}
use james_os.Prelude.Binary.{bit_and-one}
use james_os.Prelude.Tests.{◌==◌, if◌then◌else◌, ==_iff, Bool-cases, ==→eq, ==→ne}
use james_os.Prelude.Word.{u8, ◌<<<◌, ◌>>>◌, minus_one}
use james_os.Prelude.Lists.{length, get_or, set, IsBytes, get_or-lt, set-IsBytes, length-set}
use james_os.Prelude.Lists.{get_or-set_self, get_or-set_ne, get_or_ext}

-- The values of a byte and the eight positions in it are checked one by one.
unfoldable pub passes_up_to : (ℕ → Bool) → ℕ → Bool
passes_up_to test zero = true
passes_up_to test (suc k) = passes_up_to test k && test k

pub use_table :
    (test : ℕ → Bool) (k : ℕ) → passes_up_to test k ≡ true → (v : ℕ) → v < k → test v ≡ true
unfolding passes_up_to
use_table test zero table v below = absurd (omega arith)
use_table test (suc k) table v below = ground (arith, use_table test k (ground arith) v)

-- `(x >> b) & 1`, `x |= 1 << b` and `x &= ~(1 << b)` on a `uint8_t`.
unfoldable pub bit_of : ℕ → ℕ → ℕ
bit_of x b = bit_and (x >>> b) 1

unfoldable pub or_bit : ℕ → ℕ → ℕ
or_bit x b = u8 (bit_or x (1 <<< b))

unfoldable pub and_not_bit : ℕ → ℕ → ℕ
and_not_bit x b = u8 (bit_and x (minus_one - 1 <<< b))

abbrev or_bit_test : ℕ → ℕ → ℕ → Bool
or_bit_test x b j = bit_of (or_bit x b) j == (if b == j then 1 else bit_of x j)

abbrev and_not_bit_test : ℕ → ℕ → ℕ → Bool
and_not_bit_test x b j = bit_of (and_not_bit x b) j == (if b == j then 0 else bit_of x j)

or_bit_table : passes_up_to (λ x. passes_up_to (λ b. passes_up_to (or_bit_test x b) 8) 8) 256 ≡ true
unfolding passes_up_to bit_of or_bit
or_bit_table = refl

and_not_bit_table :
    passes_up_to (λ x. passes_up_to (λ b. passes_up_to (and_not_bit_test x b) 8) 8) 256 ≡ true
unfolding passes_up_to bit_of and_not_bit
and_not_bit_table = refl

pub bit_of-or_bit :
    (x b j : ℕ)
    → x < 256
    → b < 8
    → j < 8
    → bit_of (or_bit x b) j ≡ (if b == j then 1 else bit_of x j)
bit_of-or_bit x b j hx hb hj =
    (==_iff _ _).0 (use_table _ 8 (use_table _ 8 (use_table _ 256 or_bit_table x hx) b hb) j hj)

pub bit_of-and_not_bit :
    (x b j : ℕ)
    → x < 256
    → b < 8
    → j < 8
    → bit_of (and_not_bit x b) j ≡ (if b == j then 0 else bit_of x j)
bit_of-and_not_bit x b j hx hb hj =
    (==_iff _ _).0
      (use_table _ 8 (use_table _ 8 (use_table _ 256 and_not_bit_table x hx) b hb) j hj)

pub bit_of-lt : (x b : ℕ) → bit_of x b < 2
unfolding bit_of
bit_of-lt x b = omega (arith, bit_and-one (x >>> b))

-- The same on byte `i` of an array: `(m[i] >> b) & 1`, `m[i] |= 1 << b`, `m[i] &= ~(1 << b)`, and
-- the choice between the last two.
unfoldable pub bit_in : List ℕ → ℕ → ℕ → ℕ
bit_in m i b = bit_of (get_or m i 0) b

unfoldable pub or_bit_in : List ℕ → ℕ → ℕ → List ℕ
or_bit_in m i b = set m i (or_bit (get_or m i 0) b)

unfoldable pub and_not_bit_in : List ℕ → ℕ → ℕ → List ℕ
and_not_bit_in m i b = set m i (and_not_bit (get_or m i 0) b)

abbrev pub put_bit : Bool → List ℕ → ℕ → ℕ → List ℕ
put_bit v m i b = if v then or_bit_in m i b else and_not_bit_in m i b

abbrev pub bit_value : Bool → ℕ
bit_value v = if v then 1 else 0

pub bit_in-lt : (m : List ℕ) (i b : ℕ) → bit_in m i b < 2
unfolding bit_in
bit_in-lt m i b = bit_of-lt (get_or m i 0) b

pub length-put_bit : (v : Bool) (m : List ℕ) (i b : ℕ) → length (put_bit v m i b) ≡ length m
unfolding or_bit_in and_not_bit_in
length-put_bit true m i b = length-set m i _
length-put_bit false m i b = length-set m i _

pub put_bit-IsBytes : (v : Bool) (m : List ℕ) (i b : ℕ) → IsBytes m → IsBytes (put_bit v m i b)
unfolding or_bit_in and_not_bit_in or_bit and_not_bit
put_bit-IsBytes true m i b h = set-IsBytes m i _ h (omega arith)
put_bit-IsBytes false m i b h = set-IsBytes m i _ h (omega arith)

-- A bit that is written is read back, and every other bit stays.
pub bit_in-put_bit :
    (v : Bool) (m : List ℕ) (i b j c : ℕ)
    → IsBytes m
    → i < length m
    → b < 8
    → c < 8
    → bit_in (put_bit v m i b) j c ≡ (if (i == j) && (b == c) then bit_value v else bit_in m j c)
unfolding bit_in or_bit_in and_not_bit_in
bit_in-put_bit v m i b j c hm hi hb hc = elim (Bool-cases (i == j)) [
  | inl same ↦ rw same (rw (← ==→eq i j same) (written v))
  | inr other ↦ rw other (kept v (==→ne i j other))
]
  where
    x : ℕ
    x = get_or m i 0

    written :
        (v : Bool)
        → bit_of (get_or (put_bit v m i b) i 0) c ≡ (if b == c then bit_value v else bit_of x c)
    written true =
        rw (get_or-set_self m i (or_bit x b) 0 hi) (bit_of-or_bit x b c (get_or-lt m i hm) hb hc)
    written false =
        rw (get_or-set_self m i (and_not_bit x b) 0 hi)
          (bit_of-and_not_bit x b c (get_or-lt m i hm) hb hc)

    kept : (v : Bool) → i ≢ j → bit_of (get_or (put_bit v m i b) j 0) c ≡ bit_of (get_or m j 0) c
    kept true ne = ap (λ (t : ℕ). bit_of t c) (get_or-set_ne m i j (or_bit x b) 0 ne)
    kept false ne = ap (λ (t : ℕ). bit_of t c) (get_or-set_ne m i j (and_not_bit x b) 0 ne)

-- The byte and the bit in it tell the position.
pub same_place : (p q : ℕ) → ((p / 8 == q / 8) && (p % 8 == q % 8)) ≡ (p == q)
same_place p q = ground arith

-- A byte is its eight bits, and an array of bytes is its bits.
abbrev pub byte_of_bits : ℕ → ℕ
byte_of_bits x =
    bit_of x 0
    + bit_of x 1 * 2
    + bit_of x 2 * 4
    + bit_of x 3 * 8
    + bit_of x 4 * 16
    + bit_of x 5 * 32
    + bit_of x 6 * 64
    + bit_of x 7 * 128

byte_table : passes_up_to (λ x. byte_of_bits x == x) 256 ≡ true
unfolding passes_up_to bit_of
byte_table = refl

pub byte_of_bits_lem : (x : ℕ) → x < 256 → byte_of_bits x ≡ x
byte_of_bits_lem x h = (==_iff _ _).0 (use_table _ 256 byte_table x h)

pub bit_of_ext : (x y : ℕ) → x < 256 → y < 256 → ((b : ℕ) → b < 8 → bit_of x b ≡ bit_of y b) → x ≡ y
bit_of_ext x y hx hy h = omega (
  arith,
  byte_of_bits_lem x hx,
  byte_of_bits_lem y hy,
  h 0 (omega arith),
  h 1 (omega arith),
  h 2 (omega arith),
  h 3 (omega arith),
  h 4 (omega arith),
  h 5 (omega arith),
  h 6 (omega arith),
  h 7 (omega arith),
)

pub bit_in_ext :
    (xs ys : List ℕ)
    → IsBytes xs
    → IsBytes ys
    → length xs ≡ length ys
    → ((i b : ℕ) → b < 8 → bit_in xs i b ≡ bit_in ys i b)
    → xs ≡ ys
unfolding bit_in
bit_in_ext xs ys hx hy same h =
    get_or_ext 0 xs ys same λ i l. bit_of_ext _ _ (get_or-lt xs i hx) (get_or-lt ys i hy) (h i)

zero_table : passes_up_to (λ b. bit_of 0 b == 0) 8 ≡ true
unfolding passes_up_to bit_of
zero_table = refl

pub zero_bit : (b : ℕ) → b < 8 → bit_of 0 b ≡ 0
zero_bit b h = (==_iff _ _).0 (use_table _ 8 zero_table b h)

full_table : passes_up_to (λ b. bit_of 0xff b == 1) 8 ≡ true
unfolding passes_up_to bit_of
full_table = refl

pub full_bit : (b : ℕ) → b < 8 → bit_of 0xff b ≡ 1
full_bit b h = (==_iff _ _).0 (use_table _ 8 full_table b h)
